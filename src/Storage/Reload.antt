-- ===== src/Storage/Reload.antt =====
-- src/storage.rs: `load_utxo_state`, the UTXO set read back from the database, and the pruning of old
-- witnesses. The entries of the database are an argument, in the order of its iterator.
use quantum_btc.Prelude.{
  ℕ, suc, Option, none, some, List, [], ◌∷◌, HashMap, lookup, insert, lookup-insert, nat_eq, ltb,
  ◌==◌, if◌then◌else◌, ◌≡◌, ◌⊎◌, inl, inr, refl, sym, ◌∙◌, arith, Bool-cases, Option-cases, beq,
  beq_refl,
}
use quantum_btc.Transaction.{OutPoint, outpoint_eq}
use quantum_btc.Utxo.Data.{UtxoRecord, UtxoState}
use quantum_btc.Storage.Database.{
  Database, Key, Value, Prefix, number, utxo_key, as_utxo, prefix_utxo, prefix_witness,
}
use quantum_btc.Storage.Vault.{Storage}
use quantum_btc.Storage.Disk.{get_utxo}
use quantum_btc.Storage.Mirror.{Mirrors}

-- The loop breaks at the first key without the prefix.
unfoldable pub prefix_run : Prefix → List (Key × Value) → List (Key × Value)
prefix_run p [] = []
prefix_run p ((key, value) ∷ rest) =
    let run = prefix_run p rest in if key.prefix == number p then (key, value) ∷ run else []

abbrev pub key_outpoint : Key → OutPoint
key_outpoint key = record { tx_hash = key.hash; vout = key.vout }

-- A key of another shape and a value that does not decode are passed over.
abbrev pub add_utxo :
    Key → Option UtxoRecord → HashMap OutPoint UtxoRecord → HashMap OutPoint UtxoRecord
add_utxo key none coins = coins
add_utxo key (some r) coins = if key.height == 0 then insert (key_outpoint key) r coins else coins

unfoldable pub add_utxos :
    List (Key × Value) → HashMap OutPoint UtxoRecord → HashMap OutPoint UtxoRecord
add_utxos [] coins = coins
add_utxos ((key, value) ∷ rest) coins = add_utxos rest (add_utxo key (as_utxo (some value)) coins)

unfoldable pub load_utxo_state : List (Key × Value) → UtxoState
load_utxo_state entries = record {
  unspent_outputs = add_utxos (prefix_run prefix_utxo entries) [];
  verified_tx_cache = [];
}

module _ (d : Database) where
  -- The loop deletes the records below the height and breaks at the first other one.
  unfoldable pub prune_records : ℕ → List (Key × Value) → d.Db → d.Db × ℕ
  prune_records cutoff_height [] db = (db, 0)
  prune_records cutoff_height ((key, _) ∷ rest) db =
      let pruned = prune_records cutoff_height rest (d.delete key db) in
      if ltb key.height cutoff_height then (pruned.0, suc pruned.1) else (db, 0)

  -- What is left, and how many were deleted.
  abbrev pub prune_historical_witnesses : ℕ → List (Key × Value) → Storage d → Storage d × ℕ
  prune_historical_witnesses cutoff_height entries s =
      let pruned = prune_records cutoff_height (prefix_run prefix_witness entries) s.db in
      (record s { db = pruned.0 }, pruned.1)

abbrev pub IsEntry : Key → Value → List (Key × Value) → Type 0
IsEntry k v [] = ⊥
IsEntry k v ((key, value) ∷ rest) = ((key ≡ k) × (value ≡ v)) ⊎ IsEntry k v rest

module _ (d : Database) (db : d.Db) where
  -- What an iterator from the prefix of the outputs gives: entries of the database, with all those of
  -- outputs in the first run.
  pub record IteratesUtxos (entries : List (Key × Value)) : Type 0 where
    pub true_to : (k : Key) (v : Value) → IsEntry k v entries → d.get k db ≡ some v
    pub all :
        (op : OutPoint) (v : Value)
        → d.get (utxo_key op) db ≡ some v
        → IsEntry (utxo_key op) v (prefix_run prefix_utxo entries)

  -- What has been read so far is on disk.
  abbrev AreTrue : HashMap OutPoint UtxoRecord → Type 0
  AreTrue coins =
      (op : OutPoint) (r : UtxoRecord) → lookup op coins ≡ some r → get_utxo d op db ≡ some r

  IsEntry-run :
      (k : Key) (v : Value) (p : Prefix) (entries : List (Key × Value))
      → IsEntry k v (prefix_run p entries)
      → (k.prefix ≡ number p) × IsEntry k v entries
  unfolding prefix_run
  IsEntry-run k v p [] has = absurd has
  IsEntry-run k v p ((key, value) ∷ rest) has = elim (Bool-cases (key.prefix == number p)) [
    | inr other ↦ absurd (rw other at has)
    | inl starts ↦ elim (rw starts at has) [
      | inl (same_k, same_v) ↦ (ground arith, inl (same_k, same_v))
      | inr later ↦ let (named, is) = IsEntry-run k v p rest later in (named, inr is)
    ]
  ]

  add_utxo-AreTrue :
      (key : Key) (value : Value) (coins : HashMap OutPoint UtxoRecord)
      → key.prefix ≡ number prefix_utxo
      → d.get key db ≡ some value
      → AreTrue coins
      → AreTrue (add_utxo key (as_utxo (some value)) coins)
  unfolding get_utxo
  add_utxo-AreTrue key value coins named held x op r found =
      elim (Option-cases (as_utxo (some value))) [
        | inl other ↦ x op r (rw other at found)
        | inr (new, decoded) ↦ elim (Bool-cases (key.height == 0)) [
          | inr odd ↦ x op r (rw (decoded, odd) at found)
          | inl plain ↦
              let inserted =
                rw (decoded, plain, lookup-insert (key_outpoint key) op new coins) at found in
              elim (Bool-cases (beq (key_outpoint key) op)) [
                | inr apart ↦ x op r (rw apart at inserted)
                | inl same ↦
                    let one : key ≡ utxo_key op = ground arith in ground (arith, rw one at held)
              ]
        ]
      ]

  add_utxos-AreTrue :
      (entries : List (Key × Value)) (coins : HashMap OutPoint UtxoRecord)
      → ((k : Key) (v : Value)
          → IsEntry k v entries
          → (k.prefix ≡ number prefix_utxo) × (d.get k db ≡ some v))
      → AreTrue coins
      → AreTrue (add_utxos entries coins)
  unfolding add_utxos
  add_utxos-AreTrue [] coins each x = x
  add_utxos-AreTrue ((key, value) ∷ rest) coins each x =
      let (named, held) = each key value (inl (refl, refl)) in
      add_utxos-AreTrue rest (add_utxo key (as_utxo (some value)) coins)
        (λ k v is. each k v (inr is)) (add_utxo-AreTrue key value coins named held x)

  abbrev IsRead : OutPoint → HashMap OutPoint UtxoRecord → Type 0
  IsRead op coins = (r : UtxoRecord) × (lookup op coins ≡ some r)

  add_utxo-IsRead :
      (key : Key) (o : Option UtxoRecord) (op : OutPoint) (coins : HashMap OutPoint UtxoRecord)
      → IsRead op coins
      → IsRead op (add_utxo key o coins)
  add_utxo-IsRead key none op coins has = has
  add_utxo-IsRead key (some new) op coins (r, found) = elim (Bool-cases (key.height == 0)) [
    | inr odd ↦ rw odd (r, found)
    | inl plain ↦
        rw (plain, lookup-insert (key_outpoint key) op new coins)
          (elim (Bool-cases (beq (key_outpoint key) op)) [
            | inl same ↦ rw same (new, refl)
            | inr apart ↦ rw apart (r, found)
          ])
  ]

  add_utxo-new :
      (op : OutPoint) (r : UtxoRecord) (coins : HashMap OutPoint UtxoRecord)
      → IsRead op (add_utxo (utxo_key op) (some r) coins)
  add_utxo-new op r coins =
      (r, rw (lookup-insert op op r coins) (ground (arith, beq_refl ⦃e = outpoint_eq⦄ op)))

  add_utxos-IsRead :
      (entries : List (Key × Value)) (coins : HashMap OutPoint UtxoRecord) (op : OutPoint)
      (v : Value) (r : UtxoRecord)
      → as_utxo (some v) ≡ some r
      → IsRead op coins ⊎ IsEntry (utxo_key op) v entries
      → IsRead op (add_utxos entries coins)
  unfolding add_utxos
  add_utxos-IsRead [] coins op v r decoded (inl has) = has
  add_utxos-IsRead [] coins op v r decoded (inr is) = absurd is
  add_utxos-IsRead ((key, value) ∷ rest) coins op v r decoded (inl has) =
      add_utxos-IsRead rest (add_utxo key (as_utxo (some value)) coins) op v r decoded
        (inl (add_utxo-IsRead key (as_utxo (some value)) op coins has))
  add_utxos-IsRead ((key, value) ∷ rest) coins op v r decoded (inr (inl (same_k, same_v))) =
      add_utxos-IsRead rest (add_utxo key (as_utxo (some value)) coins) op v r decoded
        (inl (rw (same_k, same_v, decoded) (add_utxo-new op r coins)))
  add_utxos-IsRead ((key, value) ∷ rest) coins op v r decoded (inr (inr later)) =
      add_utxos-IsRead rest (add_utxo key (as_utxo (some value)) coins) op v r decoded (inr later)

  -- When the iterator from the prefix of the outputs gives entries of the database, all those of
  -- outputs in its first run, the UTXO set that is loaded holds exactly the outputs on disk.
  pub load_utxo_state-Mirrors :
      (entries : List (Key × Value))
      → IteratesUtxos entries
      → Mirrors d db (load_utxo_state entries)
  unfolding load_utxo_state get_utxo lookup
  load_utxo_state-Mirrors entries x op =
      let run = prefix_run prefix_utxo entries in
      let truth =
        add_utxos-AreTrue run []
          (λ k v is.
            let (named, held) = IsEntry-run k v prefix_utxo entries is in
            (named, x.true_to k v held))
          (λ k r found. absurd (ground arith)) in
      elim (Option-cases (d.get (utxo_key op) db)) [
        | inl missing ↦ elim (Option-cases (lookup op (add_utxos run []))) [
          | inl unread ↦ rw (missing, unread) refl
          | inr (r, found) ↦ absurd (ground (arith, truth op r found))
        ]
        | inr (v, held) ↦ elim (Option-cases (as_utxo (some v))) [
          | inl other ↦ elim (Option-cases (lookup op (add_utxos run []))) [
            | inl unread ↦ rw (held, other, unread) refl
            | inr (r, found) ↦ absurd (ground (arith, truth op r found))
          ]
          | inr (r, decoded) ↦
              let (got, found) = add_utxos-IsRead run [] op v r decoded (inr (x.all op v held)) in
              truth op got found ∙ sym found
        ]
      ]
