-- ===== src/Storage/Disk.antt =====
-- src/storage.rs: the outputs that the database holds after a batch of writes.
use quantum_btc.Prelude.{
  ℕ, ap, ltb, ◌&&◌, true, Option, none, some, is_some, List, [], ◌∷◌, HashMap, arith, lookup,
  insert, remove, contains, nat_eq, if◌then◌else◌, ◌≡◌, refl, Bool-cases, Option-cases, inl, inr,
  beq,
}
use quantum_btc.Crypto.Primitives.{Primitives}
use quantum_btc.Transaction.{OutPoint, outpoint_eq, same_outpoint_iff}
use quantum_btc.Block.{Block, calculate_hash}
use quantum_btc.Utxo.Data.{UtxoRecord, UtxoUndoLog}
use quantum_btc.Utxo.Process.{restore_all}
use quantum_btc.Utxo.Undo.{restored, or_else, lookup-restore_all}
use quantum_btc.Storage.Database.{Database, Key, write_batch, utxo_key, as_utxo, utxo_value}
use quantum_btc.Storage.Vault.{MemoryVault}
use quantum_btc.Storage.Commit.{delete_spent, put_created, block_ops, pointer_ops}
use quantum_btc.Storage.Rollback.{delete_created, put_spent}

-- The head of the list is written before the others.
restored-cons :
    (k op : OutPoint) (r : UtxoRecord) (spent : List (OutPoint × UtxoRecord))
    → restored k ((op, r) ∷ spent) ≡ or_else (restored k spent) (if beq op k then some r else none)
unfolding restored restore_all insert remove lookup
restored-cons k op r spent = lookup-restore_all k spent (insert op r [])

module _ (d : Database) where
  unfoldable pub get_utxo : OutPoint → d.Db → Option UtxoRecord
  get_utxo k db = as_utxo (d.get (utxo_key k) db)

  pub get_utxo-delete_spent :
      (k : OutPoint) (spent : List (OutPoint × UtxoRecord)) (db : d.Db)
      → get_utxo k (write_batch d (delete_spent spent) db)
        ≡ (if is_some (restored k spent) then none else get_utxo k db)
  unfolding delete_spent get_utxo restored restore_all lookup
  get_utxo-delete_spent k [] db = refl
  get_utxo-delete_spent k ((op, r) ∷ spent) db = ground (
    arith,
    get_utxo-delete_spent k spent (d.delete (utxo_key op) db),
    restored-cons k op r spent,
    d.get-delete (utxo_key op) (utxo_key k) db,
  )

  pub get_utxo-put_created :
      (k : OutPoint) (ops : List OutPoint) (coins : HashMap OutPoint UtxoRecord) (db : d.Db)
      → get_utxo k (write_batch d (put_created ops coins) db)
        ≡ or_else (if contains k ops then lookup k coins else none) (get_utxo k db)
  unfolding put_created get_utxo contains
  get_utxo-put_created k [] coins db = refl
  get_utxo-put_created k (op ∷ ops) coins db = elim (Option-cases (lookup op coins)) [
    | inl missing ↦ ground (arith, get_utxo-put_created k ops coins db, same_outpoint_iff op k)
    | inr (r, found) ↦ ground (
      arith,
      get_utxo-put_created k ops coins (d.put (utxo_key op) (utxo_value r) db),
      d.get-put (utxo_key op) (utxo_key k) (utxo_value r) db,
      same_outpoint_iff op k,
    )
  ]

  pub get_utxo-delete_created :
      (k : OutPoint) (ops : List OutPoint) (db : d.Db)
      → get_utxo k (write_batch d (delete_created ops) db)
        ≡ (if contains k ops then none else get_utxo k db)
  unfolding delete_created get_utxo contains
  get_utxo-delete_created k [] db = refl
  get_utxo-delete_created k (op ∷ ops) db = ground (
    arith,
    get_utxo-delete_created k ops (d.delete (utxo_key op) db),
    d.get-delete (utxo_key op) (utxo_key k) db,
  )

  pub get_utxo-put_spent :
      (k : OutPoint) (spent : List (OutPoint × UtxoRecord)) (db : d.Db)
      → get_utxo k (write_batch d (put_spent spent) db) ≡ or_else (restored k spent) (get_utxo k db)
  unfolding put_spent get_utxo restored restore_all lookup
  get_utxo-put_spent k [] db = refl
  get_utxo-put_spent k ((op, r) ∷ spent) db = ground (
    arith,
    get_utxo-put_spent k spent (d.put (utxo_key op) (utxo_value r) db),
    restored-cons k op r spent,
    d.get-put (utxo_key op) (utxo_key k) (utxo_value r) db,
  )

  pub get_utxo-block_ops :
      (k : OutPoint) (c : Primitives) (block : Block) (height : ℕ) (log : UtxoUndoLog) (db : d.Db)
      → get_utxo k (write_batch d (block_ops c block height log) db) ≡ get_utxo k db
  unfolding get_utxo
  get_utxo-block_ops k c block height log db = simp (d.get-put) refl

  -- The pointers and the index are under other keys than blocks, witnesses, logs and outputs.
  pub get-pointer_ops :
      (j : Key) (c : Primitives) (block : Block) (height work : ℕ) (v : MemoryVault) (db : d.Db)
      → (ltb 1 j.prefix && ltb j.prefix 6) ≡ true
      → d.get j (write_batch d (pointer_ops c block height work v) db) ≡ d.get j db
  get-pointer_ops j c block height work v db other =
      elim (Bool-cases (contains (calculate_hash c block) v.active_chain)) [
        | inl old ↦ elim (Bool-cases (contains (calculate_hash c block) v.header_chain)) [
          | inl known ↦ rw (old, known) (simp (d.get-put) (ground arith))
          | inr new ↦ rw (old, new) (simp (d.get-put) (ground arith))
        ]
        | inr fresh ↦ elim (Bool-cases (contains (calculate_hash c block) v.header_chain)) [
          | inl known ↦ rw (fresh, known) (simp (d.get-put) (ground arith))
          | inr new ↦ rw (fresh, new) (simp (d.get-put) (ground arith))
        ]
      ]

  pub get_utxo-pointer_ops :
      (k : OutPoint) (c : Primitives) (block : Block) (height work : ℕ) (v : MemoryVault)
      (db : d.Db)
      → get_utxo k (write_batch d (pointer_ops c block height work v) db) ≡ get_utxo k db
  unfolding get_utxo
  get_utxo-pointer_ops k c block height work v db =
      ap as_utxo (get-pointer_ops (utxo_key k) c block height work v db refl)
