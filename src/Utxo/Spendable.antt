-- ===== src/Utxo/Spendable.antt =====
-- src/utxo.rs: what `get_spendable_utxos` selects, and when it fails.
use quantum_btc.Prelude.{
  ℕ, ◌+◌, ◌≤◌, ◌<◌, ◌≡◌, ◌↔◌, inl, inr, refl, Bool, true, false, ◌||◌, none, some, List, [], ◌∷◌,
  All, filter, Hash, arith, lookup, remove, lookup-remove, nat_eq, beq, beq_refl, ok, err, ltb,
  u64_mod, if◌then◌else◌, Bool-cases,
}
use quantum_btc.Transaction.{OutPoint, outpoint_eq, same_outpoint_iff, outpoint, TxIn, Transaction}
use quantum_btc.Utxo.Data.{UtxoRecord, UtxoState, insufficient_funds, Outcome, add_u64}
use quantum_btc.Utxo.Process.{Coins}
use quantum_btc.Utxo.Total.{total, IsMap, remove-IsMap}
use quantum_btc.Utxo.Wallet.{
  remove_spent, project, sort_by_value, is_spendable, gather, get_spendable_utxos, get_balance,
  sum_owned,
}
use quantum_btc.Utxo.Selection.{
  total-sort_by_value, gather-total, gather-le, All-sort_by_value, All-gather,
}

-- The transactions spend the output.
abbrev pub spends : OutPoint → List TxIn → Bool
spends p [] = false
spends p (input ∷ rest) = beq (outpoint input) p || spends p rest

abbrev pub is_pending : OutPoint → List Transaction → Bool
is_pending p [] = false
is_pending p (tx ∷ txs) = spends p tx.inputs || is_pending p txs

lookup-remove_spent :
    (p : OutPoint) (inputs : List TxIn) (coins : Coins)
    → lookup p (remove_spent inputs coins) ≡ (if spends p inputs then none else lookup p coins)
unfolding remove_spent
lookup-remove_spent p [] coins = refl
lookup-remove_spent p (input ∷ rest) coins = ground (
  arith,
  lookup-remove_spent p rest (remove (outpoint input) coins),
  lookup-remove (outpoint input) p coins,
)

lookup-project :
    (p : OutPoint) (txs : List Transaction) (coins : Coins)
    → lookup p (project txs coins) ≡ (if is_pending p txs then none else lookup p coins)
unfolding project
lookup-project p [] coins = refl
lookup-project p (tx ∷ txs) coins = ground (
  arith,
  lookup-project p txs (remove_spent tx.inputs coins),
  lookup-remove_spent p tx.inputs coins,
)

remove_spent-IsMap :
    (inputs : List TxIn) (coins : Coins) → IsMap coins → IsMap (remove_spent inputs coins)
unfolding remove_spent
remove_spent-IsMap [] coins m = m
remove_spent-IsMap (input ∷ rest) coins m =
    remove_spent-IsMap rest (remove (outpoint input) coins) (remove-IsMap (outpoint input) coins m)

project-IsMap : (txs : List Transaction) (coins : Coins) → IsMap coins → IsMap (project txs coins)
unfolding project
project-IsMap [] coins m = m
project-IsMap (tx ∷ txs) coins m =
    project-IsMap txs (remove_spent tx.inputs coins) (remove_spent-IsMap tx.inputs coins m)

total-remove_le : (k : OutPoint) (coins : Coins) → total (remove k coins) ≤ total coins
unfolding remove
total-remove_le k [] = omega arith
total-remove_le k ((j, r) ∷ coins) = ground (arith, total-remove_le k coins)

total-remove_spent :
    (inputs : List TxIn) (coins : Coins) → total (remove_spent inputs coins) ≤ total coins
unfolding remove_spent
total-remove_spent [] coins = omega arith
total-remove_spent (input ∷ rest) coins = omega (
  arith,
  total-remove_spent rest (remove (outpoint input) coins),
  total-remove_le (outpoint input) coins,
)

total-project : (txs : List Transaction) (coins : Coins) → total (project txs coins) ≤ total coins
unfolding project
total-project [] coins = omega arith
total-project (tx ∷ txs) coins =
    omega
      (arith, total-project txs (remove_spent tx.inputs coins), total-remove_spent tx.inputs coins)

total-filter :
    (p : OutPoint × UtxoRecord → Bool) (coins : Coins) → total (filter p coins) ≤ total coins
total-filter p [] = omega arith
total-filter p ((k, r) ∷ coins) = ground (arith, total-filter p coins)

sum_owned-mature :
    (key : Hash) (height : ℕ) (coins : Coins) (mature locked : ℕ)
    → mature + locked + total coins < u64_mod
    → (sum_owned key height coins (mature, locked)).0
      ≡ mature + total (filter (is_spendable key height) coins)
unfolding sum_owned
sum_owned-mature key height [] mature locked fits = omega arith
sum_owned-mature key height ((k, r) ∷ coins) mature locked fits =
    let up : add_u64 mature r.output.value ≡ mature + r.output.value = omega arith in
    let up_locked : add_u64 locked r.output.value ≡ locked + r.output.value = omega arith in
    ground (
      arith,
      up,
      up_locked,
      sum_owned-mature key height coins mature locked (omega arith),
      sum_owned-mature key height coins (mature + r.output.value) locked (omega arith),
      sum_owned-mature key height coins mature (locked + r.output.value) (omega arith),
    )

abbrev Holds : Coins → OutPoint × UtxoRecord → Type 0
Holds coins (p, r) = lookup p coins ≡ some r

Holds-cons :
    (k : OutPoint) (v : UtxoRecord) (coins part : Coins)
    → lookup k coins ≡ none
    → All (Holds coins) part
    → All (Holds ((k, v) ∷ coins)) part
unfolding lookup
Holds-cons k v coins [] missing held = tt
Holds-cons k v coins ((p, r) ∷ part) missing held =
    ground (arith, Holds-cons k v coins part missing held.1, same_outpoint_iff k p)

entries-Holds : (coins : Coins) → IsMap coins → All (Holds coins) coins
unfolding lookup
entries-Holds [] m = tt
entries-Holds ((k, v) ∷ coins) m =
    ground (arith, Holds-cons k v coins coins m.0 (entries-Holds coins m.1), beq_refl k)

module _ (s : UtxoState) (key : Hash) (height : ℕ) (pending : List Transaction) where
  -- The coin is in the set, no pending transaction spends it, it is the key's, and it is mature.
  abbrev pub IsAvailable : OutPoint × UtxoRecord → Type 0
  IsAvailable (p, r) =
      (lookup p s.unspent_outputs ≡ some r)
      × (is_pending p pending ≡ false)
      × (is_spendable key height (p, r) ≡ true)

  -- The coins among which the selection is made.
  abbrev pub candidates : Coins
  candidates = filter (is_spendable key height) (project pending s.unspent_outputs)

  filter-IsAvailable :
      (part : Coins)
      → All (Holds (project pending s.unspent_outputs)) part
      → All IsAvailable (filter (is_spendable key height) part)
  filter-IsAvailable [] held = tt
  filter-IsAvailable ((p, r) ∷ part) held =
      ground (arith, filter-IsAvailable part held.1, lookup-project p pending s.unspent_outputs)

  candidates-IsAvailable : IsMap s.unspent_outputs → All IsAvailable candidates
  candidates-IsAvailable m = filter-IsAvailable (project pending s.unspent_outputs) (
      entries-Holds (project pending s.unspent_outputs) (project-IsMap pending s.unspent_outputs m))

  total-candidates : total candidates ≤ total s.unspent_outputs
  total-candidates = omega (
    arith,
    total-filter (is_spendable key height) (project pending s.unspent_outputs),
    total-project pending s.unspent_outputs,
  )

  -- What a result of the selection means.
  abbrev pub Selects : ℕ → Outcome (Coins × ℕ) → Type 0
  Selects required (ok (selected, gathered)) =
      All IsAvailable selected × (total selected ≡ gathered) × (required ≤ gathered)
  Selects required (err e) = (e ≡ insufficient_funds) × (total candidates < required)

  -- The selection returns coins of the set that are the key's, mature and not spent by a pending
  -- transaction, with their true sum, which reaches the amount asked for; it fails only if all such
  -- coins together do not. The set has no coordinates twice and is worth less than 2^64.
  pub get_spendable_utxos_lem :
      (required : ℕ)
      → IsMap s.unspent_outputs
      → total s.unspent_outputs < u64_mod
      → Selects required (get_spendable_utxos key height required pending s)
  unfolding get_spendable_utxos
  get_spendable_utxos_lem required m fits =
      let sorted = sort_by_value candidates in
      let all_available = All-sort_by_value IsAvailable candidates (candidates-IsAvailable m) in
      let same = total-sort_by_value candidates in
      let (sum, reached) =
        gather-total required sorted 0 [] (omega arith) (omega (arith, same, total-candidates)) in
      let chosen = All-gather IsAvailable required sorted 0 [] all_available tt in
      elim (Bool-cases (ltb (gather required sorted (0, [])).0 required)) [
        | inl short ↦ rw short (refl, ground (arith, same, reached))
        | inr enough ↦ rw enough (chosen, omega (arith, sum), ground arith)
      ]

  -- The confirmed balance is what the selection can reach: asking for an amount fails exactly if it
  -- is more than the first number of `get_balance`. The set has no coordinates twice and is worth
  -- less than 2^64.
  pub get_balance-get_spendable_utxos :
      (required : ℕ)
      → IsMap s.unspent_outputs
      → total s.unspent_outputs < u64_mod
      → (get_spendable_utxos key height required pending s ≡ err insufficient_funds)
        ↔ ((get_balance key height pending s).0 < required)
  unfolding get_balance get_spendable_utxos
  get_balance-get_spendable_utxos required m fits =
      let sorted = sort_by_value candidates in
      let same = total-sort_by_value candidates in
      let (_, reached) =
        gather-total required sorted 0 [] (omega arith) (omega (arith, same, total-candidates)) in
      let bound = gather-le required sorted 0 [] in
      let mature =
        sum_owned-mature key height (project pending s.unspent_outputs) 0 0
          (omega (arith, total-project pending s.unspent_outputs)) in
      ground (arith, same, reached, bound, mature)
