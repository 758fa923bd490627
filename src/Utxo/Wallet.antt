-- ===== src/Utxo/Wallet.antt =====
-- src/utxo.rs: `get_balance` and `get_spendable_utxos`, for the wallet. A `HashMap` is walked in the
-- order of its list; the code walks it in an order of its own.
use quantum_btc.Prelude.{
  ℕ, Bool, true, not, ◌&&◌, List, [], ◌∷◌, ◌++◌, filter, Hash, remove, nat_eq, ok, err, leb, ltb,
  ◌==◌, if◌then◌else◌,
}
use quantum_btc.Transaction.{OutPoint, outpoint_eq, outpoint, TxIn, TxOut, Transaction}
use quantum_btc.Utxo.Data.{UtxoRecord, UtxoState, Outcome, add_u64, insufficient_funds}
use quantum_btc.Utxo.Process.{Coins, is_immature}

-- The inner loops over the inputs and over the outputs of a pending transaction.
unfoldable pub remove_spent : List TxIn → Coins → Coins
remove_spent [] coins = coins
remove_spent (input ∷ rest) coins = remove_spent rest (remove (outpoint input) coins)

unfoldable pub project : List Transaction → Coins → Coins
unfolding remove_spent
project [] coins = coins
project (tx ∷ txs) coins = project txs (remove_spent tx.inputs coins)

unfoldable pub sum_change : Hash → List TxOut → ℕ → ℕ
sum_change key [] change = change
sum_change key (o ∷ os) change =
    sum_change key os (if o.public_key_hash == key then add_u64 change o.value else change)

unfoldable pub pending_change : Hash → List Transaction → ℕ → ℕ
unfolding sum_change
pending_change key [] change = change
pending_change key (tx ∷ txs) change = pending_change key txs (sum_change key tx.outputs change)

-- The loop over the projected records, with `mature` and `locked`.
unfoldable pub sum_owned : Hash → ℕ → Coins → ℕ × ℕ → ℕ × ℕ
sum_owned key current_height [] (mature, locked) = (mature, locked)
sum_owned key current_height ((_, r) ∷ coins) (mature, locked) =
    sum_owned key current_height coins (
      if r.output.public_key_hash == key
      then (if is_immature current_height r
          then (mature, add_u64 locked r.output.value)
          else (add_u64 mature r.output.value, locked))
      else (mature, locked))

-- Confirmed, pending and locked money.
unfoldable pub get_balance : Hash → ℕ → List Transaction → UtxoState → ℕ × (ℕ × ℕ)
unfolding project pending_change sum_owned
get_balance pubkey_hash current_height pending_txs s =
    let (mature, locked) =
      sum_owned pubkey_hash current_height (project pending_txs s.unspent_outputs) (0, 0) in
    (mature, (pending_change pubkey_hash pending_txs 0, locked))

-- The largest values first; of equal values, the smaller transaction hash.
abbrev pub before_eq : OutPoint × UtxoRecord → OutPoint × UtxoRecord → Bool
before_eq (p, a) (q, b) =
    if ltb b.output.value a.output.value
    then true
    else (a.output.value == b.output.value) && leb p.tx_hash q.tx_hash

-- `sort_by` is stable: an element goes before those that it does not come after.
unfoldable pub insert_by_value : OutPoint × UtxoRecord → Coins → Coins
insert_by_value a [] = a ∷ []
insert_by_value a (b ∷ bs) =
    let rest = insert_by_value a bs in if before_eq a b then a ∷ b ∷ bs else b ∷ rest

unfoldable pub sort_by_value : Coins → Coins
unfolding insert_by_value
sort_by_value [] = []
sort_by_value (a ∷ coins) = insert_by_value a (sort_by_value coins)

abbrev pub is_spendable : Hash → ℕ → OutPoint × UtxoRecord → Bool
is_spendable key current_height (_, r) =
    (r.output.public_key_hash == key) && not (is_immature current_height r)

-- The selection loop, with `gathered_amount` and `selected`.
unfoldable pub gather : ℕ → Coins → ℕ × Coins → ℕ × Coins
gather required [] (gathered, selected) = (gathered, selected)
gather required ((p, r) ∷ coins) (gathered, selected) =
    let gathered' = add_u64 gathered r.output.value in
    let selected' = selected ++ (p, r) ∷ [] in
    let rest = gather required coins (gathered', selected') in
    if leb required gathered' then (gathered', selected') else rest

unfoldable pub get_spendable_utxos :
    Hash → ℕ → ℕ → List Transaction → UtxoState → Outcome (Coins × ℕ)
unfolding project sort_by_value gather
get_spendable_utxos pubkey_hash current_height required_amount pending_txs s =
    let available = project pending_txs s.unspent_outputs in
    let valid_utxos = sort_by_value (filter (is_spendable pubkey_hash current_height) available) in
    let (gathered, selected) = gather required_amount valid_utxos (0, []) in
    if ltb gathered required_amount then err insufficient_funds else ok (selected, gathered)
