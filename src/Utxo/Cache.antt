-- ===== src/Utxo/Cache.antt =====
-- src/utxo.rs: the cache of verified transactions under `ValidateMempoolTx`.
use quantum_btc.Prelude.{
  ℕ, ◌≡◌, ◌≢◌, Bool, true, false, ◌||◌, Hash, arith, contains, contains-set_insert,
  contains-set_remove, nat_eq, ok, err,
}
use quantum_btc.Crypto.Primitives.{Primitives}
use quantum_btc.Transaction.{Transaction, calculate_id}
use quantum_btc.Utxo.Data.{UtxoState, Outcome}
use quantum_btc.Utxo.Actor.{validate_for_mempool}

abbrev pub is_ok : {A : Type 0} → Outcome A → Bool
is_ok (ok _) = true
is_ok (err _) = false

module _ (c : Primitives) where
  -- Validating a transaction for the mempool, pre-verified or not, leaves the coins alone. The
  -- transaction is cached afterwards exactly if it was before or is valid; any other transaction
  -- that is cached was cached before, and if the transaction is not valid nothing else changes.
  pub validate_for_mempool_lem :
      (tx : Transaction) (height : ℕ) (pre : Bool) (s : UtxoState)
      → let (s', result) = validate_for_mempool c tx height pre s in
        let id = calculate_id c tx in
        (s'.unspent_outputs ≡ s.unspent_outputs)
        × (contains id s'.verified_tx_cache ≡ (is_ok result || contains id s.verified_tx_cache))
        × ((k : Hash)
            → k ≢ id
            → contains k s'.verified_tx_cache ≡ true
            → contains k s.verified_tx_cache ≡ true)
        × (is_ok result ≡ false
            → (k : Hash) → contains k s'.verified_tx_cache ≡ contains k s.verified_tx_cache)
  unfolding validate_for_mempool contains
  validate_for_mempool_lem tx height pre s = (
    ground arith,
    grind (arith, contains-set_insert, contains-set_remove),
    (λ k other. grind (arith, contains-set_insert, contains-set_remove)),
    (λ failed k. grind (arith, contains-set_insert, contains-set_remove)),
  )
