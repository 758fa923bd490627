-- ===== src/Utxo/Validate.antt =====
-- src/utxo.rs: `validate_transaction`, the check of a transaction for the mempool.
use quantum_btc.Prelude.{
  ℕ, suc, ◌-◌, Bool, true, false, not, none, some, List, [], ◌∷◌, is_empty, HashSet, lookup,
  contains, set_insert, nat_eq, ok, err, ◌>>=◌, ◌>>◌, fail_if, ok_or, ltb, if◌then◌else◌,
}
use quantum_btc.Crypto.Bytes.{hash_bytes}
use quantum_btc.Crypto.Primitives.{Primitives}
use quantum_btc.Transaction.{
  OutPoint, outpoint_eq, outpoint, TxIn, Transaction, calculate_id, verify_witness, is_well_formed,
}
use quantum_btc.Utxo.Data.{
  UtxoRecord, UtxoState, Outcome, checked_money_add, checked_output_sum, layer2_unsupported,
  witness_count, duplicate_inputs, missing_utxo, immature_coinbase, missing_witness,
  challenge_window, invalid_reveal, no_recovery, outputs_exceed_inputs,
}
use quantum_btc.Utxo.Authorize.{owner_ok, verify_recovery_reveal, activation_height}
use quantum_btc.Utxo.Process.{is_immature, is_layer2}

-- The locals of the loop: the outpoints seen, and the sum of the inputs.
pub record InputScan : Type 0 where
  pub tracker : HashSet OutPoint
  pub input_sum : ℕ

module _ (c : Primitives) (s : UtxoState) (tx : Transaction) (height : ℕ)
    (is_historical : Bool) where
  -- `is_primary`: the owner spends. Without any witness only history is let through.
  unfoldable pub primary_spend : ℕ → UtxoRecord → Outcome Bool
  primary_spend i r =
      if is_empty tx.witnesses
      then (if is_historical then ok true else err missing_witness)
      else if not (owner_ok c tx i r.output)
      then ok false
      else if contains (calculate_id c tx) s.verified_tx_cache
      then ok true
      else ok (verify_witness c tx i (hash_bytes (calculate_id c tx)))

  -- The recovery branch, where the owner's check has failed.
  unfoldable pub recovery_spend : ℕ → UtxoRecord → Outcome (Unit {0})
  recovery_spend i r = elim r.output.recovery [
    | none ↦ err no_recovery
    | some recovery ↦ do
      fail_if (ltb height (activation_height r.height recovery.recovery_delay)) challenge_window
      fail_if (not (verify_recovery_reveal c tx i recovery.recovery_hash)) invalid_reveal
  ]

  unfoldable pub validate_input : ℕ → TxIn → InputScan → Outcome InputScan
  unfolding primary_spend recovery_spend
  validate_input i input p = do
    fail_if (contains (outpoint input) p.tracker) duplicate_inputs
    r ← ok_or (lookup (outpoint input) s.unspent_outputs) missing_utxo
    fail_if (is_immature height r) immature_coinbase
    is_primary ← primary_spend i r
    (if is_primary then ok tt else recovery_spend i r)
    sum ← checked_money_add p.input_sum r.output.value
    ok (record { tracker = set_insert (outpoint input) p.tracker; input_sum = sum })

  unfoldable pub validate_inputs : ℕ → List TxIn → InputScan → Outcome InputScan
  validate_inputs i [] p = ok p
  validate_inputs i (input ∷ rest) p = validate_input i input p >>= validate_inputs (suc i) rest

  -- The fee of the transaction, if it is valid.
  unfoldable pub validate_transaction : Outcome ℕ
  validate_transaction = do
    fail_if (is_layer2 tx) layer2_unsupported
    fail_if (not (is_well_formed tx)) witness_count
    scan ← validate_inputs 0 tx.inputs (record { tracker = []; input_sum = 0 })
    output_sum ← checked_output_sum tx.outputs
    fail_if (ltb scan.input_sum output_sum) outputs_exceed_inputs
    ok (scan.input_sum - output_sum)
