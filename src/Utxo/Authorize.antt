-- ===== src/Utxo/Authorize.antt =====
-- src/utxo.rs: who may spend an output. The owner's key and a signature, or, after the delay and
-- the challenge window, the recovery key and a signature.
use quantum_btc.Prelude.{
  ℕ, Bool, true, false, ◌&&◌, none, some, is_empty, get_elem?, Hash, contains, nat_eq, ltb, ◌==◌,
  if◌then◌else◌,
}
use quantum_btc.Crypto.Bytes.{hash_bytes}
use quantum_btc.Crypto.Primitives.{Primitives}
use quantum_btc.Crypto.MlDsa.{verify_signature}
use quantum_btc.Transaction.{TxWitness, TxOut, Transaction, calculate_id, verify_witness}
use quantum_btc.Utxo.Data.{UtxoRecord, UtxoState, add_u64, recovery_challenge_window}

module _ (c : Primitives) where
  unfoldable pub witness_key_matches_owner : TxWitness → TxOut → Bool
  witness_key_matches_owner witness output =
      if is_empty witness.public_key
      then false
      else c.sha256 witness.public_key == output.public_key_hash

  -- `tx.witnesses.get(i).map(..).unwrap_or(false)`
  unfoldable pub owner_ok : Transaction → ℕ → TxOut → Bool
  unfolding witness_key_matches_owner
  owner_ok tx i output = elim (get_elem? tx.witnesses i) [
    | none ↦ false
    | some w ↦ witness_key_matches_owner w output
  ]

  unfoldable pub verify_recovery_reveal : Transaction → ℕ → Hash → Bool
  verify_recovery_reveal tx input_idx target_hash = elim (get_elem? tx.witnesses input_idx) [
    | none ↦ false
    | some witness ↦
        if c.sha256 witness.public_key == target_hash
        then verify_signature c (hash_bytes (calculate_id c tx)) witness.signature
            witness.public_key
        else false
  ]

-- `record.height + recovery.recovery_delay + RECOVERY_CHALLENGE_WINDOW`
abbrev pub activation_height : ℕ → ℕ → ℕ
activation_height height delay = add_u64 (add_u64 height delay) recovery_challenge_window

-- One task of phase 2 of `process_block`: an input of a transaction and the record that it spends.
pub record SignatureTask : Type 0 where
  pub tx : Transaction
  pub index : ℕ
  pub core_hash : Hash
  pub spent : UtxoRecord

module _ (c : Primitives) (s : UtxoState) (height : ℕ) (is_historical : Bool) where
  -- The recovery branch of the closure of phase 2.
  abbrev recovery_valid : SignatureTask → Bool
  recovery_valid t = elim t.spent.output.recovery [
    | none ↦ false
    | some recovery ↦
        if ltb height (activation_height t.spent.height recovery.recovery_delay)
        then false
        else verify_recovery_reveal c t.tx t.index recovery.recovery_hash
  ]

  -- The closure of phase 2.
  unfoldable pub signature_valid : SignatureTask → Bool
  signature_valid t =
      let owned = owner_ok c t.tx t.index t.spent.output in
      if is_empty t.tx.witnesses
      then is_historical
      else if owned && contains t.core_hash s.verified_tx_cache
      then true
      else if owned && verify_witness c t.tx t.index (hash_bytes t.core_hash)
      then true
      else recovery_valid t
