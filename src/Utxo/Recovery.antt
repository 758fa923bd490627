-- ===== src/Utxo/Recovery.antt =====
-- src/utxo.rs: when the recovery key of an output may spend it.
use quantum_btc.Prelude.{ℕ, ◌+◌, ◌≤◌, ◌<◌, ◌≡◌, Bool, true, false, some, arith, is_empty, u64_mod}
use quantum_btc.Crypto.Primitives.{Primitives}
use quantum_btc.Transaction.{RecoveryInfo}
use quantum_btc.Utxo.Data.{UtxoState, recovery_challenge_window}
use quantum_btc.Utxo.Authorize.{SignatureTask, owner_ok, verify_recovery_reveal, signature_valid}

module _ (c : Primitives) (s : UtxoState) (height : ℕ) (hist : Bool) (t : SignatureTask)
    (info : RecoveryInfo) where
  -- In a block, an input whose witness does not hold the owner's key, of an output with recovery
  -- data, is let through only once the output's height, the delay and the challenge window together
  -- are past, and only with a valid reveal of the recovery key; where that sum is below 2^64.
  pub recovery_waits :
      is_empty t.tx.witnesses ≡ false
      → owner_ok c t.tx t.index t.spent.output ≡ false
      → t.spent.output.recovery ≡ some info
      → t.spent.height + info.recovery_delay + recovery_challenge_window < u64_mod
      → signature_valid c s height hist t ≡ true
      → (t.spent.height + info.recovery_delay + recovery_challenge_window ≤ height)
        × (verify_recovery_reveal c t.tx t.index info.recovery_hash ≡ true)
  unfolding signature_valid
  recovery_waits witnessed foreign has fits valid = ground arith

  -- Where an output's height, its recovery delay and the challenge window together pass 2^64, the
  -- sum wraps: in a block with a witness, a valid reveal is let through at any height from the
  -- remainder on, however long the delay is.
  pub recovery_wraps :
      (rest : ℕ)
      → is_empty t.tx.witnesses ≡ false
      → t.spent.output.recovery ≡ some info
      → t.spent.height + info.recovery_delay + recovery_challenge_window ≡ u64_mod + rest
      → rest ≤ height
      → height < u64_mod
      → verify_recovery_reveal c t.tx t.index info.recovery_hash ≡ true
      → signature_valid c s height hist t ≡ true
  unfolding signature_valid
  recovery_wraps rest witnessed has wraps early low reveal = ground arith
