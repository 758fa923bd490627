-- ===== src/Node/Inspect.antt =====
-- src/main.rs: the checks that a block passes before it reaches the UTXO set.
use quantum_btc.Prelude.{
  ℕ, zero, suc, ◌+◌, ◌-◌, ◌%◌, ◌||◌, ◌&&◌, Bool, true, false, not, none, some, List, [], ◌∷◌,
  length, Hash, nat_eq, Result, ok, err, ◌>>◌, fail_if, u64_mod, leb, ltb, ◌==◌, if◌then◌else◌,
}
use quantum_btc.Config.{
  max_block_size_bytes, max_block_weight, max_block_sigops, witness_commitment_activation_height,
  consensus_hardfork_v2_height,
}
use quantum_btc.Crypto.Primitives.{Primitives}
use quantum_btc.Block.{
  Block, calculate_hash, get_block_physical_size, get_block_weight, get_block_sigops,
}
use quantum_btc.Consensus.{
  ConsensusError, verify_checkpoint, verify_timestamp, verify_witness_commitment, required_target,
  verify_block_target_and_pow, verify_proof_of_work, verify_merkle_root, insufficient_work,
}
use quantum_btc.Storage.Database.{Database}
use quantum_btc.Storage.Vault.{Storage, get_block_index}
use quantum_btc.Node.State.{Node, Setting}

-- One constructor for each reason to drop a block.
pub data Rejection : Type 0 where
  orphan_block too_far_ahead checkpoint_violation time_warp too_large : Rejection
  witness_mismatch proof_of_work_failed merkle_mismatch : Rejection

abbrev pub is_err : {E A : Type 0} → Result E A → Bool
is_err (ok _) = false
is_err (err _) = true

-- `get_chain_list().len() as u64 - 1`, which wraps for an empty chain, and the height after it.
abbrev pub current_height : List Hash → ℕ
current_height chain = (length chain + (u64_mod - 1)) % u64_mod

abbrev pub incoming_height : List Hash → ℕ
incoming_height chain = (current_height chain + 1) % u64_mod

abbrev pub max_drift_secs : ℕ
max_drift_secs = 7200

module _ (d : Database) where
  -- The timestamps of so many blocks at most, from the given one back along the index.
  unfoldable pub past_timestamps : ℕ → Hash → Storage d → List ℕ
  past_timestamps zero h s = []
  past_timestamps (suc n) h s = elim (get_block_index d h s) [
    | none ↦ []
    | some idx ↦ idx.header.timestamp ∷ past_timestamps n idx.header.previous_hash s
  ]

module _ (c : Primitives) where
  abbrev pub exceeds_limits : Block → Bool
  exceeds_limits block =
      ltb max_block_size_bytes (get_block_physical_size c block)
      || ltb max_block_weight (get_block_weight c block)
      || ltb max_block_sigops (get_block_sigops block)

  -- `pow_check_result`
  unfoldable pub check_work : ℕ → ℕ → ℕ → ℕ → Block → Result ConsensusError (Unit {0})
  check_work anchor_time anchor_target parent_time height block =
      if leb consensus_hardfork_v2_height height
      then verify_block_target_and_pow c block
          (required_target anchor_time anchor_target parent_time height)
      else fail_if (not (verify_proof_of_work c block block.header.target)) insufficient_work

module _ (c : Primitives) (d : Database) {PeerId : Type 0} where
  -- The checks in order. They are the same whoever sent the block.
  unfoldable pub inspect :
      Setting d.Db PeerId → ℕ → Block → Node d.Db PeerId → Result Rejection (Unit {0})
  inspect setting now block node = do
    let height = incoming_height node.storage.vault.active_chain
    let past = past_timestamps d 11 block.header.previous_hash node.storage
    let work =
        check_work c setting.anchor_time setting.anchor_target node.latest_block.header.timestamp
          height block
    fail_if (not (block.header.previous_hash == calculate_hash c node.latest_block)) orphan_block
    fail_if (ltb ((now + max_drift_secs) % u64_mod) block.header.timestamp) too_far_ahead
    fail_if (is_err (verify_checkpoint height (calculate_hash c block))) checkpoint_violation
    fail_if (is_err (verify_timestamp now block past)) time_warp
    fail_if (exceeds_limits c block) too_large
    fail_if
        (leb witness_commitment_activation_height height && not (verify_witness_commitment c block))
        witness_mismatch
    fail_if (is_err work) proof_of_work_failed
    fail_if (not (verify_merkle_root c block)) merkle_mismatch
