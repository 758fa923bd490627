-- ===== src/Tests/Consensus.antt =====
-- Runs of src/consensus, src/crypto/merkle.rs and src/block.rs.
use quantum_btc.Prelude.{
  min, ◌-◌, ℕ, ◌+◌, ◌*◌, ◌/◌, ◌^◌, ◌≤◌, ◌<◌, ◌≡◌, ◌↔◌, ◌⊎◌, refl, true, false, List, [], ◌∷◌, map,
  Hash, arith, none, ◌%◌, ok, is_empty, length, nat_eq,
}
use quantum_btc.Crypto.Primitives.{Primitives}
use quantum_btc.Crypto.Bytes.{to_be_bytes, hash_bytes}
use quantum_btc.Crypto.Toy.{toy}
use quantum_btc.Crypto.Merkle.{build_merkle_root}
use quantum_btc.Crypto.Merkle.Binding.{Clash, IsDigest}
use quantum_btc.Transaction.{Transaction, calculate_id}
use quantum_btc.Block.{Block, get_block_proof, calculate_hash, header_bytes, new_block}
use quantum_btc.Consensus.{
  calculate_next_target, required_target, tail_slice, verify_timestamp, hash_prefix, max_target,
  verify_proof_of_work, verify_block_target_and_pow, verify_merkle_root, verify_witness_commitment,
  max_future_time_secs,
}
use quantum_btc.Consensus.Asert.{max_asert_target, calculate_asert_target}
use quantum_btc.Consensus.Asert.Schedule.{calculate_asert_target-late}
use quantum_btc.Consensus.Asert.Jump.{calculate_asert_target-jumps}
use quantum_btc.Consensus.MedianTime.{earlier, verify_timestamp_lem}
use quantum_btc.Consensus.Work.{verify_block_target_and_pow_lem}
use quantum_btc.Consensus.Merkle.{
  IsDistinct, verify_merkle_root-build_merkle_root, verify_merkle_root-binds,
}
use quantum_btc.Consensus.Construction.{new_block-verify_merkle_root}

-- Primitives whose digest has 32 bytes: the length of the message.
abbrev short : Primitives
short = record toy { sha256 = λ m. length m % 256 }

short-IsDigest : IsDigest short
short-IsDigest m = omega arith

abbrev spend : ℕ → Transaction
spend n = record {
  inputs = record { previous_output_hash = n; vout = 0 } ∷ [];
  outputs = record { value = 1; public_key_hash = n; recovery = none } ∷ [];
  witnesses = [];
}

-- 10 blocks after an anchor at time 1000, with a target of 2^20.
calculate_asert_target-late_example :
    calculate_asert_target 1048576 1000 (1000 + 600 * 10 + 43200 * 3) 10
    ≡ min (1048576 * 2 ^ 3) max_asert_target
calculate_asert_target-late_example =
    calculate_asert_target-late 1048576 1000 10 3 (omega arith) (omega arith) (omega arith)
      (omega arith)

-- With the target and the time of the genesis block, 9 half-lives and a second ahead.
calculate_asert_target-jumps_example :
    calculate_asert_target 1099511627775 1778976000
      (1778976000 + 600 * 1000 - 43200 * 9 - 1 + 1)
      1000
    < calculate_asert_target 1099511627775 1778976000 (1778976000 + 600 * 1000 - 43200 * 9 - 1) 1000
calculate_asert_target-jumps_example =
    calculate_asert_target-jumps 1099511627775 1778976000 1000 8
      (1778976000 + 600 * 1000 - 43200 * 9 - 1) (omega arith) (omega arith) (omega arith)
      (omega arith) (omega arith)

abbrev block_at : ℕ → Block
block_at time = record {
  header = record {
    timestamp = time;
    previous_hash = 7;
    merkle_root = 8;
    commit_merkle_root = 9;
    nonce = 1;
    target = 1099511627775;
  };
  transactions = [];
}

verify_timestamp_lem_example : (verify_timestamp 5000 (block_at 30) (10 ∷ 40 ∷ 20 ∷ []) ≡ ok tt) ↔ (
    (30 ≤ 5000 + max_future_time_secs)
    × (length (tail_slice (10 ∷ 40 ∷ 20 ∷ [])) / 2 < earlier 30 (tail_slice (10 ∷ 40 ∷ 20 ∷ []))))
verify_timestamp_lem_example =
    verify_timestamp_lem 5000 (block_at 30) 10 (40 ∷ 20 ∷ []) (omega arith)

-- The block 1938, whose target is the maximum.
mined :
    verify_block_target_and_pow short (block_at 5000) (required_target 1000 1048576 4000 1938)
    ≡ ok tt
unfolding verify_block_target_and_pow required_target calculate_next_target verify_proof_of_work
    calculate_hash header_bytes hash_bytes to_be_bytes
mined = refl

verify_block_target_and_pow_lem_example :
    (1099511627775 ≡ required_target 1000 1048576 4000 1938)
    × (1 ≤ 1099511627775)
    × (1099511627775 ≤ max_target)
    × (hash_prefix short (calculate_hash short (block_at 5000)) ≤ 1099511627775)
    × (2 ^ 24 ≤ get_block_proof (block_at 5000).header)
verify_block_target_and_pow_lem_example =
    verify_block_target_and_pow_lem short (block_at 5000) 1000 1048576 4000 1938 (omega arith) mined

abbrev leaves : List Hash
leaves = 1 ∷ 2 ∷ 3 ∷ []

abbrev template : ℕ → Block
template now = new_block short now 7 (spend 3 ∷ []) 1000 0

verify_merkle_root-build_merkle_root_example : (verify_merkle_root short (template 5) ≡ true) ↔ (
    (is_empty (template 5).transactions ≡ false)
    × IsDistinct (map (calculate_id short) (template 5).transactions)
    × (build_merkle_root short (map (calculate_id short) (template 5).transactions)
        ≡ (template 5).header.merkle_root))
verify_merkle_root-build_merkle_root_example =
    verify_merkle_root-build_merkle_root short (template 5)

new_block-verify_merkle_root_example :
    (verify_merkle_root short (new_block short 5 7 (spend 3 ∷ spend 3 ∷ spend 4 ∷ []) 1000 0)
      ≡ true)
    × (verify_witness_commitment short
          (new_block short 5 7 (spend 3 ∷ spend 3 ∷ spend 4 ∷ []) 1000 0)
        ≡ true)
new_block-verify_merkle_root_example =
    new_block-verify_merkle_root short 5 7 (spend 3) (spend 3 ∷ spend 4 ∷ []) 1000 0

verify_merkle_root-binds_example :
    (map (calculate_id short) (template 5).transactions
      ≡ map (calculate_id short) (template 6).transactions)
    ⊎ Clash short
        (map (calculate_id short) (template 5).transactions)
        (map (calculate_id short) (template 6).transactions)
unfolding new_block
verify_merkle_root-binds_example =
    verify_merkle_root-binds short (template 5) (template 6) short-IsDigest
      (new_block-verify_merkle_root short 5 7 (spend 3) [] 1000 0).0
      (new_block-verify_merkle_root short 6 7 (spend 3) [] 1000 0).0 refl refl
