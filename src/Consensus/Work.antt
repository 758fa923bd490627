-- ===== src/Consensus/Work.antt =====
-- src/consensus/mod.rs: the target and the work of an accepted block.
use native.Mathlib.Nat.{le-div_iff_mul-le}
use quantum_btc.Prelude.{ℕ, ◌-◌, ◌/◌, ◌^◌, ◌≤◌, ◌≡◌, arith, ok}
use quantum_btc.Crypto.Primitives.{Primitives}
use quantum_btc.Block.{Block, get_block_proof, calculate_hash}
use quantum_btc.Consensus.{
  calculate_next_target, required_target, verify_block_target_and_pow, verify_proof_of_work,
  hash_prefix, max_target,
}
use quantum_btc.Consensus.Asert.Schedule.{calculate_asert_target-bounds}

required_target-bounds :
    (s a t h : ℕ) → 1 ≤ a → (1 ≤ required_target s a t h) × (required_target s a t h ≤ max_target)
unfolding required_target calculate_next_target
required_target-bounds s a t h pos =
    ground
      (arith, calculate_asert_target-bounds a s t h, calculate_asert_target-bounds a s t (h - 1700))

least_proof : (t : ℕ) → 1 ≤ t → t ≤ max_target → 2 ^ 24 ≤ (2 ^ 64 - 1) / t
least_proof t pos le = (le-div_iff_mul-le pos).1 (omega arith)

module _ (c : Primitives) where
  -- A block that passes with the target required of its height declares that target, which is from
  -- 1 to the network's maximum; its hash is at most the target, and it counts for at least 2^24
  -- units of work. The anchor's target is not 0.
  pub verify_block_target_and_pow_lem :
      (b : Block) (s a t h : ℕ)
      → 1 ≤ a
      → verify_block_target_and_pow c b (required_target s a t h) ≡ ok tt
      → (b.header.target ≡ required_target s a t h)
        × (1 ≤ b.header.target)
        × (b.header.target ≤ max_target)
        × (hash_prefix c (calculate_hash c b) ≤ b.header.target)
        × (2 ^ 24 ≤ get_block_proof b.header)
  unfolding verify_block_target_and_pow get_block_proof verify_proof_of_work
  verify_block_target_and_pow_lem b s a t h pos passed =
      let (low, high) = required_target-bounds s a t h pos in
      let same : b.header.target ≡ required_target s a t h = ground arith in
      ground (arith, least_proof b.header.target)
