-- ===== src/Consensus.antt =====
-- src/consensus/mod.rs: targets, timestamps, proof of work, Merkle roots and checkpoints.
-- `SystemTime::now()` is the argument `now`, in seconds.
pub mod Asert
pub mod Work
pub mod MedianTime
pub mod Merkle
pub mod Construction
use quantum_btc.Prelude.{
  ℕ, zero, suc, ◌+◌, ◌-◌, ◌*◌, ◌/◌, ◌%◌, ◌^◌, Bool, true, false, not, Option, none, some, List, [],
  ◌∷◌, ◌++◌, map, length, is_empty, drop, get_or, get_elem?, Hash, nat_eq, HashMap, lookup, Result,
  ok, err, ◌>>=◌, ◌>>◌, fail_if, u64_mod, leb, ltb, ◌==◌, if◌then◌else◌,
}
use quantum_btc.Crypto.Bytes.{hash_bytes}
use quantum_btc.Crypto.Primitives.{Primitives}
use quantum_btc.Crypto.Merkle.{build_merkle_root, has_duplicate_txs, hash_pair}
use quantum_btc.Transaction.{Transaction, calculate_id, calculate_witness_hash}
use quantum_btc.Block.{Block, BlockHeader, calculate_hash}
use Asert.{calculate_asert_target}

abbrev pub max_future_time_secs : ℕ
max_future_time_secs = 3600

abbrev pub max_target : ℕ
max_target = 1099511627775

-- One constructor for each message.
pub data ConsensusError : Type 0 where
  far_future before_median target_above_maximum wrong_target insufficient_work : ConsensusError
  checkpoint_mismatch : ConsensusError

-- `chain_length.saturating_sub(1700)` after block 1938.
unfoldable pub calculate_next_target : ℕ → ℕ → ℕ → ℕ → ℕ
calculate_next_target anchor_timestamp anchor_target latest_block_timestamp chain_length =
    let height_diff = if ltb 1938 chain_length then chain_length - 1700 else chain_length in
    if leb chain_length 1
    then anchor_target
    else if chain_length == 1938
    then 1099511627775
    else calculate_asert_target anchor_target anchor_timestamp latest_block_timestamp height_diff

unfoldable pub required_target : ℕ → ℕ → ℕ → ℕ → ℕ
required_target anchor_timestamp anchor_target parent_timestamp height =
    let next = calculate_next_target anchor_timestamp anchor_target parent_timestamp height in
    if ltb next max_target then next else max_target

-- The element at an index of the sorted slice, as `select_nth_unstable` gives it.
abbrev pub insert_sorted : ℕ → List ℕ → List ℕ
insert_sorted x [] = x ∷ []
insert_sorted x (y ∷ ys) = elim (leb x y) [ true ↦ x ∷ y ∷ ys | false ↦ y ∷ insert_sorted x ys ]

abbrev pub sorted : List ℕ → List ℕ
sorted [] = []
sorted (x ∷ xs) = insert_sorted x (sorted xs)

abbrev pub select_nth : ℕ → List ℕ → ℕ
select_nth index slice = get_or (sorted slice) index 0

-- `&past_timestamps[len - effective_len..]`
abbrev pub tail_slice : List ℕ → List ℕ
tail_slice past =
    let effective_len = if ltb (length past) 11 then length past else 11 in
    drop (length past - effective_len) past

unfoldable pub median_time_past : List ℕ → ℕ
median_time_past past =
    if is_empty past then 0 else select_nth (length (tail_slice past) / 2) (tail_slice past)

unfoldable pub verify_timestamp : ℕ → Block → List ℕ → Result ConsensusError (Unit {0})
unfolding median_time_past
verify_timestamp now incoming_block past = do
  let incoming_time = incoming_block.header.timestamp
  fail_if (ltb ((now + max_future_time_secs) % u64_mod) incoming_time) far_future
  fail_if (leb incoming_time (median_time_past past)) before_median

-- `current_level.push(last)` if the length is odd.
unfoldable pub pad_level : List Hash → List Hash
pad_level level =
    if not (length level % 2 == 0) then level ++ get_or level (length level - 1) 0 ∷ [] else level

module _ (c : Primitives) where
  -- The first 8 bytes of the hash, as a big-endian number.
  abbrev pub hash_prefix : Hash → ℕ
  hash_prefix h = h / 256 ^ 24

  unfoldable pub verify_proof_of_work : Block → ℕ → Bool
  verify_proof_of_work block target = leb (hash_prefix (calculate_hash c block)) target

  unfoldable pub verify_block_target_and_pow : Block → ℕ → Result ConsensusError (Unit {0})
  unfolding verify_proof_of_work
  verify_block_target_and_pow block required = do
    fail_if (ltb max_target block.header.target) target_above_maximum
    fail_if (not (block.header.target == required)) wrong_target
    fail_if (not (verify_proof_of_work block required)) insufficient_work

  unfoldable pub verify_witness_commitment : Block → Bool
  verify_witness_commitment block =
      build_merkle_root c (map (calculate_witness_hash c) block.transactions)
      == block.header.commit_merkle_root

  -- `current_level.chunks(2)`, of a level of even length.
  unfoldable pub hash_chunks : List Hash → List Hash
  hash_chunks [] = []
  hash_chunks (_ ∷ []) = []
  hash_chunks (first ∷ second ∷ rest) = hash_pair c first second ∷ hash_chunks rest

  -- `while current_level.len() > 1`, for at most so many rounds.
  unfoldable pub climb : ℕ → List Hash → List Hash
  unfolding pad_level hash_chunks
  climb zero level = level
  climb (suc rounds) level =
      if ltb 1 (length level) then climb rounds (hash_chunks (pad_level level)) else level

  unfoldable pub verify_merkle_root : Block → Bool
  unfolding climb
  verify_merkle_root block =
      let ids = map (calculate_id c) block.transactions in
      if is_empty block.transactions
      then false
      else if has_duplicate_txs ids
      then false
      else get_or (climb (length ids) ids) 0 0 == block.header.merkle_root

-- The bytes of the hexadecimal strings, read as one number.
abbrev pub checkpoints : HashMap ℕ Hash
checkpoints =
    (0, 0x00000039ed259365a978de048e4c3d22a75e07573035e00ef4d0f1ea1b934402)
    ∷ (100, 0x00000000f7848b67987d7b4dcbc5dfc541cc98ef7ec108eb3380154df294c330)
    ∷ (200, 0x00000000e78797980fc697b63da596ac20d14528c2b001ad794688f3ad3b062d)
    ∷ (1938, 0x0000006873ebe098064205450bb0453a600d98b8f31966dd5f226ac658a2b425)
    ∷ (3620, 0x000000004cad8998d3f507e98f264ee8b2f5aa211cddf869eca0b50201e87c77)
    ∷ (10000, 0x000000000089f7e3ca2260477c830545abd6e02fc514703e39f2c25fd30486d4)
    ∷ (22800, 0x00000000008d248f87a702956598d8211500fffb7da871053b40dbf8c78856ca)
    ∷ []

unfoldable pub verify_checkpoint : ℕ → Hash → Result ConsensusError (Unit {0})
verify_checkpoint height block_hash = elim (lookup height checkpoints) [
  | none ↦ ok tt
  | some expected_hash ↦ fail_if (not (block_hash == expected_hash)) checkpoint_mismatch
]
