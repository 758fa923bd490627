-- ===== src/Node/Admission.antt =====
-- src/main.rs: what the checks of the consensus thread establish of a block.
use quantum_btc.Prelude.{
  ℕ, zero, suc, ◌^◌, Option-cases, inl, inr, ◌+◌, ◌/◌, ◌≤◌, ◌<◌, ◌≡◌, refl, true, false, some, List,
  ◌∷◌, map, length, is_empty, Hash, nat_eq, arith, Result, ok, err, u64_mod,
}
use quantum_btc.Config.{
  max_block_size_bytes, max_block_weight, max_block_sigops, consensus_hardfork_v2_height,
}
use quantum_btc.Crypto.Primitives.{Primitives}
use quantum_btc.Crypto.Merkle.{build_merkle_root}
use quantum_btc.Transaction.{calculate_id}
use quantum_btc.Block.{
  Block, BlockIndex, calculate_hash, get_block_physical_size, get_block_weight, get_block_sigops,
  get_block_proof,
}
use quantum_btc.Consensus.{
  verify_timestamp, verify_merkle_root, required_target, hash_prefix, max_target,
  max_future_time_secs, tail_slice,
}
use quantum_btc.Consensus.MedianTime.{earlier, verify_timestamp_lem}
use quantum_btc.Consensus.Merkle.{IsDistinct, verify_merkle_root-build_merkle_root}
use quantum_btc.Consensus.Work.{verify_block_target_and_pow_lem}
use quantum_btc.Storage.Database.{Database}
use quantum_btc.Storage.Vault.{Storage, get_block_index}
use quantum_btc.Node.State.{Node, Setting}
use quantum_btc.Node.Inspect.{
  inspect, check_work, exceeds_limits, past_timestamps, incoming_height, is_err,
}

is_err-false : {E : Type 0} (r : Result E (Unit {0})) → is_err r ≡ false → r ≡ ok tt
is_err-false (ok tt) fine = refl
is_err-false (err e) fine = cc

recent : (past : List ℕ) → length past ≤ 11 → tail_slice past ≡ past
recent past few = ground arith

module _ (d : Database) where
  length-past_timestamps : (n : ℕ) (h : Hash) (s : Storage d) → length (past_timestamps d n h s) ≤ n
  unfolding past_timestamps
  length-past_timestamps zero h s = omega arith
  length-past_timestamps (suc n) h s = elim (Option-cases (get_block_index d h s)) [
    | inl missing ↦ rw (past_timestamps, missing) (omega arith)
    | inr (idx, found) ↦
        rw (past_timestamps, found)
          (omega (arith, length-past_timestamps n idx.header.previous_hash s))
  ]

module _ (c : Primitives) (d : Database) {PeerId : Type 0} where
  -- The checks one by one.
  record Passed (setting : Setting d.Db PeerId) (now : ℕ) (block : Block) (node : Node d.Db PeerId)
      : Type 0 where
    linked : block.header.previous_hash ≡ calculate_hash c node.latest_block
    dated :
        verify_timestamp now block (past_timestamps d 11 block.header.previous_hash node.storage)
        ≡ ok tt
    small : exceeds_limits c block ≡ false
    worked :
        check_work c setting.anchor_time setting.anchor_target node.latest_block.header.timestamp
          (incoming_height node.storage.vault.active_chain)
          block
        ≡ ok tt
    rooted : verify_merkle_root c block ≡ true

  inspect-Passed :
      (setting : Setting d.Db PeerId) (now : ℕ) (block : Block) (node : Node d.Db PeerId)
      → inspect c d setting now block node ≡ ok tt
      → Passed setting now block node
  unfolding inspect
  inspect-Passed setting now block node passed = record {
    linked = ground arith;
    dated = is_err-false _ (ground arith);
    small = ground arith;
    worked = is_err-false _ (ground arith);
    rooted = ground arith;
  }

  timely :
      (setting : Setting d.Db PeerId) (now : ℕ) (block : Block) (node : Node d.Db PeerId)
      (parent : BlockIndex)
      → get_block_index d block.header.previous_hash node.storage ≡ some parent
      → now + max_future_time_secs < u64_mod
      → Passed setting now block node
      → (block.header.timestamp ≤ now + max_future_time_secs)
        × (let past = past_timestamps d 11 block.header.previous_hash node.storage in
            length past / 2 < earlier block.header.timestamp past)
  unfolding past_timestamps
  timely setting now block node parent indexed clock checks =
      let older = past_timestamps d 10 parent.header.previous_hash node.storage in
      let few = length-past_timestamps d 10 parent.header.previous_hash node.storage in
      rw (past_timestamps, indexed)
        (rw (recent (parent.header.timestamp ∷ older) (omega (arith, few))) at (
          (verify_timestamp_lem now block parent.header.timestamp older clock).0
            (rw (past_timestamps, indexed) at checks.dated)))

  earned :
      (setting : Setting d.Db PeerId) (now : ℕ) (block : Block) (node : Node d.Db PeerId)
      → 1 ≤ setting.anchor_target
      → consensus_hardfork_v2_height ≤ incoming_height node.storage.vault.active_chain
      → Passed setting now block node
      → let required =
          required_target setting.anchor_time setting.anchor_target
            node.latest_block.header.timestamp
            (incoming_height node.storage.vault.active_chain) in
        (block.header.target ≡ required)
        × (1 ≤ block.header.target)
        × (block.header.target ≤ max_target)
        × (hash_prefix c (calculate_hash c block) ≤ block.header.target)
        × (2 ^ 24 ≤ get_block_proof block.header)
  unfolding check_work
  earned setting now block node anchored fork checks =
      verify_block_target_and_pow_lem c block setting.anchor_time setting.anchor_target
        node.latest_block.header.timestamp (incoming_height node.storage.vault.active_chain)
        anchored (ground (arith, checks.worked))

  -- What a block and the chain that it extends fulfil.
  pub record IsAdmissible (setting : Setting d.Db PeerId) (now : ℕ) (block : Block)
      (node : Node d.Db PeerId) : Type 0 where
    extends_tip : block.header.previous_hash ≡ calculate_hash c node.latest_block
    not_ahead : block.header.timestamp ≤ now + max_future_time_secs
    later_than_most :
        let past = past_timestamps d 11 block.header.previous_hash node.storage in
        length past / 2 < earlier block.header.timestamp past
    size : get_block_physical_size c block ≤ max_block_size_bytes
    weight : get_block_weight c block ≤ max_block_weight
    sigops : get_block_sigops block ≤ max_block_sigops
    declares_target :
        block.header.target
        ≡ required_target setting.anchor_time setting.anchor_target
            node.latest_block.header.timestamp
            (incoming_height node.storage.vault.active_chain)
    within_maximum : (1 ≤ block.header.target) × (block.header.target ≤ max_target)
    has_work : hash_prefix c (calculate_hash c block) ≤ block.header.target
    has_transactions : is_empty block.transactions ≡ false
    distinct : IsDistinct (map (calculate_id c) block.transactions)
    committed :
        build_merkle_root c (map (calculate_id c) block.transactions) ≡ block.header.merkle_root

  -- A block that passes the checks of the consensus thread from the height of the hard fork on,
  -- whoever sent it, extends the tip, is at most an hour ahead of the clock and later than more than
  -- half of the timestamps of its last 11 ancestors, is within the limits of size, weight and
  -- signature operations, declares the required target, which is from 1 to the maximum, has the work
  -- for it, and has transactions, of different identifiers, of which its header holds the Merkle
  -- root. Its parent is indexed, the anchor's target is not 0 and the clock is an hour below 2^64.
  pub inspect-IsAdmissible :
      (setting : Setting d.Db PeerId) (now : ℕ) (block : Block) (node : Node d.Db PeerId)
      (parent : BlockIndex)
      → get_block_index d block.header.previous_hash node.storage ≡ some parent
      → now + max_future_time_secs < u64_mod
      → 1 ≤ setting.anchor_target
      → consensus_hardfork_v2_height ≤ incoming_height node.storage.vault.active_chain
      → inspect c d setting now block node ≡ ok tt
      → IsAdmissible setting now block node
  inspect-IsAdmissible setting now block node parent indexed clock anchored fork passed =
      let checks = inspect-Passed setting now block node passed in
      let dates = timely setting now block node parent indexed clock checks in
      let work = earned setting now block node anchored fork checks in
      let roots = (verify_merkle_root-build_merkle_root c block).0 checks.rooted in
      record {
        extends_tip = checks.linked;
        not_ahead = dates.0;
        later_than_most = dates.1;
        size = ground (arith, checks.small);
        weight = ground (arith, checks.small);
        sigops = ground (arith, checks.small);
        declares_target = work.0;
        within_maximum = (work.1, work.2);
        has_work = work.3;
        has_transactions = roots.0;
        distinct = roots.1;
        committed = roots.2;
      }
