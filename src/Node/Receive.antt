-- ===== src/Node/Receive.antt =====
-- src/main.rs: one block taken by the consensus thread, with the orphans that it connects. The
-- branch for a block of the height of the tip is left out.
use quantum_btc.Prelude.{
  ℕ, zero, suc, ◌+◌, ◌-◌, ◌%◌, false, ◌&&◌, Option, none, some, List, [], ◌∷◌, ◌++◌, drop, length,
  Hash, nat_eq, beq, Eq, ok, err, u64_mod, leb, ltb, ◌==◌, if◌then◌else◌,
}
use quantum_btc.Crypto.Primitives.{Primitives}
use quantum_btc.Block.{Block, calculate_hash, get_block_proof}
use quantum_btc.Consensus.{verify_checkpoint, calculate_next_target}
use quantum_btc.Utxo.Data.{UtxoState, UtxoUndoLog}
use quantum_btc.Utxo.Process.{process_block}
use quantum_btc.Mempool.Sweep.{atomic_sweep}
use quantum_btc.Network.Reputation.{reward_gossip}
use quantum_btc.Storage.Database.{Database}
use quantum_btc.Storage.Vault.{Storage, get_block_index, work_of, saturating_add}
use quantum_btc.Storage.Commit.{commit_state_transition}
use quantum_btc.Storage.Orphans.{get_orphans_by_parent}
use quantum_btc.Storage.Reload.{prune_historical_witnesses}
use quantum_btc.Node.State.{Node, Setting, Signal, wake_miner, stop_miner, announce}
use quantum_btc.Node.Reject.{reject}
use quantum_btc.Node.Inspect.{is_err, current_height, incoming_height, inspect}

abbrev pub max_reorg_depth : ℕ
max_reorg_depth = 864000

-- The last 10 blocks.
abbrev pub relay : Block → List Block → List Block
relay block cache = (if leb 10 (length cache) then drop 1 cache else cache) ++ block ∷ []

module _ (d : Database) {PeerId : Type 0} where
  -- Witnesses are pruned at every 1000th block.
  abbrev pub prune : Setting d.Db PeerId → ℕ → Storage d → Storage d
  prune setting array_index s =
      if ltb 0 array_index && array_index % 1000 == 0
      then (prune_historical_witnesses d (array_index - 1000) (setting.witness_iterator s.db) s).0
      else s

module _ (c : Primitives) (d : Database) {PeerId : Type 0} ⦃e : Eq PeerId⦄ where
  -- The commit of a block that the UTXO set has accepted, the new tip and the sweep.
  unfoldable pub connect : Block → ℕ → UtxoUndoLog → UtxoState → Node d.Db PeerId → Node d.Db PeerId
  connect block height log snapshot node =
      let current_work = work_of (get_block_index d block.header.previous_hash node.storage) in
      record node {
        latest_block = block;
        storage =
            commit_state_transition c d block height log snapshot
              (saturating_add current_work (get_block_proof block.header)) node.storage;
        utxo = snapshot;
        mempool = atomic_sweep c block.transactions node.mempool;
      }

  -- The first of the orphans that connects, if any, and the node then. An orphan that the checkpoints
  -- or the UTXO set reject is passed over, with the UTXO set as `process_block` leaves it.
  unfoldable pub try_orphans : List Block → Node d.Db PeerId → Option Block × Node d.Db PeerId
  try_orphans [] node = (none, node)
  try_orphans (orphan ∷ orphans) node =
      let o_height = length node.storage.vault.active_chain in
      let (result, snapshot) = process_block c orphan.transactions o_height false node.utxo in
      let unchecked = try_orphans orphans node in
      let refused = try_orphans orphans (record node { utxo = snapshot }) in
      if is_err (verify_checkpoint o_height (calculate_hash c orphan))
      then unchecked
      else elim result [
        | err _ ↦ refused
        | ok log ↦ (some orphan, connect orphan o_height log snapshot node)
      ]

  -- `loop`, for at most so many rounds.
  unfoldable pub cascade : ℕ → Hash → Node d.Db PeerId → Node d.Db PeerId
  cascade zero parent node = node
  cascade (suc rounds) parent node =
      let (recovered, vault) = get_orphans_by_parent parent node.storage.vault in
      let fetched = record node { storage = record node.storage { vault = vault } } in
      let (advanced, next) = try_orphans recovered fetched in
      elim advanced [ none ↦ next | some orphan ↦ cascade rounds (calculate_hash c orphan) next ]

  -- A round takes an orphan from the pool.
  abbrev pub cascade_rounds : Node d.Db PeerId → ℕ
  cascade_rounds node = suc (length node.storage.vault.map_orphan_blocks)

  -- The rest of the work for a block that is connected, before the orphans.
  unfoldable pub settle :
      Setting d.Db PeerId
      → ℕ
      → PeerId
      → Block
      → ℕ
      → UtxoUndoLog
      → UtxoState
      → Node d.Db PeerId
      → Node d.Db PeerId
  unfolding connect
  settle setting now sender block height log snapshot node =
      let linked = connect block height log snapshot node in
      record linked {
        block_relay_cache = relay block node.block_relay_cache;
        storage = prune d setting height linked.storage;
        target =
            calculate_next_target setting.anchor_time setting.anchor_target block.header.timestamp
              ((height + 1) % u64_mod);
        reputation = reward_gossip now sender node.reputation;
      }

  unfoldable pub advance :
      Setting d.Db PeerId
      → ℕ
      → PeerId
      → Block
      → ℕ
      → UtxoUndoLog
      → UtxoState
      → Node d.Db PeerId
      → Node d.Db PeerId
  unfolding settle
  advance setting now sender block height log snapshot node =
      let settled = settle setting now sender block height log snapshot node in
      cascade (cascade_rounds settled) (calculate_hash c block) settled

  abbrev pub advance_signals : Setting d.Db PeerId → PeerId → Block → List (Signal PeerId)
  advance_signals setting sender block =
      (if beq sender setting.local_peer_id then announce block.header ∷ [] else [])
      ++ stop_miner ∷ wake_miner ∷ []

  unfoldable pub extend :
      Setting d.Db PeerId
      → ℕ
      → PeerId
      → Block
      → Node d.Db PeerId
      → Node d.Db PeerId × List (Signal PeerId)
  unfolding advance
  extend setting now sender block node =
      let height = incoming_height node.storage.vault.active_chain in
      let (result, snapshot) = process_block c block.transactions height false node.utxo in
      elim result [
        | ok log ↦ (
          advance setting now sender block height log snapshot node,
          advance_signals setting sender block,
        )
        | err _ ↦ (
          record node { utxo = snapshot },
          if beq sender setting.local_peer_id then wake_miner ∷ [] else [],
        )
      ]

  -- One turn of the thread's loop.
  unfoldable pub receive :
      Setting d.Db PeerId
      → ℕ
      → PeerId
      → Block
      → Node d.Db PeerId
      → Node d.Db PeerId × List (Signal PeerId)
  unfolding inspect reject extend
  receive setting now sender block node =
      let current = current_height node.storage.vault.active_chain in
      let incoming = incoming_height node.storage.vault.active_chain in
      elim (inspect c d setting now block node) [
        | err reason ↦ reject c d setting now sender block reason node
        | ok _ ↦
            if ltb current incoming && leb (incoming - current) max_reorg_depth
            then extend setting now sender block node
            else (node, [])
      ]
