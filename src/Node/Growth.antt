-- ===== src/Node/Growth.antt =====
-- src/main.rs: what an accepted block does to the chain, the disk and the outputs.
use quantum_btc.Prelude.{
  ℕ, zero, suc, ◌-◌, ◌<◌, ◌≡◌, ◌∙◌, ◌&&◌, refl, ap, true, false, none, some, List, [], ◌∷◌, ◌++◌,
  length, Hash, lookup, contains, nat_eq, Eq, ok, arith, u64_mod, leb, ltb, lookup-insert, beq_refl,
}
use quantum_btc.Crypto.Primitives.{Primitives}
use quantum_btc.Transaction.{OutPoint, outpoint_eq}
use quantum_btc.Block.{Block, calculate_hash, get_block_proof}
use quantum_btc.Utxo.Data.{UtxoState, UtxoUndoLog}
use quantum_btc.Utxo.Process.{process_block}
use quantum_btc.Mempool.Sweep.{atomic_sweep}
use quantum_btc.Storage.Database.{Database, Key, Value, prefix_witness, number, utxo_key}
use quantum_btc.Storage.Vault.{Storage, get_block_index, work_of, saturating_add}
use quantum_btc.Storage.Commit.{committed_index, commit_state_transition}
use quantum_btc.Storage.Disk.{get_utxo}
use quantum_btc.Utxo.Undo.{block_outpoints}
use quantum_btc.Storage.Mirror.{Mirrors, commit_state_transition-Mirrors}
use quantum_btc.Storage.Quarantine.{get_orphans_by_parent-none}
use quantum_btc.Storage.Reload.{prefix_run, prune_records}
use quantum_btc.Node.State.{Node, Setting}
use quantum_btc.Node.Inspect.{inspect, incoming_height, current_height}
use quantum_btc.Node.Receive.{
  max_reorg_depth, max_reorg_depth, try_orphans, cascade, prune, settle, advance, extend, receive,
}

incoming_height-length :
    (chain : List Hash)
    → 0 < length chain
    → length chain < u64_mod
    → (incoming_height chain ≡ length chain) × (current_height chain ≡ length chain - 1)
incoming_height-length chain some_block short = ground arith

module _ (d : Database) where
  get_utxo-delete_witness :
      (k : OutPoint) (key : Key) (db : d.Db)
      → key.prefix ≡ number prefix_witness
      → get_utxo d k (d.delete key db) ≡ get_utxo d k db
  unfolding get_utxo
  get_utxo-delete_witness k key db other = ground (arith, d.get-delete key (utxo_key k) db)

  get_utxo-prune_records :
      (k : OutPoint) (cutoff : ℕ) (entries : List (Key × Value)) (db : d.Db)
      → get_utxo d k (prune_records d cutoff (prefix_run prefix_witness entries) db).0
        ≡ get_utxo d k db
  unfolding prune_records prefix_run
  get_utxo-prune_records k cutoff [] db = refl
  get_utxo-prune_records k cutoff ((key, value) ∷ rest) db = ground (
    arith,
    get_utxo-prune_records k cutoff rest (d.delete key db),
    get_utxo-delete_witness k key db,
  )

module _ (d : Database) {PeerId : Type 0} (setting : Setting d.Db PeerId) (height : ℕ)
    (s : Storage d) where
  prune-vault : (prune d setting height s).vault ≡ s.vault
  prune-vault = ground arith

  get_utxo-prune : (k : OutPoint) → get_utxo d k (prune d setting height s).db ≡ get_utxo d k s.db
  get_utxo-prune k =
      ground
        (arith, get_utxo-prune_records d k (height - 1000) (setting.witness_iterator s.db) s.db)

module _ (c : Primitives) (d : Database) {PeerId : Type 0} ⦃e : Eq PeerId⦄ where
  -- No orphan waits for the block.
  cascade-none :
      (rounds : ℕ) (parent : Hash) (node : Node d.Db PeerId)
      → lookup parent node.storage.vault.map_orphan_blocks_by_prev ≡ none
      → cascade c d rounds parent node ≡ node
  unfolding cascade try_orphans
  cascade-none zero parent node alone = refl
  cascade-none (suc rounds) parent node alone =
      let nothing = get_orphans_by_parent-none parent node.storage.vault alone in
      rw (cascade, ap (λ r. r.0) nothing, ap (λ r. r.1) nothing, try_orphans, ap (λ r. r.0) nothing)
        refl

  module _ (block : Block) (log : UtxoUndoLog) (snapshot : UtxoState)
      (before : Node d.Db PeerId) where
    -- The node after the block of this undo log and these outputs.
    pub record IsExtended (after : Node d.Db PeerId) : Type 0 where
      new_tip : after.latest_block ≡ block
      longer :
          after.storage.vault.active_chain
          ≡ before.storage.vault.active_chain ++ calculate_hash c block ∷ []
      indexed :
          get_block_index d (calculate_hash c block) after.storage
          ≡ some (
              committed_index c block (length before.storage.vault.active_chain) (
                saturating_add
                  (work_of (get_block_index d block.header.previous_hash before.storage))
                  (get_block_proof block.header)))
      new_outputs : after.utxo ≡ snapshot
      on_disk : Mirrors d after.storage.db snapshot
      swept : after.mempool ≡ atomic_sweep c block.transactions before.mempool

    module _ (setting : Setting d.Db PeerId) (now : ℕ) (sender : PeerId) where
      settle-IsExtended :
          let height = length before.storage.vault.active_chain in
          contains (calculate_hash c block) before.storage.vault.active_chain ≡ false
          → process_block c block.transactions height false before.utxo ≡ (ok log, snapshot)
          → ((op : OutPoint)
              → contains op (block_outpoints c block.transactions) ≡ true
              → lookup op before.utxo.unspent_outputs ≡ none)
          → Mirrors d before.storage.db before.utxo
          → IsExtended (settle c d setting now sender block height log snapshot before)
      unfolding settle commit_state_transition
      settle-IsExtended unknown accepted fresh mirrors =
          let height = length before.storage.vault.active_chain in
          let work =
            saturating_add (work_of (get_block_index d block.header.previous_hash before.storage))
              (get_block_proof block.header) in
          let committed =
            commit_state_transition c d block height log snapshot work before.storage in
          record {
            new_tip = refl;
            longer =
                rw (prune-vault d setting height committed, commit_state_transition, unknown) refl;
            indexed =
                rw
                  (
                    prune-vault d setting height committed,
                    commit_state_transition,
                    lookup-insert (calculate_hash c block) (calculate_hash c block)
                        (committed_index c block height work) before.storage.vault.map_block_index,
                    beq_refl (calculate_hash c block),
                  )
                  refl;
            new_outputs = refl;
            on_disk = λ k.
                get_utxo-prune d setting height committed k
                ∙ commit_state_transition-Mirrors d c block height false before.utxo snapshot log
                    work before.storage accepted fresh mirrors k;
            swept = refl;
          }

      advance-settle :
          let height = length before.storage.vault.active_chain in
          lookup (calculate_hash c block) before.storage.vault.map_orphan_blocks_by_prev ≡ none
          → advance c d setting now sender block height log snapshot before
            ≡ settle c d setting now sender block height log snapshot before
      unfolding advance settle commit_state_transition
      advance-settle alone =
          let height = length before.storage.vault.active_chain in
          let work =
            saturating_add (work_of (get_block_index d block.header.previous_hash before.storage))
              (get_block_proof block.header) in
          let committed =
            commit_state_transition c d block height log snapshot work before.storage in
          cascade-none _ (calculate_hash c block)
            (settle c d setting now sender block height log snapshot before)
            (rw (prune-vault d setting height committed, commit_state_transition) alone)

      -- A block that passes the checks and that the UTXO set accepts becomes the tip: its hash ends
      -- the chain, its index holds the height and the work of its parent and its own, the database
      -- holds the outputs of the state after it if it held those of the state before, and the mempool
      -- is swept. The chain is not empty and below 2^64 blocks and does not hold the block, no orphan
      -- waits for it, and it makes only outputs that the state before does not hold.
      pub receive-IsExtended :
          let chain = before.storage.vault.active_chain in
          0 < length chain
          → length chain < u64_mod
          → contains (calculate_hash c block) chain ≡ false
          → lookup (calculate_hash c block) before.storage.vault.map_orphan_blocks_by_prev ≡ none
          → inspect c d setting now block before ≡ ok tt
          → process_block c block.transactions (length chain) false before.utxo ≡ (ok log, snapshot)
          → ((op : OutPoint)
              → contains op (block_outpoints c block.transactions) ≡ true
              → lookup op before.utxo.unspent_outputs ≡ none)
          → Mirrors d before.storage.db before.utxo
          → IsExtended (receive c d setting now sender block before).0
      unfolding receive extend
      receive-IsExtended some_block short unknown alone passed accepted fresh mirrors =
          let (incoming, current) =
            incoming_height-length before.storage.vault.active_chain some_block short in
          let step : ltb (length before.storage.vault.active_chain - 1)
                  (length before.storage.vault.active_chain)
                && leb
                    (length before.storage.vault.active_chain
                      - (length before.storage.vault.active_chain - 1))
                    max_reorg_depth
              ≡ true =
            ground arith in
          rw
            (
              receive,
              passed,
              incoming,
              current,
              step,
              extend,
              accepted,
              incoming,
              accepted,
              advance-settle alone,
            )
            (settle-IsExtended unknown accepted fresh mirrors)
