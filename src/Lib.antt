-- ===== src/Lib.antt =====
-- Quantum Bitcoin: the ledger, the consensus rules and the network's state machines of the node.
--
-- The node is a Rust program. A block that it receives is checked by the consensus rules
-- (src/consensus: target, proof of work, timestamp, Merkle roots, checkpoints) and then applied to
-- the set of unspent outputs (src/utxo.rs), which keeps an undo log for reorganisations; the
-- subsidy of a coinbase comes from src/economics. A transaction for the mempool is checked on the
-- same set. The set is owned by one thread, the actor, which takes commands one after the other.
-- src/mempool/blind_box.rs keeps the transactions that wait and packs block templates of them, and
-- src/storage.rs keeps blocks, undo logs and outputs on disk, with a vault of indices in memory.
-- On the network's side src/network/block_tracker.rs records which request downloads which block,
-- src/network/reputation.rs scores and bans peers, and src/network/sync_manager.rs orders blocks by
-- height and holds back peers without progress.
--
-- Files, by the source that they model:
--   Economics: src/economics/mod.rs (get_block_reward, max_supply); Economics/Supply: the sum of the
--     subsidies.
--   Config: src/config.rs.
--   Transaction and Transaction/Data: src/transaction.rs (the types, calculate_id,
--     calculate_witness_hash, sizes, verify_witness, is_well_formed).
--   Crypto/MlDsa: verify_signature of src/crypto/ml_dsa.rs. Crypto/Merkle: src/crypto/merkle.rs, with
--     its layers in Crypto/Merkle/Layers and what a root binds in Crypto/Merkle/Binding.
--     Crypto/Bytes: big-endian bytes. Crypto/Primitives: the third-party code. Crypto/Toy: concrete
--     primitives for the runs.
--   Block: src/block.rs (headers, calculate_hash, weights, get_block_proof, Block::new, genesis).
--   Consensus: src/consensus/mod.rs. Consensus/Asert: src/consensus/asert.rs, and
--     Consensus/Asert/Schedule and Jump its targets by the schedule. Consensus/MedianTime, Work,
--     Merkle and Construction: what verify_timestamp, verify_block_target_and_pow,
--     verify_merkle_root and Block::new establish.
--   Utxo/Data, Authorize, Process, Validate, Wallet and Actor: src/utxo.rs (the types and checked
--     sums; owners' keys, recovery keys and the signature closure; process_block in its three phases
--     and disconnect_block; validate_transaction; get_balance and get_spendable_utxos; the commands
--     of UtxoActor). Utxo/Total, Linked, Supply, Balance and Chain: money. Utxo/Undo: undo logs.
--     Utxo/Spending: what an input of a block may spend. Utxo/Relay: the mempool against the block.
--     Utxo/Recovery: the recovery key. Utxo/Selection: coin selection. Utxo/Cache: the cache of
--     verified transactions. Utxo/Ghosts: the reconciliation of the mempool.
--   Mempool: src/mempool/blind_box.rs (add_transaction with its eviction loop, add_orphan,
--     purge_stale_transactions, remove_with_descendants, clear_pool); Mempool/Mining:
--     get_txs_for_mining; Mempool/Sweep: atomic_sweep; Mempool/Evict: the eviction; Mempool/Room: the
--     room that it makes; Mempool/Invariant and Fitting: what holds of the pool after any calls;
--     Mempool/Selected, ReadyQueue, Template, Rounds and Liveness: block templates.
--   Storage/Database and Vault: src/storage.rs (keys, values and batches; save_block_index,
--     save_header, save_block_segwit). Storage/Commit: commit_state_transition and
--     commit_state_batch. Storage/Rollback: rollback_chain. Storage/Fetch: the readers of headers,
--     blocks and undo logs. Storage/Orphans: add_orphan_block and get_orphans_by_parent, with their
--     proofs in Quarantine and Handover. Storage/Staging: stage_verified_block and purge_staged_data.
--     Storage/Fork: find_fork_lca, with its proof in Ancestor, Lowest, Converge and Parting.
--     Storage/Boot: QuantumStorage::new, with its proof in Marked, Judged, Verdicts, BestTip and
--     StartChain. Storage/Reload: load_utxo_state and prune_historical_witnesses. Storage/Disk, Mirror
--     and Reorg: the outputs on disk against the UTXO set.
--   Network/BlockTracker: src/network/block_tracker.rs, with its invariant in
--     Network/BlockTracker/Invariant and its runs in Network/BlockTracker/Runs.
--   Network/Reputation: src/network/reputation.rs; Network/Reputation/Ban, Scores and Falls.
--   Network/SyncManager and Network/SyncDebouncer: src/network/sync_manager.rs, with the proofs in
--     Network/SyncManager/Sequence and Batch and Network/SyncDebouncer/Backoff.
--   Node/State, Inspect, Reject and Receive: the consensus thread of src/main.rs, which takes blocks
--     one by one: what it shares, the checks, and what follows of them. Node/Admission, Ledger,
--     Growth and Rounds: the checks together, dropped blocks, accepted blocks and the loop over
--     orphans.
--   Miner: the hasher of the CPU miner in src/miner.rs; Miner/Midstate: against the hash of a block.
--   Prelude: tests, lists, maps, results and integers. Tests: runs on concrete inputs.
--
-- How the code is modelled. A method with `&mut self` returns the new state beside its result. A
-- `Result` is a `Result` with one constructor for each message. A hash, `[u8; 32]`, is the number
-- that its bytes spell, the most significant first. `HashMap` and `HashSet` are lists whose lookups
-- obey the laws of maps. Sums of `u64` that the source leaves unchecked wrap at 2^64, as the release
-- profile has no overflow checks; `checked_add` returns an option. The clock is an argument of every
-- call that reads it, and a call that reads it twice sees one time. Identifiers of peers and
-- requests are of any type with a test for equality. Log messages are left out.
--
-- Third-party code is the record `Primitives`: SHA-256, the encoding of transactions, and ML-DSA-65;
-- the miner's compress256 is an argument beside it.
-- No theorem takes SHA-256 to be injective: where it matters, the statement takes new identifiers as
-- a hypothesis, or its conclusion offers two nodes of the Merkle trees at hand that collide.
--
-- RocksDB is the interface `Database`: what a get returns after a put or a delete. A batch is its
-- writes in order, at once. The values are what bincode decodes, and the keys are records of their
-- parts. What an iterator yields is an argument. A call that holds the locks is one step.
--
-- Fuel: the loops over Merkle levels run for as many rounds as there are hashes, and the loop over
-- orphans for as many as the pool holds; Crypto/Merkle/Layers and Network/SyncManager/Sequence
-- show that these are enough. An eviction runs for as many rounds as there are hashes to visit, which
-- Mempool/Evict shows to be enough, and the loop that makes room for one round per key of the fee
-- index, which Mempool/Room shows to be enough. The loop that packs a template runs for the hashes
-- that are ready and, for each byte of the block, for each child, which Mempool/Rounds shows to be
-- enough. The loops of find_fork_lca run for the height of a block, and those over the ancestors of
-- a block for the size of the index, which Storage/Lowest, Converge and Marked show to be enough. The
-- loop over orphans in the consensus thread runs for one round more than the vault holds orphans,
-- which Node/Rounds shows to be enough.
--
-- Not modelled: the node's event loop and the rest of src/main.rs, with the consensus thread's branch
-- for a block of the height of the tip, the RPC server (src/rpc.rs), the loops of the miners
-- (src/miner.rs, src/gpu_miner.rs, src/bin/genesis_miner.rs), the wallet (src/wallet.rs) and the
-- libp2p behaviours (src/network/p2p.rs, src/network/wide_cbor.rs), which are input and output over
-- other packages or are left out; key generation and signing; the messages of compact blocks; the
-- flush of the database.
mod Prelude
pub mod Economics
pub mod Config
pub mod Network
pub mod Transaction
pub mod Crypto
pub mod Utxo
pub mod Block
pub mod Consensus
pub mod Mempool
pub mod Storage
pub mod Node
pub mod Miner
mod Tests
