-- ===== src/Storage/Commit.antt =====
-- src/storage.rs: the commits of a block, or of several, as one batch of writes.
use quantum_btc.Prelude.{
  ℕ, true, none, some, List, [], ◌∷◌, ◌++◌, Hash, HashMap, lookup, insert, contains, nat_eq,
  if◌then◌else◌,
}
use quantum_btc.Crypto.Primitives.{Primitives}
use quantum_btc.Transaction.{OutPoint, outpoint_eq}
use quantum_btc.Block.{Block, BlockIndex, calculate_hash}
use quantum_btc.Utxo.Data.{UtxoRecord, UtxoUndoLog, UtxoState}
use quantum_btc.Storage.Database.{
  Database, Op, put_op, delete_op, write_batch, hash_key, height_key, plain_key, utxo_key,
  prefix_header, prefix_block_index, prefix_core_block, prefix_witness, prefix_undo_log,
  latest_block_head, chain_list, header_chain_list, header_value, index_value, block_value,
  witness_value, undo_value, utxo_value, hashes_value,
}
use quantum_btc.Storage.Vault.{MemoryVault, Storage, core_of, witnesses_of, push_new}

-- Phase A: the spent outputs are deleted.
unfoldable pub delete_spent : List (OutPoint × UtxoRecord) → List Op
delete_spent [] = []
delete_spent ((op, _) ∷ spent) = delete_op (utxo_key op) ∷ delete_spent spent

-- Phase B: of the created outputs, those that the state still holds are written.
unfoldable pub put_created : List OutPoint → HashMap OutPoint UtxoRecord → List Op
put_created [] coins = []
put_created (op ∷ ops) coins = elim (lookup op coins) [
  | none ↦ put_created ops coins
  | some r ↦ put_op (utxo_key op) (utxo_value r) ∷ put_created ops coins
]

abbrev pub committed_index : Primitives → Block → ℕ → ℕ → BlockIndex
committed_index c block height accumulated_work = record {
  block_hash = calculate_hash c block;
  header = block.header;
  height = height;
  chain_work = accumulated_work;
  has_data = true;
}

-- The writes for the block itself.
abbrev pub block_ops : Primitives → Block → ℕ → UtxoUndoLog → List Op
block_ops c block height log =
    let h = calculate_hash c block in
    put_op (hash_key prefix_core_block h) (block_value (core_of block))
    ∷ put_op (height_key prefix_witness height h) (witness_value (witnesses_of block))
    ∷ put_op (hash_key prefix_header h) (header_value block.header)
    ∷ put_op (height_key prefix_undo_log height h) (undo_value log)
    ∷ []

abbrev pub utxo_ops : UtxoUndoLog → UtxoState → List Op
utxo_ops log state =
    delete_spent log.spent_utxos ++ put_created log.newly_created_outpoints state.unspent_outputs

pub record BatchCommitInstruction : Type 0 where
  pub block : Block
  pub height : ℕ
  pub undo_log : UtxoUndoLog
  pub accumulated_work : ℕ

abbrev pub last_core : BatchCommitInstruction → List BatchCommitInstruction → Block
last_core inst [] = core_of inst.block
last_core inst (next ∷ rest) = last_core next rest

module _ (c : Primitives) where
  abbrev pub pointer_ops : Block → ℕ → ℕ → MemoryVault → List Op
  pointer_ops block height accumulated_work v =
      let h = calculate_hash c block in
      put_op (plain_key latest_block_head) (block_value (core_of block))
        ∷ (if contains h v.active_chain
            then []
            else put_op (plain_key chain_list) (hashes_value (push_new h v.active_chain)) ∷ [])
      ++ (if contains h v.header_chain
          then []
          else put_op (plain_key header_chain_list) (hashes_value (push_new h v.header_chain)) ∷ [])
      ++ put_op (hash_key prefix_block_index h)
          (index_value (committed_index c block height accumulated_work))
        ∷ []

  -- The writes of all instructions; the outputs are those of the final state.
  unfoldable pub instruction_ops : List BatchCommitInstruction → UtxoState → List Op
  instruction_ops [] state = []
  instruction_ops (inst ∷ rest) state =
      block_ops c inst.block inst.height inst.undo_log
      ++ utxo_ops inst.undo_log state
      ++ put_op (hash_key prefix_block_index (calculate_hash c inst.block))
          (index_value (committed_index c inst.block inst.height inst.accumulated_work))
        ∷ instruction_ops rest state

  unfoldable pub push_blocks : List BatchCommitInstruction → List Hash → List Hash
  push_blocks [] chain = chain
  push_blocks (inst ∷ rest) chain = push_blocks rest (push_new (calculate_hash c inst.block) chain)

module _ (c : Primitives) (d : Database) where
  unfoldable pub commit_state_transition :
      Block → ℕ → UtxoUndoLog → UtxoState → ℕ → Storage d → Storage d
  commit_state_transition block height log state accumulated_work s =
      let h = calculate_hash c block in
      record {
        db =
            write_batch d
              (block_ops c block height log
                ++ utxo_ops log state
                ++ pointer_ops c block height accumulated_work s.vault)
              s.db;
        vault = record s.vault {
          active_chain = push_new h s.vault.active_chain;
          header_chain = push_new h s.vault.header_chain;
          map_block_index =
              insert h (committed_index c block height accumulated_work) s.vault.map_block_index;
        };
      }

  unfoldable pub commit_state_batch :
      List BatchCommitInstruction → UtxoState → Storage d → Storage d
  commit_state_batch [] final_state s = s
  commit_state_batch (inst ∷ rest) final_state s =
      let active_chain_snap = push_blocks c (inst ∷ rest) s.vault.active_chain in
      let header_chain_snap = push_blocks c (inst ∷ rest) s.vault.header_chain in
      record {
        db =
            write_batch d
              (instruction_ops c (inst ∷ rest) final_state
                ++ put_op (plain_key latest_block_head) (block_value (last_core inst rest))
                  ∷ put_op (plain_key chain_list) (hashes_value active_chain_snap)
                  ∷ put_op (plain_key header_chain_list) (hashes_value header_chain_snap)
                  ∷ [])
              s.db;
        vault = record s.vault {
          staged_blocks = [];
          active_chain = active_chain_snap;
          header_chain = header_chain_snap;
        };
      }
