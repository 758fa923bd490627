-- ===== src/Storage/Rollback.antt =====
-- src/storage.rs: `rollback_chain`, which takes the blocks above a height off the chain.
use quantum_btc.Prelude.{
  ℕ, suc, false, Option, none, some, List, [], ◌∷◌, ◌++◌, length, get_or, take, drop, Hash, HashMap,
  lookup, insert, nat_eq, ltb, if◌then◌else◌,
}
use quantum_btc.Transaction.{OutPoint}
use quantum_btc.Block.{BlockIndex}
use quantum_btc.Utxo.Data.{UtxoRecord, UtxoUndoLog}
use quantum_btc.Storage.Database.{
  Database, Op, put_op, delete_op, write_batch, hash_key, height_key, plain_key, utxo_key,
  prefix_core_block, prefix_witness, prefix_undo_log, latest_block_head, chain_list, block_value,
  utxo_value, hashes_value, as_block, as_undo_log,
}
use quantum_btc.Storage.Vault.{Storage}

-- The created outputs are deleted first.
unfoldable pub delete_created : List OutPoint → List Op
delete_created [] = []
delete_created (op ∷ ops) = delete_op (utxo_key op) ∷ delete_created ops

-- The spent outputs are written back after them.
unfoldable pub put_spent : List (OutPoint × UtxoRecord) → List Op
put_spent [] = []
put_spent ((op, r) ∷ spent) = put_op (utxo_key op) (utxo_value r) ∷ put_spent spent

abbrev pub reverse_ops : Option UtxoUndoLog → List Op
reverse_ops none = []
reverse_ops (some log) = delete_created log.newly_created_outpoints ++ put_spent log.spent_utxos

-- `if let Some(idx) = map_block_index.get_mut(h) { idx.has_data = false }`
abbrev pub demote : Hash → HashMap Hash BlockIndex → HashMap Hash BlockIndex
demote h indices = elim (lookup h indices) [
  | none ↦ indices
  | some index ↦ insert h (record index { has_data = false }) indices
]

unfoldable pub demote_all : List Hash → HashMap Hash BlockIndex → HashMap Hash BlockIndex
demote_all [] indices = indices
demote_all (h ∷ hs) indices = demote h (demote_all hs indices)

module _ (d : Database) where
  -- The writes that take off the block at one height of the chain.
  abbrev pub kill_ops : ℕ → Hash → d.Db → List Op
  kill_ops height h db =
      reverse_ops (as_undo_log (d.get (height_key prefix_undo_log height h) db))
      ++ delete_op (hash_key prefix_core_block h)
        ∷ delete_op (height_key prefix_witness height h)
        ∷ delete_op (height_key prefix_undo_log height h)
        ∷ []

  -- The blocks above the fork, with the height of the first; the last is taken off first.
  unfoldable pub kill_all_ops : ℕ → List Hash → d.Db → List Op
  kill_all_ops height [] db = []
  kill_all_ops height (h ∷ hs) db = kill_all_ops (suc height) hs db ++ kill_ops height h db

  -- The core block at the fork becomes the latest, if the database has it.
  abbrev pub latest_op : Hash → d.Db → List Op
  latest_op h db = elim (as_block (d.get (hash_key prefix_core_block h) db)) [
    | none ↦ []
    | some core ↦ put_op (plain_key latest_block_head) (block_value core) ∷ []
  ]

  -- One batch for all blocks that are taken off; the chain is then what is kept.
  abbrev pub roll_to : ℕ → List Hash → List Hash → Storage d → Storage d
  roll_to fork_idx killed kept s = record {
    db =
        write_batch d
          (kill_all_ops (suc fork_idx) killed s.db
            ++ put_op (plain_key chain_list) (hashes_value kept)
              ∷ latest_op (get_or kept fork_idx 0) s.db)
          s.db;
    vault = record s.vault {
      map_block_index = demote_all killed s.vault.map_block_index;
      active_chain = kept;
    };
  }

  unfoldable pub rollback_chain : ℕ → Storage d → Storage d
  rollback_chain fork_idx s =
      let chain = s.vault.active_chain in
      if ltb fork_idx (length chain)
      then roll_to fork_idx (drop (suc fork_idx) chain) (take (suc fork_idx) chain) s
      else s
