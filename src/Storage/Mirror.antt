-- ===== src/Storage/Mirror.antt =====
-- src/storage.rs: the outputs on disk follow those in memory when a block is committed; what a
-- rollback of that block leaves of them.
use quantum_btc.Prelude.{
  ℕ, Bool, true, none, some, is_some, arith, lookup, contains, nat_eq, if◌then◌else◌, ◌≡◌, refl, ok,
}
use quantum_btc.Crypto.Primitives.{Primitives}
use quantum_btc.Transaction.{OutPoint, outpoint_eq}
use quantum_btc.Block.{Block}
use quantum_btc.Utxo.Data.{UtxoUndoLog, UtxoState}
use quantum_btc.Utxo.Process.{process_block}
use quantum_btc.Utxo.Undo.{restored, or_else, block_outpoints, process_block-Reverts}
use quantum_btc.Storage.Database.{Database, write_batch, write_batch-append}
use quantum_btc.Storage.Vault.{Storage}
use quantum_btc.Storage.Commit.{
  delete_spent, put_created, block_ops, utxo_ops, pointer_ops, commit_state_transition,
}
use quantum_btc.Storage.Rollback.{delete_created, put_spent, reverse_ops}
use quantum_btc.Storage.Disk.{
  get_utxo, get_utxo-delete_spent, get_utxo-put_created, get_utxo-delete_created,
  get_utxo-put_spent, get_utxo-block_ops, get_utxo-pointer_ops,
}

module _ (d : Database) where
  -- The database holds exactly the outputs of the state.
  abbrev pub Mirrors : d.Db → UtxoState → Type 0
  Mirrors db state = (k : OutPoint) → get_utxo d k db ≡ lookup k state.unspent_outputs

  get_utxo-utxo_ops :
      (k : OutPoint) (log : UtxoUndoLog) (state : UtxoState) (db : d.Db)
      → get_utxo d k (write_batch d (utxo_ops log state) db)
        ≡ or_else
            (if contains k log.newly_created_outpoints
              then lookup k state.unspent_outputs
              else none)
            (if is_some (restored k log.spent_utxos) then none else get_utxo d k db)
  get_utxo-utxo_ops k log state db =
      rw
        (write_batch-append d (delete_spent log.spent_utxos)
          (put_created log.newly_created_outpoints state.unspent_outputs) db)
        (rw (← get_utxo-delete_spent d k log.spent_utxos db) (
          get_utxo-put_created d k log.newly_created_outpoints state.unspent_outputs
            (write_batch d (delete_spent log.spent_utxos) db)))

  pub get_utxo-reverse_ops :
      (k : OutPoint) (log : UtxoUndoLog) (db : d.Db)
      → get_utxo d k (write_batch d (reverse_ops (some log)) db)
        ≡ or_else
            (restored k log.spent_utxos)
            (if contains k log.newly_created_outpoints then none else get_utxo d k db)
  get_utxo-reverse_ops k log db =
      rw
        (write_batch-append d (delete_created log.newly_created_outpoints)
          (put_spent log.spent_utxos) db)
        (rw (← get_utxo-delete_created d k log.newly_created_outpoints db) (
          get_utxo-put_spent d k log.spent_utxos
            (write_batch d (delete_created log.newly_created_outpoints) db)))

  module _ (c : Primitives) (block : Block) (height : ℕ) where
    get_utxo-commit :
        (k : OutPoint) (log : UtxoUndoLog) (state : UtxoState) (work : ℕ) (s : Storage d)
        → get_utxo d k (commit_state_transition c d block height log state work s).db
          ≡ or_else
              (if contains k log.newly_created_outpoints
                then lookup k state.unspent_outputs
                else none)
              (if is_some (restored k log.spent_utxos) then none else get_utxo d k s.db)
    unfolding commit_state_transition
    get_utxo-commit k log state work s =
        let first = write_batch d (block_ops c block height log) s.db in
        let second = write_batch d (utxo_ops log state) first in
        rw
          (
            write_batch-append d (utxo_ops log state) (pointer_ops c block height work s.vault)
                first,
            get_utxo-pointer_ops d k c block height work s.vault second,
            get_utxo-utxo_ops k log state first,
            get_utxo-block_ops d k c block height log s.db,
          )
          refl

    -- If the database holds exactly the outputs of the state before a block, it holds exactly those
    -- of the state after the block once the block is committed with its undo log, if none of the
    -- coordinates that the block creates was in the state before.
    pub commit_state_transition-Mirrors :
        (hist : Bool) (u u' : UtxoState) (log : UtxoUndoLog) (work : ℕ) (s : Storage d)
        → process_block c block.transactions height hist u ≡ (ok log, u')
        → ((op : OutPoint)
            → contains op (block_outpoints c block.transactions) ≡ true
            → lookup op u.unspent_outputs ≡ none)
        → Mirrors s.db u
        → Mirrors (commit_state_transition c d block height log u' work s).db u'
    commit_state_transition-Mirrors hist u u' log work s accepted fresh mirrors k =
        rw (get_utxo-commit k log u' work s, mirrors k)
          (ground (
            arith,
            process_block-Reverts c block.transactions height hist u u' log k accepted fresh,
          ))
