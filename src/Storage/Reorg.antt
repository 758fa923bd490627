-- ===== src/Storage/Reorg.antt =====
-- src/storage.rs: the outputs on disk after a block is committed and rolled back.
use quantum_btc.Prelude.{
  ℕ, suc, ◌<◌, Bool, true, false, none, some, List, [], ◌∷◌, ◌++◌, length, length-append, drop,
  take, get_or, Hash, HashMap, arith, lookup, contains, nat_eq, if◌then◌else◌, ◌≡◌, refl,
  Option-cases, inl, inr, ok, ltb, ◌∙◌, ◌==◌, ◌&&◌, beq_refl,
}
use quantum_btc.Crypto.Primitives.{Primitives}
use quantum_btc.Transaction.{OutPoint, outpoint_eq}
use quantum_btc.Block.{Block, calculate_hash}
use quantum_btc.Utxo.Data.{UtxoRecord, UtxoUndoLog, UtxoState}
use quantum_btc.Utxo.Process.{process_block}
use quantum_btc.Utxo.Undo.{restored, or_else, block_outpoints, process_block-Reverts}
use quantum_btc.Storage.Database.{
  Database, key_eq, Key, write_batch, write_batch-append, utxo_key, as_undo_log, as_block, put_op,
  utxo_value, height_key, hash_key, plain_key, prefix_undo_log, prefix_core_block, chain_list,
  hashes_value,
}
use quantum_btc.Storage.Vault.{Storage}
use quantum_btc.Storage.Commit.{
  delete_spent, put_created, block_ops, utxo_ops, pointer_ops, commit_state_transition,
}
use quantum_btc.Storage.Rollback.{
  reverse_ops, kill_ops, kill_all_ops, latest_op, roll_to, rollback_chain,
}
use quantum_btc.Storage.Disk.{get_utxo, get-pointer_ops}
use quantum_btc.Storage.Mirror.{Mirrors, get_utxo-reverse_ops, commit_state_transition-Mirrors}

drop-append : {A : Type 0} (xs ys : List A) → drop (length xs) (xs ++ ys) ≡ ys
drop-append [] ys = refl
drop-append (x ∷ xs) ys = drop-append xs ys

module _ (d : Database) where
  -- The writes of outputs leave every other key alone.
  module _ (j : Key) (other : (5 == j.prefix) ≡ false) where
    get-delete_spent :
        (spent : List (OutPoint × UtxoRecord)) (db : d.Db)
        → d.get j (write_batch d (delete_spent spent) db) ≡ d.get j db
    unfolding delete_spent
    get-delete_spent [] db = refl
    get-delete_spent ((op, _) ∷ spent) db =
        ground (
          arith,
          get-delete_spent spent (d.delete (utxo_key op) db),
          d.get-delete (utxo_key op) j db,
        )

    get-put_created :
        (ops : List OutPoint) (coins : HashMap OutPoint UtxoRecord) (db : d.Db)
        → d.get j (write_batch d (put_created ops coins) db) ≡ d.get j db
    unfolding put_created
    get-put_created [] coins db = refl
    get-put_created (op ∷ ops) coins db = elim (Option-cases (lookup op coins)) [
      | inl missing ↦ ground (arith, get-put_created ops coins db)
      | inr (r, found) ↦ ground (
        arith,
        get-put_created ops coins (d.put (utxo_key op) (utxo_value r) db),
        d.get-put (utxo_key op) j (utxo_value r) db,
      )
    ]

    pub get-utxo_ops :
        (log : UtxoUndoLog) (state : UtxoState) (db : d.Db)
        → d.get j (write_batch d (utxo_ops log state) db) ≡ d.get j db
    get-utxo_ops log state db =
        rw
          (write_batch-append d (delete_spent log.spent_utxos)
            (put_created log.newly_created_outpoints state.unspent_outputs) db)
          (get-put_created log.newly_created_outpoints state.unspent_outputs
              (write_batch d (delete_spent log.spent_utxos) db)
            ∙ get-delete_spent log.spent_utxos db)

  get_utxo-kill_ops :
      (k : OutPoint) (height : ℕ) (h : Hash) (log : UtxoUndoLog) (old db : d.Db)
      → as_undo_log (d.get (height_key prefix_undo_log height h) old) ≡ some log
      → get_utxo d k (write_batch d (kill_ops d height h old) db)
        ≡ or_else
            (restored k log.spent_utxos)
            (if contains k log.newly_created_outpoints then none else get_utxo d k db)
  unfolding get_utxo
  get_utxo-kill_ops k height h log old db logged =
      rw (logged, write_batch-append d (reverse_ops (some log)))
        (simp (d.get-delete) (get_utxo-reverse_ops d k log db))

  get_utxo-latest_op :
      (k : OutPoint) (chain : List Hash) (h : Hash) (old db : d.Db)
      → get_utxo d k (
          write_batch d (put_op (plain_key chain_list) (hashes_value chain) ∷ latest_op d h old) db)
        ≡ get_utxo d k db
  unfolding get_utxo
  get_utxo-latest_op k chain h old db =
      elim (Option-cases (as_block (d.get (hash_key prefix_core_block h) old))) [
        | inl missing ↦ rw (write_batch, missing) (simp (d.get-put) refl)
        | inr (core, found) ↦ rw (write_batch, found) (simp (d.get-put) refl)
      ]

  module _ (c : Primitives) (block : Block) where
    -- Blocks, witnesses and logs on disk are those that the commit writes for the block itself.
    pub get-commit :
        (j : Key) (height work : ℕ) (log : UtxoUndoLog) (state : UtxoState) (s : Storage d)
        → (ltb 1 j.prefix && ltb j.prefix 5) ≡ true
        → d.get j (commit_state_transition c d block height log state work s).db
          ≡ d.get j (write_batch d (block_ops c block height log) s.db)
    unfolding commit_state_transition
    get-commit j height work log state s other =
        let first = write_batch d (block_ops c block height log) s.db in
        let second = write_batch d (utxo_ops log state) first in
        rw
          (write_batch-append d (utxo_ops log state) (pointer_ops c block height work s.vault)
            first)
          (get-pointer_ops d j c block height work s.vault second (ground arith)
            ∙ get-utxo_ops j (ground arith) log state first)

    undo_log-commit :
        (height work : ℕ) (log : UtxoUndoLog) (state : UtxoState) (s : Storage d)
        → as_undo_log (
            d.get
              (height_key prefix_undo_log height (calculate_hash c block))
              (commit_state_transition c d block height log state work s).db)
          ≡ some log
    undo_log-commit height work log state s =
        let key = height_key prefix_undo_log height (calculate_hash c block) in
        rw (get-commit key height work log state s refl)
          (simp (d.get-put, beq_refl ⦃e = key_eq⦄ key) refl)

    active_chain-commit :
        (height work : ℕ) (log : UtxoUndoLog) (state : UtxoState) (s : Storage d)
        → contains (calculate_hash c block) s.vault.active_chain ≡ false
        → (commit_state_transition c d block height log state work s).vault.active_chain
          ≡ s.vault.active_chain ++ calculate_hash c block ∷ []
    unfolding commit_state_transition
    active_chain-commit height work log state s new = ground arith

  rollback_chain-roll_to :
      (fork_idx : ℕ) (s : Storage d)
      → fork_idx < length s.vault.active_chain
      → rollback_chain d fork_idx s
        ≡ roll_to d fork_idx
            (drop (suc fork_idx) s.vault.active_chain)
            (take (suc fork_idx) s.vault.active_chain)
            s
  unfolding rollback_chain
  rollback_chain-roll_to fork_idx s below = ground arith

  get_utxo-rollback_chain :
      (k : OutPoint) (fork_idx : ℕ) (log : UtxoUndoLog) (chain : List Hash) (h : Hash)
      (s : Storage d)
      → s.vault.active_chain ≡ chain ++ h ∷ []
      → length chain ≡ suc fork_idx
      → as_undo_log (d.get (height_key prefix_undo_log (suc fork_idx) h) s.db) ≡ some log
      → get_utxo d k (rollback_chain d fork_idx s).db
        ≡ or_else
            (restored k log.spent_utxos)
            (if contains k log.newly_created_outpoints then none else get_utxo d k s.db)
  unfolding kill_all_ops
  get_utxo-rollback_chain k fork_idx log chain h s active size logged =
      let kept = take (suc fork_idx) s.vault.active_chain in
      let killed : drop (suc fork_idx) s.vault.active_chain ≡ h ∷ [] =
        rw (active, ← size) (drop-append chain (h ∷ [])) in
      let height : fork_idx < length s.vault.active_chain =
        rw active (omega (arith, length-append chain (h ∷ []))) in
      let middle = write_batch d (kill_ops d (suc fork_idx) h s.db) s.db in
      rw
        (
          rollback_chain-roll_to fork_idx s height,
          killed,
          write_batch-append d (kill_ops d (suc fork_idx) h s.db)
              (put_op (plain_key chain_list) (hashes_value kept)
                ∷ latest_op d (get_or kept fork_idx 0) s.db)
              s.db,
          get_utxo-latest_op k kept (get_or kept fork_idx 0) s.db middle,
        )
        (get_utxo-kill_ops k (suc fork_idx) h log s.db s.db logged)

  -- A block is committed at the height that is the length of the chain, with the undo log that its
  -- connection returned, on a database that holds exactly the outputs of the state before; it has a
  -- hash that is not in the chain, and creates no coordinates of that state. Rolling the chain back
  -- to the block before it then gives the database every output of that state and no other, but for
  -- the outputs that the block both created and spent: these come back too.
  pub rollback_chain-commit_state_transition :
      (c : Primitives) (block : Block) (hist : Bool) (u u' : UtxoState) (log : UtxoUndoLog)
      (fork_idx work : ℕ) (s : Storage d) (k : OutPoint)
      → length s.vault.active_chain ≡ suc fork_idx
      → contains (calculate_hash c block) s.vault.active_chain ≡ false
      → process_block c block.transactions (suc fork_idx) hist u ≡ (ok log, u')
      → ((op : OutPoint)
          → contains op (block_outpoints c block.transactions) ≡ true
          → lookup op u.unspent_outputs ≡ none)
      → Mirrors d s.db u
      → let committed = commit_state_transition c d block (suc fork_idx) log u' work s in
        get_utxo d k (rollback_chain d fork_idx committed).db ≡ (
          if contains k log.newly_created_outpoints
          then restored k log.spent_utxos
          else lookup k u.unspent_outputs)
  rollback_chain-commit_state_transition c block hist u u' log fork_idx work s k size new accepted
        fresh mirrors =
      let committed = commit_state_transition c d block (suc fork_idx) log u' work s in
      rw
        (
          get_utxo-rollback_chain k fork_idx log s.vault.active_chain (calculate_hash c block)
              committed (active_chain-commit c block (suc fork_idx) work log u' s new) size
              (undo_log-commit c block (suc fork_idx) work log u' s),
          commit_state_transition-Mirrors d c block (suc fork_idx) hist u u' log work s accepted
              fresh mirrors k,
        )
        (ground (
          arith,
          process_block-Reverts c block.transactions (suc fork_idx) hist u u' log k accepted fresh,
        ))
