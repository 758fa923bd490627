-- ===== src/Storage/Fetch.antt =====
-- src/storage.rs: reading headers and blocks back. The witnesses of a block are stored under its
-- height, apart from the block.
use quantum_btc.Prelude.{
  ℕ, Bool, Option, none, some, List, [], ◌∷◌, map, drop, take, Hash, lookup, nat_eq, if◌then◌else◌,
  ◌≡◌, refl, ap, arith, beq_refl, lookup-insert,
}
use quantum_btc.Crypto.Primitives.{Primitives}
use quantum_btc.Transaction.{Transaction, TxWitness}
use quantum_btc.Block.{BlockHeader, Block, BlockIndex, calculate_hash}
use quantum_btc.Utxo.Data.{UtxoUndoLog, UtxoState}
use quantum_btc.Storage.Database.{
  Database, key_eq, hash_key, height_key, plain_key, prefix_header, prefix_core_block,
  prefix_witness, prefix_undo_log, latest_block_head, undo_value, as_header, as_block, as_witnesses,
  as_undo_log,
}
use quantum_btc.Storage.Vault.{Storage, get_block_index, strip, core_of, witnesses_of}
use quantum_btc.Storage.Commit.{committed_index, commit_state_transition}
use quantum_btc.Storage.Reorg.{get-commit}

-- `tx.witnesses = tx_witnesses[tx_idx]` for each index that both lists have.
unfoldable pub reassemble : List Transaction → List (List TxWitness) → List Transaction
reassemble [] payload = []
reassemble (tx ∷ txs) [] = tx ∷ txs
reassemble (tx ∷ txs) (ws ∷ payload) = record tx { witnesses = ws } ∷ reassemble txs payload

abbrev pub with_witnesses : Option (List (List TxWitness)) → Block → Block
with_witnesses none b = b
with_witnesses (some payload) b = record b { transactions = reassemble b.transactions payload }

abbrev pub height_or_zero : Option BlockIndex → ℕ
height_or_zero none = 0
height_or_zero (some index) = index.height

-- The values that are there.
abbrev pub keep_some : {A : Type 0} → Option A → List A → List A
keep_some none xs = xs
keep_some (some x) xs = x ∷ xs

module _ (d : Database) where
  abbrev pub get_header : Hash → Storage d → Option BlockHeader
  get_header h s = as_header (d.get (hash_key prefix_header h) s.db)

  abbrev pub get_latest_block : Storage d → Option Block
  get_latest_block s = as_block (d.get (plain_key latest_block_head) s.db)

  abbrev pub save_undo_log : ℕ → Hash → UtxoUndoLog → Storage d → Storage d
  save_undo_log height h log s = record s {
    db = d.put (height_key prefix_undo_log height h) (undo_value log) s.db;
  }

  abbrev pub get_undo_log : ℕ → Hash → Storage d → Option UtxoUndoLog
  get_undo_log height h s = as_undo_log (d.get (height_key prefix_undo_log height h) s.db)

  -- `start..min(start + limit, chain.len())`
  abbrev pub slice : ℕ → ℕ → List Hash → List Hash
  slice start limit chain = take limit (drop start chain)

  unfoldable pub headers_of : List Hash → Storage d → List BlockHeader
  headers_of [] s = []
  headers_of (h ∷ hs) s = keep_some (get_header h s) (headers_of hs s)

  abbrev pub get_headers_after_index : ℕ → ℕ → Storage d → List BlockHeader
  get_headers_after_index start limit s = headers_of (slice start limit s.vault.header_chain) s

  -- What the database holds of a block, without its witnesses or with them.
  unfoldable pub read_block : Hash → Bool → Storage d → Option Block
  read_block h core_only s = elim (as_block (d.get (hash_key prefix_core_block h) s.db)) [
    | none ↦ none
    | some block ↦
        let height = height_or_zero (get_block_index d h s) in
        let payload = as_witnesses (d.get (height_key prefix_witness height h) s.db) in
        if core_only then some (core_of block) else some (with_witnesses payload block)
  ]

  unfoldable pub blocks_of : List Hash → Bool → Storage d → List Block
  blocks_of [] core_only s = []
  blocks_of (h ∷ hs) core_only s = keep_some (read_block h core_only s) (blocks_of hs core_only s)

  abbrev pub get_blocks_after_index : ℕ → ℕ → Bool → Storage d → List Block
  get_blocks_after_index start limit core_only s =
      blocks_of (slice start limit s.vault.active_chain) core_only s

  -- A staged block comes first.
  unfoldable pub get_block_by_hash : Hash → Bool → Storage d → Option Block
  get_block_by_hash h core_only s = elim (lookup h s.vault.staged_blocks) [
    | some staged ↦ if core_only then some (core_of staged) else some staged
    | none ↦ read_block h core_only s
  ]

  reassemble-strip :
      (txs : List Transaction)
      → reassemble (map strip txs) (map (λ (tx : Transaction). tx.witnesses) txs) ≡ txs
  unfolding reassemble
  reassemble-strip [] = refl
  reassemble-strip (tx ∷ txs) = ap (λ rest. tx ∷ rest) (reassemble-strip txs)

  strip-strip : (txs : List Transaction) → map strip (map strip txs) ≡ map strip txs
  strip-strip [] = refl
  strip-strip (tx ∷ txs) = ap (λ rest. strip tx ∷ rest) (strip-strip txs)

  get_block_by_hash-unstaged :
      (h : Hash) (core_only : Bool) (s : Storage d)
      → lookup h s.vault.staged_blocks ≡ none
      → get_block_by_hash h core_only s ≡ read_block h core_only s
  unfolding get_block_by_hash
  get_block_by_hash-unstaged h core_only s unstaged = ground arith

  read_block-some :
      (h : Hash) (core_only : Bool) (s : Storage d) (core : Block) (height : ℕ)
      (payload : List (List TxWitness))
      → as_block (d.get (hash_key prefix_core_block h) s.db) ≡ some core
      → height_or_zero (get_block_index d h s) ≡ height
      → as_witnesses (d.get (height_key prefix_witness height h) s.db) ≡ some payload
      → read_block h core_only s
        ≡ (if core_only then some (core_of core) else some (with_witnesses (some payload) core))
  unfolding read_block
  read_block-some h core_only s core height payload stored known held =
      rw (read_block, stored, known, held) refl

  module _ (c : Primitives) (block : Block) (height work : ℕ) (log : UtxoUndoLog)
      (state : UtxoState) (s : Storage d) where
    abbrev committed : Storage d
    committed = commit_state_transition c d block height log state work s

    height-commit : height_or_zero (get_block_index d (calculate_hash c block) committed) ≡ height
    unfolding commit_state_transition
    height-commit =
        let h = calculate_hash c block in
        rw
          (
            lookup-insert h h (committed_index c block height work) s.vault.map_block_index,
            beq_refl h,
          )
          refl

    core-commit :
        as_block (d.get (hash_key prefix_core_block (calculate_hash c block)) committed.db)
        ≡ some (core_of block)
    core-commit =
        let key = hash_key prefix_core_block (calculate_hash c block) in
        rw (get-commit d c block key height work log state s refl)
          (simp (d.get-put, beq_refl ⦃e = key_eq⦄ key) refl)

    witnesses-commit :
        as_witnesses
          (d.get (height_key prefix_witness height (calculate_hash c block)) committed.db)
        ≡ some (witnesses_of block)
    witnesses-commit =
        let key = height_key prefix_witness height (calculate_hash c block) in
        rw (get-commit d c block key height work log state s refl)
          (simp (d.get-put, beq_refl ⦃e = key_eq⦄ key) refl)

    unstaged-commit :
        lookup (calculate_hash c block) s.vault.staged_blocks ≡ none
        → lookup (calculate_hash c block) committed.vault.staged_blocks ≡ none
    unfolding commit_state_transition
    unstaged-commit unstaged = unstaged

    -- A committed block that is not staged is read back by its hash as it was, witnesses included, or
    -- without its witnesses if only the core is asked for.
    pub get_block_by_hash-commit_state_transition :
        (core_only : Bool)
        → lookup (calculate_hash c block) s.vault.staged_blocks ≡ none
        → get_block_by_hash
            (calculate_hash c block)
            core_only
            (commit_state_transition c d block height log state work s)
          ≡ some (if core_only then core_of block else block)
    get_block_by_hash-commit_state_transition core_only unstaged =
        let read =
          read_block-some (calculate_hash c block) core_only committed (core_of block) height
            (witnesses_of block) core-commit height-commit witnesses-commit in
        let whole : with_witnesses (some (witnesses_of block)) (core_of block) ≡ block =
          ap (λ txs. record block { transactions = txs }) (reassemble-strip block.transactions) in
        let bare : core_of (core_of block) ≡ core_of block =
          ap (λ txs. record block { transactions = txs }) (strip-strip block.transactions) in
        rw
          (
            get_block_by_hash-unstaged (calculate_hash c block) core_only committed
                (unstaged-commit unstaged),
            read,
            whole,
            bare,
          )
          (ground arith)
