-- ===== src/Storage/Staging.antt =====
-- src/storage.rs: the staging of verified blocks in memory before their commit, and its purge.
use quantum_btc.Prelude.{
  ℕ, true, Option, none, some, List, [], ◌∷◌, Hash, HashMap, lookup, insert, remove, contains,
  keys_where, nat_eq, if◌then◌else◌, ◌≡◌, refl, arith, lookup-insert, lookup-remove,
  contains-keys_where, Option-cases, inl, inr,
}
use quantum_btc.Crypto.Primitives.{Primitives}
use quantum_btc.Block.{Block, BlockIndex, calculate_hash}
use quantum_btc.Storage.Database.{
  Database, Value, hash_key, plain_key, prefix_block_index, chain_list, header_chain_list, as_index,
  hashes_value,
}
use quantum_btc.Storage.Vault.{Storage, push_new}
use quantum_btc.Storage.Commit.{committed_index}

-- `unwrap_or_default` on a list that is there; without one the chain stays.
abbrev pub chain_or : List Hash → Option Value → List Hash
chain_or chain none = chain
chain_or chain (some (hashes_value hs)) = hs
chain_or chain (some _) = []

abbrev pub put_back : Hash → Option BlockIndex → HashMap Hash BlockIndex → HashMap Hash BlockIndex
put_back h none indices = remove h indices
put_back h (some index) indices = insert h index indices

module _ (d : Database) where
  abbrev pub disk_index : Hash → d.Db → Option BlockIndex
  disk_index h db = as_index (d.get (hash_key prefix_block_index h) db)

  unfoldable pub stage_verified_block : Primitives → Block → ℕ → ℕ → Storage d → Storage d
  stage_verified_block c block height accumulated_work s =
      let h = calculate_hash c block in
      record s {
        vault = record s.vault {
          staged_blocks = insert h block s.vault.staged_blocks;
          map_block_index =
              insert h (committed_index c block height accumulated_work) s.vault.map_block_index;
          active_chain = push_new h s.vault.active_chain;
          header_chain = push_new h s.vault.header_chain;
        };
      }

  -- The indices of the staged blocks are those on disk again.
  unfoldable pub restore_indices :
      List Hash → d.Db → HashMap Hash BlockIndex → HashMap Hash BlockIndex
  restore_indices [] db indices = indices
  restore_indices (h ∷ hs) db indices = restore_indices hs db (put_back h (disk_index h db) indices)

  unfoldable pub purge_staged_data : Storage d → Storage d
  purge_staged_data s = record s {
    vault = record s.vault {
      map_block_index =
          restore_indices (keys_where (λ _ _. true) s.vault.staged_blocks) s.db
            s.vault.map_block_index;
      staged_blocks = [];
      active_chain = chain_or s.vault.active_chain (d.get (plain_key chain_list) s.db);
      header_chain = chain_or s.vault.header_chain (d.get (plain_key header_chain_list) s.db);
    };
  }

  -- What is staged: blocks with their heights and accumulated work, one after the other.
  pub stage_all : Primitives → List (Block × ℕ × ℕ) → Storage d → Storage d
  stage_all c [] s = s
  stage_all c ((block, height, work) ∷ rest) s =
      stage_all c rest (stage_verified_block c block height work s)

  -- Nothing is staged, and memory and disk agree on the indices and the two chains.
  pub record IsSynced (s : Storage d) : Type 0 where
    pub nothing_staged : s.vault.staged_blocks ≡ []
    pub indices : (h : Hash) → lookup h s.vault.map_block_index ≡ disk_index h s.db
    pub active : d.get (plain_key chain_list) s.db ≡ some (hashes_value s.vault.active_chain)
    pub header : d.get (plain_key header_chain_list) s.db ≡ some (hashes_value s.vault.header_chain)

  -- The vault of a storage with another one's database, but for what is staged.
  record IsStagedOn (db : d.Db) (s : Storage d) : Type 0 where
    same_db : s.db ≡ db
    unstaged :
        (h : Hash)
        → lookup h s.vault.staged_blocks ≡ none
        → lookup h s.vault.map_block_index ≡ disk_index h db

  lookup-restore_indices :
      (hs : List Hash) (h : Hash) (db : d.Db) (indices : HashMap Hash BlockIndex)
      → lookup h (restore_indices hs db indices)
        ≡ (if contains h hs then disk_index h db else lookup h indices)
  unfolding restore_indices contains
  lookup-restore_indices [] h db indices = refl
  lookup-restore_indices (k ∷ hs) h db indices = elim (Option-cases (disk_index k db)) [
    | inl missing ↦
        ground (arith, lookup-restore_indices hs h db (remove k indices), lookup-remove k h indices)
    | inr (index, found) ↦ ground (
      arith,
      lookup-restore_indices hs h db (insert k index indices),
      lookup-insert k h index indices,
    )
  ]

  module _ (c : Primitives) where
    stage-IsStagedOn :
        (db : d.Db) (block : Block) (height work : ℕ) (s : Storage d)
        → IsStagedOn db s
        → IsStagedOn db (stage_verified_block c block height work s)
    unfolding stage_verified_block
    stage-IsStagedOn db block height work s x =
        let h = calculate_hash c block in
        record {
          same_db = x.same_db;
          unstaged = λ k free. ground (
            arith,
            rw (lookup-insert h k block s.vault.staged_blocks) at free,
            lookup-insert h k (committed_index c block height work) s.vault.map_block_index,
            x.unstaged k,
          );
        }

    stage_all-IsStagedOn :
        (db : d.Db) (blocks : List (Block × ℕ × ℕ)) (s : Storage d)
        → IsStagedOn db s
        → IsStagedOn db (stage_all c blocks s)
    unfolding stage_all
    stage_all-IsStagedOn db [] s x = x
    stage_all-IsStagedOn db ((block, height, work) ∷ rest) s x =
        stage_all-IsStagedOn db rest (stage_verified_block c block height work s)
          (stage-IsStagedOn db block height work s x)

    -- The same database, look-ups of indices and chains.
    pub record SameView (s t : Storage d) : Type 0 where
      pub db : s.db ≡ t.db
      pub indices : (h : Hash) → lookup h s.vault.map_block_index ≡ lookup h t.vault.map_block_index
      pub active : s.vault.active_chain ≡ t.vault.active_chain
      pub header : s.vault.header_chain ≡ t.vault.header_chain
      pub staged : s.vault.staged_blocks ≡ t.vault.staged_blocks

    -- If nothing is staged and memory and disk agree on the block indices and the two chains, then
    -- staging any blocks and purging them leaves the database, every index, both chains and the
    -- staging area as they were.
    pub purge_staged_data-stage_all :
        (blocks : List (Block × ℕ × ℕ)) (s : Storage d)
        → IsSynced s
        → SameView (purge_staged_data (stage_all c blocks s)) s
    unfolding purge_staged_data
    purge_staged_data-stage_all blocks s x =
        let t = stage_all c blocks s in
        let staged =
          stage_all-IsStagedOn s.db blocks s
            (record { same_db = refl; unstaged = λ h _. x.indices h }) in
        let keys = keys_where (λ _ _. true) t.vault.staged_blocks in
        record {
          db = staged.same_db;
          indices = λ h. ground (
            arith,
            lookup-restore_indices keys h t.db t.vault.map_block_index,
            contains-keys_where (λ _ _. true) h t.vault.staged_blocks,
            staged.unstaged h,
            staged.same_db,
            x.indices h,
          );
          active = rw (staged.same_db, x.active) refl;
          header = rw (staged.same_db, x.header) refl;
          staged = rw (x.nothing_staged) refl;
        }
