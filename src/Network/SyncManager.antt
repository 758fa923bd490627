-- ===== src/Network/SyncManager.antt =====
-- src/network/sync_manager.rs: blocks in order of height, with a pool of orphans. A block's data is
-- of any type.
pub mod Sequence
pub mod Batch
use quantum_btc.Prelude.{
  ℕ, zero, suc, ◌+◌, ◌%◌, Option, none, some, List, [], ◌∷◌, length, HashMap, lookup, insert,
  remove, nat_eq, u64_mod, leb, ◌==◌, if◌then◌else◌,
}

-- `rejected` is the source's `Rejected("Stale block")`.
pub data SyncResult : Type 0 where
  accepted buffered_as_orphan rejected : SyncResult

pub record SyncManager (Data : Type 0) : Type 0 where
  pub current_height : ℕ
  pub orphan_pool : HashMap ℕ Data

abbrev pub count : SyncResult → ℕ × ℕ → ℕ × ℕ
count accepted (a, b) = (a + 1, b)
count buffered_as_orphan (a, b) = (a, b + 1)
count rejected (a, b) = (a, b)

module _ {Data : Type 0} where
  abbrev pub new : ℕ → SyncManager Data
  new start_height = record { current_height = start_height; orphan_pool = [] }

  -- The `while` loop, for at most so many rounds: each one takes an orphan out of the pool. Heights
  -- are added as `u64`.
  unfoldable pub resolve : ℕ → SyncManager Data → SyncManager Data
  resolve zero m = m
  resolve (suc rounds) m =
      let next_expected = (m.current_height + 1) % u64_mod in
      let rest = resolve rounds (record {
        current_height = next_expected;
        orphan_pool = remove next_expected m.orphan_pool;
      }) in
      elim (lookup next_expected m.orphan_pool) [ none ↦ m | some _ ↦ rest ]

  -- As many rounds as there are orphans are enough.
  unfoldable pub process_incoming_block :
      ℕ → Data → SyncManager Data → SyncManager Data × SyncResult
  unfolding resolve
  process_incoming_block block_height block_data m =
      if leb block_height m.current_height
      then (m, rejected)
      else if block_height == (m.current_height + 1) % u64_mod
      then (resolve (length m.orphan_pool) (record m { current_height = block_height }), accepted)
      else (
        record m { orphan_pool = insert block_height block_data m.orphan_pool },
        buffered_as_orphan,
      )

  -- The loop of `process_batch`, with its two counters.
  unfoldable pub process_all :
      List (ℕ × Data) → SyncManager Data × (ℕ × ℕ) → SyncManager Data × (ℕ × ℕ)
  process_all [] (m, counts) = (m, counts)
  process_all ((height, block) ∷ batch) (m, counts) =
      let (m', result) = process_incoming_block height block m in
      process_all batch (m', count result counts)

  unfoldable pub process_batch : List (ℕ × Data) → SyncManager Data → SyncManager Data × (ℕ × ℕ)
  unfolding process_all
  process_batch batch m = process_all batch (m, (0, 0))
