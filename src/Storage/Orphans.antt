-- ===== src/Storage/Orphans.antt =====
-- src/storage.rs: the blocks that wait for their parent, and the index of them by parent.
use quantum_btc.Prelude.{
  ℕ, ◌≤◌, Bool, true, false, not, Option, none, some, List, [], ◌∷◌, ◌++◌, is_empty, length, filter,
  Hash, HashMap, lookup, insert, remove, contains, contains_key, nat_eq, leb, ◌==◌, if◌then◌else◌,
  ◌≡◌,
}
use quantum_btc.Crypto.Primitives.{Primitives}
use quantum_btc.Block.{Block, calculate_hash}
use quantum_btc.Storage.Vault.{MemoryVault}

abbrev pub max_orphan_blocks : ℕ
max_orphan_blocks = 50

abbrev pub or_nothing : Option (List Hash) → List Hash
or_nothing none = []
or_nothing (some hs) = hs

-- The list of a parent is replaced, or goes if it is empty.
abbrev pub set_list : Hash → List Hash → HashMap Hash (List Hash) → HashMap Hash (List Hash)
set_list parent hs by_prev = if is_empty hs then remove parent by_prev else insert parent hs by_prev

abbrev pub forget_waiting : Hash → Hash → HashMap Hash (List Hash) → HashMap Hash (List Hash)
forget_waiting parent h by_prev = elim (lookup parent by_prev) [
  | none ↦ by_prev
  | some hs ↦ set_list parent (filter (λ k. not (k == h)) hs) by_prev
]

-- `keys().next()` is the first key of the list.
abbrev pub drop_orphan : Hash → Block → MemoryVault → MemoryVault
drop_orphan random_key evicted_block v = record v {
  map_orphan_blocks = remove random_key v.map_orphan_blocks;
  map_orphan_blocks_by_prev =
      forget_waiting evicted_block.header.previous_hash random_key v.map_orphan_blocks_by_prev;
}

unfoldable pub evict_orphan : MemoryVault → MemoryVault
evict_orphan v = elim v.map_orphan_blocks [ [] ↦ v | entry ∷ _ ↦ drop_orphan entry.0 entry.1 v ]

abbrev pub quarantine : Hash → Block → MemoryVault → MemoryVault
quarantine h block v =
    let parent = block.header.previous_hash in
    record v {
      map_orphan_blocks = insert h block v.map_orphan_blocks;
      map_orphan_blocks_by_prev =
          insert parent (or_nothing (lookup parent v.map_orphan_blocks_by_prev) ++ h ∷ [])
            v.map_orphan_blocks_by_prev;
    }

abbrev pub make_room_for_orphan : MemoryVault → MemoryVault
make_room_for_orphan v =
    if leb max_orphan_blocks (length v.map_orphan_blocks) then evict_orphan v else v

unfoldable pub add_orphan_block : Primitives → Block → MemoryVault → Bool × MemoryVault
add_orphan_block c block v =
    let h = calculate_hash c block in
    let room = make_room_for_orphan v in
    if contains_key h room.map_orphan_blocks then (false, room) else (true, quarantine h block room)

-- The blocks of the hashes, in order, and what is left.
unfoldable pub take_orphans : List Hash → HashMap Hash Block → List Block × HashMap Hash Block
take_orphans [] orphans = ([], orphans)
take_orphans (h ∷ hs) orphans = elim (lookup h orphans) [
  | none ↦ take_orphans hs orphans
  | some block ↦ let rest = take_orphans hs (remove h orphans) in (block ∷ rest.0, rest.1)
]

unfoldable pub get_orphans_by_parent : Hash → MemoryVault → List Block × MemoryVault
get_orphans_by_parent parent v = elim (lookup parent v.map_orphan_blocks_by_prev) [
  | none ↦ ([], v)
  | some hs ↦
      let taken = take_orphans hs v.map_orphan_blocks in
      (
        taken.0,
        record v {
          map_orphan_blocks = taken.1;
          map_orphan_blocks_by_prev = remove parent v.map_orphan_blocks_by_prev;
        },
      )
]

-- The hashes that wait for a parent.
abbrev pub waiting_for : Hash → MemoryVault → List Hash
waiting_for parent v = or_nothing (lookup parent v.map_orphan_blocks_by_prev)

-- Every orphan waits for its parent and for no other, and what waits is an orphan; there are at
-- most 50 of them.
pub record IsOrphanPool (v : MemoryVault) : Type 0 where
  pub listed :
      (h : Hash) (block : Block)
      → lookup h v.map_orphan_blocks ≡ some block
      → contains h (waiting_for block.header.previous_hash v) ≡ true
  pub known :
      (parent h : Hash)
      → contains h (waiting_for parent v) ≡ true
      → (block : Block) × (lookup h v.map_orphan_blocks ≡ some block)
        × (block.header.previous_hash ≡ parent)
  pub capped : length v.map_orphan_blocks ≤ max_orphan_blocks
