-- ===== src/Storage/Fork.antt =====
-- src/storage.rs: `find_fork_lca`, the search for the block at which two chains part.
use quantum_btc.Prelude.{
  ℕ, zero, suc, true, false, ◌||◌, Option, none, some, Hash, HashMap, lookup, nat_eq, ltb, leb,
  ◌==◌, if◌then◌else◌,
}
use quantum_btc.Block.{BlockIndex}
use quantum_btc.Storage.Vault.{MemoryVault}

-- The index of a hash, in the overlay first.
abbrev pub get_idx : HashMap Hash BlockIndex → MemoryVault → Hash → Option BlockIndex
get_idx overlay v h = elim (lookup h overlay) [
  | some index ↦ some index
  | none ↦ lookup h v.map_block_index
]

abbrev pub parent_of : (Hash → Option BlockIndex) → BlockIndex → Option BlockIndex
parent_of get node = get node.header.previous_hash

module _ (get : Hash → Option BlockIndex) where
  -- The loop that goes back to the height of the other block. A round lowers the height, so the
  -- height is rounds enough.
  unfoldable pub retreat : ℕ → ℕ → BlockIndex → Option BlockIndex
  retreat zero target node = if ltb target node.height then none else some node
  retreat (suc rounds) target node = elim (ltb target node.height) [
    | false ↦ some node
    | true ↦ elim (parent_of get node) [
      | none ↦ none
      | some prev ↦ elim (leb node.height prev.height) [
        | true ↦ none
        | false ↦ retreat rounds target prev
      ]
    ]
  ]

  -- The loop in which both go back; a node at height 0 cannot.
  unfoldable pub converge : ℕ → BlockIndex → BlockIndex → Option Hash
  converge zero a b = if a.block_hash == b.block_hash then some a.block_hash else none
  converge (suc rounds) a b = elim (a.block_hash == b.block_hash) [
    | true ↦ some a.block_hash
    | false ↦ elim (a.header.previous_hash == 0 || b.header.previous_hash == 0) [
      | true ↦ none
      | false ↦ elim (parent_of get a) [
        | none ↦ none
        | some prev_a ↦ elim (parent_of get b) [
          | none ↦ none
          | some prev_b ↦ elim (leb a.height prev_a.height || leb b.height prev_b.height) [
            | true ↦ none
            | false ↦ converge rounds prev_a prev_b
          ]
        ]
      ]
    ]
  ]

  unfoldable pub meet : Option BlockIndex → Option BlockIndex → Option Hash
  meet none b = none
  meet (some a) none = none
  meet (some a) (some b) = converge a.height a b

  -- The second loop compares with the height that the first has reached.
  unfoldable pub search_from : BlockIndex → BlockIndex → Option Hash
  search_from a b = elim (retreat a.height b.height a) [
    | none ↦ none
    | some a' ↦ meet (some a') (retreat b.height a'.height b)
  ]

  unfoldable pub find_lca : Hash → Hash → Option Hash
  find_lca hash_a hash_b = elim (get hash_a) [
    | none ↦ none
    | some a ↦ elim (get hash_b) [ none ↦ none | some b ↦ search_from a b ]
  ]

abbrev pub find_fork_lca : Hash → Hash → HashMap Hash BlockIndex → MemoryVault → Option Hash
find_fork_lca hash_a hash_b overlay v = find_lca (get_idx overlay v) hash_a hash_b
