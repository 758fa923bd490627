-- ===== src/Storage/Handover.antt =====
-- src/storage.rs: what `get_orphans_by_parent` returns after any calls.
use quantum_btc.Prelude.{
  ◌≤◌, none, some, List, [], ◌∷◌, length, All, Hash, lookup, contains, nat_eq, if◌then◌else◌, ◌≡◌,
  ◌⊎◌,
}
use quantum_btc.Crypto.Primitives.{Primitives}
use quantum_btc.Block.{Block}
use quantum_btc.Storage.Orphans.{
  max_orphan_blocks, add_orphan_block, get_orphans_by_parent, waiting_for,
}
use quantum_btc.Storage.Vault.{MemoryVault, empty_vault}
use quantum_btc.Storage.Vault.{empty_vault}

-- The vaults that calls of the two operations lead to.
pub data Reach (c : Primitives) : MemoryVault → Type 0 where
  start : Reach c empty_vault
  added : {v : MemoryVault} → Reach c v → (block : Block) → Reach c (add_orphan_block c block v).1
  fetched :
      {v : MemoryVault} → Reach c v → (parent : Hash) → Reach c (get_orphans_by_parent parent v).1

-- The block is in the list.
abbrev pub IsIn : Block → List Block → Type 0
IsIn b [] = ⊥
IsIn b (x ∷ xs) = (x ≡ b) ⊎ IsIn b xs

-- What a call of `get_orphans_by_parent` returns and leaves.
pub record IsHandover (parent : Hash) (v : MemoryVault) (r : List Block × MemoryVault)
    : Type 0 where
  pub children : All (λ (b : Block). b.header.previous_hash ≡ parent) r.0
  pub complete :
      (h : Hash) (b : Block)
      → lookup h v.map_orphan_blocks ≡ some b
      → b.header.previous_hash ≡ parent
      → IsIn b r.0
  pub rest :
      (h : Hash)
      → lookup h r.1.map_orphan_blocks
        ≡ (if contains h (waiting_for parent v) then none else lookup h v.map_orphan_blocks)
  pub capped : length r.1.map_orphan_blocks ≤ max_orphan_blocks
