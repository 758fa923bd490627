-- ===== src/Storage/Ancestor.antt =====
-- src/storage.rs: `find_fork_lca` finds the highest common ancestor of two blocks of a tree.
use quantum_btc.Prelude.{suc, ◌<◌, Option, none, some, Hash, ◌≡◌, ◌⊎◌, inl, inr, refl, sym, arith}
use quantum_btc.Block.{BlockIndex}
use quantum_btc.Storage.Fork.{parent_of}

module _ (get : Hash → Option BlockIndex) where
  -- The first block is the second, or an ancestor of it.
  pub data IsAncestor : Hash → Hash → Type 0 where
    self : {h : Hash} (i : BlockIndex) → get h ≡ some i → IsAncestor h h
    older :
        {g h : Hash} (i : BlockIndex)
        → get h ≡ some i
        → IsAncestor g i.header.previous_hash
        → IsAncestor g h

  -- Each index is kept under its hash, a child is one higher than its parent, and no block has the
  -- hash 0.
  pub record IsTree : Type 0 where
    pub named : (h : Hash) (i : BlockIndex) → get h ≡ some i → i.block_hash ≡ h
    pub higher :
        (h : Hash) (i p : BlockIndex)
        → get h ≡ some i
        → parent_of get i ≡ some p
        → i.height ≡ suc p.height
    pub rooted : get 0 ≡ none

  -- The highest block that is an ancestor of both.
  pub record IsLowestCommon (a b h : Hash) : Type 0 where
    pub of_first : IsAncestor h a
    pub of_second : IsAncestor h b
    pub lowest : (g : Hash) → IsAncestor g a → IsAncestor g b → IsAncestor g h

  pub IsAncestor-inv :
      {g h : Hash} (i : BlockIndex)
      → get h ≡ some i
      → IsAncestor g h
      → (g ≡ h) ⊎ IsAncestor g i.header.previous_hash
  IsAncestor-inv i found (self j held) = inl refl
  IsAncestor-inv i found (older j held rest) =
      let same : j ≡ i = ground arith in inr (rw (← same) rest)

  pub IsAncestor-known : {g h : Hash} → IsAncestor g h → (i : BlockIndex) × (get h ≡ some i)
  IsAncestor-known (self i held) = (i, held)
  IsAncestor-known (older i held rest) = (i, held)

  pub IsAncestor-first : {g h : Hash} → IsAncestor g h → (i : BlockIndex) × (get g ≡ some i)
  IsAncestor-first (self i held) = (i, held)
  IsAncestor-first (older i held rest) = IsAncestor-first rest

  pub IsAncestor-trans : {f g h : Hash} → IsAncestor f g → IsAncestor g h → IsAncestor f h
  IsAncestor-trans x (self i held) = x
  IsAncestor-trans x (older i held rest) = older i held (IsAncestor-trans x rest)

  module _ (tree : IsTree) where
    pub IsAncestor-height :
        {g h : Hash} (j i : BlockIndex)
        → get g ≡ some j
        → get h ≡ some i
        → IsAncestor g h
        → (g ≡ h) ⊎ (j.height < i.height)
    IsAncestor-height j i hj hi (self k held) = inl refl
    IsAncestor-height j i hj hi (older k held rest) =
        let (p, hp) = IsAncestor-known rest in
        let same : k ≡ i = ground arith in
        let up = tree.higher _ i p hi (rw (← same) hp) in
        inr (elim (IsAncestor-height j p hj hp rest) [
          | inl equal ↦ ground (arith, rw equal at hj)
          | inr below ↦ omega arith
        ])

    pub IsAncestor-antisym : {g h : Hash} → IsAncestor g h → IsAncestor h g → g ≡ h
    IsAncestor-antisym {g} {h} x y =
        let (i, hi) = IsAncestor-known x in
        let (j, hj) = IsAncestor-known y in
        elim (IsAncestor-height j i hj hi x) [
          | inl same ↦ same
          | inr below ↦ elim (IsAncestor-height i j hi hj y) [
            | inl same ↦ sym same
            | inr above ↦ absurd (omega arith)
          ]
        ]
