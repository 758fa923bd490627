-- ===== src/Storage/Lowest.antt =====
-- src/storage.rs: the loops of `find_fork_lca` on a tree of blocks.
use quantum_btc.Prelude.{
  ℕ, zero, suc, ◌≤◌, ◌<◌, true, false, Option, none, some, Hash, ltb, ◌≡◌, ◌⊎◌, inl, inr, refl, ap,
  ◌∙◌, arith, Bool-cases, Option-cases, nat_eq,
}
use quantum_btc.Block.{BlockIndex}
use quantum_btc.Storage.Fork.{parent_of, retreat}
use quantum_btc.Storage.Ancestor.{IsAncestor, self, older, IsTree, IsAncestor-inv, IsAncestor-known}

module _ (get : Hash → Option BlockIndex) where
  retreat-stop :
      (n target : ℕ) (node : BlockIndex)
      → ltb target node.height ≡ false
      → retreat get n target node ≡ some node
  unfolding retreat
  retreat-stop zero target node low = ground arith
  retreat-stop (suc n) target node low = ground arith

  retreat-orphan :
      (n target : ℕ) (node : BlockIndex)
      → ltb target node.height ≡ true
      → parent_of get node ≡ none
      → retreat get n target node ≡ none
  unfolding retreat
  retreat-orphan zero target node high missing = ground arith
  retreat-orphan (suc n) target node high missing = ground arith

  retreat-up :
      (n target : ℕ) (node prev : BlockIndex)
      → ltb target node.height ≡ true
      → parent_of get node ≡ some prev
      → node.height ≡ suc prev.height
      → retreat get (suc n) target node ≡ retreat get n target prev
  unfolding retreat
  retreat-up n target node prev high found up = ground arith

  abbrev pub IsKnown : BlockIndex → Type 0
  IsKnown node = get node.block_hash ≡ some node

  module _ (tree : IsTree get) where
    pub IsKnown-parent :
        (node p : BlockIndex)
        → IsKnown node
        → parent_of get node ≡ some p
        → IsKnown p × (p.block_hash ≡ node.header.previous_hash) × (node.height ≡ suc p.height)
    IsKnown-parent node p known found =
        let same = tree.named node.header.previous_hash p found in
        (ap get same ∙ found, same, tree.higher node.block_hash node p known found)

    -- Where going back from a node to a height has led.
    pub record Reached (target : ℕ) (node m : BlockIndex) : Type 0 where
      pub known : IsKnown m
      pub above : IsAncestor get m.block_hash node.block_hash
      pub down : target ≤ node.height → m.height ≡ target
      pub stays : node.height ≤ target → m ≡ node
      pub keeps :
          (g : Hash) (j : BlockIndex)
          → get g ≡ some j
          → j.height ≤ target
          → IsAncestor get g node.block_hash
          → IsAncestor get g m.block_hash

    -- No ancestor of the node is as low as that.
    abbrev pub NoneBelow : ℕ → BlockIndex → Type 0
    NoneBelow target node =
        (g : Hash) (j : BlockIndex)
        → get g ≡ some j
        → j.height ≤ target
        → IsAncestor get g node.block_hash
        → ⊥

    -- An ancestor of lower height is one of the parent.
    pub lower-parent :
        (g : Hash) (j node : BlockIndex)
        → IsKnown node
        → get g ≡ some j
        → j.height < node.height
        → IsAncestor get g node.block_hash
        → (p : BlockIndex) × (parent_of get node ≡ some p)
          × IsAncestor get g node.header.previous_hash
    lower-parent g j node known held low x = elim (IsAncestor-inv get node known x) [
      | inl same ↦ absurd (ground (arith, rw same at held))
      | inr rest ↦ let (p, found) = IsAncestor-known get rest in (p, found, rest)
    ]

    abbrev pub Retreats : ℕ → ℕ → BlockIndex → Type 0
    Retreats n target node =
        ((m : BlockIndex) × (retreat get n target node ≡ some m) × Reached target node m)
        ⊎ ((retreat get n target node ≡ none) × NoneBelow target node)

    retreat-low :
        (n target : ℕ) (node : BlockIndex)
        → ltb target node.height ≡ false
        → IsKnown node
        → Retreats n target node
    retreat-low n target node low known = inl (
      node,
      retreat-stop n target node low,
      record {
        known = known;
        above = self node known;
        down = λ le. ground arith;
        stays = λ le. refl;
        keeps = λ g j held le x. x;
      },
    )

    retreat-through :
        (n target : ℕ) (node p : BlockIndex)
        → ltb target node.height ≡ true
        → IsKnown node
        → parent_of get node ≡ some p
        → Retreats n target p
        → Retreats (suc n) target node
    retreat-through n target node p high known found later =
        let (_, same, up) = IsKnown-parent node p known found in
        let step = retreat-up n target node p high found up in
        let through : (g : Hash) (j : BlockIndex)
            → get g ≡ some j
            → j.height ≤ target
            → IsAncestor get g node.block_hash
            → IsAncestor get g p.block_hash =
          λ g j held le x.
            let (_, _, rest) = lower-parent g j node known held (ground arith) x in rw same rest in
        elim later [
          | inl (m, reached, r) ↦ inl (
            m,
            step ∙ reached,
            record {
              known = r.known;
              above = older node known (rw same at r.above);
              down = λ le. r.down (ground arith);
              stays = λ le. absurd (ground arith);
              keeps = λ g j held le x. r.keeps g j held le (through g j held le x);
            },
          )
          | inr (missing, nothing) ↦
              inr (step ∙ missing, (λ g j held le x. nothing g j held le (through g j held le x)))
        ]

    pub retreat_lem :
        (n target : ℕ) (node : BlockIndex) → node.height ≤ n → IsKnown node → Retreats n target node
    retreat_lem zero target node fuel known = retreat-low 0 target node (ground arith) known
    retreat_lem (suc n) target node fuel known = elim (Bool-cases (ltb target node.height)) [
      | inr low ↦ retreat-low (suc n) target node low known
      | inl high ↦ elim (Option-cases (parent_of get node)) [
        | inl missing ↦ inr (
          retreat-orphan (suc n) target node high missing,
          (λ g j held le x.
              let (p, found, _) = lower-parent g j node known held (ground arith) x in
              ground arith),
        )
        | inr (p, found) ↦
            let (known_p, _, up) = IsKnown-parent node p known found in
            retreat-through n target node p high known found
              (retreat_lem n target p (omega arith) known_p)
      ]
    ]
