-- ===== src/Storage/Converge.antt =====
-- src/storage.rs: the loop of `find_fork_lca` in which both blocks go back.
use quantum_btc.Prelude.{
  ℕ, zero, suc, ◌≤◌, ◌<◌, true, false, ◌||◌, Option, none, some, Hash, ◌==◌, ◌≡◌, ◌⊎◌, inl, inr,
  ◌∙◌, arith, Bool-cases, Option-cases, nat_eq,
}
use quantum_btc.Block.{BlockIndex}
use quantum_btc.Storage.Fork.{parent_of, converge}
use quantum_btc.Storage.Ancestor.{
  IsAncestor, self, older, IsTree, IsLowestCommon, IsAncestor-known, IsAncestor-first,
  IsAncestor-height,
}
use quantum_btc.Storage.Lowest.{IsKnown, IsKnown-parent, lower-parent}

module _ (get : Hash → Option BlockIndex) where
  converge-same :
      (n : ℕ) (a b : BlockIndex)
      → (a.block_hash == b.block_hash) ≡ true
      → converge get n a b ≡ some a.block_hash
  unfolding converge
  converge-same zero a b same = ground arith
  converge-same (suc n) a b same = ground arith

  converge-up :
      (n : ℕ) (a b p q : BlockIndex)
      → (a.block_hash == b.block_hash) ≡ false
      → (a.header.previous_hash == 0 || b.header.previous_hash == 0) ≡ false
      → parent_of get a ≡ some p
      → parent_of get b ≡ some q
      → a.height ≡ suc p.height
      → b.height ≡ suc q.height
      → converge get (suc n) a b ≡ converge get n p q
  unfolding converge
  converge-up n a b p q other rooted found_p found_q up_p up_q = ground arith

  -- A block without a parent ends the loop.
  converge-none :
      (n : ℕ) (a b : BlockIndex)
      → (a.block_hash == b.block_hash) ≡ false
      → (parent_of get a ≡ none) ⊎ (parent_of get b ≡ none)
      → converge get n a b ≡ none
  unfolding converge
  converge-none zero a b other (inl missing) = ground arith
  converge-none zero a b other (inr missing) = ground arith
  converge-none (suc n) a b other (inl missing) = ground arith
  converge-none (suc n) a b other (inr missing) = ground arith

  module _ (tree : IsTree get) where
    -- What the second loop finds from two blocks of one height.
    abbrev pub Meets : ℕ → BlockIndex → BlockIndex → Type 0
    Meets n a b =
        ((h : Hash) × (converge get n a b ≡ some h)
          × IsLowestCommon get a.block_hash b.block_hash h)
        ⊎ ((converge get n a b ≡ none)
            × ((g : Hash) → IsAncestor get g a.block_hash → IsAncestor get g b.block_hash → ⊥))

    -- A common ancestor of two different blocks of one height is one of their parents'.
    common-parents :
        (a b : BlockIndex)
        → IsKnown get a
        → IsKnown get b
        → a.height ≡ b.height
        → (a.block_hash == b.block_hash) ≡ false
        → (g : Hash) → IsAncestor get g a.block_hash
        → IsAncestor get g b.block_hash
        → IsAncestor get g a.header.previous_hash × IsAncestor get g b.header.previous_hash
    common-parents a b known_a known_b level other g x y =
        let (j, held) = IsAncestor-first get x in
        let below_a = IsAncestor-height get tree j a held known_a x in
        let below_b = IsAncestor-height get tree j b held known_b y in
        let low : j.height < a.height = elim below_a [
          | inr low ↦ low
          | inl is_a ↦ elim below_b [ inr low ↦ rw level low | inl is_b ↦ absurd (ground arith) ]
        ] in
        let (_, _, rest_a) = lower-parent get tree g j a known_a held low x in
        let (_, _, rest_b) = lower-parent get tree g j b known_b held (rw level at low) y in
        (rest_a, rest_b)

    converge-Meets :
        (n : ℕ) (a b : BlockIndex)
        → IsKnown get a
        → IsKnown get b
        → (a.block_hash == b.block_hash) ≡ true
        → Meets n a b
    converge-Meets n a b known_a known_b same =
        let one : a.block_hash ≡ b.block_hash = ground arith in
        inl (
          a.block_hash,
          converge-same n a b same,
          record {
            of_first = self a known_a;
            of_second = rw one (self b known_b);
            lowest = λ g x y. x;
          },
        )

    converge-apart :
        (n : ℕ) (a b : BlockIndex)
        → IsKnown get a
        → IsKnown get b
        → a.height ≡ b.height
        → (a.block_hash == b.block_hash) ≡ false
        → (parent_of get a ≡ none) ⊎ (parent_of get b ≡ none)
        → Meets n a b
    converge-apart n a b known_a known_b level other missing = inr (
      converge-none n a b other missing,
      (λ g x y.
          let (rest_a, rest_b) = common-parents a b known_a known_b level other g x y in
          let (p, found_p) = IsAncestor-known get rest_a in
          let (q, found_q) = IsAncestor-known get rest_b in
          elim missing [ inl gone ↦ ground arith | inr gone ↦ ground arith ]),
    )

    converge-through :
        (n : ℕ) (a b p q : BlockIndex)
        → IsKnown get a
        → IsKnown get b
        → a.height ≡ b.height
        → (a.block_hash == b.block_hash) ≡ false
        → parent_of get a ≡ some p
        → parent_of get b ≡ some q
        → Meets n p q
        → Meets (suc n) a b
    converge-through n a b p q known_a known_b level other found_p found_q later =
        let (_, same_p, up_p) = IsKnown-parent get tree a p known_a found_p in
        let (_, same_q, up_q) = IsKnown-parent get tree b q known_b found_q in
        let not_root : (i j : BlockIndex)
            → parent_of get i ≡ some j
            → (i.header.previous_hash == 0) ≡ false =
          λ i j found. elim (Bool-cases (i.header.previous_hash == 0)) [
            | inr other_hash ↦ other_hash
            | inl root ↦
                let zeroed : i.header.previous_hash ≡ 0 = ground arith in
                absurd (ground (arith, rw zeroed at found, tree.rooted))
          ] in
        let step =
          converge-up n a b p q other (ground (arith, not_root a p found_p, not_root b q found_q))
            found_p found_q up_p up_q in
        let through : (g : Hash)
            → IsAncestor get g a.block_hash
            → IsAncestor get g b.block_hash
            → IsAncestor get g p.block_hash × IsAncestor get g q.block_hash =
          λ g x y.
            let (rest_a, rest_b) = common-parents a b known_a known_b level other g x y in
            (rw same_p rest_a, rw same_q rest_b) in
        elim later [
          | inl (h, met, l) ↦ inl (
            h,
            step ∙ met,
            record {
              of_first = older a known_a (rw same_p at l.of_first);
              of_second = older b known_b (rw same_q at l.of_second);
              lowest = λ g x y. l.lowest g (through g x y).0 (through g x y).1;
            },
          )
          | inr (missing, nothing) ↦
              inr (step ∙ missing, (λ g x y. nothing g (through g x y).0 (through g x y).1))
        ]

    pub converge_lem :
        (n : ℕ) (a b : BlockIndex)
        → a.height ≤ n
        → a.height ≡ b.height
        → IsKnown get a
        → IsKnown get b
        → Meets n a b
    converge_lem zero a b fuel level known_a known_b =
        elim (Bool-cases (a.block_hash == b.block_hash)) [
          | inl same ↦ converge-Meets 0 a b known_a known_b same
          | inr other ↦ elim (Option-cases (parent_of get a)) [
            | inl missing ↦ converge-apart 0 a b known_a known_b level other (inl missing)
            | inr (p, found) ↦
                let (_, _, up) = IsKnown-parent get tree a p known_a found in absurd (omega arith)
          ]
        ]
    converge_lem (suc n) a b fuel level known_a known_b =
        elim (Bool-cases (a.block_hash == b.block_hash)) [
          | inl same ↦ converge-Meets (suc n) a b known_a known_b same
          | inr other ↦ elim (Option-cases (parent_of get a)) [
            | inl missing ↦ converge-apart (suc n) a b known_a known_b level other (inl missing)
            | inr (p, found_p) ↦ elim (Option-cases (parent_of get b)) [
              | inl missing ↦ converge-apart (suc n) a b known_a known_b level other (inr missing)
              | inr (q, found_q) ↦
                  let (known_p, _, up_p) = IsKnown-parent get tree a p known_a found_p in
                  let (known_q, _, up_q) = IsKnown-parent get tree b q known_b found_q in
                  converge-through n a b p q known_a known_b level other found_p found_q
                    (converge_lem n p q (omega arith) (omega arith) known_p known_q)
            ]
          ]
        ]
