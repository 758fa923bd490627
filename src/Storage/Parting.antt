-- ===== src/Storage/Parting.antt =====
-- src/storage.rs: `find_fork_lca` on a tree of blocks returns exactly their highest common ancestor.
use quantum_btc.Prelude.{
  leb, ◌≤◌, Option, none, some, Hash, HashMap, ◌≡◌, ◌↔◌, ◌⊎◌, inl, inr, refl, sym, ap, ◌∙◌, arith,
  Bool-cases, Option-cases,
}
use quantum_btc.Block.{BlockIndex}
use quantum_btc.Storage.Vault.{MemoryVault}
use quantum_btc.Storage.Fork.{get_idx, retreat, meet, search_from, find_lca, find_fork_lca}
use quantum_btc.Storage.Ancestor.{
  IsAncestor, IsTree, IsLowestCommon, IsAncestor-known, IsAncestor-first, IsAncestor-trans,
  IsAncestor-height, IsAncestor-antisym,
}
use quantum_btc.Storage.Lowest.{IsKnown, Reached, retreat_lem}
use quantum_btc.Storage.Converge.{converge_lem}

module _ (get : Hash → Option BlockIndex) (tree : IsTree get) where
  abbrev NoCommon : Hash → Hash → Type 0
  NoCommon a b = (g : Hash) → IsAncestor get g a → IsAncestor get g b → ⊥

  abbrev Finds : Option Hash → Hash → Hash → Type 0
  Finds result a b =
      ((h : Hash) × (result ≡ some h) × IsLowestCommon get a b h) ⊎ ((result ≡ none) × NoCommon a b)

  height-le :
      (g : Hash) (j i : BlockIndex)
      → get g ≡ some j
      → IsKnown get i
      → IsAncestor get g i.block_hash
      → j.height ≤ i.height
  height-le g j i held known x = elim (IsAncestor-height get tree j i held known x) [
    | inl same ↦ ground (arith, rw same at held)
    | inr below ↦ omega arith
  ]

  search_from-none :
      (a b : BlockIndex) → retreat get a.height b.height a ≡ none → search_from get a b ≡ none
  unfolding search_from
  search_from-none a b missing = ground arith

  search_from-some :
      (a b m : BlockIndex)
      → retreat get a.height b.height a ≡ some m
      → search_from get a b ≡ meet get (some m) (retreat get b.height m.height b)
  unfolding search_from
  search_from-some a b m found = ground arith

  level :
      (a b m n : BlockIndex)
      → Reached get tree b.height a m
      → Reached get tree m.height b n
      → m.height ≡ n.height
  level a b m n r q =
      let low : m.height ≤ b.height = elim (Bool-cases (leb b.height a.height)) [
        | inl le ↦ omega (arith, r.down (ground arith))
        | inr gt ↦
            let le : a.height ≤ b.height = ground arith in
            omega (arith, ap (λ (i : BlockIndex). i.height) (r.stays le))
      ] in
      sym (q.down low)

  search_lem :
      (a b : BlockIndex)
      → IsKnown get a
      → IsKnown get b
      → Finds (search_from get a b) a.block_hash b.block_hash
  unfolding meet
  search_lem a b known_a known_b =
      elim (retreat_lem get tree a.height b.height a (omega arith) known_a) [
        | inr (missing, nothing) ↦ inr (
          search_from-none a b missing,
          (λ g x y.
              let (j, held) = IsAncestor-first get x in
              nothing g j held (height-le g j b held known_b y) x),
        )
        | inl (m, found, r) ↦
            let keeps : (g : Hash)
                → IsAncestor get g a.block_hash
                → IsAncestor get g b.block_hash
                → IsAncestor get g m.block_hash =
              λ g x y.
                let (j, held) = IsAncestor-first get x in
                r.keeps g j held (height-le g j b held known_b y) x in
            rw (search_from-some a b m found)
              (elim (retreat_lem get tree b.height m.height b (omega arith) known_b) [
                | inr (missing, nothing) ↦ inr (
                  rw missing refl,
                  (λ g x y.
                      let (j, held) = IsAncestor-first get x in
                      nothing g j held (height-le g j m held r.known (keeps g x y)) y),
                )
                | inl (n, found_n, q) ↦
                    rw found_n
                      (elim (converge_lem get tree m.height m n (omega arith) (level a b m n r q)
                        r.known q.known) [
                          | inl (h, met, l) ↦ inl (
                            h,
                            met,
                            record {
                              of_first = IsAncestor-trans get l.of_first r.above;
                              of_second = IsAncestor-trans get l.of_second q.above;
                              lowest = λ g x y.
                                  let (j, held) = IsAncestor-first get x in
                                  l.lowest g (keeps g x y) (
                                    q.keeps g j held (height-le g j m held r.known (keeps g x y))
                                      y);
                            },
                          )
                          | inr (apart, nothing) ↦ inr (
                            apart,
                            (λ g x y.
                                let (j, held) = IsAncestor-first get x in
                                nothing g (keeps g x y) (
                                  q.keeps g j held (height-le g j m held r.known (keeps g x y)) y)),
                          )
                        ])
              ])
      ]

  find_lca-unknown : (a b : Hash) → (get a ≡ none) ⊎ (get b ≡ none) → find_lca get a b ≡ none
  unfolding find_lca
  find_lca-unknown a b (inl missing) = ground arith
  find_lca-unknown a b (inr missing) = ground arith

  find_lca-known :
      (a b : Hash) (i j : BlockIndex)
      → get a ≡ some i
      → get b ≡ some j
      → find_lca get a b ≡ search_from get i j
  unfolding find_lca
  find_lca-known a b i j held_i held_j = ground arith

  find_lem : (a b : Hash) → Finds (find_lca get a b) a b
  find_lem a b = elim (Option-cases (get a)) [
    | inl missing ↦ inr (
      find_lca-unknown a b (inl missing),
      (λ g x y. let (i, held) = IsAncestor-known get x in ground arith),
    )
    | inr (i, held_i) ↦ elim (Option-cases (get b)) [
      | inl missing ↦ inr (
        find_lca-unknown a b (inr missing),
        (λ g x y. let (j, held) = IsAncestor-known get y in ground arith),
      )
      | inr (j, held_j) ↦
          let same_i = tree.named a i held_i in
          let same_j = tree.named b j held_j in
          rw (find_lca-known a b i j held_i held_j, ← same_i, ← same_j)
            (search_lem i j (ap get same_i ∙ held_i) (ap get same_j ∙ held_j))
    ]
  ]

-- In a tree of indices, where an index is kept under its hash, a child is one higher than its parent
-- and no block has the hash 0, the search from two blocks returns a block exactly if it is their
-- highest common ancestor; so it returns none exactly if they have no common ancestor.
pub find_fork_lca_lem :
    (overlay : HashMap Hash BlockIndex) (v : MemoryVault)
    → IsTree (get_idx overlay v)
    → (a b h : Hash)
    → (find_fork_lca a b overlay v ≡ some h) ↔ IsLowestCommon (get_idx overlay v) a b h
find_fork_lca_lem overlay v tree a b h =
    let get = get_idx overlay v in
    elim (find_lem get tree a b) [
      | inl (k, found, l) ↦ (
        (λ same. let one : k ≡ h = ground arith in rw (← one) l),
        (λ m.
            let one : k ≡ h =
              IsAncestor-antisym get tree (m.lowest k l.of_first l.of_second)
                (l.lowest h m.of_first m.of_second) in
            found ∙ ap (λ z. some z) one),
      )
      | inr (missing, nothing) ↦
          ((λ same. absurd (ground arith)), (λ m. absurd (nothing h m.of_first m.of_second)))
    ]
