-- ===== src/Crypto/Merkle/Binding.antt =====
-- src/crypto/merkle.rs: the root binds the list that it is made of.
use quantum_btc.Prelude.{
  ℕ, zero, suc, ◌^◌, ◌≤◌, ◌<◌, ◌≡◌, ◌≢◌, ◌⊎◌, inl, inr, refl, ap, sym, List, [], ◌∷◌, ◌++◌, length,
  All, get_or, Hash, arith, Bool-cases, ◌==◌, ==_iff,
}
use quantum_btc.Crypto.Bytes.{hash_bytes, length-hash_bytes, hash_bytes-inj, append-inj}
use quantum_btc.Crypto.Primitives.{Primitives}
use quantum_btc.Crypto.Merkle.{hash_pair, reduce, build_merkle_root}
use quantum_btc.Crypto.Merkle.Layers.{layer, length-layer, reduce-suc, reduce-one}

-- Two different messages of one digest.
abbrev pub Collides : Primitives → List ℕ → List ℕ → Type 0
Collides c a b = (a ≢ b) × (c.sha256 a ≡ c.sha256 b)

-- What is hashed for a node.
abbrev pub pair_bytes : Hash → Hash → List ℕ
pair_bytes x y = hash_bytes x ++ hash_bytes y

-- Two nodes at the same place, above two layers, are made of different children and have one hash.
abbrev pub ClashAbove : Primitives → List Hash → List Hash → Type 0
ClashAbove c [] vs = ⊥
ClashAbove c (x ∷ xs) [] = ⊥
ClashAbove c (x ∷ []) (v ∷ []) = Collides c (pair_bytes x x) (pair_bytes v v)
ClashAbove c (x ∷ []) (v ∷ w ∷ vs) = ⊥
ClashAbove c (x ∷ y ∷ xs) (v ∷ []) = ⊥
ClashAbove c (x ∷ y ∷ xs) (v ∷ w ∷ vs) =
    Collides c (pair_bytes x y) (pair_bytes v w) ⊎ ClashAbove c xs vs

-- Two such nodes, at one of so many levels of the two trees.
abbrev pub ClashWithin : Primitives → ℕ → List Hash → List Hash → Type 0
ClashWithin c zero xs vs = ⊥
ClashWithin c (suc n) xs vs = ClashAbove c xs vs ⊎ ClashWithin c n (layer c xs) (layer c vs)

-- Two such nodes in the trees over two lists.
abbrev pub Clash : Primitives → List Hash → List Hash → Type 0
Clash c xs vs = ClashWithin c (length xs) xs vs

-- The digest has 32 bytes.
abbrev pub IsDigest : Primitives → Type 0
IsDigest c = (m : List ℕ) → c.sha256 m < 256 ^ 32

module _ (c : Primitives) where
  pair_bytes-inj :
      (x y v w : Hash)
      → (x < 256 ^ 32) × (y < 256 ^ 32) × (v < 256 ^ 32) × (w < 256 ^ 32)
      → hash_bytes x ++ hash_bytes y ≡ hash_bytes v ++ hash_bytes w
      → (x ≡ v) × (y ≡ w)
  pair_bytes-inj x y v w (lx, ly, lv, lw) e =
      let (left, right) =
        append-inj (hash_bytes x) (hash_bytes y) (hash_bytes v) (hash_bytes w)
          (omega (arith, length-hash_bytes x, length-hash_bytes v)) e in
      (hash_bytes-inj x v lx lv left, hash_bytes-inj y w ly lw right)

  -- Two nodes of one hash have the same children, or collide.
  hash_pair-binds :
      (x y v w : Hash)
      → (x < 256 ^ 32) × (y < 256 ^ 32) × (v < 256 ^ 32) × (w < 256 ^ 32)
      → hash_pair c x y ≡ hash_pair c v w
      → ((x ≡ v) × (y ≡ w)) ⊎ Collides c (pair_bytes x y) (pair_bytes v w)
  unfolding hash_pair
  hash_pair-binds x y v w small e = elim (Bool-cases (x == v)) [
    | inr other ↦ inr (λ same. ground (arith, pair_bytes-inj x y v w small same, ==_iff x v), e)
    | inl left ↦ elim (Bool-cases (y == w)) [
      | inr other ↦ inr (λ same. ground (arith, pair_bytes-inj x y v w small same, ==_iff y w), e)
      | inl right ↦ inl ((==_iff x v).0 left, (==_iff y w).0 right)
    ]
  ]

  layer-Small : IsDigest c → (xs : List Hash) → All (λ h. h < 256 ^ 32) (layer c xs)
  unfolding hash_pair
  layer-Small d [] = tt
  layer-Small d (x ∷ []) = (d _, tt)
  layer-Small d (x ∷ y ∷ rest) = (d _, layer-Small d rest)

  cons-eq : (x v : Hash) (xs vs : List Hash) → x ∷ xs ≡ v ∷ vs → (x ≡ v) × (xs ≡ vs)
  cons-eq x v xs vs e = ground arith

  layer-binds :
      (xs vs : List Hash)
      → All (λ h. h < 256 ^ 32) xs
      → All (λ h. h < 256 ^ 32) vs
      → length xs ≡ length vs
      → layer c xs ≡ layer c vs
      → (xs ≡ vs) ⊎ ClashAbove c xs vs
  layer-binds [] [] sx sv len e = inl refl
  layer-binds [] (v ∷ vs) sx sv len e = ground arith
  layer-binds (x ∷ xs) [] sx sv len e = ground arith
  layer-binds (x ∷ []) (v ∷ []) sx sv len e =
      elim (hash_pair-binds x x v v (sx.0, sx.0, sv.0, sv.0) (cons-eq _ _ _ _ e).0) [
        | inl (same, _) ↦ inl (ap (λ h. h ∷ []) same)
        | inr found ↦ inr found
      ]
  layer-binds (x ∷ []) (v ∷ w ∷ vs) sx sv len e = ground arith
  layer-binds (x ∷ y ∷ xs) (v ∷ []) sx sv len e = ground arith
  layer-binds (x ∷ y ∷ xs) (v ∷ w ∷ vs) sx sv len e =
      elim (hash_pair-binds x y v w (sx.0, sx.1.0, sv.0, sv.1.0) (cons-eq _ _ _ _ e).0) [
        | inr found ↦ inr (inl found)
        | inl (left, right) ↦
            elim (layer-binds xs vs sx.1.1 sv.1.1 (omega arith) (cons-eq _ _ _ _ e).1) [
              | inr found ↦ inr (inr found)
              | inl rest ↦ inl (rw (left, right, rest) refl)
            ]
      ]

  reduce-binds :
      (n : ℕ) (xs vs : List Hash)
      → IsDigest c
      → All (λ h. h < 256 ^ 32) xs
      → All (λ h. h < 256 ^ 32) vs
      → length xs ≡ length vs
      → length xs ≤ n
      → get_or (reduce c n xs) 0 0 ≡ get_or (reduce c n vs) 0 0
      → (xs ≡ vs) ⊎ ClashWithin c n xs vs
  reduce-binds n [] [] d sx sv len le e = inl refl
  reduce-binds n [] (v ∷ vs) d sx sv len le e = ground arith
  reduce-binds n (x ∷ xs) [] d sx sv len le e = ground arith
  reduce-binds n (x ∷ []) (v ∷ []) d sx sv len le e =
      inl (ap (λ h. h ∷ []) (rw (reduce-one c n x, reduce-one c n v) at e))
  reduce-binds n (x ∷ []) (v ∷ w ∷ vs) d sx sv len le e = ground arith
  reduce-binds n (x ∷ y ∷ xs) (v ∷ []) d sx sv len le e = ground arith
  reduce-binds zero (x ∷ y ∷ xs) (v ∷ w ∷ vs) d sx sv len le e = ground arith
  reduce-binds (suc n) (x ∷ y ∷ xs) (v ∷ w ∷ vs) d sx sv len le e =
      elim (reduce-binds n (layer c (x ∷ y ∷ xs)) (layer c (v ∷ w ∷ vs)) d
        (layer-Small d (x ∷ y ∷ xs)) (layer-Small d (v ∷ w ∷ vs))
        (omega (arith, length-layer c xs, length-layer c vs)) (omega (arith, length-layer c xs))
        (rw (reduce-suc c n x y xs, reduce-suc c n v w vs) at e)) [
          | inr found ↦ inr (inr found)
          | inl same ↦ elim (layer-binds (x ∷ y ∷ xs) (v ∷ w ∷ vs) sx sv len same) [
            | inl equal ↦ inl equal
            | inr found ↦ inr (inl found)
          ]
        ]

  -- Two lists of the same number of 32-byte hashes with one Merkle root are equal, or two nodes at
  -- the same place of their trees are made of different children and have one hash; for digests of
  -- 32 bytes.
  pub build_merkle_root-binds :
      (xs vs : List Hash)
      → IsDigest c
      → All (λ h. h < 256 ^ 32) xs
      → All (λ h. h < 256 ^ 32) vs
      → length xs ≡ length vs
      → build_merkle_root c xs ≡ build_merkle_root c vs
      → (xs ≡ vs) ⊎ Clash c xs vs
  unfolding build_merkle_root
  build_merkle_root-binds xs vs d sx sv len e =
      reduce-binds (length xs) xs vs d sx sv len (omega arith) (rw (sym len) at e)
