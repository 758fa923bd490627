-- ===== src/Crypto/Merkle/Layers.antt =====
-- src/crypto/merkle.rs: the layers of the tree, and the end of its loop.
use quantum_btc.Prelude.{
  ℕ, zero, suc, ◌+◌, ◌/◌, ◌≤◌, ◌≡◌, refl, ap, List, [], ◌∷◌, length, Hash, arith,
}
use quantum_btc.Crypto.Primitives.{Primitives}
use quantum_btc.Crypto.Merkle.{duplicate_tail, hash_pair, hash_pairs, reduce}

duplicate_tail-two :
    (x y z : Hash) (zs : List Hash)
    → duplicate_tail (x ∷ y ∷ z ∷ zs) ≡ x ∷ y ∷ duplicate_tail (z ∷ zs)
unfolding duplicate_tail
duplicate_tail-two x y z zs = ground arith

module _ (c : Primitives) where
  -- A layer from the one below: neighbours are hashed, and a last one alone with itself.
  abbrev pub layer : List Hash → List Hash
  layer [] = []
  layer (x ∷ []) = hash_pair c x x ∷ []
  layer (x ∷ y ∷ rest) = hash_pair c x y ∷ layer rest

  pub hash_pairs-duplicate_tail :
      (hashes : List Hash) → hash_pairs c (duplicate_tail hashes) ≡ layer hashes
  unfolding duplicate_tail hash_pairs
  hash_pairs-duplicate_tail [] = refl
  hash_pairs-duplicate_tail (x ∷ []) = refl
  hash_pairs-duplicate_tail (x ∷ y ∷ []) = refl
  hash_pairs-duplicate_tail (x ∷ y ∷ z ∷ zs) =
      rw (duplicate_tail-two x y z zs)
        (ap (λ l. hash_pair c x y ∷ l) (hash_pairs-duplicate_tail (z ∷ zs)))

  pub length-layer : (hashes : List Hash) → length (layer hashes) ≡ (length hashes + 1) / 2
  length-layer [] = omega arith
  length-layer (x ∷ []) = omega arith
  length-layer (x ∷ y ∷ rest) = omega (arith, length-layer rest)

  -- One round of the loop.
  pub reduce-suc :
      (n : ℕ) (x y : Hash) (rest : List Hash)
      → reduce c (suc n) (x ∷ y ∷ rest) ≡ reduce c n (layer (x ∷ y ∷ rest))
  unfolding reduce
  reduce-suc n x y rest =
      ground (arith, ap (λ l. reduce c n l) (hash_pairs-duplicate_tail (x ∷ y ∷ rest)))

  pub reduce-one : (n : ℕ) (x : Hash) → reduce c n (x ∷ []) ≡ x ∷ []
  unfolding reduce
  reduce-one zero x = refl
  reduce-one (suc n) x = refl

  -- From a list that is not empty, as many rounds as it has hashes leave exactly one hash.
  pub length-reduce :
      (n : ℕ) (x : Hash) (hashes : List Hash)
      → length hashes ≤ n
      → length (reduce c n (x ∷ hashes)) ≡ 1
  length-reduce n x [] le = rw (reduce-one n x) refl
  length-reduce zero x (y ∷ rest) le = omega arith
  length-reduce (suc n) x (y ∷ rest) le =
      rw (reduce-suc n x y rest)
        (length-reduce n (hash_pair c x y) (layer rest) (omega (arith, length-layer rest)))
