-- ===== src/Consensus/Merkle.antt =====
-- src/consensus/mod.rs: which blocks pass the check of their Merkle root, and what the root binds.
use quantum_btc.Prelude.{
  ℕ, zero, suc, ◌^◌, ◌<◌, ◌≡◌, ◌≢◌, ◌↔◌, ◌⊎◌, refl, ap, true, false, List, [], ◌∷◌, map, All,
  length, is_empty, Hash, arith, HashSet, contains, set_insert, contains-set_insert, nat_eq,
}
use quantum_btc.Crypto.Primitives.{Primitives}
use quantum_btc.Crypto.Merkle.{
  duplicate_tail, hash_pairs, hash_pair, reduce, build_merkle_root, repeats_seen, has_duplicate_txs,
}
use quantum_btc.Crypto.Merkle.Binding.{Clash, IsDigest, build_merkle_root-binds}
use quantum_btc.Transaction.{Transaction, calculate_id}
use quantum_btc.Block.{Block}
use quantum_btc.Consensus.{pad_level, hash_chunks, climb, verify_merkle_root}

-- No hash stands twice.
abbrev pub IsDistinct : List Hash → Type 0
IsDistinct [] = Unit
IsDistinct (h ∷ hs) = All (λ g. g ≢ h) hs × IsDistinct hs

abbrev pub Unseen : HashSet Hash → List Hash → Type 0
Unseen seen hs = All (λ h. contains h seen ≡ false) hs

pub Unseen-set_insert :
    (h : Hash) (seen : HashSet Hash) (hs : List Hash)
    → Unseen (set_insert h seen) hs ↔ (All (λ g. g ≢ h) hs × Unseen seen hs)
Unseen-set_insert h seen [] = ground arith
Unseen-set_insert h seen (g ∷ hs) =
    ground (arith, Unseen-set_insert h seen hs, contains-set_insert h g seen)

repeats_seen-false :
    (seen : HashSet Hash) (hs : List Hash)
    → (repeats_seen seen hs ≡ false) ↔ (Unseen seen hs × IsDistinct hs)
unfolding repeats_seen
repeats_seen-false seen [] = ground arith
repeats_seen-false seen (h ∷ hs) =
    ground (arith, repeats_seen-false (set_insert h seen) hs, Unseen-set_insert h seen hs)

nil-Unseen : (hs : List Hash) → Unseen [] hs
unfolding contains
nil-Unseen [] = tt
nil-Unseen (h ∷ hs) = (refl, nil-Unseen hs)

pub has_duplicate_txs-false : (hs : List Hash) → (has_duplicate_txs hs ≡ false) ↔ IsDistinct hs
unfolding has_duplicate_txs
has_duplicate_txs-false hs = ground (arith, repeats_seen-false [] hs, nil-Unseen hs)

module _ (c : Primitives) where
  pad_level-duplicate_tail : (hs : List Hash) → pad_level hs ≡ duplicate_tail hs
  unfolding pad_level duplicate_tail
  pad_level-duplicate_tail hs = ground arith

  hash_chunks-hash_pairs : (hs : List Hash) → hash_chunks c hs ≡ hash_pairs c hs
  unfolding hash_chunks hash_pairs
  hash_chunks-hash_pairs [] = refl
  hash_chunks-hash_pairs (_ ∷ []) = refl
  hash_chunks-hash_pairs (g ∷ h ∷ rest) =
      ap (λ l. hash_pair c g h ∷ l) (hash_chunks-hash_pairs rest)

  climb-reduce : (n : ℕ) (hs : List Hash) → climb c n hs ≡ reduce c n hs
  unfolding climb reduce
  climb-reduce zero hs = refl
  climb-reduce (suc n) hs = ground (
    arith,
    climb-reduce n (hash_chunks c (pad_level hs)),
    hash_chunks-hash_pairs (pad_level hs),
    pad_level-duplicate_tail hs,
  )

  -- The check of a block's Merkle root, with its own loop, passes exactly for a block that has a
  -- transaction, repeats no identifier, and whose header holds the root that `build_merkle_root`
  -- computes of the identifiers.
  pub verify_merkle_root-build_merkle_root :
      (b : Block)
      → let ids = map (calculate_id c) b.transactions in
        (verify_merkle_root c b ≡ true) ↔ (
          (is_empty b.transactions ≡ false)
          × IsDistinct ids
          × (build_merkle_root c ids ≡ b.header.merkle_root))
  unfolding verify_merkle_root build_merkle_root
  verify_merkle_root-build_merkle_root b =
      let ids = map (calculate_id c) b.transactions in
      ground (arith, has_duplicate_txs-false ids, climb-reduce (length ids) ids)

  ids-Small :
      IsDigest c → (txs : List Transaction) → All (λ h. h < 256 ^ 32) (map (calculate_id c) txs)
  unfolding calculate_id
  ids-Small d [] = tt
  ids-Small d (tx ∷ txs) = (d _, ids-Small d txs)

  -- Two blocks that pass the check with the same root in their headers and as many transactions
  -- have the same transaction identifiers in the same order, or two nodes at the same place of the
  -- two Merkle trees over their identifiers are made of different children and have one hash; for
  -- digests of 32 bytes.
  pub verify_merkle_root-binds :
      (a b : Block)
      → IsDigest c
      → verify_merkle_root c a ≡ true
      → verify_merkle_root c b ≡ true
      → a.header.merkle_root ≡ b.header.merkle_root
      → length (map (calculate_id c) a.transactions) ≡ length (map (calculate_id c) b.transactions)
      → (map (calculate_id c) a.transactions ≡ map (calculate_id c) b.transactions)
        ⊎ Clash c (map (calculate_id c) a.transactions) (map (calculate_id c) b.transactions)
  verify_merkle_root-binds a b d va vb root len =
      let (_, _, ra) = (verify_merkle_root-build_merkle_root a).0 va in
      let (_, _, rb) = (verify_merkle_root-build_merkle_root b).0 vb in
      build_merkle_root-binds c (map (calculate_id c) a.transactions)
        (map (calculate_id c) b.transactions) d (ids-Small d a.transactions)
        (ids-Small d b.transactions) len (ground (arith, ra, rb, root))
