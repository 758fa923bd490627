-- ===== src/Consensus/Construction.antt =====
-- src/block.rs: a block that `Block::new` makes passes the checks of its roots.
use quantum_btc.Prelude.{
  ℕ, ◌≡◌, refl, true, false, List, [], ◌∷◌, map, is_empty, Hash, HashSet, contains, set_insert,
  nat_eq, Bool-cases, inl, inr, ==_iff,
}
use quantum_btc.Crypto.Primitives.{Primitives}
use quantum_btc.Transaction.{Transaction, calculate_id}
use quantum_btc.Block.{drop_repeats, new_block}
use quantum_btc.Consensus.{verify_merkle_root, verify_witness_commitment}
use quantum_btc.Consensus.Merkle.{
  IsDistinct, Unseen, Unseen-set_insert, verify_merkle_root-build_merkle_root,
}

module _ (c : Primitives) where
  ids-drop_repeats :
      (seen : HashSet Hash) (txs : List Transaction)
      → let ids = map (calculate_id c) (drop_repeats c seen txs) in Unseen seen ids × IsDistinct ids
  unfolding drop_repeats
  ids-drop_repeats seen [] = (tt, tt)
  ids-drop_repeats seen (tx ∷ txs) = elim (Bool-cases (contains (calculate_id c tx) seen)) [
    | inl repeated ↦ rw repeated (ids-drop_repeats seen txs)
    | inr fresh ↦
        let (unseen, distinct) = ids-drop_repeats (set_insert (calculate_id c tx) seen) txs in
        let (others, before) =
          (Unseen-set_insert (calculate_id c tx) seen
              (map (calculate_id c) (drop_repeats c (set_insert (calculate_id c tx) seen) txs))).0
            unseen in
        rw fresh ((fresh, before), (others, distinct))
  ]

  -- `Block::new` drops every transaction whose identifier an earlier one has, and no other.
  first_kept :
      (tx : Transaction) (txs : List Transaction) → is_empty (drop_repeats c [] (tx ∷ txs)) ≡ false
  unfolding drop_repeats contains
  first_kept tx txs = refl

  -- A block that `Block::new` makes of at least one transaction, repeated or not, passes the checks
  -- of its Merkle root and of its witness commitment.
  pub new_block-verify_merkle_root :
      (now : ℕ) (previous : Hash) (tx : Transaction) (txs : List Transaction) (target nonce : ℕ)
      → let b = new_block c now previous (tx ∷ txs) target nonce in
        (verify_merkle_root c b ≡ true) × (verify_witness_commitment c b ≡ true)
  unfolding new_block verify_witness_commitment
  new_block-verify_merkle_root now previous tx txs target nonce = (
    (verify_merkle_root-build_merkle_root c (new_block c now previous (tx ∷ txs) target nonce)).1
        (first_kept tx txs, (ids-drop_repeats [] (tx ∷ txs)).1, refl),
    (==_iff _ _).1 refl,
  )
