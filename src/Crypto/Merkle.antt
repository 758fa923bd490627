-- ===== src/Crypto/Merkle.antt =====
-- src/crypto/merkle.rs: the Merkle root of a list of hashes, and the test for duplicates.
pub mod Layers
pub mod Binding
use quantum_btc.Prelude.{
  ℕ, zero, suc, ◌+◌, ◌-◌, ◌%◌, Bool, true, false, List, [], ◌∷◌, ◌++◌, length, get_or, Hash,
  HashSet, contains, set_insert, nat_eq, leb, ◌==◌, if◌then◌else◌,
}
use quantum_btc.Crypto.Bytes.{hash_bytes}
use quantum_btc.Crypto.Primitives.{Primitives}

-- `if len % 2 != 0 { push(last) }`
unfoldable pub duplicate_tail : List Hash → List Hash
duplicate_tail hashes =
    if length hashes % 2 == 0 then hashes else hashes ++ get_or hashes (length hashes - 1) 0 ∷ []

module _ (c : Primitives) where
  -- `hasher.update(left); hasher.update(right)`
  unfoldable pub hash_pair : Hash → Hash → Hash
  hash_pair left right = c.sha256 (hash_bytes left ++ hash_bytes right)

  -- The loop over the even indices; of a list of even length no element is left over.
  unfoldable pub hash_pairs : List Hash → List Hash
  hash_pairs [] = []
  hash_pairs (_ ∷ []) = []
  hash_pairs (left ∷ right ∷ rest) = hash_pair left right ∷ hash_pairs rest

  -- `while hashes.len() > 1`, for at most so many rounds.
  unfoldable pub reduce : ℕ → List Hash → List Hash
  unfolding duplicate_tail hash_pairs
  reduce zero hashes = hashes
  reduce (suc rounds) hashes =
      if leb (length hashes) 1 then hashes else reduce rounds (hash_pairs (duplicate_tail hashes))

  -- Each round shortens the list, so as many rounds as hashes are enough.
  unfoldable pub build_merkle_root : List Hash → Hash
  unfolding reduce
  build_merkle_root hashes = get_or (reduce (length hashes) hashes) 0 0

-- The loop of `has_duplicate_txs`, with the hashes seen.
unfoldable pub repeats_seen : HashSet Hash → List Hash → Bool
repeats_seen seen [] = false
repeats_seen seen (hash ∷ hashes) =
    if contains hash seen then true else repeats_seen (set_insert hash seen) hashes

unfoldable pub has_duplicate_txs : List Hash → Bool
unfolding repeats_seen
has_duplicate_txs hashes = repeats_seen [] hashes
