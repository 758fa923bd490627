-- ===== src/Miner/Midstate.antt =====
-- src/miner.rs: the hash of the CPU miner against the hash of the block.
use quantum_btc.Prelude.{
  ℕ, zero, suc, ◌+◌, ◌-◌, ◌*◌, ◌/◌, ◌%◌, ◌≡◌, sym, List, ◌∷◌, ◌++◌, length, take, drop,
}
use quantum_btc.Crypto.Bytes.{to_be_bytes, hash_bytes}
use quantum_btc.Crypto.Primitives.{Primitives}
use quantum_btc.Block.{Block, calculate_hash, header_bytes}
use quantum_btc.Miner.{Compress, sha256_h_init, zeros, words_bytes, new_hasher, hash_nonce}

-- The padding of SHA-256: a bit 1, zeros up to a multiple of 64 bytes, and the length in bits.
abbrev pub padded : List ℕ → List ℕ
padded m = m ++ 128 ∷ zeros ((64 - (length m + 9) % 64) % 64) ++ to_be_bytes 8 (8 * length m)

-- So many blocks, from a state on.
abbrev pub absorb : Compress → ℕ → List ℕ → List ℕ → List ℕ
absorb compress256 zero state m = state
absorb compress256 (suc blocks) state m =
    absorb compress256 blocks (compress256 state (take 64 m)) (drop 64 m)

-- The digest is SHA-256 with this compression of blocks.
abbrev pub IsSha256 : Primitives → Compress → Type 0
IsSha256 c compress256 =
    (m : List ℕ)
    → hash_bytes (c.sha256 m)
      ≡ words_bytes (absorb compress256 (length (padded m) / 64) sha256_h_init (padded m))

-- The miner's hash for a nonce and a target, from the state after the first 64 bytes, is the hash of
-- the block that has them, if the digest is SHA-256 over the package's compression of blocks.
pub hash_nonce-calculate_hash :
    (c : Primitives) (compress256 : Compress) (block : Block)
    → IsSha256 c compress256
    → let h = block.header in
      hash_nonce compress256
        (new_hasher compress256 h.timestamp h.previous_hash h.merkle_root h.commit_merkle_root)
        h.nonce
        h.target
      ≡ hash_bytes (calculate_hash c block)
unfolding new_hasher hash_nonce calculate_hash header_bytes to_be_bytes hash_bytes
hash_nonce-calculate_hash c compress256 block digest = sym (digest (header_bytes block.header))
