-- ===== src/Miner.antt =====
-- src/miner.rs: the hasher of the CPU miner, which keeps the state of SHA-256 after the first block of
-- a header. The function `compress256` of the SHA-256 package is an argument. A word of 32 bits is a
-- number.
pub mod Midstate
use quantum_btc.Prelude.{ℕ, zero, suc, List, [], ◌∷◌, ◌++◌, take, drop, Hash}
use quantum_btc.Crypto.Bytes.{to_be_bytes, hash_bytes}

abbrev pub sha256_h_init : List ℕ
sha256_h_init =
    0x6a09e667 ∷ 0xbb67ae85 ∷ 0x3c6ef372 ∷ 0xa54ff53a ∷ 0x510e527f ∷ 0x9b05688c ∷ 0x1f83d9ab
    ∷ 0x5be0cd19 ∷ []

-- `compress256` of a state and of one block of 64 bytes.
abbrev pub Compress : Type 0
Compress = List ℕ → List ℕ → List ℕ

pub record CpuPowHasher : Type 0 where
  pub midstate : List ℕ
  pub w2tail : List ℕ

abbrev pub zeros : ℕ → List ℕ
zeros zero = []
zeros (suc n) = 0 ∷ zeros n

-- The words of a state, as bytes.
abbrev pub words_bytes : List ℕ → List ℕ
words_bytes [] = []
words_bytes (word ∷ words) = to_be_bytes 4 word ++ words_bytes words

module _ (compress256 : Compress) where
  -- `CpuPowHasher::new`
  unfoldable pub new_hasher : ℕ → Hash → Hash → Hash → CpuPowHasher
  new_hasher timestamp previous_hash merkle_root commit_merkle_root =
      let block1 =
        to_be_bytes 8 timestamp ++ hash_bytes previous_hash ++ take 24 (hash_bytes merkle_root) in
      record {
        midstate = compress256 sha256_h_init block1;
        w2tail = drop 24 (hash_bytes merkle_root) ++ hash_bytes commit_merkle_root;
      }

  unfoldable pub hash_nonce : CpuPowHasher → ℕ → ℕ → List ℕ
  hash_nonce hasher nonce target =
      let block2 = hasher.w2tail ++ to_be_bytes 8 nonce ++ to_be_bytes 8 target ++ 128 ∷ zeros 7 in
      let block3 = zeros 56 ++ to_be_bytes 8 960 in
      words_bytes (compress256 (compress256 hasher.midstate block2) block3)
