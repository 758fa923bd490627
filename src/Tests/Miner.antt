-- ===== src/Tests/Miner.antt =====
-- A run of the CPU miner's hasher of src/miner.rs.
use quantum_btc.Prelude.{
  ℕ, zero, suc, ◌+◌, ◌*◌, ◌^◌, ◌/◌, ◌≡◌, refl, sym, List, [], ◌∷◌, length, ap, drop,
}
use quantum_btc.Crypto.Bytes.{to_be_bytes, hash_bytes}
use quantum_btc.Crypto.Primitives.{Primitives}
use quantum_btc.Crypto.Toy.{toy}
use quantum_btc.Block.{Block, calculate_hash}
use quantum_btc.Miner.{Compress, sha256_h_init, words_bytes, new_hasher, hash_nonce}
use quantum_btc.Miner.Midstate.{IsSha256, absorb, padded, hash_nonce-calculate_hash}

-- A compression that keeps the state, and the digest over it.
abbrev still : Compress
still state block = state

abbrev number_of : List ℕ → ℕ
number_of [] = 0
number_of (w ∷ ws) = w * 2 ^ (32 * length ws) + number_of ws

abbrev still_digest : Primitives
still_digest = record toy { sha256 = λ bytes. number_of sha256_h_init }

absorb-still : (n : ℕ) (state m : List ℕ) → absorb still n state m ≡ state
absorb-still zero state m = refl
absorb-still (suc n) state m = absorb-still n state (drop 64 m)

still-IsSha256 : IsSha256 still_digest still
unfolding hash_bytes to_be_bytes
still-IsSha256 m =
    ap (λ s. words_bytes s) (sym (absorb-still (length (padded m) / 64) sha256_h_init (padded m)))

abbrev mined : Block
mined = record {
  header = record {
    timestamp = 1_778_976_000;
    previous_hash = 5;
    merkle_root = 2 ^ 200 + 9;
    commit_merkle_root = 7;
    nonce = 6_759_977;
    target = 1_099_511_627_775;
  };
  transactions = [];
}

hash_nonce-calculate_hash_example :
    hash_nonce still (new_hasher still 1_778_976_000 5 (2 ^ 200 + 9) 7) 6_759_977 1_099_511_627_775
    ≡ hash_bytes (calculate_hash still_digest mined)
hash_nonce-calculate_hash_example =
    hash_nonce-calculate_hash still_digest still mined still-IsSha256
