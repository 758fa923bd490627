-- ===== src/Crypto/Bytes.antt =====
-- Big-endian bytes of numbers, as `to_be_bytes` of Rust and the `[u8; 32]` of a hash.
use native.Mathlib.Nat.{div-div-eq-div-mul, pow-suc}
use quantum_btc.Prelude.{
  ℕ, zero, suc, ◌/◌, ◌%◌, ◌^◌, ◌<◌, ◌≡◌, refl, List, [], ◌∷◌, ◌++◌, length, Hash, arith,
}

unfoldable pub to_be_bytes : ℕ → ℕ → List ℕ
to_be_bytes zero x = []
to_be_bytes (suc n) x = x / 256 ^ n % 256 ∷ to_be_bytes n x

unfoldable pub hash_bytes : Hash → List ℕ
hash_bytes h = to_be_bytes 32 h

length-to_be_bytes : (n x : ℕ) → length (to_be_bytes n x) ≡ n
unfolding to_be_bytes
length-to_be_bytes zero x = refl
length-to_be_bytes (suc n) x = omega (arith, length-to_be_bytes n x)

pub length-hash_bytes : (h : Hash) → length (hash_bytes h) ≡ 32
unfolding hash_bytes
length-hash_bytes h = length-to_be_bytes 32 h

digit : (q r : ℕ) → q / 256 ≡ r / 256 → q % 256 ≡ r % 256 → q ≡ r
digit q r high low = omega arith

heads : (x y : ℕ) (xs ys : List ℕ) → x ∷ xs ≡ y ∷ ys → (x ≡ y) × (xs ≡ ys)
heads x y xs ys e = ground arith

-- The bytes and what stands above them determine the number.
to_be_bytes-inj :
    (n x y : ℕ) → x / 256 ^ n ≡ y / 256 ^ n → to_be_bytes n x ≡ to_be_bytes n y → x ≡ y
unfolding to_be_bytes
to_be_bytes-inj zero x y above e = omega arith
to_be_bytes-inj (suc n) x y above e =
    let (low, rest) = heads _ _ _ _ e in
    to_be_bytes-inj n x y
      (digit (x / 256 ^ n) (y / 256 ^ n)
        (rw (div-div-eq-div-mul x (256 ^ n) 256, div-div-eq-div-mul y (256 ^ n) 256)
          (rw (pow-suc 256 n) at above))
        low)
      rest

pub hash_bytes-inj :
    (g h : Hash) → g < 256 ^ 32 → h < 256 ^ 32 → hash_bytes g ≡ hash_bytes h → g ≡ h
unfolding hash_bytes
hash_bytes-inj g h lg lh e = to_be_bytes-inj 32 g h (omega arith) e

-- Two lists of bytes one after the other, where the first ones are as long.
pub append-inj :
    (bytes bs cs ds : List ℕ)
    → length bytes ≡ length cs
    → bytes ++ bs ≡ cs ++ ds
    → (bytes ≡ cs) × (bs ≡ ds)
append-inj [] bs [] ds len e = (refl, e)
append-inj [] bs (c ∷ cs) ds len e = ground arith
append-inj (a ∷ bytes) bs [] ds len e = ground arith
append-inj (a ∷ bytes) bs (c ∷ cs) ds len e =
    let (same, rest) = heads _ _ _ _ e in
    ground (arith, append-inj bytes bs cs ds (omega arith) rest)
