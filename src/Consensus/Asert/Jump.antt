-- ===== src/Consensus/Asert/Jump.antt =====
-- src/consensus/asert.rs: the target between two whole half-lives.
use native.Mathlib.Nat.{le-div_iff_mul-le, div-mul-le_self, mul-le-mul_right, pow-suc, one-le-pow}
use quantum_btc.Prelude.{ℕ, suc, ◌+◌, ◌-◌, ◌*◌, ◌/◌, ◌%◌, ◌^◌, ◌≤◌, ◌<◌, ◌≡◌, refl, arith}
use quantum_btc.Prelude.Int.{negsuc, scale, trunc_div, floor_div, floor_mod}
use quantum_btc.Consensus.Asert.{
  exponent, multiplier, target_of_delta, shift_target, clamp_target, calculate_asert_target,
  max_asert_target,
}
use quantum_btc.Consensus.Asert.Schedule.{
  time_delta-early, shift_target-right, calculate_asert_target-early,
}

-- One second more than whole half-lives ahead.
exponent-next : (k : ℕ) → exponent (negsuc (43200 * k)) ≡ negsuc (65536 * k)
unfolding exponent scale trunc_div
exponent-next k = ground arith

parts-next : (k : ℕ) → (65536 * k / 65536 ≡ k) × (65536 - 1 - 65536 * k % 65536 ≡ 65535)
parts-next k = omega arith

multiplier-last : multiplier 65535 ≡ 180221
unfolding multiplier
multiplier-last = refl

target-next :
    (a k : ℕ)
    → target_of_delta a (negsuc (43200 * k))
      ≡ clamp_target (shift_target (negsuc k) (a * 180221 / 65536))
unfolding target_of_delta floor_div floor_mod
target-next a k = rw (exponent-next k, (parts-next k).0, (parts-next k).1, multiplier-last) refl

-- For `x` the largest multiple of `p` up to `a`.
room : (a x p : ℕ) → x ≤ a → 3 * p ≤ x → 2 * x + 2 * p ≤ a * 180221 / 65536
room a x p le three = omega arith

spread : (q p : ℕ) → suc q * (p * 2) ≡ 2 * (q * p) + 2 * p
spread q p = omega arith

two_pow-pos : (n : ℕ) → 0 < 2 ^ n
two_pow-pos n = one-le-pow n 2 (omega arith)

shifted-grows : (a n : ℕ) → 3 ≤ a / 2 ^ n → a / 2 ^ n < a * 180221 / 65536 / 2 ^ suc n
shifted-grows a n three =
    let p = 2 ^ n in
    let q = a / p in
    let below : q * p ≤ a = div-mul-le_self a p in
    let large : 3 * p ≤ q * p = mul-le-mul_right p three in
    (le-div_iff_mul-le (two_pow-pos (suc n))).1
      (rw (pow-suc 2 n, spread q p) (room a (q * p) p below large))

clamp_target-grows :
    (x y : ℕ) → 1 ≤ x → x < max_asert_target → x < y → clamp_target x < clamp_target y
unfolding clamp_target
clamp_target-grows x y some_target small more = ground arith

-- The target jumps at whole half-lives: a block that is `k + 1` whole half-lives and one second ahead
-- of the schedule of one block per 600 seconds gets a larger target than a block that is one second
-- less ahead, where the anchor's target divided by 2^(k + 1) is from 3 to 2^32 - 2; for `k + 1` below
-- 63 and times below 2^63. For the target 2^40 - 1 of the genesis block these are 9 to 38 half-lives
-- of 43,200 seconds.
pub calculate_asert_target-jumps :
    (a s h k t : ℕ)
    → suc k < 63
    → 3 ≤ a / 2 ^ suc k
    → a / 2 ^ suc k < max_asert_target
    → s + 600 * h ≡ t + suc (43200 * suc k)
    → s + 600 * h < 2 ^ 63
    → calculate_asert_target a s (t + 1) h < calculate_asert_target a s t h
unfolding calculate_asert_target
calculate_asert_target-jumps a s h k t lk large small early fits =
    rw
      (
        calculate_asert_target-early a s h k (t + 1) (omega arith) (omega arith) fits,
        time_delta-early s h (43200 * suc k) t early fits,
        target-next a (suc k),
        shift_target-right (a * 180221 / 65536) (suc k) (omega arith),
      )
      (clamp_target-grows (a / 2 ^ suc k) (a * 180221 / 65536 / 2 ^ suc (suc k)) (omega arith) small
        (shifted-grows a (suc k) large))
