-- ===== src/Consensus/Asert/Schedule.antt =====
-- src/consensus/asert.rs: bounds of the target, and the targets after whole half-lives.
use native.Mathlib.Nat.{mul-div_cancel, mod-eq_of_lt, pow-le-pow_right, mul-le-mul, one-le-pow}
use quantum_btc.Prelude.{
  ℕ, suc, ◌+◌, ◌-◌, ◌*◌, ◌/◌, ◌%◌, ◌^◌, ◌≤◌, ◌<◌, ◌≡◌, refl, false, arith, leb, min,
}
use quantum_btc.Prelude.Int.{
  pos, negsuc, ◌-ℤ◌, scale, trunc_div, floor_div, floor_mod, saturate, wrap,
}
use quantum_btc.Consensus.Asert.{
  time_delta, exponent, multiplier, shift_target, clamp_target, target_of_delta,
  calculate_asert_target, max_asert_target,
}

clamp_target-bounds : (t : ℕ) → (1 ≤ clamp_target t) × (clamp_target t ≤ max_asert_target)
unfolding clamp_target
clamp_target-bounds t = ground arith

pub calculate_asert_target-bounds :
    (a s t h : ℕ)
    → (1 ≤ calculate_asert_target a s t h) × (calculate_asert_target a s t h ≤ max_asert_target)
unfolding calculate_asert_target target_of_delta
calculate_asert_target-bounds a s t h = clamp_target-bounds _

-- The schedule error of a block that is `d` seconds late.
time_delta-late : (s h d : ℕ) → s + 600 * h + d < 2 ^ 63 → time_delta s (s + 600 * h + d) h ≡ pos d
unfolding time_delta wrap saturate scale ◌-ℤ◌
time_delta-late s h d small = ground arith

exponent-whole : (k : ℕ) → exponent (pos (43200 * k)) ≡ pos (65536 * k)
unfolding exponent scale trunc_div
exponent-whole k = ground arith

multiplier-zero : multiplier 0 ≡ 65536
unfolding multiplier
multiplier-zero = refl

parts : (k : ℕ) → (65536 * k / 65536 ≡ k) × (65536 * k % 65536 ≡ 0)
parts k = omega arith

some_parts : 0 < 65536
some_parts = omega arith

shift_target-left : (a k : ℕ) → k < 64 → a * 2 ^ k < 2 ^ 128 → shift_target (pos k) a ≡ a * 2 ^ k
unfolding shift_target
shift_target-left a k small fits =
    let same : k % 2 ^ 32 ≡ k = omega arith in
    let within : leb 64 k ≡ false = ground arith in rw (same, within) (mod-eq_of_lt fits)

pub shift_target-right : (a k : ℕ) → suc k < 64 → shift_target (negsuc k) a ≡ a / 2 ^ suc k
unfolding shift_target
shift_target-right a k small =
    let same : suc k % 2 ^ 32 ≡ suc k = omega arith in
    let within : leb 64 (suc k) ≡ false = ground arith in rw (same, within) refl

whole : (a k : ℕ) → target_of_delta a (pos (43200 * k)) ≡ clamp_target (shift_target (pos k) a)
unfolding target_of_delta floor_div floor_mod
whole a k =
    rw (exponent-whole k, (parts k).0, (parts k).1, multiplier-zero, mul-div_cancel a some_parts)
      refl

exponent-whole_early : (k : ℕ) → exponent (negsuc (43200 * suc k - 1)) ≡ negsuc (65536 * suc k - 1)
unfolding exponent scale trunc_div
exponent-whole_early k = ground arith

parts_early :
    (k : ℕ) → ((65536 * suc k - 1) / 65536 ≡ k) × (65536 - 1 - (65536 * suc k - 1) % 65536 ≡ 0)
parts_early k = omega arith

whole_early :
    (a k : ℕ)
    → target_of_delta a (negsuc (43200 * suc k - 1)) ≡ clamp_target (shift_target (negsuc k) a)
unfolding target_of_delta floor_div floor_mod
whole_early a k =
    rw
      (
        exponent-whole_early k,
        (parts_early k).0,
        (parts_early k).1,
        multiplier-zero,
        mul-div_cancel a some_parts,
      )
      refl

pub time_delta-early :
    (s h d t : ℕ) → s + 600 * h ≡ t + suc d → s + 600 * h < 2 ^ 63 → time_delta s t h ≡ negsuc d
unfolding time_delta wrap saturate scale ◌-ℤ◌
time_delta-early s h d t early small = ground arith

two_pos : 0 < 2
two_pos = omega arith

doubled : (a k : ℕ) → a < 2 ^ 64 → k < 64 → a * 2 ^ k < 2 ^ 128
doubled a k la lk =
    let few : 2 ^ k ≤ 2 ^ 63 = pow-le-pow_right two_pos {j = 63} (omega arith) in
    let most : a * 2 ^ k ≤ 2 ^ 64 * 2 ^ 63 = mul-le-mul {n₂ = 2 ^ 64} (omega arith) few in
    omega arith

clamp_target-min : (x : ℕ) → 1 ≤ x → clamp_target x ≡ min x max_asert_target
unfolding clamp_target
clamp_target-min x some_target = ground arith

-- A block that is `k` whole half-lives of 43,200 seconds behind the schedule of one block per 600
-- seconds gets the anchor's target times 2^k, or 2^32 - 1 if that is less; on schedule, where `k` is
-- 0, the anchor's target or 2^32 - 1 if that is less. For `k` below 64, a 64-bit target that is not
-- 0 and times below 2^63.
pub calculate_asert_target-late :
    (a s h k : ℕ)
    → 1 ≤ a
    → a < 2 ^ 64
    → k < 64
    → s + 600 * h + 43200 * k < 2 ^ 63
    → calculate_asert_target a s (s + 600 * h + 43200 * k) h ≡ min (a * 2 ^ k) max_asert_target
unfolding calculate_asert_target
calculate_asert_target-late a s h k some_target la lk small =
    rw
      (
        time_delta-late s h (43200 * k) small,
        whole a k,
        shift_target-left a k lk (doubled a k la lk),
      )
      (clamp_target-min (a * 2 ^ k)
        (mul-le-mul {n₂ = a} some_target (one-le-pow k 2 (omega arith))))

-- A block that is `k + 1` whole half-lives ahead of the schedule gets the anchor's target divided
-- by 2^(k + 1), within the bounds; for `k + 1` below 64 and times below 2^63.
pub calculate_asert_target-early :
    (a s h k t : ℕ)
    → suc k < 64
    → s + 600 * h ≡ t + 43200 * suc k
    → s + 600 * h < 2 ^ 63
    → calculate_asert_target a s t h ≡ clamp_target (a / 2 ^ suc k)
unfolding calculate_asert_target
calculate_asert_target-early a s h k t lk early small =
    rw
      (
        time_delta-early s h (43200 * suc k - 1) t (omega arith) small,
        whole_early a k,
        shift_target-right a k lk,
      )
      refl
