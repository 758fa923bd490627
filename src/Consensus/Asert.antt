-- ===== src/Consensus/Asert.antt =====
-- src/consensus/asert.rs: the target of a block from the time that has passed since the anchor.
pub mod Schedule
pub mod Jump
use quantum_btc.Prelude.{ℕ, suc, ◌+◌, ◌-◌, ◌*◌, ◌/◌, ◌%◌, ◌^◌, leb, ltb, if◌then◌else◌}
use quantum_btc.Prelude.Int.{
  ℤ, pos, negsuc, ◌-ℤ◌, scale, trunc_div, floor_div, floor_mod, saturate, wrap,
}

abbrev pub ideal_block_time_seconds : ℕ
ideal_block_time_seconds = 600

abbrev pub asert_half_life : ℕ
asert_half_life = 43200

-- `RADIX` is 16: fixed-point numbers count parts of 2^16.
abbrev pub fixed_one : ℕ
fixed_one = 2 ^ 16

-- `x as i64`, and the saturating operations of `i64`.
abbrev pub as_i64 : ℕ → ℤ
as_i64 x = wrap (2 ^ 63) (pos x)

abbrev pub saturating_sub : ℤ → ℤ → ℤ
saturating_sub a b = saturate (2 ^ 63) (a -ℤ b)

abbrev pub saturating_scale : ℤ → ℕ → ℤ
saturating_scale a k = saturate (2 ^ 63) (scale a k)

-- Positive if blocks are too slow.
unfoldable pub time_delta : ℕ → ℕ → ℕ → ℤ
time_delta anchor_time current_time height_diff =
    saturating_sub (saturating_sub (as_i64 current_time) (as_i64 anchor_time))
      (saturating_scale (as_i64 height_diff) ideal_block_time_seconds)

-- In parts of 2^16 of a half-life. A product of 64 and 17 bits does not saturate `i128`.
unfoldable pub exponent : ℤ → ℤ
exponent delta = trunc_div (scale delta fixed_one) asert_half_life

-- The polynomial of step 4, for `frac` below 2^16, where `i128` does not saturate.
unfoldable pub multiplier : ℕ → ℕ
multiplier frac = fixed_one + frac + frac * frac / 2 ^ 17 + frac * frac * frac / 17179869184

-- Step 6: `>>` and `<<` on `u128`, by the shift as `u32`.
unfoldable pub shift_target : ℤ → ℕ → ℕ
shift_target (negsuc n) new_target =
    let abs_shifts = suc n % 2 ^ 32 in if leb 64 abs_shifts then 1 else new_target / 2 ^ abs_shifts
shift_target (pos n) new_target =
    let abs_shifts = n % 2 ^ 32 in
    if leb 64 abs_shifts then 2 ^ 64 - 1 else new_target * 2 ^ abs_shifts % 2 ^ 128

abbrev pub max_asert_target : ℕ
max_asert_target = 4294967295

unfoldable pub clamp_target : ℕ → ℕ
clamp_target new_target =
    let final_target = if ltb new_target max_asert_target then new_target else max_asert_target in
    if ltb final_target 1 then 1 else final_target

-- Steps 3 to 7, from the schedule error.
unfoldable pub target_of_delta : ℕ → ℤ → ℕ
target_of_delta anchor_target delta =
    let e = exponent delta in
    let shifts = floor_div e fixed_one in
    let frac = floor_mod e fixed_one in
    clamp_target (shift_target shifts (anchor_target * multiplier frac / fixed_one))

unfoldable pub calculate_asert_target : ℕ → ℕ → ℕ → ℕ → ℕ
unfolding time_delta target_of_delta
calculate_asert_target anchor_target anchor_time current_time height_diff =
    target_of_delta anchor_target (time_delta anchor_time current_time height_diff)
