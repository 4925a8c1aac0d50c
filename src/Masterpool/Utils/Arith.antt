-- ===== src/Masterpool/Utils/Arith.antt =====
-- The arithmetic of utils.rs. Sums and products of `u64` values taken in `u128` do not wrap, so
-- they are the plain ones; the conversion back to `u64` is checked.
use clawfarm_masterpool.Prelude.{
  ℕ, ◌+◌, ◌-◌, ◌*◌, ◌/◌, Bool, ok, err, ◌>>=◌, ◌>>◌, ℤ, pos, negsuc, ◌+ℤ◌, ◌-ℤ◌, ltb, leb,
  if◌then◌else◌, guard,
}
use clawfarm_masterpool.Runtime.{Error, Outcome}
use clawfarm_masterpool.Masterpool.Error.{ErrorCode}
use clawfarm_masterpool.Masterpool.Constants.{bps_scale, rate_scale, u64_mod, i64_bound, i128_bound}

-- `require!(test, ErrorCode::code)`
abbrev pub require : Bool → ErrorCode → Outcome (Unit {0})
require b e = guard b (Error.masterpool e)

abbrev pub fail : {A : Type 0} → ErrorCode → Outcome A
fail e = err (Error.masterpool e)

-- `try_into::<u64>()`, with the error of the source.
unfoldable pub to_u64 : ℕ → Outcome ℕ
to_u64 n = if ltb n u64_mod then ok n else fail ErrorCode.math_overflow

unfoldable pub calculate_bps_amount : ℕ → ℕ → Outcome ℕ
unfolding to_u64
calculate_bps_amount amount bps = to_u64 (amount * bps / bps_scale)

unfoldable pub calculate_claw_amount : ℕ → ℕ → Outcome ℕ
unfolding to_u64
calculate_claw_amount usdc_amount rate_e6 = to_u64 (usdc_amount * rate_e6 / rate_scale)

unfoldable pub checked_add_u64 : ℕ → ℕ → Outcome ℕ
checked_add_u64 left right =
    if ltb (left + right) u64_mod then ok (left + right) else fail ErrorCode.math_overflow

unfoldable pub checked_sub_u64 : ℕ → ℕ → Outcome ℕ
checked_sub_u64 left right =
    if leb right left then ok (left - right) else fail ErrorCode.math_overflow

-- Whether an integer is an `i128`.
abbrev pub is_i128 : ℤ → Bool
is_i128 (pos n) = ltb n i128_bound
is_i128 (negsuc n) = ltb n i128_bound

unfoldable pub checked_add_i128 : ℤ → ℤ → Outcome ℤ
checked_add_i128 left right =
    if is_i128 (left +ℤ right) then ok (left +ℤ right) else fail ErrorCode.math_overflow

unfoldable pub checked_sub_i128 : ℤ → ℤ → Outcome ℤ
checked_sub_i128 left right =
    if is_i128 (left -ℤ right) then ok (left -ℤ right) else fail ErrorCode.math_overflow

-- The nearest `i64`.
unfoldable pub saturate_i64 : ℤ → ℤ
saturate_i64 (pos n) = if ltb n i64_bound then pos n else pos (i64_bound - 1)
saturate_i64 (negsuc n) = if ltb n i64_bound then negsuc n else negsuc (i64_bound - 1)

unfoldable pub saturating_sub_i64 : ℤ → ℤ → ℤ
unfolding saturate_i64
saturating_sub_i64 a b = saturate_i64 (a -ℤ b)

-- `x.clamp(0, hi)` for `0 <= hi`, as the natural number that `u128::try_from` makes of it.
unfoldable pub clamp_elapsed : ℤ → ℕ → ℕ
clamp_elapsed (pos n) hi = if ltb hi n then hi else n
clamp_elapsed (negsuc n) hi = 0

unfoldable pub compute_linear_releasable_amount : ℕ → ℕ → ℤ → ℤ → ℕ → Outcome ℕ
unfolding to_u64 checked_sub_u64 saturating_sub_i64 clamp_elapsed
compute_linear_releasable_amount total_locked released_so_far lock_start now lock_days = do
  let lock_seconds = lock_days * 86_400
  require (ltb lock_seconds i64_bound) ErrorCode.math_overflow
  require (ltb 0 lock_seconds) ErrorCode.invalid_positive_amount
  let elapsed = clamp_elapsed (saturating_sub_i64 now lock_start) lock_seconds
  vested ← to_u64 (total_locked * elapsed / lock_seconds)
  checked_sub_u64 vested released_so_far
