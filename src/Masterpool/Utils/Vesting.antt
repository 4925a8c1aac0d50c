-- ===== src/Masterpool/Utils/Vesting.antt =====
-- What `compute_linear_releasable_amount` computes.
use Prim.Native.Nat.{min}
use clawfarm_masterpool.Prelude.{
  ℕ, ◌+◌, ◌-◌, ◌*◌, ◌/◌, ◌^◌, ◌≤◌, ◌<◌, ◌≡◌, ok, ℤ, pos, ◌+ℤ◌, ◌-ℤ◌, ◌≤ℤ◌, arith,
}
use clawfarm_masterpool.Masterpool.Constants.{u64_mod, i64_bound}
use clawfarm_masterpool.Masterpool.Utils.Arith.{
  checked_sub_u64, saturating_sub_i64, clamp_elapsed, compute_linear_releasable_amount,
}

-- The part of `total` that has vested after `elapsed` of `span` seconds is at most the whole.
vested-le : (total elapsed span : ℕ) → elapsed ≤ span → 0 < span → total * elapsed / span ≤ total
vested-le total elapsed span h p =
    let m : total * elapsed ≤ total * span = grind arith in grind arith

vested_mono : (total e e' span : ℕ) → e ≤ e' → 0 < span → total * e / span ≤ total * e' / span
vested_mono total e e' span h p = let m : total * e ≤ total * e' = grind arith in grind arith

vested_all : (total span : ℕ) → 0 < span → total * span / span ≡ total
vested_all total span p = grind arith

abbrev elapsed : ℤ → ℤ → ℕ → ℕ
elapsed now start span = clamp_elapsed (saturating_sub_i64 now start) span

elapsed-le : (now start : ℤ) (span : ℕ) → elapsed now start span ≤ span
unfolding saturating_sub_i64 clamp_elapsed ◌-ℤ◌
elapsed-le now start span = ground arith

elapsed_mono :
    (now now' start : ℤ) (span : ℕ) → now ≤ℤ now' → elapsed now start span ≤ elapsed now' start span
unfolding saturating_sub_i64 clamp_elapsed ◌-ℤ◌
elapsed_mono now now' start span h = ground arith

elapsed_before : (now start : ℤ) (span : ℕ) → now ≤ℤ start → elapsed now start span ≡ 0
unfolding saturating_sub_i64 clamp_elapsed ◌-ℤ◌
elapsed_before now start span h = ground arith

elapsed_since :
    (start : ℤ) (e span : ℕ) → span < i64_bound → elapsed (start +ℤ pos e) start span ≡ min e span
unfolding saturating_sub_i64 clamp_elapsed ◌-ℤ◌ ◌+ℤ◌
elapsed_since start e span h = ground arith

-- What is releasable and what was released never exceed the locked total, at any time.
pub releasable-le :
    (total released : ℕ) (start now : ℤ) (days n : ℕ)
    → compute_linear_releasable_amount total released start now days ≡ ok n
    → n + released ≤ total
unfolding compute_linear_releasable_amount
releasable-le total released start now days n h =
    let span = days * 86_400 in
    ground (arith, elapsed-le now start span, vested-le total (elapsed now start span) span)

-- Nothing is releasable at or before the start of the lock.
pub releasable_before :
    (total released : ℕ) (start now : ℤ) (days n : ℕ)
    → compute_linear_releasable_amount total released start now days ≡ ok n
    → now ≤ℤ start
    → n ≡ 0
unfolding compute_linear_releasable_amount
releasable_before total released start now days n h b =
    ground (arith, elapsed_before now start (days * 86_400) b)

-- The releasable amount does not fall as time passes, where it is computed without an error at both times.
pub releasable_mono :
    (total released : ℕ) (start now now' : ℤ) (days n n' : ℕ)
    → now ≤ℤ now'
    → compute_linear_releasable_amount total released start now days ≡ ok n
    → compute_linear_releasable_amount total released start now' days ≡ ok n'
    → n ≤ n'
unfolding compute_linear_releasable_amount
releasable_mono total released start now now' days n n' b h h' =
    let span = days * 86_400 in
    ground (
      arith,
      elapsed_mono now now' start span b,
      vested_mono total (elapsed now start span) (elapsed now' start span) span,
    )

-- Of a `u64` total locked for a positive `u16` number of days, `e` seconds after the start the fraction
-- of the lock that has passed has vested, rounded down, and the whole from its end on; what
-- was released is taken off, with an error if it is more.
pub releasable_since :
    (total released : ℕ) (start : ℤ) (e days : ℕ)
    → 0 < days
    → days < 2 ^ 16
    → total < u64_mod
    → compute_linear_releasable_amount total released start (start +ℤ pos e) days
      ≡ checked_sub_u64 (total * min e (days * 86_400) / (days * 86_400)) released
unfolding compute_linear_releasable_amount
releasable_since total released start e days p b u =
    let span = days * 86_400 in
    rw (elapsed_since start e span (omega arith))
      (ground (arith, vested-le total (min e span) span))

-- From the end of the lock on the whole remainder is releasable.
pub releasable_end :
    (total released : ℕ) (start : ℤ) (e days : ℕ)
    → 0 < days
    → days < 2 ^ 16
    → total < u64_mod
    → released ≤ total
    → days * 86_400 ≤ e
    → compute_linear_releasable_amount total released start (start +ℤ pos e) days
      ≡ ok (total - released)
unfolding checked_sub_u64
releasable_end total released start e days p b u v f =
    rw (releasable_since total released start e days p b u)
      (ground (arith, vested_all total (days * 86_400)))
