-- ===== src/Duty/Output.antt =====
-- The compare values for the timer, and the ceilings (rm32/src/control/state.rs).
use rm32_private.Base.{ℕ, ◌+◌, ◌-◌, ◌*◌, ◌/◌, ◌≤◌, ◌<◌, ◌≡◌, min, arith}
use rm32_private.Base.Word.{u32}
use rm32_private.Duty.{DutyState, clamp_ceilings, pwm_compare, brake_compare}

product : (c a : ℕ) → c ≤ 2000 → c * a ≤ 2000 * a
product c a h = grind arith

-- Up to full duty the compare value is computed without overflow; it lies between 1 and one more
-- than the reload value.
pub pwm_compare_lem :
    (arr : ℕ) (d : DutyState)
    → d.cycle ≤ 2000
    → arr < 65535
    → (pwm_compare arr d ≡ d.cycle * arr / 2000 + 1)
      × (1 ≤ pwm_compare arr d)
      × (pwm_compare arr d ≤ arr + 1)
unfolding pwm_compare
pwm_compare_lem arr d h k = omega (arith, product d.cycle arr h)

-- The duty after the ceilings is the boosted duty, cut to the lowest of the ceilings.
pub clamp_ceilings_lem :
    (boost maximum limit : ℕ) (d : DutyState)
    → d.cycle + boost < 65536
    → (clamp_ceilings boost maximum limit d).cycle ≡ min (min (d.cycle + boost) maximum) limit
unfolding clamp_ceilings
clamp_ceilings_lem boost maximum limit d h = ground arith

tenth : (s a : ℕ) → s ≤ 10 → (s * 200 * a ≡ 200 * (s * a)) × (s * a ≤ 10 * a)
tenth s a h = (omega arith, grind arith)

-- The brake of strength 0 to 10 takes a tenth of the reload value for each unit, rounded to the
-- brake's disadvantage; strength 10 holds the phases low throughout.
pub brake_compare_lem :
    (strength arr : ℕ)
    → strength ≤ 10
    → arr < 65536
    → (brake_compare strength arr ≡ arr - strength * arr / 10) × (brake_compare 10 arr ≡ 0)
unfolding brake_compare
brake_compare_lem strength arr h k =
    let small : u32 (strength * 200) ≡ strength * 200 = omega arith in
    (rw small (omega (arith, tenth strength arr h)), omega arith)
