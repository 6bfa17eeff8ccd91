-- ===== src/Duty/Setpoint.antt =====
-- The throttle curve (`compute_setpoint`, rm32/src/control/state.rs).
use rm32_private.Base.{
  ℕ, ◌/◌, ◌^◌, ◌≤◌, ◌<◌, ◌≡◌, refl, Bool, Bool-cases, inl, inr, ◌⊎◌, true, false, ltb, min, arith,
  if◌then◌else◌,
}
use rm32_private.Base.Word.{clamp, u16_of_pos}
use rm32_private.Functions.Interpolate.{lerp_up, lerp_up-bounds, lerp_up_mono, map-lerp_up}
use rm32_private.Duty.{DutyState, compute_setpoint}

-- The curve without the startup limits: linear from the minimum duty at 47 to 2000 at 2047.
abbrev pub curve : ℕ → ℕ → ℕ
curve minimum input = lerp_up input 47 2047 minimum 2000

abbrev pub in_startup : ℕ → ℕ → Bool
in_startup zero_crosses stall = ltb zero_crosses (30 / 2 ^ min stall 5)

-- The setpoint in closed form.
pub compute_setpoint_lem :
    (input zc stall : ℕ) (d : DutyState)
    → d.minimum ≤ 2000
    → compute_setpoint input zc stall d ≡ (
        if in_startup zc stall
        then clamp d.min_startup d.startup_max (curve d.minimum input)
        else curve d.minimum input)
unfolding compute_setpoint
compute_setpoint_lem input zc stall d h =
    let fits : curve d.minimum input < 65536 =
      omega (arith, lerp_up-bounds input 47 2047 d.minimum 2000 (omega arith) h) in
    rw
      (
        map-lerp_up input 47 2047 d.minimum 2000 (omega arith) (omega arith) h (omega arith),
        u16_of_pos (curve d.minimum input) fits,
      )
      refl

clamp_in : (lo hi x : ℕ) → lo ≤ hi → (lo ≤ clamp lo hi x) × (clamp lo hi x ≤ hi)
clamp_in lo hi x h = ground arith

clamp_mono : (lo hi x y : ℕ) → lo ≤ hi → x ≤ y → clamp lo hi x ≤ clamp lo hi y
clamp_mono lo hi x y h k = ground arith

-- The setpoint lies between the minimum duty and full duty once the motor has started, and between
-- the two startup limits before; more throttle never gives less duty.
pub compute_setpoint_bounds :
    (input input' zc stall : ℕ) (d : DutyState)
    → d.minimum ≤ 2000
    → d.min_startup ≤ d.startup_max
    → input ≤ input'
    → let at = λ (v : ℕ). compute_setpoint v zc stall d in
      (at input ≤ at input')
      × ((in_startup zc stall ≡ true) × (d.min_startup ≤ at input) × (at input ≤ d.startup_max)
          ⊎ ((in_startup zc stall ≡ false) × (d.minimum ≤ at input) × (at input ≤ 2000)))
compute_setpoint_bounds v w zc stall d h k le =
    let low = lerp_up-bounds v 47 2047 d.minimum 2000 (omega arith) h in
    let mono = lerp_up_mono v w 47 2047 d.minimum 2000 (omega arith) le in
    rw (compute_setpoint_lem v zc stall d h, compute_setpoint_lem w zc stall d h)
      (elim (Bool-cases (in_startup zc stall)) [
        | inl e ↦ rw e (
          clamp_mono d.min_startup d.startup_max _ _ k mono,
          inl (
            refl,
            (clamp_in d.min_startup d.startup_max _ k).0,
            (clamp_in d.min_startup d.startup_max _ k).1,
          ),
        )
        | inr e ↦ rw e (mono, inr (refl, low.0, low.1))
      ])
