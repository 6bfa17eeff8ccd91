-- ===== src/Duty/Ramp.antt =====
-- The ramp limits how fast the duty cycle moves (`ramp_limit`, rm32/src/control/state.rs).
use rm32_private.Base.{
  ℕ, ◌+◌, ◌≤◌, ◌<◌, ◌≡◌, refl, Bool, ◌⊎◌, inl, inr, Bool-cases, ltb, ltb→lt, min, max, arith,
}
use rm32_private.Base.Int.{ℤ, pos, negsuc}
use rm32_private.Base.Word.{u8_of}
use rm32_private.Functions.{map}
use rm32_private.Duty.{DutyState, ramp_limit, ramp_change, limit_cycle}

-- Duty values and ramp profiles in their ranges, so that no sum wraps.
pub record IsValid (d : DutyState) : Type 0 where
  pub cycle_range : d.cycle ≤ 2000
  pub last_range : d.last ≤ 2000
  pub startup_range : d.max_ramp_startup < 256
  pub low_range : d.max_ramp_low_rpm < 256
  pub high_range : d.max_ramp_high_rpm < 256

u8_of-lt : (z : ℤ) → u8_of z < 256
unfolding u8_of
u8_of-lt (pos n) = omega arith
u8_of-lt (negsuc n) = omega arith

ramp_change-lt :
    (bv ci zc ai : ℕ) (vb : Bool) (d : DutyState) → IsValid d → ramp_change bv ci zc ai vb d < 256
unfolding ramp_change
ramp_change-lt bv ci zc ai vb d v =
    ground (arith, u8_of-lt (map (pos bv) (pos 800) (pos 2200) (pos 10) (pos 1)))

-- The distance of two duties.
abbrev pub Near : ℕ → ℕ → ℕ → Type 0
Near change a b = (a ≤ b + change) × (b ≤ a + change)

-- The duty lies on the way from `last` to the request.
abbrev pub OnWay : ℕ → ℕ → ℕ → Type 0
OnWay last request x = (min last request ≤ x) × (x ≤ max last request)

limit_cycle_lem :
    (change : ℕ) (d : DutyState)
    → IsValid d
    → change < 256
    → let r = limit_cycle change d in
      Near change r.cycle d.last
      × OnWay d.last d.cycle r.cycle
      × ((r.cycle ≡ d.cycle) ⊎ (d.last + change < d.cycle) ⊎ (d.cycle + change < d.last))
unfolding limit_cycle
limit_cycle_lem change d v h = ground arith

-- Before the divider has elapsed the duty is held at the last one. After it, the duty moves from the
-- last one towards the request by at most the allowed change, reaches it if it is that near, and
-- the counter restarts. The allowed change is below 256, and `last` is not touched.
pub ramp_limit_lem :
    (bv ci zc ai : ℕ) (vb : Bool) (d : DutyState)
    → IsValid d
    → let r = ramp_limit bv ci zc ai vb d in
      (r.last ≡ d.last)
      × (((d.ramp_count ≤ d.ramp_divider) × (r ≡ record d { cycle = d.last }))
          ⊎ ((d.ramp_divider < d.ramp_count)
              × (r.ramp_count ≡ 0)
              × (r.max_change < 256)
              × Near r.max_change r.cycle d.last
              × OnWay d.last d.cycle r.cycle
              × ((r.cycle ≡ d.cycle)
                  ⊎ (d.last + r.max_change < d.cycle)
                  ⊎ (d.cycle + r.max_change < d.last))))
unfolding ramp_limit
ramp_limit_lem bv ci zc ai vb d v =
    let change = ramp_change bv ci zc ai vb d in
    let lt = ramp_change-lt bv ci zc ai vb d v in
    let (near, way, reach) = limit_cycle_lem change d v lt in
    elim (Bool-cases (ltb d.ramp_divider d.ramp_count)) [
      | inl e ↦ rw e (refl, inr (ltb→lt _ _ e, refl, lt, near, way, reach))
      | inr e ↦ rw e (refl, inl (ground arith, refl))
    ]
