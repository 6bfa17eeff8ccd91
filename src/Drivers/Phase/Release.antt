-- ===== src/Drivers/Phase/Release.antt =====
-- How the bridge is released: `all_off` of rm32_stm32/src/phase.rs and `emergency_off` of
-- rm32_stm32/src/emergency.rs, which the panic handler of rm32_stm32/src/panic.rs calls.
use rm32_private.Base.{false, ◌==◌, ◌≡◌, refl, arith}
use rm32_private.Drivers.Phase.{
  Leg, phase_a, phase_b, phase_c, Side, high_side, low_side, all_off, emergency_off, mode_alternate,
}
use rm32_private.Drivers.Phase.Crossing.{
  Pin, Switches, Bridge, leg_of, write_all, may_conduct, released,
}

abbrev pub side_of : Side → Switches → Pin
side_of high_side s = s.high
side_of low_side s = s.low

-- Whatever the bridge was, `all_off` leaves every pin an output at its low level.
pub all_off-released : (b : Bridge) → write_all all_off b ≡ released
unfolding write_all all_off
all_off-released b = refl

-- After the emergency writes a pin may still conduct exactly when it was on the timer: they change
-- the levels of the six pins and no mode.
pub emergency_off-conducts :
    (leg : Leg) (side : Side) (b : Bridge)
    → (may_conduct (side_of side (leg_of leg (write_all emergency_off b)))
        ≡ ((side_of side (leg_of leg b)).mode == mode_alternate))
      × ((side_of side (leg_of leg (write_all emergency_off b))).level ≡ false)
unfolding write_all emergency_off
emergency_off-conducts phase_a high_side b = (ground arith, refl)
emergency_off-conducts phase_a low_side b = (ground arith, refl)
emergency_off-conducts phase_b high_side b = (ground arith, refl)
emergency_off-conducts phase_b low_side b = (ground arith, refl)
emergency_off-conducts phase_c high_side b = (ground arith, refl)
emergency_off-conducts phase_c low_side b = (ground arith, refl)
