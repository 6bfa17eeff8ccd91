-- ===== src/Drivers/Phase/Examples.antt =====
-- Runs of the phase driver.
use rm32_private.Base.{◌≡◌, refl, arith, true, false, [], ◌∷◌, ◌==◌}
use rm32_private.Commutation
use rm32_private.Commutation.{Commutation}
use rm32_private.Drivers.Phase.{
  phase_a, high_side, new, com_step, all_pwm, full_brake, proportional_brake, mode_alternate,
  emergency_off,
}
use rm32_private.Drivers.Phase.Crossing.{
  write_all, may_conduct, held_on, released, at_step, ever_crossed, driven, pulled_low, follow,
  follow-clean, com_step-crosses, leg_of,
}
use rm32_private.Drivers.Phase.Release.{side_of, emergency_off-conducts}

-- A bridge that drives leg A: after the emergency writes its upper switch is still on the timer.
driving_leg : may_conduct (((write_all emergency_off (at_step true 1)).leg_a).high) ≡ true
unfolding write_all emergency_off at_step com_step
driving_leg = refl

-- The brake holds the lower switches, and reaches them through a crossed state from a driven leg.
brake_holds : held_on (((write_all full_brake (at_step false 1)).leg_a).low) ≡ true
unfolding write_all full_brake at_step com_step
brake_holds = refl

brake_crosses : ever_crossed full_brake (at_step false 1) ≡ true
unfolding ever_crossed full_brake at_step com_step
brake_crosses = refl

-- The proportional brake puts the lower switches on the timer.
brake_modulates :
    (((write_all (proportional_brake (new true)) (at_step true 1)).leg_a).low).mode ≡ 2
unfolding write_all proportional_brake at_step com_step
brake_modulates = refl

all_driven : (((write_all (all_pwm (new false)) released).leg_c).high).mode ≡ 2
unfolding write_all all_pwm
all_driven = refl

-- Two commutations forward and one back.
follow-clean_example :
    let r = follow true (true ∷ true ∷ false ∷ []) Commutation.new (at_step true 1) in
    (r.0 ≡ false) × (r.2 ≡ at_step true r.1)
follow-clean_example = follow-clean true (true ∷ true ∷ false ∷ []) Commutation.new (ground arith)

emergency_off-conducts_example :
    (may_conduct (side_of high_side (leg_of phase_a (write_all emergency_off (at_step true 1))))
      ≡ ((side_of high_side (leg_of phase_a (at_step true 1))).mode == mode_alternate))
    × ((side_of high_side (leg_of phase_a (write_all emergency_off (at_step true 1)))).level
        ≡ false)
emergency_off-conducts_example = emergency_off-conducts phase_a high_side (at_step true 1)

-- The active brake's step 2, from step 4.
com_step-crosses_example :
    ever_crossed (com_step (new true) 2) (at_step true 4) ≡ (driven 4 == pulled_low 2)
com_step-crosses_example = com_step-crosses true 3 1 (omega arith) (omega arith)

crossed_brake : ever_crossed (com_step (new true) 2) (at_step true 4) ≡ true
unfolding ever_crossed com_step at_step write_all
crossed_brake = refl
