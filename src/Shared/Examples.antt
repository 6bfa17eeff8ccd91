-- ===== src/Shared/Examples.antt =====
-- Runs of the shared state.
use rm32_private.Base.{◌≢◌, ◌≡◌, refl, if◌then◌else◌}
use rm32_private.MotorMode.{disarmed, armed, old_routine, arm, disarm, start_motor}
use rm32_private.MotorMode
use rm32_private.Shared.{SharedState, new, mode, mode_eq, set_motor_mode, transition}
use rm32_private.Shared.Race.{default_transition, default_transition-loses_disarm}

abbrev ready : SharedState
ready = record new { motor_mode = 1 }

-- Another context that counts.
abbrev zero_counts : SharedState → SharedState
zero_counts s = record s { zero_crosses = 0 }

starts : MotorMode.transition (mode ready) start_motor ≢ disarmed
unfolding mode MotorMode.transition MotorMode.from_u8
starts h = cc

default_transition-loses_disarm_example :
    let n = MotorMode.transition (mode ready) start_motor in
    (mode (default_transition start_motor (transition disarm) zero_counts ready) ≡ n)
    × (mode (default_transition start_motor zero_counts (transition disarm) ready)
        ≡ (if mode_eq n (mode (zero_counts ready)) then disarmed else n))
default_transition-loses_disarm_example =
    default_transition-loses_disarm start_motor zero_counts ready starts

-- In both windows the motor starts in spite of the disarm.
started :
    (mode (default_transition start_motor (transition disarm) zero_counts ready) ≡ old_routine)
    × (mode (default_transition start_motor zero_counts (transition disarm) ready) ≡ old_routine)
unfolding default_transition transition mode set_motor_mode mode_eq MotorMode.transition
    MotorMode.from_u8 MotorMode.to_u8
started = (refl, refl)
