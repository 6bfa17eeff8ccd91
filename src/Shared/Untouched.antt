-- ===== src/Shared/Untouched.antt =====
-- The cell `dshot_telemetry` of rm32/src/shared_state.rs under the changes of the mode, which leave it
-- alone.
use rm32_private.Base.{Bool, true, false, ◌≡◌, arith, if◌then◌else◌}
use rm32_private.MotorMode.{MotorEvent}
use rm32_private.Shared.{SharedState, transition, set_motor_mode, set_old_routine}

pub transition-telemetry :
    (e : MotorEvent) (s : SharedState) → (transition e s).dshot_telemetry ≡ s.dshot_telemetry
unfolding transition set_motor_mode
transition-telemetry e s = ground arith

pub old_routine-telemetry :
    (v : Bool) (s : SharedState) → (set_old_routine v s).dshot_telemetry ≡ s.dshot_telemetry
unfolding set_old_routine set_motor_mode
old_routine-telemetry v s = ground arith

-- Both branches of a test.
pub either :
    (b : Bool) (x y s : SharedState)
    → x.dshot_telemetry ≡ s.dshot_telemetry
    → y.dshot_telemetry ≡ s.dshot_telemetry
    → (if b then x else y).dshot_telemetry ≡ s.dshot_telemetry
either true x y s p q = p
either false x y s p q = q
