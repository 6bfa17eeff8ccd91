-- ===== src/MotorMode.antt =====
-- The motor's operating modes and their transitions (rm32/src/motor_mode.rs).
pub mod Graph
pub mod Traces
mod Examples
use rm32_private.Base.{ℕ, zero, suc, Bool, true, false, ◌||◌, leb}

pub data MotorMode : Type 0 where
  disarmed armed stepper_sine old_routine running : MotorMode

pub data MotorEvent : Type 0 where
  arm disarm start_motor stop_motor enter_sine exit_sine bemf_locked desync_fallback : MotorEvent

-- `mode as u8`.
unfoldable pub to_u8 : MotorMode → ℕ
to_u8 disarmed = 0
to_u8 armed = 1
to_u8 stepper_sine = 2
to_u8 old_routine = 3
to_u8 running = 4

unfoldable pub from_u8 : ℕ → MotorMode
from_u8 zero = disarmed
from_u8 (suc zero) = armed
from_u8 (suc (suc zero)) = stepper_sine
from_u8 (suc (suc (suc zero))) = old_routine
from_u8 (suc (suc (suc (suc zero)))) = running
from_u8 _ = disarmed

-- `self as u8 >= Self::Armed as u8`.
unfoldable pub is_armed : MotorMode → Bool
unfolding to_u8
is_armed m = leb (to_u8 armed) (to_u8 m)

unfoldable pub is_old_routine : MotorMode → Bool
is_old_routine old_routine = true
is_old_routine _ = false

unfoldable pub is_stepper_sine : MotorMode → Bool
is_stepper_sine stepper_sine = true
is_stepper_sine _ = false

-- `self == Self::Running`.
unfoldable pub is_mode_running : MotorMode → Bool
is_mode_running running = true
is_mode_running _ = false

unfoldable pub is_running : MotorMode → Bool
unfolding is_old_routine is_mode_running
is_running m = is_old_routine m || is_mode_running m

-- An event that the mode does not accept leaves it unchanged. The clauses stand in the order of
-- the source, whose second pattern, `(_, Disarm)`, comes first here.
unfoldable pub transition : MotorMode → MotorEvent → MotorMode
transition _ disarm = disarmed
transition disarmed arm = armed
transition armed start_motor = old_routine
transition old_routine stop_motor = armed
transition running stop_motor = armed
transition armed enter_sine = stepper_sine
transition stepper_sine exit_sine = old_routine
transition old_routine bemf_locked = running
transition running desync_fallback = old_routine
transition m _ = m
