-- ===== src/Brushed.antt =====
-- The brushed motor (rm32/src/brushed.rs) and the fixed modes for the bench
-- (rm32/src/fixed_mode.rs).
pub mod Tick
mod Examples
use rm32_private.Base.{ℕ, ◌+◌, ◌*◌, ◌/◌, Bool, true, false, ltb, leb, if◌then◌else◌}
use rm32_private.Base.Int.{pos}
use rm32_private.Base.Word.{u16_of}
use rm32_private.Functions.{map}

pub data BrushedDirection : Type 0 where
  forward reverse : BrushedDirection

pub record BrushedState : Type 0 where
  pub direction : BrushedDirection
  pub direction_set : Bool

abbrev pub default : BrushedState
default = record { direction = forward; direction_set = false }

pub record BrushedOutput : Type 0 where
  pub duty : ℕ
  pub output_direction : BrushedDirection

-- The direction is taken once, at the first throttle after a stop.
unfoldable pub take_direction : BrushedDirection → BrushedState → BrushedState
take_direction d s = if s.direction_set then s else record { direction = d; direction_set = true }

unfoldable pub brushed_tick : ℕ → Bool → ℕ → BrushedState → BrushedState × BrushedOutput
unfolding take_direction
brushed_tick input bidirectional max_duty s =
    if ltb input 48
    then (record s { direction_set = false }, record { duty = 0; output_direction = s.direction })
    else if bidirectional
    then (if leb 1048 input
        then (
          take_direction forward s,
          record {
            duty = u16_of (map (pos input) (pos 1048) (pos 2047) (pos 0) (pos max_duty));
            output_direction = forward;
          },
        )
        else (
          take_direction reverse s,
          record {
            duty = u16_of (map (pos input) (pos 1047) (pos 48) (pos 0) (pos max_duty));
            output_direction = reverse;
          },
        ))
    else (
      s,
      record {
        duty = u16_of (map (pos input) (pos 48) (pos 2047) (pos 0) (pos (max_duty * 95 / 100)));
        output_direction = forward;
      },
    )

-- `power` in percent.
unfoldable pub fixed_duty_input : ℕ → ℕ
fixed_duty_input power = power * 20 + 47

-- The source panics where `rpm` is 0.
unfoldable pub fixed_speed_target : ℕ → ℕ → ℕ
fixed_speed_target rpm motor_poles =
    let poles = if ltb motor_poles 2 then 14 else motor_poles in 60000000 / rpm / (poles / 2)
