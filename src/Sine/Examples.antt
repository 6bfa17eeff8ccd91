-- ===== src/Sine/Examples.antt =====
-- Runs of the sine start and the gimbal.
use rm32_private.Base.{◌+◌, ◌≤◌, ◌<◌, ◌≡◌, refl, arith, true, false}
use rm32_private.Base.Int.{pos, ◌-ℤ◌, ◌+ℤ◌, ◌*ℤ◌, ◌/ℤ◌}
use rm32_private.Base.Word.{i16, i32}
use rm32_private.Functions.{map}
use rm32_private.Sine.{
  new, advance, advance_angle, sine_step, changeover, step_result, desired_angle,
}
use rm32_private.Sine.Phases.{positions, turned, advance-inverse}
use rm32_private.Sine.Drive.{sine_at, sine_at_lem}
use rm32_private.Sine.Steps.{after_steps, sine_step-reaches}
use rm32_private.Sine.Gimbal.{gimbal_steps, gimbal_steps-arrive, desired_angle-range}

starts_at_zero : positions 0 ≡ new
starts_at_zero = refl

advance-inverse_example :
    (advance false (advance true (positions 0)) ≡ positions 0)
    × (turned true 360 (positions 0) ≡ positions 0)
advance-inverse_example = advance-inverse true 0

sine_at_lem_example :
    (sine_at 90 ≤ 360)
    × (sine_at 90 + sine_at (90 + 180) ≡ 360)
    × (539 ≤ sine_at 90 + sine_at (90 + 120) + sine_at (90 + 240))
    × (sine_at 90 + sine_at (90 + 120) + sine_at (90 + 240) ≤ 541)
sine_at_lem_example = sine_at_lem 90

hands_over : (sine_step 300 true true 14 3 (pos 60) 1999 6 (positions 1)).1 ≡ changeover 9000 3
unfolding sine_step advance advance_angle step_result i16 ◌-ℤ◌
hands_over = refl

sine_step-reaches_example :
    (359 < 360)
    × ((sine_step 300 true false 14 3
          (pos 60)
          1999
          6
          (after_steps 300 true false 14 3 (pos 60) 1999 6 359 (positions 0))).1
        ≡ changeover 9000 3)
sine_step-reaches_example =
    sine_step-reaches 300 true false 14 3 (pos 60) 1999 6 0 refl (ground arith)

asks_for : desired_angle 500 ≡ pos 90
unfolding desired_angle map i16 i32 ◌-ℤ◌ ◌+ℤ◌ ◌*ℤ◌ ◌/ℤ◌
asks_for = refl

gimbal_steps-arrive_example :
    (gimbal_steps 500 (pos 60) 1999 360 (new, pos 0)).1 ≡ desired_angle 500
gimbal_steps-arrive_example =
    gimbal_steps-arrive 500 (pos 60) 1999 360 new 0 (ground arith)
      (omega (arith, desired_angle-range 500))
