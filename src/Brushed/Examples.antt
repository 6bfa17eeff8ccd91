-- ===== src/Brushed/Examples.antt =====
-- Runs of the brushed motor and the fixed modes.
use rm32_private.Base.{◌≡◌, refl, true}
use rm32_private.Base.Int.{◌+ℤ◌, ◌-ℤ◌, ◌*ℤ◌, ◌/ℤ◌}
use rm32_private.Base.Word.{u16_of, i32}
use rm32_private.Functions.{map}
use rm32_private.Brushed.{
  default, reverse, brushed_tick, take_direction, fixed_duty_input, fixed_speed_target,
}

full_reverse :
    (brushed_tick 48 true 1000 default).1 ≡ record { duty = 1000; output_direction = reverse }
unfolding brushed_tick u16_of map i32 ◌+ℤ◌ ◌-ℤ◌ ◌*ℤ◌ ◌/ℤ◌
full_reverse = refl

latches :
    (brushed_tick 1048 true 1000 (brushed_tick 48 true 1000 default).0).0
    ≡ record { direction = reverse; direction_set = true }
unfolding brushed_tick take_direction
latches = refl

bench :
    (fixed_duty_input 100 ≡ 2047)
    × (fixed_speed_target 1000 14 ≡ 8571)
    × (fixed_speed_target 1000 0 ≡ 8571)
unfolding fixed_duty_input fixed_speed_target
bench = (refl, refl, refl)
