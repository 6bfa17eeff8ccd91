-- ===== src/InputMapping/Examples.antt =====
-- Runs of the throttle mappings.
use rm32_private.Base.{◌≡◌, refl, true, false}
use rm32_private.Base.Int.{◌+ℤ◌, ◌-ℤ◌, ◌*ℤ◌, ◌/ℤ◌}
use rm32_private.Base.Word.{i32, u16_of}
use rm32_private.Functions.{map}
use rm32_private.InputMapping.{dshot_bidir, dshot_rc_car, sine_start_map}

full_forward : (dshot_bidir 2047 true false 100 900 false 1500).adjusted ≡ 2044
unfolding dshot_bidir
full_forward = refl

first_step : (dshot_bidir 48 false false 100 900 false 1500).adjusted ≡ 46
unfolding dshot_bidir
first_step = refl

rc_car_brakes : (dshot_rc_car 300 true false false false).prop_brake ≡ true
unfolding dshot_rc_car
rc_car_brakes = refl

sine_range : sine_start_map 30 5 ≡ 47
unfolding sine_start_map ◌+ℤ◌ ◌-ℤ◌ ◌*ℤ◌ ◌/ℤ◌ i32 u16_of map
sine_range = refl
