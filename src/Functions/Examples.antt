-- ===== src/Functions/Examples.antt =====
-- Runs of the numeric helpers.
use rm32_private.Base.{◌≡◌, refl}
use rm32_private.Base.Int.{pos, negsuc, ◌+ℤ◌, ◌-ℤ◌, ◌*ℤ◌, ◌/ℤ◌}
use rm32_private.Base.Word.{i32}
use rm32_private.Functions.{map, get_abs_dif}

halfway : map (pos 50) (pos 0) (pos 100) (pos 0) (pos 1000) ≡ pos 500
unfolding map i32 ◌+ℤ◌ ◌-ℤ◌ ◌*ℤ◌ ◌/ℤ◌
halfway = refl

inverted : map (pos 50) (pos 100) (pos 0) (pos 0) (pos 1000) ≡ pos 500
unfolding map i32 ◌+ℤ◌ ◌-ℤ◌ ◌*ℤ◌ ◌/ℤ◌
inverted = refl

below_range : map (negsuc 9) (pos 0) (pos 100) (pos 0) (pos 1000) ≡ pos 0
unfolding map i32 ◌+ℤ◌ ◌-ℤ◌ ◌*ℤ◌ ◌/ℤ◌
below_range = refl

difference : get_abs_dif (pos 0) (negsuc 999) ≡ 1000
unfolding get_abs_dif i32 ◌-ℤ◌
difference = refl
