-- ===== src/Commutation/Examples.antt =====
-- Runs of the commutation steps.
use rm32_private.Base.{◌≡◌, refl, arith}
use rm32_private.Commutation.{Commutation, new, advance}
use rm32_private.Commutation.Interval.{IsValid}

abbrev at_six : Commutation
at_six = record new { step = 6 }

wraps : (advance at_six).step ≡ 1
unfolding advance
wraps = refl

new-IsValid : IsValid new
new-IsValid = record { step_valid = omega arith; six = refl; words = omega arith }
