-- ===== src/Servo/Examples.antt =====
-- Runs of the servo input.
use rm32_private.Base.{◌≡◌, refl, false}
use rm32_private.Servo.{default, compute, out_of_range}

too_short : (compute 700 0 false default).1 ≡ out_of_range
unfolding compute
too_short = refl
