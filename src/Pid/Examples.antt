-- ===== src/Pid/Examples.antt =====
-- Runs of the controllers.
use rm32_private.Base.{◌≡◌, refl}
use rm32_private.Base.Int.{pos, negsuc, ◌+ℤ◌, ◌-ℤ◌, ◌*ℤ◌, ◌/ℤ◌}
use rm32_private.Base.Word.{i32, u16_of}
use rm32_private.Pid.{Pid, calculate, limited, with_stall_target, tick_stall}

abbrev tuned : Pid
tuned = record {
  error = pos 0;
  kp = 1000;
  ki = 10;
  kd = 0;
  integral = pos 0;
  derivative = pos 0;
  last_error = pos 0;
  pid_output = pos 0;
  integral_limit = pos 10000;
  output_limit = pos 5000;
}

saturates : (calculate (pos 400) (pos 500) tuned).1 ≡ negsuc 4999
unfolding calculate limited i32 ◌+ℤ◌ ◌-ℤ◌ ◌*ℤ◌
saturates = refl

boosts : (tick_stall (pos 50000) (with_stall_target 100)).1 ≡ 5
unfolding tick_stall with_stall_target calculate limited i32 u16_of ◌+ℤ◌ ◌-ℤ◌ ◌*ℤ◌ ◌/ℤ◌
boosts = refl
