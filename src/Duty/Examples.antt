-- ===== src/Duty/Examples.antt =====
-- Runs of the duty cycle.
use rm32_private.Base.{◌≡◌, refl, false, arith}
use rm32_private.Duty.{DutyState, default, ramp_limit}
use rm32_private.Duty.Ramp.{IsValid}

abbrev rising_duty : DutyState
rising_duty = record default { cycle = 500; last = 400; ramp_count = 1 }

rising_duty-IsValid : IsValid rising_duty
rising_duty-IsValid = ground arith

low_rpm : (ramp_limit 0 0 200 1000 false rising_duty).cycle ≡ 406
unfolding ramp_limit
low_rpm = refl
