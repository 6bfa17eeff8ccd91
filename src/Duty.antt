-- ===== src/Duty.antt =====
-- Duty cycle, ramp and ceilings (`DutyState`, rm32/src/control/state.rs).
pub mod Setpoint
pub mod Ramp
pub mod Output
mod Examples
use rm32_private.Base.{ℕ, ◌+◌, ◌-◌, ◌*◌, ◌/◌, ◌^◌, Bool, true, false, ◌||◌, ltb, min, if◌then◌else◌}
use rm32_private.Base.Int.{ℤ, pos}
use rm32_private.Base.Word.{u8, u16, u32, sub_u16, sat_u8, sat_u16, clamp, u8_of, u16_of}
use rm32_private.Functions.{map}

pub record DutyState : Type 0 where
  pub cycle : ℕ
  pub maximum : ℕ
  pub last : ℕ
  pub adjusted : ℕ
  pub min_startup : ℕ
  pub startup_max : ℕ
  pub minimum : ℕ
  pub max_change : ℕ
  pub ramp_count : ℕ
  pub ramp_divider : ℕ
  pub max_ramp_startup : ℕ
  pub max_ramp_low_rpm : ℕ
  pub max_ramp_high_rpm : ℕ

abbrev pub default : DutyState
default = record {
  cycle = 0;
  maximum = 2000;
  last = 0;
  adjusted = 0;
  min_startup = 120;
  startup_max = 200;
  minimum = 5;
  max_change = 2;
  ramp_count = 0;
  ramp_divider = 0;
  max_ramp_startup = 2;
  max_ramp_low_rpm = 6;
  max_ramp_high_rpm = 16;
}

unfoldable pub set_duty_limits : ℕ → ℕ → ℕ → DutyState → DutyState
set_duty_limits minimum min_startup startup_max d = record d {
  minimum = minimum;
  min_startup = min_startup;
  startup_max = startup_max;
}

unfoldable pub apply_dead_time_override : ℕ → DutyState → DutyState
apply_dead_time_override dead_time d = record d {
  min_startup = u16 (d.min_startup + dead_time);
  startup_max = u16 (d.startup_max + dead_time);
  minimum = u16 (d.minimum + dead_time);
}

-- `STARTUP_ZC_BASE >> stall_protection.min(5)`: while fewer zero crosses have been seen, the startup
-- limits hold. `clamp` panics in the source where `min_startup` is above `startup_max`.
unfoldable pub compute_setpoint : ℕ → ℕ → ℕ → DutyState → ℕ
compute_setpoint input zero_crosses stall_protection d =
    let setpoint = u16_of (map (pos input) (pos 47) (pos 2047) (pos d.minimum) (pos 2000)) in
    if ltb zero_crosses (30 / 2 ^ min stall_protection 5)
    then clamp d.min_startup d.startup_max setpoint
    else setpoint

-- The change that the ramp allows, by battery voltage or by the speed of the motor.
ramp_change : ℕ → ℕ → ℕ → ℕ → Bool → DutyState → ℕ
ramp_change battery_voltage commutation_interval zero_crosses average_interval voltage_based d =
    if voltage_based
    then (let v_change = u8_of (map (pos battery_voltage) (pos 800) (pos 2200) (pos 10) (pos 1)) in
        if ltb 200 commutation_interval then v_change else sat_u8 (v_change * 3))
    else if ltb zero_crosses 150 || ltb d.last 150
    then d.max_ramp_startup
    else if ltb 500 average_interval
    then d.max_ramp_low_rpm
    else d.max_ramp_high_rpm

limit_cycle : ℕ → DutyState → DutyState
limit_cycle change d =
    let up = u16 (d.last + change) in
    let cycle = if ltb up d.cycle then up else d.cycle in
    let cycle' = if ltb (u16 (cycle + change)) d.last then sub_u16 d.last change else cycle in
    record d { max_change = change; ramp_count = 0; cycle = cycle' }

unfoldable pub ramp_limit : ℕ → ℕ → ℕ → ℕ → Bool → DutyState → DutyState
unfolding ramp_change limit_cycle
ramp_limit battery_voltage commutation_interval zero_crosses average_interval voltage_based d =
    if ltb d.ramp_divider d.ramp_count
    then limit_cycle
        (ramp_change battery_voltage commutation_interval zero_crosses average_interval
          voltage_based d)
        d
    else record d { cycle = d.last }

unfoldable pub clamp_ceilings : ℕ → ℕ → ℕ → DutyState → DutyState
clamp_ceilings stall_boost duty_maximum current_limit d = record d {
  maximum = duty_maximum;
  cycle = min (min (sat_u16 (d.cycle + stall_boost)) duty_maximum) current_limit;
}

unfoldable pub start_motor : DutyState → DutyState
start_motor d = record d { last = d.min_startup }

unfoldable pub increment_ramp_count : DutyState → DutyState
increment_ramp_count d = record d { ramp_count = u16 (d.ramp_count + 1) }

unfoldable pub pwm_compare : ℕ → DutyState → ℕ
pwm_compare tim1_arr d = u16 (u32 (u32 (d.cycle * tim1_arr) / 2000 + 1))

unfoldable pub brake_compare : ℕ → ℕ → ℕ
brake_compare drag_brake_strength tim1_arr =
    tim1_arr - u16 (u32 (u32 (drag_brake_strength * 200) * tim1_arr) / 2000)

unfoldable pub finalize : DutyState → DutyState × ℕ
finalize d = (record d { last = d.cycle }, d.cycle)
