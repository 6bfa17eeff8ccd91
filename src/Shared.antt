-- ===== src/Shared.antt =====
-- The state that the interrupts and the main loop share (rm32/src/shared_state.rs, and the traits of
-- rm32/src/shared_comm.rs). Every field is one atomic cell; an operation here is one atomic access
-- or one compare-and-swap loop, so that an interleaving of the two contexts is a sequence of these.
-- A field without a function of its own is read and written directly, as its accessors do.
pub mod Modes
pub mod Race
pub mod Untouched
mod Examples
use rm32_private.Base.{ℕ, ◌+◌, Bool, true, false, not, ◌&&◌, ltb, ◌==◌, if◌then◌else◌}
use rm32_private.Base.Int.{ℤ}
use rm32_private.Base.Word.{signed, u16_of, u32_of}
use rm32_private.MotorMode.{
  MotorMode, MotorEvent, disarmed, armed, old_routine, running, to_u8, from_u8,
}
use rm32_private.MotorMode

-- The words that hold signed values (`e_com_time`, `actual_current`, `degrees_celsius`) are kept as
-- stored, without their sign.
pub record SharedState : Type 0 where
  pub motor_mode : ℕ
  pub input_set : Bool
  pub send_telemetry : Bool
  pub dshot : Bool
  pub servo_pwm : Bool
  pub dshot_telemetry : Bool
  pub save_settings_flag : Bool
  pub send_esc_info_flag : Bool
  pub zero_crosses : ℕ
  pub commutation_interval : ℕ
  pub newinput : ℕ
  pub adjusted_input : ℕ
  pub duty_cycle_setpoint : ℕ
  pub duty_cycle : ℕ
  pub forward : Bool
  pub signal_timeout : ℕ
  pub zero_input_count : ℕ
  pub e_com_time_bits : ℕ
  pub stall_protection_adjust : ℕ
  pub current_limit_adjust : ℕ
  pub actual_current_bits : ℕ
  pub battery_voltage : ℕ
  pub degrees_celsius_bits : ℕ
  pub interval_timer_count : ℕ
  pub tim1_arr : ℕ
  pub duty_maximum : ℕ
  pub filter_level : ℕ
  pub min_bemf_counts : ℕ
  pub auto_advance : ℕ
  pub prop_brake_active : Bool

abbrev pub new : SharedState
new = record {
  motor_mode = 0;
  input_set = false;
  send_telemetry = false;
  dshot = false;
  servo_pwm = false;
  dshot_telemetry = false;
  save_settings_flag = false;
  send_esc_info_flag = false;
  zero_crosses = 0;
  commutation_interval = 12500;
  newinput = 0;
  adjusted_input = 0;
  duty_cycle_setpoint = 0;
  duty_cycle = 0;
  forward = true;
  signal_timeout = 0;
  zero_input_count = 0;
  e_com_time_bits = 0;
  stall_protection_adjust = 0;
  current_limit_adjust = 2000;
  actual_current_bits = 0;
  battery_voltage = 0;
  degrees_celsius_bits = 0;
  interval_timer_count = 0;
  tim1_arr = 1999;
  duty_maximum = 2000;
  filter_level = 5;
  min_bemf_counts = 2;
  auto_advance = 0;
  prop_brake_active = false;
}

-- The mode that the stored byte stands for.
unfoldable pub mode : SharedState → MotorMode
mode s = from_u8 s.motor_mode

unfoldable pub set_motor_mode : MotorMode → SharedState → SharedState
set_motor_mode m s = record s { motor_mode = to_u8 m }

-- `new != mode` compares the derived discriminants.
unfoldable pub mode_eq : MotorMode → MotorMode → Bool
mode_eq a b = to_u8 a == to_u8 b

-- One compare-and-swap: nothing is stored where the event leaves the mode alone.
unfoldable pub transition : MotorEvent → SharedState → SharedState
unfolding mode set_motor_mode mode_eq
transition event s =
    let m = mode s in
    let n = MotorMode.transition m event in if not (mode_eq n m) then set_motor_mode n s else s

unfoldable pub is_armed : SharedState → Bool
unfolding mode
is_armed s = MotorMode.is_armed (mode s)

unfoldable pub is_running : SharedState → Bool
unfolding mode
is_running s = MotorMode.is_running (mode s)

unfoldable pub is_old_routine : SharedState → Bool
unfolding mode
is_old_routine s = MotorMode.is_old_routine (mode s)

unfoldable pub is_stepper_sine : SharedState → Bool
unfolding mode
is_stepper_sine s = MotorMode.is_stepper_sine (mode s)

unfoldable pub set_armed : Bool → SharedState → SharedState
unfolding is_armed set_motor_mode
set_armed v s =
    if v && not (is_armed s)
    then set_motor_mode armed s
    else if not v
    then set_motor_mode disarmed s
    else s

unfoldable pub set_running : Bool → SharedState → SharedState
unfolding is_running set_motor_mode
set_running v s =
    if v && not (is_running s)
    then set_motor_mode old_routine s
    else if not v && is_running s
    then set_motor_mode armed s
    else s

unfoldable pub set_old_routine : Bool → SharedState → SharedState
unfolding is_running is_old_routine set_motor_mode
set_old_routine v s =
    if v && is_running s
    then set_motor_mode old_routine s
    else if not v && is_old_routine s
    then set_motor_mode running s
    else s

unfoldable pub set_stepper_sine : Bool → SharedState → SharedState
unfolding is_stepper_sine set_motor_mode
set_stepper_sine v s =
    if v
    then set_motor_mode MotorMode.stepper_sine s
    else if is_stepper_sine s
    then set_motor_mode armed s
    else s

-- The count stops at 10000.
unfoldable pub increment_zero_crosses : SharedState → SharedState
increment_zero_crosses s =
    if ltb s.zero_crosses 10000 then record s { zero_crosses = s.zero_crosses + 1 } else s

unfoldable pub increment_signal_timeout : SharedState → SharedState
increment_signal_timeout s =
    if ltb s.signal_timeout 65535 then record s { signal_timeout = s.signal_timeout + 1 } else s

-- Signed values are stored as the word of the same bits, and read back with their sign.
unfoldable pub e_com_time : SharedState → ℤ
e_com_time s = signed 4294967296 s.e_com_time_bits

unfoldable pub set_e_com_time : ℤ → SharedState → SharedState
set_e_com_time v s = record s { e_com_time_bits = u32_of v }

unfoldable pub actual_current : SharedState → ℤ
actual_current s = signed 65536 s.actual_current_bits

unfoldable pub set_actual_current : ℤ → SharedState → SharedState
set_actual_current v s = record s { actual_current_bits = u16_of v }

unfoldable pub degrees_celsius : SharedState → ℤ
degrees_celsius s = signed 65536 s.degrees_celsius_bits

unfoldable pub set_degrees_celsius : ℤ → SharedState → SharedState
set_degrees_celsius v s = record s { degrees_celsius_bits = u16_of v }
