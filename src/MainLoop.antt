-- ===== src/MainLoop.antt =====
-- The state of the main loop and the functions that its iteration uses (rm32/src/main_state.rs, with
-- `Measurements` and `TimingState` of rm32/src/control/state.rs).
pub mod Protection
pub mod Measure
pub mod Publish
pub mod Tick
pub mod Frames
pub mod Safety
pub mod Cutoff
pub mod Desync
pub mod Fault
pub mod Limits
mod Examples
use rm32_private.Base.{
  ℕ, ◌+◌, ◌-◌, ◌*◌, ◌/◌, Bool, true, false, ◌&&◌, ◌||◌, ltb, leb, ◌==◌, if◌then◌else◌, min, max,
  List, [], ◌∷◌, ◌++◌,
}
use rm32_private.Base.Int.{ℤ, pos, negsuc, ◌+ℤ◌, ◌-ℤ◌, ◌*ℤ◌, ◌/ℤ◌, ltb_ℤ, clamp_ℤ}
use rm32_private.Base.Word.{u16, u32, u16_of, i32, signed}
use rm32_private.Functions.{map}
use rm32_private.Config.{EepromConfig, MotorConfig, zeroed, current_limit}
use rm32_private.Input.{ProtectionState, default_protection}
use rm32_private.Pid.{PidState, with_stall_target, set_current_gains}
use rm32_private.CurrentFilter
use rm32_private.CurrentFilter.{CurrentFilter}
use rm32_private.Sensors
use rm32_private.Sensors.{FixedPoint, EwmaPow2}
use rm32_private.Shared.{SharedState}

unfoldable pub variable_pwm_mode1 : ℕ → ℕ → ℕ
variable_pwm_mode1 commutation_interval timer1_max_arr =
    let half = pos (timer1_max_arr / 2) in
    let full = pos timer1_max_arr in
    u16_of (
      clamp_ℤ half full (map (signed 4294967296 commutation_interval) (pos 96) (pos 200) half full))

unfoldable pub variable_pwm_mode2 : ℕ → ℕ → ℕ
variable_pwm_mode2 average_interval cpu_mhz =
    let scale = cpu_mhz / 9 in
    if ltb average_interval 100 && ltb 0 average_interval
    then u16 (100 * scale)
    else if leb 250 average_interval || (average_interval == 0)
    then u16 (250 * scale)
    else u16 (average_interval * scale)

-- The ceiling from the speed.
unfoldable pub erpm_ceiling : ℤ → ℕ → ℕ → ℕ
erpm_ceiling e_com_time motor_kv motor_poles =
    let k_erpm = if ltb_ℤ (pos 0) e_com_time then pos 600000 /ℤ e_com_time /ℤ pos 10 else pos 0 in
    let poles = max motor_poles 2 in
    let low_rpm = pos (motor_kv * poles / 3200) in
    let high_rpm = pos (motor_kv * poles / 384) in
    if ltb_ℤ (pos 0) k_erpm && ltb_ℤ low_rpm high_rpm
    then u16_of (clamp_ℤ (pos 1) (pos 2000) (map k_erpm low_rpm high_rpm (pos 600) (pos 2000)))
    else 2000

-- The ceiling from the temperature.
unfoldable pub temperature_ceiling : ℤ → ℕ → ℕ
temperature_ceiling degrees_celsius temperature_limit =
    if ltb_ℤ (pos temperature_limit) degrees_celsius
    then u16_of (
        clamp_ℤ (pos 1) (pos 2000) (
          map degrees_celsius (pos temperature_limit -ℤ pos 10) (pos (temperature_limit + 10))
            (pos 1000) (pos 1)))
    else 2000

unfoldable pub duty_ceiling : ℤ → ℕ → ℕ → ℤ → ℕ → ℕ
unfolding erpm_ceiling temperature_ceiling
duty_ceiling e_com_time motor_kv motor_poles degrees_celsius temperature_limit =
    min (erpm_ceiling e_com_time motor_kv motor_poles)
      (temperature_ceiling degrees_celsius temperature_limit)

pub record Measurements (U : Type 0) : Type 0 where
  pub battery_voltage : ℕ
  pub actual_current : ℤ
  pub degrees_celsius : ℤ
  pub consumed_current : ℤ
  pub voltage_filter : EwmaPow2 U
  pub current_filter : CurrentFilter

pub record TimingState : Type 0 where
  pub average_interval : ℕ
  pub last_average_interval : ℕ
  pub e_rpm : ℕ

-- The LED's pin is driven by the calls below.
pub record MainState (U : Type 0) : Type 0 where
  pub protection : ProtectionState
  pub measurements : Measurements U
  pub config : EepromConfig
  pub pid : PidState
  pub timing : TimingState
  pub voltage_divider : ℕ
  pub millivolt_per_amp : ℕ
  pub current_offset : ℤ
  pub use_ntc : Bool
  pub cpu_mhz : ℕ
  pub cell_count : ℕ
  pub motor_kv : ℕ
  pub low_cell_volt_cutoff : ℕ
  pub desync_check : Bool
  pub last_armed : Bool
  pub just_armed : Bool
  pub led_counter : ℕ
  pub timer1_max_arr : ℕ
  pub ten_khz_counter : ℕ

-- The fields of `BoardConfig` that the main loop takes.
pub record BoardConfig : Type 0 where
  pub board_voltage_divider : ℕ
  pub board_millivolt_per_amp : ℕ
  pub board_current_offset : ℤ
  pub board_use_ntc : Bool
  pub stall_protect_interval : ℕ

unfoldable pub new : {U : Type 0} → FixedPoint U → BoardConfig → ℕ → ℕ → MainState U
new fixed board chip_max_arr chip_mhz = record {
  protection = default_protection;
  measurements = record {
    battery_voltage = 0;
    actual_current = pos 0;
    degrees_celsius = pos 0;
    consumed_current = pos 0;
    voltage_filter = Sensors.new fixed;
    current_filter = CurrentFilter.new;
  };
  config = zeroed;
  pid = with_stall_target board.stall_protect_interval;
  timing = record { average_interval = 0; last_average_interval = 0; e_rpm = 0 };
  voltage_divider = board.board_voltage_divider;
  millivolt_per_amp = board.board_millivolt_per_amp;
  current_offset = board.board_current_offset;
  use_ntc = board.board_use_ntc;
  cpu_mhz = chip_mhz;
  cell_count = 0;
  motor_kv = 2000;
  low_cell_volt_cutoff = 330;
  desync_check = false;
  last_armed = false;
  just_armed = false;
  led_counter = 0;
  timer1_max_arr = chip_max_arr;
  ten_khz_counter = 0;
}

unfoldable pub apply_motor_config : {U : Type 0} → MotorConfig → MainState U → MainState U
apply_motor_config motor_cfg m = record m {
  pid =
      record (set_current_gains motor_cfg.current_kp motor_cfg.current_ki motor_cfg.current_kd
        m.pid) {
          use_current_limit = ltb 0 (current_limit m.config) && ltb (current_limit m.config) 100;
        };
  motor_kv = motor_cfg.motor_kv_scaled;
  low_cell_volt_cutoff = motor_cfg.low_cell_cutoff;
  timer1_max_arr = motor_cfg.timer1_max_arr;
}

-- What the converter gives in an iteration; `calc_temperature` belongs to the chip.
pub record Adc : Type 0 where
  pub raw_voltage : ℕ
  pub raw_current : ℕ
  pub raw_temperature : ℕ
  pub calc_temperature : ℕ → ℤ

-- The calls of the hardware.
pub data HardwareCall : Type 0 where
  start_conversion led_high led_low : HardwareCall
  send_dma : List ℕ → HardwareCall

pub record World (U : Type 0) : Type 0 where
  pub shared : SharedState
  pub main : MainState U
  pub calls : List HardwareCall
