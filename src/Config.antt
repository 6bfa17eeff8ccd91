-- ===== src/Config.antt =====
-- The settings (`EepromConfig`, rm32/src/config.rs). The structure is `repr(C)` and `Pod`, 192 bytes
-- with no padding, so a value is its bytes; a field is the byte at its offset, in the order of the
-- declaration, and the byte view is the value itself.
pub mod Migrate
mod Accessors
mod Examples
use rm32_private.Base.{
  ℕ, ◌+◌, ◌-◌, ◌*◌, ◌/◌, Bool, ◌&&◌, ◌||◌, ◌==◌, ltb, leb, min, max, List, [], ◌∷◌, replicate,
  get_or, set, if◌then◌else◌,
}
use rm32_private.Base.Word.{u16, u32}

pub record EepromConfig : Type 0 where
  pub bytes : List ℕ

abbrev pub zeroed : EepromConfig
zeroed = record { bytes = replicate 192 0 }

abbrev pub field_at : ℕ → EepromConfig → ℕ
field_at offset c = get_or c.bytes offset 0

-- Writing one byte through the byte view (`as_bytes_mut()[offset] = v`), and writing a field.
abbrev pub write_byte : ℕ → ℕ → EepromConfig → EepromConfig
write_byte offset v c = record { bytes = set c.bytes offset v }

abbrev pub eeprom_version : EepromConfig → ℕ
eeprom_version = field_at 1

abbrev pub max_ramp : EepromConfig → ℕ
max_ramp = field_at 5

abbrev pub minimum_duty_cycle : EepromConfig → ℕ
minimum_duty_cycle = field_at 6

abbrev pub disable_stick_calibration : EepromConfig → ℕ
disable_stick_calibration = field_at 7

abbrev pub absolute_voltage_cutoff : EepromConfig → ℕ
absolute_voltage_cutoff = field_at 8

abbrev pub current_p : EepromConfig → ℕ
current_p = field_at 9

abbrev pub current_i : EepromConfig → ℕ
current_i = field_at 10

abbrev pub current_d : EepromConfig → ℕ
current_d = field_at 11

abbrev pub active_brake_power : EepromConfig → ℕ
active_brake_power = field_at 12

abbrev pub dir_reversed : EepromConfig → ℕ
dir_reversed = field_at 17

abbrev pub bi_direction : EepromConfig → ℕ
bi_direction = field_at 18

abbrev pub use_sine_start : EepromConfig → ℕ
use_sine_start = field_at 19

abbrev pub comp_pwm : EepromConfig → ℕ
comp_pwm = field_at 20

abbrev pub variable_pwm : EepromConfig → ℕ
variable_pwm = field_at 21

abbrev pub stuck_rotor_protection : EepromConfig → ℕ
stuck_rotor_protection = field_at 22

abbrev pub advance_level : EepromConfig → ℕ
advance_level = field_at 23

abbrev pub pwm_frequency : EepromConfig → ℕ
pwm_frequency = field_at 24

abbrev pub startup_power : EepromConfig → ℕ
startup_power = field_at 25

abbrev pub motor_kv : EepromConfig → ℕ
motor_kv = field_at 26

abbrev pub motor_poles : EepromConfig → ℕ
motor_poles = field_at 27

abbrev pub brake_on_stop : EepromConfig → ℕ
brake_on_stop = field_at 28

abbrev pub stall_protection : EepromConfig → ℕ
stall_protection = field_at 29

abbrev pub beep_volume : EepromConfig → ℕ
beep_volume = field_at 30

abbrev pub servo_low_threshold : EepromConfig → ℕ
servo_low_threshold = field_at 32

abbrev pub servo_high_threshold : EepromConfig → ℕ
servo_high_threshold = field_at 33

abbrev pub servo_neutral : EepromConfig → ℕ
servo_neutral = field_at 34

abbrev pub servo_dead_band : EepromConfig → ℕ
servo_dead_band = field_at 35

abbrev pub low_voltage_cut_off : EepromConfig → ℕ
low_voltage_cut_off = field_at 36

abbrev pub low_cell_volt_cutoff : EepromConfig → ℕ
low_cell_volt_cutoff = field_at 37

abbrev pub rc_car_reverse : EepromConfig → ℕ
rc_car_reverse = field_at 38

abbrev pub sine_mode_changeover_throttle_level : EepromConfig → ℕ
sine_mode_changeover_throttle_level = field_at 40

abbrev pub drag_brake_strength : EepromConfig → ℕ
drag_brake_strength = field_at 41

abbrev pub driving_brake_strength : EepromConfig → ℕ
driving_brake_strength = field_at 42

abbrev pub temperature_limit : EepromConfig → ℕ
temperature_limit = field_at 43

abbrev pub current_limit : EepromConfig → ℕ
current_limit = field_at 44

abbrev pub sine_mode_power : EepromConfig → ℕ
sine_mode_power = field_at 45

abbrev pub input_type : EepromConfig → ℕ
input_type = field_at 46

abbrev pub auto_advance : EepromConfig → ℕ
auto_advance = field_at 47

pub data InputType : Type 0 where
  auto dshot servo serial edt_arm drone_can : InputType

unfoldable pub input_type_of : EepromConfig → InputType
input_type_of c =
    let v = input_type c in
    if v == 1
    then dshot
    else if v == 2
    then servo
    else if v == 3
    then serial
    else if v == 4
    then edt_arm
    else if v == 5
    then drone_can
    else auto

abbrev pub eeprom_version_current : ℕ
eeprom_version_current = 3

unfoldable pub is_valid : EepromConfig → Bool
is_valid c = leb (eeprom_version c) eeprom_version_current

-- `VERSION_DEFAULTS`: all zero but for five fields.
unfoldable pub version_defaults : EepromConfig
version_defaults =
    write_byte 5 160
      (write_byte 6 1 (write_byte 8 10 (write_byte 9 100 (write_byte 11 100 zeroed))))

-- The fields that newer versions added stand at the offsets 5 to 16.
abbrev pub copy_bytes : List ℕ → EepromConfig → EepromConfig → EepromConfig
copy_bytes [] d c = c
copy_bytes (offset ∷ offsets) d c = copy_bytes offsets d (write_byte offset (field_at offset d) c)

abbrev pub migrated_offsets : List ℕ
migrated_offsets = 5 ∷ 6 ∷ 7 ∷ 8 ∷ 9 ∷ 10 ∷ 11 ∷ 12 ∷ 13 ∷ 14 ∷ 15 ∷ 16 ∷ []

unfoldable pub apply_version_defaults : EepromConfig → EepromConfig
unfolding version_defaults
apply_version_defaults c =
    let c' =
      if ltb (eeprom_version c) eeprom_version_current
      then copy_bytes migrated_offsets version_defaults c
      else c in
    write_byte 1 eeprom_version_current c'

pub record MotorConfig : Type 0 where
  pub minimum_duty : ℕ
  pub min_startup_duty : ℕ
  pub startup_max_duty : ℕ
  pub timer1_max_arr : ℕ
  pub dead_time_override : ℕ
  pub current_kp : ℕ
  pub current_ki : ℕ
  pub current_kd : ℕ
  pub motor_kv_scaled : ℕ
  pub low_cell_cutoff : ℕ
  pub servo_low : ℕ
  pub servo_high : ℕ
  pub servo_middle : ℕ

-- The parts of `derive_motor_config`, each with the comment's name in the source.
abbrev pub minimum_duty_base : EepromConfig → ℕ
minimum_duty_base c =
    let mdc = minimum_duty_cycle c in if ltb 0 mdc && ltb mdc 51 then mdc * 10 else 0

abbrev pub min_startup_base : EepromConfig → ℕ
min_startup_base c =
    let sp = startup_power c in
    if ltb 49 sp && ltb sp 151 then minimum_duty_base c + sp else minimum_duty_base c

unfoldable pub timer_reload : ℕ → EepromConfig → ℕ
timer_reload default_arr c =
    let pf = pwm_frequency c in
    if ltb 7 pf && ltb pf 145 then u16 (u32 (default_arr * 400) / (pf * 100 / 6)) else default_arr

unfoldable pub dead_time_of : ℕ → EepromConfig → ℕ
dead_time_of dead_time c =
    let dbs = driving_brake_strength c in
    let dbs' = if (dbs == 0) || ltb 9 dbs then 10 else dbs in
    if ltb dbs' 10 then min (dead_time + (150 - dbs' * 10)) 200 else 0

unfoldable pub derive_motor_config : ℕ → ℕ → ℕ → Bool → EepromConfig → MotorConfig
unfolding timer_reload dead_time_of
derive_motor_config default_arr dead_time kv_divider startup_boost c =
    let base = minimum_duty_base c in
    let start = min_startup_base c in
    let pf = pwm_frequency c in
    record {
      minimum_duty = if startup_boost then base + 50 + pf * 50 / 24 else base;
      min_startup_duty = if startup_boost then start + 200 + pf * 100 / 24 else start;
      startup_max_duty = base + 400;
      timer1_max_arr = timer_reload default_arr c;
      dead_time_override = dead_time_of dead_time c;
      current_kp = current_p c * 2;
      current_ki = current_i c;
      current_kd = current_d c * 2;
      motor_kv_scaled = (motor_kv c * 40 + 20) / max kv_divider 1;
      low_cell_cutoff = low_cell_volt_cutoff c + 250;
      servo_low = servo_low_threshold c * 2 + 750;
      servo_high = servo_high_threshold c * 2 + 1750;
      servo_middle = servo_neutral c + 1374;
    }
