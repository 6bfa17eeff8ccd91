-- ===== src/Firmware/Boot.antt =====
-- The start of the firmware, up to the loop (`main` of rm32_stm32/src/bin/main.rs). The memory is two
-- functions from addresses, to words and to bytes. The set-up of the peripherals is external.
use rm32_private.Base.{
  ℕ, ◌*◌, ◌/◌, Bool, true, false, not, ◌&&◌, ◌==◌, ltb, List, [], ◌∷◌, ◌++◌, if◌then◌else◌,
}
use rm32_private.Base.Word.{u16, u32, sub_u32, u8}
use rm32_private.Shared
use rm32_private.Shared.{SharedState}
use rm32_private.Commutation
use rm32_private.Bemf
use rm32_private.Duty
use rm32_private.Duty.{set_duty_limits, apply_dead_time_override}
use rm32_private.Servo.{set_calibration}
use rm32_private.Transfer
use rm32_private.DshotCommands
use rm32_private.Edt
use rm32_private.Config.{
  EepromConfig, zeroed, is_valid, apply_version_defaults, MotorConfig, derive_motor_config,
  eeprom_version, dir_reversed, servo_dead_band,
}
use rm32_private.Input
use rm32_private.Input.{InputState}
use rm32_private.Sine
use rm32_private.Sine.{PhasePositions}
use rm32_private.Sounds
use rm32_private.Sensors.{FixedPoint}
use rm32_private.MainLoop
use rm32_private.MainLoop.{MainState, BoardConfig, HardwareCall, apply_motor_config}
use rm32_private.LedStrip.{PinCall, send_status}
use rm32_private.LedStrip
use rm32_private.Sounds.Tunes.{play_startup}
use rm32_private.Drivers.Phase.{PhaseDriver, Write, enable_pulse_output}
use rm32_private.Drivers.Phase
use rm32_private.Drivers.Capture
use rm32_private.Drivers.Flash.{flash_read}
use rm32_private.Drivers.Capture.{receive_dshot_dma}
use rm32_private.Firmware.{IsrState}
use rm32_private.Firmware.Globals.{Globals, empty, init_isr_state, with_isr_state}

-- The constants of the chip and of the board.
pub record Chip : Type 0 where
  pub cpu_frequency_mhz : ℕ
  pub eeprom_start : ℕ
  pub wdg_prescaler : ℕ
  pub wdg_reload : ℕ

pub record Board : Type 0 where
  pub measuring : BoardConfig
  pub dead_time : ℕ
  pub kv_divider : ℕ
  pub startup_boost : Bool
  pub voltage_based_ramp : Bool
  pub has_led : Bool
  pub bridge_enable : Bool
  pub pulse_output : Bool

-- `ChipConfig::TIM1_AUTORELOAD`.
unfoldable pub tim1_autoreload : Chip → ℕ
tim1_autoreload chip = u16 (sub_u32 (u32 (chip.cpu_frequency_mhz * 1000000) / 24000) 1)

-- The calls of the main loop to the hardware.
pub data MainCall : Type 0 where
  reload_watchdog wait_for_interrupt : MainCall
  set_compare : ℕ → ℕ → ℕ → MainCall
  delay_micros delay_millis set_dead_time_override : ℕ → MainCall
  sound : List Sounds.Call → MainCall
  light : List PinCall → MainCall
  hardware : HardwareCall → MainCall
  adjust_irq_priorities : ℕ → Bool → MainCall
  flash_write : ℕ → List ℕ → MainCall
  pins : List Write → MainCall
  start_watchdog : ℕ → ℕ → MainCall

pub record Machine (U : Type 0) : Type 0 where
  pub globals : Globals
  pub shared : SharedState
  pub main : MainState U
  pub eeprom_address : ℕ
  pub phase : PhaseDriver
  pub positions : PhasePositions
  pub input_state : InputState
  pub sent : List MainCall

-- The bootloader names the size of the flash, and with it the page of the settings.
unfoldable pub device_address : ℕ → ℕ → ℕ
device_address device_code otherwise =
    if device_code == 0x1F
    then 0x08007C00
    else if device_code == 0x35
    then 0x0800F800
    else if device_code == 0x2B
    then 0x0801F800
    else otherwise

unfoldable pub eeprom_address_of : (ℕ → ℕ) → (ℕ → ℕ) → ℕ → ℕ
unfolding device_address
eeprom_address_of word byte otherwise =
    if (word 0xFE0 == 0x5925E3DA) && (word 0xFE4 == 0x4EB863D9)
    then device_address (byte 0xFEC) otherwise
    else otherwise

-- The settings of the flash, or the defaults where they are not valid, migrated.
unfoldable pub load_config : List ℕ → EepromConfig
load_config bytes =
    let read : EepromConfig = record { bytes = bytes } in
    apply_version_defaults (if not (is_valid read) then zeroed else read)

unfoldable pub initial_isr_state : Board → IsrState
unfolding receive_dshot_dma
initial_isr_state board = record {
  commutation = Commutation.new;
  bemf = Bemf.default;
  duty = Duty.default;
  input = receive_dshot_dma Capture.new;
  cmd = DshotCommands.default;
  edt = Edt.new;
  crsf = [];
  transfer = Transfer.new;
  config = zeroed;
  forward = true;
  edt_armed = false;
  armed_timeout_count = 0;
  frametime_low = 400;
  frametime_high = 600;
  voltage_based_ramp = board.voltage_based_ramp;
}

-- What the start hands to the interrupts.
unfoldable pub propagate : EepromConfig → MotorConfig → IsrState → IsrState
propagate config mc st =
    let duty = set_duty_limits mc.minimum_duty mc.min_startup_duty mc.startup_max_duty st.duty in
    let calibrated = record (st.transfer) {
      servo =
          set_calibration mc.servo_low mc.servo_high mc.servo_middle (servo_dead_band config)
            (st.transfer).servo;
    } in
    record st {
      config = config;
      forward = dir_reversed config == 0;
      duty =
          if ltb 0 mc.dead_time_override
          then apply_dead_time_override mc.dead_time_override duty
          else duty;
      transfer = if ltb 0 (eeprom_version config) then calibrated else st.transfer;
    }

-- The phase driver on its way to the interrupts' state: every `init` makes it without complementary output.
unfoldable pub prepare_phase : Board → PhaseDriver × List Write
unfolding enable_pulse_output
prepare_phase board =
    let driver = if board.bridge_enable then Phase.new_bridge false else Phase.new false in
    if board.pulse_output then enable_pulse_output driver else (driver, [])

-- The calls of the start, up to the loop. (`set_inverted` of rm32/src/hal.rs has an empty body that
-- no driver replaces.)
unfoldable pub start_calls : Board → Chip → ℕ → List MainCall
unfolding prepare_phase
start_calls board chip dead_time_override =
    (if board.has_led then light (send_status LedStrip.boot) ∷ [] else [])
    ++ (sound (play_startup (Sounds.new (tim1_autoreload chip)))
        ∷ pins ((prepare_phase board).1)
        ∷ start_watchdog chip.wdg_prescaler chip.wdg_reload
        ∷ (if ltb 0 dead_time_override then set_dead_time_override dead_time_override ∷ [] else []))

module _ {U : Type 0} where
  unfoldable pub boot : FixedPoint U → Board → Chip → (ℕ → ℕ) → (ℕ → ℕ) → Machine U
  unfolding initial_isr_state load_config propagate prepare_phase start_calls
  boot fixed board chip word byte =
      let arr = tim1_autoreload chip in
      let address = eeprom_address_of word byte chip.eeprom_start in
      let config = load_config (flash_read byte 192 address) in
      let mc =
        derive_motor_config arr board.dead_time board.kv_divider board.startup_boost config in
      let main0 = MainLoop.new fixed board.measuring arr (u8 chip.cpu_frequency_mhz) in
      record {
        globals =
            with_isr_state (propagate config mc) (init_isr_state (initial_isr_state board) empty);
        shared = record Shared.new { tim1_arr = mc.timer1_max_arr };
        main = apply_motor_config mc (record main0 { config = config });
        eeprom_address = address;
        phase = (prepare_phase board).0;
        positions = Sine.new;
        input_state = Input.new;
        sent = start_calls board chip mc.dead_time_override;
      }
