-- ===== src/Firmware/Body.antt =====
-- One round of the main loop of the firmware (the loop of `main`, rm32_stm32/src/bin/main.rs): the sine
-- start, the two ticks, the feedback of arming, the saving of the settings.
use rm32_private.Base.{
  ℕ, zero, suc, true, false, ◌&&◌, ◌!=◌, ltb, List, [], ◌∷◌, ◌++◌, map, Option, none, some,
  if◌then◌else◌,
}
use rm32_private.Base.Int.{pos}
use rm32_private.MotorMode.{exit_sine}
use rm32_private.Shared.{SharedState, transition, is_armed, is_stepper_sine}
use rm32_private.Config.{EepromConfig, motor_poles, sine_mode_power, stuck_rotor_protection}
use rm32_private.Sine.{SineStepResult, continue, changeover, idle, sine_step}
use rm32_private.Sounds
use rm32_private.Sounds.Tunes.{play_input}
use rm32_private.Sensors.{FixedPoint, make_info_packet}
use rm32_private.MainLoop.{send_dma, Adc}
use rm32_private.MainLoop.Tick.{tick, tick_input}
use rm32_private.LedStrip.{armed_led, error, send_status}
use rm32_private.Firmware.{IsrState}
use rm32_private.Firmware.Boot.{
  Chip, Board, Machine, MainCall, reload_watchdog, wait_for_interrupt, set_compare, delay_micros,
  delay_millis, sound, light, hardware, adjust_irq_priorities, flash_write, tim1_autoreload,
}

-- The calls of a closure that needs the interrupts' state.
abbrev pub if_present : Option IsrState → List MainCall → List MainCall
if_present none calls = []
if_present (some st) calls = calls

-- The settings that a closure copies out of the interrupts' state.
abbrev pub config_from : Option IsrState → EepromConfig → EepromConfig
config_from none config = config
config_from (some st) config = st.config

abbrev after_changeover : ℕ → SharedState → SharedState
after_changeover interval s = record (transition exit_sine s) {
  commutation_interval = interval;
  zero_crosses = 20;
}

-- The tune of arming, once for each cell, or once where no cells are counted.
abbrev beeps : List MainCall → ℕ → List MainCall
beeps beep zero = []
beeps beep (suc n) = beep ++ (delay_millis 100 ∷ reload_watchdog ∷ beeps beep n)

unfoldable pub arming_beeps : Chip → ℕ → List MainCall
arming_beeps chip cells =
    let beep = sound (play_input (Sounds.new (tim1_autoreload chip))) ∷ [] in
    if ltb 0 cells then beeps beep cells else beep

module _ {U : Type 0} where
  abbrev pub calling : List MainCall → Machine U → Machine U
  calling calls m = record m { sent = m.sent ++ calls }

  unfoldable pub after_sine : SineStepResult → Machine U → Machine U
  after_sine (continue delay_us) m = calling (delay_micros delay_us ∷ []) m
  after_sine (changeover interval step) m = record m { shared = after_changeover interval m.shared }
  after_sine idle m = m

  unfoldable pub step_sine : Board → Chip → Machine U → Machine U
  unfolding after_sine
  step_sine board chip m =
      if is_stepper_sine m.shared
      then (let (positions, result, (ch1, ch2, ch3)) =
            sine_step (m.shared).newinput (is_armed m.shared) true (motor_poles (m.main).config) 5
              (pos board.dead_time) (tim1_autoreload chip) (sine_mode_power (m.main).config)
              m.positions in
          after_sine result (
            calling (if_present (m.globals).isr_state (set_compare ch1 ch2 ch3 ∷ []))
              (record m { positions = positions })))
      else m

  -- `tick_input` and `tick_main`.
  unfoldable pub run_ticks : FixedPoint U → Adc → Machine U → Machine U
  run_ticks fixed adc m =
      let (w, input_state) =
        tick_input m.input_state (record { shared = m.shared; main = m.main; calls = [] }) in
      let w' = tick fixed adc w in
      calling (map hardware w'.calls)
        (record m { shared = w'.shared; main = w'.main; input_state = input_state })

  unfoldable pub signal_arming : Board → Chip → Machine U → Machine U
  unfolding arming_beeps
  signal_arming board chip m =
      if (m.main).just_armed
      then calling
          (if_present (m.globals).isr_state (arming_beeps chip (m.main).cell_count)
            ++ (if board.has_led then light (send_status armed_led) ∷ [] else []))
          m
      else m

  unfoldable pub signal_error : Board → Machine U → Machine U
  signal_error board m =
      if board.has_led
        && ltb ((m.main).protection).bemf_timeout ((m.main).protection).bemf_timeout_happened
        && (stuck_rotor_protection (m.main).config != 0)
      then calling (light (send_status error) ∷ []) m
      else m

  unfoldable pub prioritize : Machine U → Machine U
  prioritize m =
      calling
        (adjust_irq_priorities (m.shared).commutation_interval (m.shared).dshot_telemetry ∷ []) m

  -- The settings are copied from the interrupts' state, and all of them written.
  unfoldable pub save : Machine U → Machine U
  save m =
      if (m.shared).save_settings_flag
      then (let config = config_from (m.globals).isr_state (m.main).config in
          calling (flash_write m.eeprom_address config.bytes ∷ []) (record m {
            shared = record (m.shared) { save_settings_flag = false };
            main = record (m.main) { config = config };
          }))
      else m

  unfoldable pub send_info : Machine U → Machine U
  send_info m =
      if (m.shared).send_esc_info_flag
      then calling (hardware (send_dma (make_info_packet ((m.main).config).bytes)) ∷ [])
          (record m { shared = record (m.shared) { send_esc_info_flag = false } })
      else m

  unfoldable pub round : FixedPoint U → Board → Chip → Adc → Machine U → Machine U
  unfolding step_sine run_ticks signal_arming signal_error prioritize save send_info
  round fixed board chip adc m =
      let ticked = run_ticks fixed adc (step_sine board chip m) in
      let signalled = prioritize (signal_error board (signal_arming board chip ticked)) in
      calling (reload_watchdog ∷ wait_for_interrupt ∷ []) (send_info (save signalled))
