-- ===== src/MainLoop/Publish.antt =====
-- The parts of the iteration that publish limits to the interrupts and drive the LED (the end of
-- `MainState::tick`, rm32/src/main_state.rs).
use rm32_private.Base.{ℕ, ◌+◌, ◌&&◌, ltb, leb, ◌==◌, ◌!=◌, if◌then◌else◌, [], ◌∷◌, ◌++◌}
use rm32_private.Base.Int.{ℤ, pos}
use rm32_private.Base.Word.{u16, u8_of, signed}
use rm32_private.Functions.{map}
use rm32_private.Config.{bi_direction, variable_pwm, motor_poles, temperature_limit, auto_advance}
use rm32_private.Shared.{SharedState}
use rm32_private.MainLoop.{
  World, MainState, HardwareCall, led_high, led_low, variable_pwm_mode1, variable_pwm_mode2,
  duty_ceiling,
}

unfoldable pub pwm_reload : {U : Type 0} → MainState U → SharedState → ℕ
pwm_reload m s =
    if variable_pwm m.config == 1
    then variable_pwm_mode1 s.commutation_interval m.timer1_max_arr
    else if variable_pwm m.config == 2
    then variable_pwm_mode2 (m.timing).average_interval m.cpu_mhz
    else m.timer1_max_arr

unfoldable pub filter_for : ℕ → ℕ → ℕ → ℕ
filter_for zc commutation_interval average_interval =
    if ltb zc 100 && ltb 500 commutation_interval
    then 12
    else if ltb commutation_interval 50
    then 2
    else u8_of (map (signed 4294967296 average_interval) (pos 100) (pos 500) (pos 3) (pos 12))

unfoldable pub advance_for : ℕ → ℕ
advance_for duty = u8_of (map (pos duty) (pos 100) (pos 2000) (pos 13) (pos 23))

-- What the iteration publishes.
unfoldable pub published : {U : Type 0} → ℤ → ℕ → MainState U → SharedState → SharedState
unfolding pwm_reload filter_for advance_for
published time zc m s = record s {
  tim1_arr = pwm_reload m s;
  duty_maximum =
      duty_ceiling time m.motor_kv (motor_poles m.config) (m.measurements).degrees_celsius
        (temperature_limit m.config);
  min_bemf_counts = if ltb zc 5 then (if bi_direction m.config != 0 then 3 else 4) else 2;
  filter_level = filter_for zc s.commutation_interval (m.timing).average_interval;
  auto_advance =
      if auto_advance m.config != 0 then advance_for s.duty_cycle_setpoint else s.auto_advance;
}

-- The LED blinks with the throttle and is lit above 1947.
unfoldable pub led_call : ℕ → ℕ → HardwareCall
led_call input counter =
    if leb 47 input && ltb input 1947
    then (if ltb 2000 counter then led_high else led_low)
    else if ltb 1947 input
    then led_high
    else led_low

module _ {U : Type 0} where
  unfoldable pub publish : ℤ → ℕ → World U → World U
  unfolding published
  publish time zc w = record w { shared = published time zc w.main w.shared }

  unfoldable pub blink : World U → World U
  unfolding led_call
  blink w =
      let input = (w.shared).adjusted_input in
      let counter = u16 ((w.main).led_counter + 1) in
      record w {
        main = record (w.main) {
          led_counter = if leb 47 input && ltb input 1947 && ltb 4000 counter then 0 else counter;
        };
        calls = w.calls ++ (led_call input counter ∷ []);
      }
