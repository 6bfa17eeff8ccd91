-- ===== src/Firmware/Still.antt =====
-- A round of the main loop of the firmware once an interrupt has run: the closures of `with_isr_state`
-- (rm32_stm32/src/isr.rs) do nothing.
use rm32_private.Base.{
  ℕ, ◌+◌, ◌≡◌, refl, ap, ◌∙◌, arith, Bool, true, false, ◌&&◌, ltb, ◌!=◌, Option, none, List, [],
  ◌∷◌, ◌++◌, map, if◌then◌else◌,
}
use rm32_private.Config.{stuck_rotor_protection, motor_poles, sine_mode_power}
use rm32_private.Shared.{is_stepper_sine, is_armed}
use rm32_private.Sensors.{FixedPoint}
use rm32_private.MainLoop.{Adc, HardwareCall}
use rm32_private.Sine.{SineStepResult, continue, changeover, idle, sine_step}
use rm32_private.Sensors.{make_info_packet}
use rm32_private.MainLoop.{send_dma}
use rm32_private.LedStrip.{PinCall, error, armed_led, send_status}
use rm32_private.Base.Int.{pos}
use rm32_private.Firmware.{IsrState}
use rm32_private.Firmware.Globals.{Globals}
use rm32_private.Firmware.Boot.{
  Machine, Board, Chip, MainCall, set_compare, sound, hardware, flash_write, delay_micros,
  reload_watchdog, wait_for_interrupt, light, tim1_autoreload,
}
use rm32_private.Firmware.Body.{
  round, step_sine, after_sine, run_ticks, signal_arming, signal_error, prioritize, save, send_info,
  if_present, config_from, arming_beeps,
}

-- The calls that turn or sound the motor from the main loop.
abbrev moves : MainCall → ℕ
moves (set_compare a b c) = 1
moves (sound calls) = 1
moves _ = 0

unfoldable pub count_moves : List MainCall → ℕ
count_moves [] = 0
count_moves (c ∷ cs) = moves c + count_moves cs

count_moves-append :
    (cs ds : List MainCall) → count_moves (cs ++ ds) ≡ count_moves cs + count_moves ds
unfolding count_moves
count_moves-append [] ds = omega arith
count_moves-append (c ∷ cs) ds = omega (arith, count_moves-append cs ds)

count_moves-hardware : (cs : List HardwareCall) → count_moves (map hardware cs) ≡ 0
unfolding count_moves
count_moves-hardware [] = refl
count_moves-hardware (c ∷ cs) = omega (arith, count_moves-hardware cs)

-- Calls that move nothing, added at the end.
still : (ds cs : List MainCall) → count_moves ds ≡ 0 → count_moves (cs ++ ds) ≡ count_moves cs
still ds cs h = omega (arith, count_moves-append cs ds)

absent :
    (o : Option IsrState) (calls : List MainCall) → o ≡ none → count_moves (if_present o calls) ≡ 0
unfolding count_moves
absent o calls h = rw h refl

light_quiet : (b : Bool) (l : List PinCall) → count_moves (if b then light l ∷ [] else []) ≡ 0
unfolding count_moves
light_quiet true l = refl
light_quiet false l = refl

-- The tune needs the state, the light does not.
signals_quiet :
    (o : Option IsrState) (tune : List MainCall) (b : Bool) (l : List PinCall)
    → o ≡ none
    → count_moves (if_present o tune ++ (if b then light l ∷ [] else [])) ≡ 0
signals_quiet o tune b l gone =
    count_moves-append (if_present o tune) (if b then light l ∷ [] else [])
    ∙ omega (arith, absent o tune gone, light_quiet b l)

module _ {U : Type 0} where
  abbrev Still : Machine U → Machine U → Type 0
  Still m n = (count_moves n.sent ≡ count_moves m.sent) × (n.globals ≡ m.globals)

  after_sine-Still : (r : SineStepResult) (m : Machine U) → Still m (after_sine r m)
  unfolding after_sine count_moves
  after_sine-Still (continue d) m = (still (delay_micros d ∷ []) m.sent refl, refl)
  after_sine-Still (changeover i s) m = (refl, refl)
  after_sine-Still idle m = (refl, refl)

  either_Still : (b : Bool) (x m : Machine U) → Still m x → Still m (if b then x else m)
  either_Still true x m h = h
  either_Still false x m h = (refl, refl)

  Still-trans : (l m n : Machine U) → Still l m → Still m n → Still l n
  Still-trans l m n p q = (q.0 ∙ p.0, q.1 ∙ p.1)

  step_sine-Still :
      (board : Board) (chip : Chip) (m : Machine U)
      → (m.globals).isr_state ≡ none
      → Still m (step_sine board chip m)
  unfolding step_sine
  step_sine-Still board chip m gone =
      let (positions, result, (ch1, ch2, ch3)) =
        sine_step (m.shared).newinput (is_armed m.shared) true (motor_poles (m.main).config) 5
          (pos board.dead_time) (tim1_autoreload chip) (sine_mode_power (m.main).config)
          m.positions in
      let compares = if_present (m.globals).isr_state (set_compare ch1 ch2 ch3 ∷ []) in
      let n : Machine U = record m { positions = positions; sent = m.sent ++ compares } in
      either_Still (is_stepper_sine m.shared) (after_sine result n) m (
        Still-trans m n (after_sine result n)
          (
            still compares m.sent
                (absent (m.globals).isr_state (set_compare ch1 ch2 ch3 ∷ []) gone),
            refl,
          )
          (after_sine-Still result n))

  run_ticks-Still :
      (fixed : FixedPoint U) (adc : Adc) (m : Machine U) → Still m (run_ticks fixed adc m)
  unfolding run_ticks
  run_ticks-Still fixed adc m = (still _ m.sent (count_moves-hardware _), refl)

  signal_arming-Still :
      (board : Board) (chip : Chip) (m : Machine U)
      → (m.globals).isr_state ≡ none
      → Still m (signal_arming board chip m)
  unfolding signal_arming
  signal_arming-Still board chip m gone =
      let tune = arming_beeps chip (m.main).cell_count in
      let calls =
        if_present (m.globals).isr_state tune
        ++ (if board.has_led then light (send_status armed_led) ∷ [] else []) in
      either_Still (m.main).just_armed (record m { sent = m.sent ++ calls }) m
        (
          still calls m.sent
              (signals_quiet (m.globals).isr_state tune board.has_led (send_status armed_led) gone),
          refl,
        )

  signal_error-Still : (board : Board) (m : Machine U) → Still m (signal_error board m)
  unfolding signal_error count_moves
  signal_error-Still board m =
      either_Still
        (board.has_led
          && ltb ((m.main).protection).bemf_timeout ((m.main).protection).bemf_timeout_happened
          && (stuck_rotor_protection (m.main).config != 0))
        (record m { sent = m.sent ++ (light (send_status error) ∷ []) }) m
        (still (light (send_status error) ∷ []) m.sent refl, refl)

  prioritize-Still : (m : Machine U) → Still m (prioritize m)
  unfolding prioritize count_moves
  prioritize-Still m = (still _ m.sent refl, refl)

  save-Still : (m : Machine U) → Still m (save m)
  unfolding save count_moves
  save-Still m =
      let config = config_from (m.globals).isr_state (m.main).config in
      let calls = flash_write m.eeprom_address config.bytes ∷ [] in
      let n : Machine U = record m {
        sent = m.sent ++ calls;
        shared = record (m.shared) { save_settings_flag = false };
        main = record (m.main) { config = config };
      } in
      either_Still (m.shared).save_settings_flag n m (still calls m.sent refl, refl)

  send_info-Still : (m : Machine U) → Still m (send_info m)
  unfolding send_info count_moves
  send_info-Still m =
      let calls = hardware (send_dma (make_info_packet ((m.main).config).bytes)) ∷ [] in
      let n : Machine U = record m {
        sent = m.sent ++ calls;
        shared = record (m.shared) { send_esc_info_flag = false };
      } in
      either_Still (m.shared).send_esc_info_flag n m (still calls m.sent refl, refl)

  -- Once an interrupt has taken the state, a round of the main loop sets no compare values and plays
  -- nothing, whatever the mode of the motor, and leaves the cells as they are.
  pub round-still :
      (fixed : FixedPoint U) (board : Board) (chip : Chip) (adc : Adc) (m : Machine U)
      → (m.globals).isr_state ≡ none
      → (count_moves (round fixed board chip adc m).sent ≡ count_moves m.sent)
        × ((round fixed board chip adc m).globals ≡ m.globals)
  unfolding round count_moves
  round-still fixed board chip adc m gone =
      let a = step_sine board chip m in
      let to_a = step_sine-Still board chip m gone in
      let b = run_ticks fixed adc a in
      let to_b = Still-trans m a b to_a (run_ticks-Still fixed adc a) in
      let c = signal_arming board chip b in
      let to_c =
        Still-trans m b c to_b
          (signal_arming-Still board chip b (ap (λ (g : Globals). g.isr_state) (to_b.1) ∙ gone)) in
      let d = signal_error board c in
      let to_d = Still-trans m c d to_c (signal_error-Still board c) in
      let e = prioritize d in
      let to_e = Still-trans m d e to_d (prioritize-Still d) in
      let f = save e in
      let to_f = Still-trans m e f to_e (save-Still e) in
      let g = send_info f in
      let to_g = Still-trans m f g to_f (send_info-Still f) in
      (still (reload_watchdog ∷ wait_for_interrupt ∷ []) g.sent refl ∙ to_g.0, to_g.1)
