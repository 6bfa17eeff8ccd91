-- ===== src/Firmware/Loop.antt =====
-- What the main loop's iteration (rm32/src/main_state.rs) leaves to the interrupts: the flag of
-- bidirectional telemetry.
use rm32_private.Base.{
  ℕ, ◌≡◌, refl, ap, ◌∙◌, Bool, true, not, ◌&&◌, ltb, ◌!=◌, ◌==◌, ◌||◌, if◌then◌else◌, inl, inr,
  Bool-cases,
}
use rm32_private.Base.Int.{ℤ, pos, ltb_ℤ}
use rm32_private.Config.{EepromConfig, low_voltage_cut_off, bi_direction}
use rm32_private.MotorMode.{disarm, stop_motor, desync_fallback}
use rm32_private.Shared.{
  SharedState, transition, set_old_routine, is_armed, is_stepper_sine, e_com_time,
}
use rm32_private.Sensors.{FixedPoint}
use rm32_private.MainLoop.{World, Adc}
use rm32_private.MainLoop.Protection.{
  clear_timeouts, detect_stall, set_bemf_threshold, detect_desync, check_signal, update_erpm,
  check_voltage, is_stalled, stall_shared, desync_shared, is_desync, is_cut, voltage_count,
}
use rm32_private.MainLoop.Tick.{average_of, watch, protect, tick}
use rm32_private.MainLoop.Frames.{tick-safety}
use rm32_private.Shared.Untouched.{transition-telemetry, old_routine-telemetry, either}

stall_shared-telemetry : (s : SharedState) → (stall_shared s).dshot_telemetry ≡ s.dshot_telemetry
unfolding stall_shared
stall_shared-telemetry s =
    let polling = set_old_routine true s in
    either (ltb polling.adjusted_input 47)
      (record (transition stop_motor polling) { commutation_interval = 5000 }) polling s
      (transition-telemetry stop_motor polling ∙ old_routine-telemetry true s)
      (old_routine-telemetry true s)

desync_shared-telemetry :
    (config : EepromConfig) (s : SharedState)
    → (desync_shared config s).dshot_telemetry ≡ s.dshot_telemetry
unfolding desync_shared
desync_shared-telemetry config s =
    let reset = record s { zero_crosses = 0 } in
    let stops =
      ((bi_direction config == 0) && ltb 47 reset.adjusted_input)
      || ltb 1000 reset.commutation_interval in
    let stopped = if stops then transition stop_motor reset else reset in
    transition-telemetry desync_fallback stopped
    ∙ either stops (transition stop_motor reset) reset s (transition-telemetry stop_motor reset)
        refl

module _ {U : Type 0} where
  abbrev telemetry : World U → Bool
  telemetry w = (w.shared).dshot_telemetry

  clear_timeouts-telemetry :
      (zc raw : ℕ) (w : World U) → telemetry (clear_timeouts zc raw w) ≡ telemetry w
  unfolding clear_timeouts
  clear_timeouts-telemetry zc raw w = refl

  detect_stall-telemetry : (w : World U) → telemetry (detect_stall w) ≡ telemetry w
  unfolding detect_stall stall_shared
  detect_stall-telemetry w = elim (Bool-cases (is_stalled w.shared)) [
    | inl h ↦ rw h (stall_shared-telemetry w.shared)
    | inr h ↦ rw h refl
  ]

  set_bemf_threshold-telemetry :
      (raw : ℕ) (w : World U) → telemetry (set_bemf_threshold raw w) ≡ telemetry w
  unfolding set_bemf_threshold
  set_bemf_threshold-telemetry raw w = refl

  detect_desync-telemetry : (zc : ℕ) (w : World U) → telemetry (detect_desync zc w) ≡ telemetry w
  unfolding detect_desync desync_shared
  detect_desync-telemetry zc w = elim (Bool-cases ((w.main).desync_check && ltb 10 zc)) [
    | inl h ↦ rw h (
        either (is_desync (w.main).timing) (desync_shared ((w.main).config) w.shared) w.shared
          w.shared (desync_shared-telemetry ((w.main).config) w.shared) refl)
    | inr h ↦ rw h refl
  ]

  check_signal-telemetry : (w : World U) → telemetry (check_signal w) ≡ telemetry w
  unfolding check_signal
  check_signal-telemetry w =
      elim (Bool-cases (ltb 10000 (w.shared).signal_timeout && is_armed w.shared)) [
        | inl h ↦ rw h (transition-telemetry disarm w.shared)
        | inr h ↦ rw h refl
      ]

  update_erpm-telemetry : (time : ℤ) (w : World U) → telemetry (update_erpm time w) ≡ telemetry w
  unfolding update_erpm
  update_erpm-telemetry time w =
      elim (Bool-cases (not (is_stepper_sine w.shared) && ltb_ℤ (pos 0) time)) [
        | inl h ↦ rw h refl
        | inr h ↦ rw h refl
      ]

  check_voltage-telemetry : (w : World U) → telemetry (check_voltage w) ≡ telemetry w
  unfolding check_voltage
  check_voltage-telemetry w = elim (Bool-cases (low_voltage_cut_off ((w.main).config) != 0)) [
    | inl h ↦ rw h (
        either (is_cut w.shared (voltage_count w.main)) (transition disarm w.shared) w.shared
          w.shared (transition-telemetry disarm w.shared) refl)
    | inr h ↦ rw h refl
  ]

  protect-telemetry :
      (time : ℤ) (zc raw : ℕ) (w : World U) → telemetry (protect time zc raw w) ≡ telemetry w
  unfolding protect watch average_of
  protect-telemetry time zc raw w =
      let w1 = average_of time w in
      let w2 = clear_timeouts zc raw w1 in
      let w3 = detect_stall w2 in
      let w4 = set_bemf_threshold raw w3 in
      let w5 = detect_desync zc w4 in
      let w6 = check_signal w5 in
      let w7 = update_erpm time w6 in
      check_voltage-telemetry w7
      ∙ update_erpm-telemetry time w6
      ∙ check_signal-telemetry w5
      ∙ detect_desync-telemetry zc w4
      ∙ set_bemf_threshold-telemetry raw w3
      ∙ detect_stall-telemetry w2
      ∙ clear_timeouts-telemetry zc raw w1

  -- An iteration of the main loop leaves the flag of bidirectional telemetry alone.
  pub tick-telemetry :
      (fixed : FixedPoint U) (adc : Adc) (w : World U)
      → ((tick fixed adc w).shared).dshot_telemetry ≡ (w.shared).dshot_telemetry
  tick-telemetry fixed adc w =
      ap (λ p. p.3) (tick-safety fixed adc w)
      ∙ protect-telemetry (e_com_time w.shared) (w.shared).zero_crosses (w.shared).newinput w
