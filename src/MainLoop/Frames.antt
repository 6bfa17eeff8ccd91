-- ===== src/MainLoop/Frames.antt =====
-- What the parts of the iteration leave alone.
use rm32_private.Base.{
  ℕ, ◌≡◌, refl, ◌∙◌, Bool, not, ◌&&◌, ltb, ◌!=◌, inl, inr, Bool-cases, Option, some, none,
}
use rm32_private.Base.Int.{ℤ, pos, ltb_ℤ}
use rm32_private.Config.{EepromConfig, low_voltage_cut_off, stall_protection}
use rm32_private.Shared.{
  is_armed, is_running, is_stepper_sine, e_com_time, set_degrees_celsius, set_actual_current,
}
use rm32_private.Input.{ProtectionState}
use rm32_private.Pid.{PidState, tick_speed_control}
use rm32_private.Sensors.{FixedPoint}
use rm32_private.MainLoop.{World, Adc}
use rm32_private.MainLoop.Protection.{
  clear_timeouts, detect_stall, set_bemf_threshold, detect_desync, check_signal, update_erpm,
  check_voltage, is_stalled,
}
use rm32_private.MainLoop.Measure.{
  measure, detect_cells, regulate_stall, regulate_current, regulate_speed, report, accumulate,
  overridden,
}
use rm32_private.MainLoop.Publish.{publish, published, blink}
use rm32_private.MainLoop.Tick.{average_of, watch, protect, regulate, settled, tick}

-- The settings and the constants of the hardware.
abbrev pub constants : {U : Type 0} → World U → EepromConfig × ℕ × ℕ
constants w = ((w.main).config, (w.main).timer1_max_arr, (w.main).cpu_mhz)

-- The mode, the input latch, the protection state and the flag of bidirectional telemetry.
abbrev pub safety : {U : Type 0} → World U → ℕ × Bool × ProtectionState × Bool
safety w =
    ((w.shared).motor_mode, (w.shared).input_set, (w.main).protection, (w.shared).dshot_telemetry)

module _ {U : Type 0} where
  average_of-constants : (time : ℤ) (w : World U) → constants (average_of time w) ≡ constants w
  unfolding average_of
  average_of-constants time w = refl

  clear_timeouts-constants :
      (zc : ℕ) (raw : ℕ) (w : World U) → constants (clear_timeouts zc raw w) ≡ constants w
  unfolding clear_timeouts
  clear_timeouts-constants zc raw w = refl

  detect_stall-constants : (w : World U) → constants (detect_stall w) ≡ constants w
  unfolding detect_stall
  detect_stall-constants w = elim (Bool-cases (is_stalled w.shared)) [
    | inl h ↦ rw h refl
    | inr h ↦ rw h refl
  ]

  set_bemf_threshold-constants :
      (raw : ℕ) (w : World U) → constants (set_bemf_threshold raw w) ≡ constants w
  unfolding set_bemf_threshold
  set_bemf_threshold-constants raw w = refl

  detect_desync-constants : (zc : ℕ) (w : World U) → constants (detect_desync zc w) ≡ constants w
  unfolding detect_desync
  detect_desync-constants zc w = elim (Bool-cases ((w.main).desync_check && ltb 10 zc)) [
    | inl h ↦ rw h refl
    | inr h ↦ rw h refl
  ]

  check_signal-constants : (w : World U) → constants (check_signal w) ≡ constants w
  unfolding check_signal
  check_signal-constants w =
      elim (Bool-cases (ltb 10000 (w.shared).signal_timeout && is_armed w.shared)) [
        | inl h ↦ rw h refl
        | inr h ↦ rw h refl
      ]

  update_erpm-constants : (time : ℤ) (w : World U) → constants (update_erpm time w) ≡ constants w
  unfolding update_erpm
  update_erpm-constants time w =
      elim (Bool-cases (not (is_stepper_sine w.shared) && ltb_ℤ (pos 0) time)) [
        | inl h ↦ rw h refl
        | inr h ↦ rw h refl
      ]

  check_voltage-constants : (w : World U) → constants (check_voltage w) ≡ constants w
  unfolding check_voltage
  check_voltage-constants w = elim (Bool-cases (low_voltage_cut_off ((w.main).config) != 0)) [
    | inl h ↦ rw h refl
    | inr h ↦ rw h refl
  ]

  measure-constants :
      (fixed : FixedPoint U) (adc : Adc) (w : World U)
      → constants (measure fixed adc w) ≡ constants w
  unfolding measure set_degrees_celsius set_actual_current
  measure-constants fixed adc w = refl

  detect_cells-constants : (w : World U) → constants (detect_cells w) ≡ constants w
  unfolding detect_cells
  detect_cells-constants w = refl

  regulate_stall-constants : (w : World U) → constants (regulate_stall w) ≡ constants w
  unfolding regulate_stall
  regulate_stall-constants w =
      elim (Bool-cases ((stall_protection ((w.main).config) != 0) && is_running w.shared)) [
        | inl h ↦ rw h refl
        | inr h ↦ rw h refl
      ]

  regulate_current-constants : (w : World U) → constants (regulate_current w) ≡ constants w
  unfolding regulate_current
  regulate_current-constants w = refl

  overridden-constants :
      (r : PidState × Option ℕ) (w : World U)
      → constants
          (record w { shared = overridden r.1 w.shared; main = record (w.main) { pid = r.0 } })
        ≡ constants w
  unfolding overridden
  overridden-constants (pid, none) w = refl
  overridden-constants (pid, some v) w = refl

  regulate_speed-constants : (zc : ℕ) (w : World U) → constants (regulate_speed zc w) ≡ constants w
  unfolding regulate_speed
  regulate_speed-constants zc w =
      overridden-constants
        (tick_speed_control (e_com_time w.shared) zc (is_running w.shared) (w.main).pid) w

  report-constants : (w : World U) → constants (report w) ≡ constants w
  unfolding report
  report-constants w = elim (Bool-cases ((w.shared).send_telemetry)) [
    | inl h ↦ rw h refl
    | inr h ↦ rw h refl
  ]

  accumulate-constants : (w : World U) → constants (accumulate w) ≡ constants w
  unfolding accumulate
  accumulate-constants w = refl

  measure-safety :
      (fixed : FixedPoint U) (adc : Adc) (w : World U) → safety (measure fixed adc w) ≡ safety w
  unfolding measure set_degrees_celsius set_actual_current
  measure-safety fixed adc w = refl

  detect_cells-safety : (w : World U) → safety (detect_cells w) ≡ safety w
  unfolding detect_cells
  detect_cells-safety w = refl

  regulate_stall-safety : (w : World U) → safety (regulate_stall w) ≡ safety w
  unfolding regulate_stall
  regulate_stall-safety w =
      elim (Bool-cases ((stall_protection ((w.main).config) != 0) && is_running w.shared)) [
        | inl h ↦ rw h refl
        | inr h ↦ rw h refl
      ]

  regulate_current-safety : (w : World U) → safety (regulate_current w) ≡ safety w
  unfolding regulate_current
  regulate_current-safety w = refl

  overridden-safety :
      (r : PidState × Option ℕ) (w : World U)
      → safety (record w { shared = overridden r.1 w.shared; main = record (w.main) { pid = r.0 } })
        ≡ safety w
  unfolding overridden
  overridden-safety (pid, none) w = refl
  overridden-safety (pid, some v) w = refl

  regulate_speed-safety : (zc : ℕ) (w : World U) → safety (regulate_speed zc w) ≡ safety w
  unfolding regulate_speed
  regulate_speed-safety zc w =
      overridden-safety
        (tick_speed_control (e_com_time w.shared) zc (is_running w.shared) (w.main).pid) w

  report-safety : (w : World U) → safety (report w) ≡ safety w
  unfolding report
  report-safety w = elim (Bool-cases ((w.shared).send_telemetry)) [
    | inl h ↦ rw h refl
    | inr h ↦ rw h refl
  ]

  accumulate-safety : (w : World U) → safety (accumulate w) ≡ safety w
  unfolding accumulate
  accumulate-safety w = refl

  pub protect-constants :
      (time : ℤ) (zc raw : ℕ) (w : World U) → constants (protect time zc raw w) ≡ constants w
  unfolding protect watch
  protect-constants time zc raw w =
      let w1 = average_of time w in
      let w2 = clear_timeouts zc raw w1 in
      let w3 = detect_stall w2 in
      let w4 = set_bemf_threshold raw w3 in
      let w5 = detect_desync zc w4 in
      let w6 = check_signal w5 in
      let w7 = update_erpm time w6 in
      check_voltage-constants w7
      ∙ update_erpm-constants time w6
      ∙ check_signal-constants w5
      ∙ detect_desync-constants zc w4
      ∙ set_bemf_threshold-constants raw w3
      ∙ detect_stall-constants w2
      ∙ clear_timeouts-constants zc raw w1
      ∙ average_of-constants time w

  pub regulate-constants :
      (fixed : FixedPoint U) (adc : Adc) (zc : ℕ) (w : World U)
      → constants (regulate fixed adc zc w) ≡ constants w
  unfolding regulate
  regulate-constants fixed adc zc w =
      let w1 = measure fixed adc w in
      let w2 = detect_cells w1 in
      let w3 = regulate_stall w2 in
      let w4 = regulate_current w3 in
      regulate_speed-constants zc w4
      ∙ regulate_current-constants w3
      ∙ regulate_stall-constants w2
      ∙ detect_cells-constants w1
      ∙ measure-constants fixed adc w

  pub regulate-safety :
      (fixed : FixedPoint U) (adc : Adc) (zc : ℕ) (w : World U)
      → safety (regulate fixed adc zc w) ≡ safety w
  unfolding regulate
  regulate-safety fixed adc zc w =
      let w1 = measure fixed adc w in
      let w2 = detect_cells w1 in
      let w3 = regulate_stall w2 in
      let w4 = regulate_current w3 in
      regulate_speed-safety zc w4
      ∙ regulate_current-safety w3
      ∙ regulate_stall-safety w2
      ∙ detect_cells-safety w1
      ∙ measure-safety fixed adc w

  pub settled-constants :
      (fixed : FixedPoint U) (adc : Adc) (w : World U)
      → constants (settled fixed adc w) ≡ constants w
  unfolding settled
  settled-constants fixed adc w =
      let s = w.shared in
      let guarded = protect (e_com_time s) s.zero_crosses s.newinput w in
      let regulated = regulate fixed adc s.zero_crosses guarded in
      accumulate-constants (report regulated)
      ∙ report-constants regulated
      ∙ regulate-constants fixed adc s.zero_crosses guarded
      ∙ protect-constants (e_com_time s) s.zero_crosses s.newinput w

  -- After the first half nothing changes the mode, the latch, the protection state or the flag.
  pub tick-safety :
      (fixed : FixedPoint U) (adc : Adc) (w : World U)
      → safety (tick fixed adc w)
        ≡ safety (protect (e_com_time w.shared) (w.shared).zero_crosses (w.shared).newinput w)
  unfolding tick settled publish published blink
  tick-safety fixed adc w =
      let s = w.shared in
      let guarded = protect (e_com_time s) s.zero_crosses s.newinput w in
      let regulated = regulate fixed adc s.zero_crosses guarded in
      accumulate-safety (report regulated)
      ∙ report-safety regulated
      ∙ regulate-safety fixed adc s.zero_crosses guarded
