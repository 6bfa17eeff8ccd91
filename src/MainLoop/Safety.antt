-- ===== src/MainLoop/Safety.antt =====
-- When an iteration disarms the motor, and that it never arms it.
use rm32_private.Base.{
  ℕ, ◌≡◌, refl, sym, ap, ◌∙◌, arith, inl, inr, Bool-cases, Bool, true, false, not, ◌&&◌, ltb, ◌==◌,
  ◌||◌, ◌!=◌,
}
use rm32_private.Base.Int.{ℤ, pos, ltb_ℤ}
use rm32_private.Config.{EepromConfig, low_voltage_cut_off, bi_direction}
use rm32_private.MotorMode
use rm32_private.MotorMode.{
  MotorMode, MotorEvent, disarmed, armed, stepper_sine, old_routine, running, stop_motor,
  desync_fallback, disarm, from_u8, to_u8,
}
use rm32_private.Shared.{
  SharedState, mode, transition, set_motor_mode, set_old_routine, is_armed, is_running,
  is_stepper_sine, e_com_time,
}
use rm32_private.Shared.Modes.{mode-transition}
use rm32_private.Sensors.{FixedPoint}
use rm32_private.MainLoop.{World, Adc}
use rm32_private.MainLoop.Protection.{
  clear_timeouts, detect_stall, set_bemf_threshold, detect_desync, check_signal, update_erpm,
  check_voltage, is_stalled, stall_shared, desync_shared, is_desync, voltage_count, is_cut,
}
use rm32_private.MainLoop.Tick.{average_of, watch, protect, tick}
use rm32_private.MainLoop.Frames.{tick-safety}

same_mode : (s t : SharedState) → s.motor_mode ≡ t.motor_mode → mode s ≡ mode t
unfolding mode
same_mode s t h = ap from_u8 h

pub only_polling :
    (s : SharedState)
    → set_old_routine true s ≡ record s { motor_mode = (set_old_routine true s).motor_mode }
unfolding set_old_routine set_motor_mode
only_polling s = elim (Bool-cases (is_running s)) [ inl h ↦ rw h refl | inr h ↦ rw h refl ]

-- The order of the modes in which the main loop may lower them: to disarmed from any, from a running
-- motor to armed, and from the interrupt-driven mode to polling.
unfoldable pub eases : MotorMode → MotorMode → Bool
eases m disarmed = true
eases disarmed n = false
eases armed armed = true
eases armed n = false
eases stepper_sine stepper_sine = true
eases stepper_sine n = false
eases old_routine armed = true
eases old_routine old_routine = true
eases old_routine n = false
eases running stepper_sine = false
eases running n = true

eases_refl : (m : MotorMode) → eases m m ≡ true
unfolding eases
eases_refl disarmed = refl
eases_refl armed = refl
eases_refl stepper_sine = refl
eases_refl old_routine = refl
eases_refl running = refl

eases_trans : (a b c : MotorMode) → eases a b ≡ true → eases b c ≡ true → eases a c ≡ true
unfolding eases
eases_trans a b c h k = ground arith

-- The events of the main loop, and its request for polling, only ease.
table_eases :
    (m : MotorMode)
    → (eases m (MotorMode.transition m stop_motor) ≡ true)
      × (eases m (MotorMode.transition m desync_fallback) ≡ true)
      × (eases m (MotorMode.transition m disarm) ≡ true)
unfolding eases MotorMode.transition
table_eases m = ground arith

module _ (s : SharedState) where
  stop_eases : eases (mode s) (mode (transition stop_motor s)) ≡ true
  stop_eases = rw (mode-transition stop_motor s) ((table_eases (mode s)).0)

  fallback_eases : eases (mode s) (mode (transition desync_fallback s)) ≡ true
  fallback_eases = rw (mode-transition desync_fallback s) ((table_eases (mode s)).1)

  disarm_eases : eases (mode s) (mode (transition disarm s)) ≡ true
  disarm_eases = rw (mode-transition disarm s) ((table_eases (mode s)).2)

polling_eases : (s : SharedState) → eases (mode s) (mode (set_old_routine true s)) ≡ true
unfolding eases mode set_old_routine set_motor_mode is_running MotorMode.is_running
    MotorMode.is_old_routine MotorMode.is_mode_running from_u8 to_u8
polling_eases s = ground arith

stall_eases : (s : SharedState) → eases (mode s) (mode (stall_shared s)) ≡ true
unfolding stall_shared mode
stall_eases s =
    let p = set_old_routine true s in
    elim (Bool-cases (ltb p.adjusted_input 47)) [
      | inl h ↦ rw h (
          eases_trans (mode s) (mode p) (mode (transition stop_motor p)) (polling_eases s)
            (stop_eases p))
      | inr h ↦ rw h (polling_eases s)
    ]

desync_eases :
    (config : EepromConfig) (s : SharedState)
    → eases (mode s) (mode (desync_shared config s)) ≡ true
unfolding desync_shared mode
desync_eases config s =
    let r = record s { zero_crosses = 0 } in
    elim (Bool-cases (
      ((bi_direction config == 0) && ltb 47 r.adjusted_input) || ltb 1000 r.commutation_interval)) [
        | inl h ↦ rw h (
            eases_trans (mode s) (mode (transition stop_motor r))
              (mode (transition desync_fallback (transition stop_motor r))) (stop_eases r)
              (fallback_eases (transition stop_motor r)))
        | inr h ↦ rw h (fallback_eases r)
      ]

abbrev pub Eases : {U : Type 0} → World U → World U → Type 0
Eases w v = eases (mode w.shared) (mode v.shared) ≡ true

module _ {U : Type 0} where
  detect_stall-Eases : (w : World U) → Eases w (detect_stall w)
  unfolding detect_stall
  detect_stall-Eases w = elim (Bool-cases (is_stalled w.shared)) [
    | inl h ↦ rw h (stall_eases w.shared)
    | inr h ↦ rw h (eases_refl (mode w.shared))
  ]

  detect_desync-Eases : (zc : ℕ) (w : World U) → Eases w (detect_desync zc w)
  unfolding detect_desync
  detect_desync-Eases zc w = elim (Bool-cases ((w.main).desync_check && ltb 10 zc)) [
    | inl h ↦ rw h (elim (Bool-cases (is_desync (w.main).timing)) [
      | inl lost ↦ rw lost (desync_eases ((w.main).config) w.shared)
      | inr kept ↦ rw kept (eases_refl (mode w.shared))
    ])
    | inr h ↦ rw h (eases_refl (mode w.shared))
  ]

  check_signal-Eases : (w : World U) → Eases w (check_signal w)
  unfolding check_signal mode
  check_signal-Eases w =
      elim (Bool-cases (ltb 10000 (w.shared).signal_timeout && is_armed w.shared)) [
        | inl h ↦ rw h (disarm_eases w.shared)
        | inr h ↦ rw h (eases_refl (mode w.shared))
      ]

  pub check_voltage-Eases : (w : World U) → Eases w (check_voltage w)
  unfolding check_voltage
  check_voltage-Eases w = elim (Bool-cases (low_voltage_cut_off ((w.main).config) != 0)) [
    | inl h ↦ rw h (elim (Bool-cases (is_cut w.shared (voltage_count w.main))) [
      | inl cut ↦ rw cut (disarm_eases w.shared)
      | inr kept ↦ rw kept (eases_refl (mode w.shared))
    ])
    | inr h ↦ rw h (eases_refl (mode w.shared))
  ]

  pub update_erpm-shared : (time : ℤ) (w : World U) → (update_erpm time w).shared ≡ w.shared
  unfolding update_erpm
  update_erpm-shared time w =
      elim (Bool-cases (not (is_stepper_sine w.shared) && ltb_ℤ (pos 0) time)) [
        | inl h ↦ rw h refl
        | inr h ↦ rw h refl
      ]

  Eases-after : (u v w : World U) → Eases u v → Eases v w → Eases u w
  Eases-after u v w h k = eases_trans (mode u.shared) (mode v.shared) (mode w.shared) h k

  watch-Eases : (time : ℤ) (zc raw : ℕ) (w : World U) → Eases w (watch time zc raw w)
  unfolding watch average_of clear_timeouts set_bemf_threshold
  watch-Eases time zc raw w =
      let cleared = clear_timeouts zc raw (average_of time w) in
      let ready = set_bemf_threshold raw (detect_stall cleared) in
      Eases-after w ready (detect_desync zc ready) (detect_stall-Eases cleared)
        (detect_desync-Eases zc ready)

  pub after_watch :
      (time : ℤ) (zc raw : ℕ) (w : World U) → Eases (watch time zc raw w) (protect time zc raw w)
  unfolding protect
  after_watch time zc raw w =
      let watched = watch time zc raw w in
      let signalled = check_signal watched in
      let known = update_erpm time signalled in
      Eases-after watched signalled (check_voltage known) (check_signal-Eases watched) (
        ap (λ (s : SharedState). eases (mode s) (mode (check_voltage known).shared))
          (sym (update_erpm-shared time signalled))
        ∙ check_voltage-Eases known)

  protect-Eases : (time : ℤ) (zc raw : ℕ) (w : World U) → Eases w (protect time zc raw w)
  protect-Eases time zc raw w =
      Eases-after w (watch time zc raw w) (protect time zc raw w) (watch-Eases time zc raw w)
        (after_watch time zc raw w)

  pub ended_mode :
      (fixed : FixedPoint U) (adc : Adc) (w : World U)
      → mode (tick fixed adc w).shared
        ≡ mode (protect (e_com_time w.shared) (w.shared).zero_crosses (w.shared).newinput w).shared
  ended_mode fixed adc w =
      same_mode (tick fixed adc w).shared
        (protect (e_com_time w.shared) (w.shared).zero_crosses (w.shared).newinput w).shared
        (ap (λ p. p.0) (tick-safety fixed adc w))

  -- An iteration of the main loop lowers the mode or keeps it: it never arms, never starts the motor,
  -- and never leaves polling for the interrupt-driven mode.
  pub tick-eases :
      (fixed : FixedPoint U) (adc : Adc) (w : World U)
      → eases (mode w.shared) (mode (tick fixed adc w).shared) ≡ true
  tick-eases fixed adc w =
      rw (ended_mode fixed adc w)
        (protect-Eases (e_com_time w.shared) (w.shared).zero_crosses (w.shared).newinput w)
