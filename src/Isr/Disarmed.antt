-- ===== src/Isr/Disarmed.antt =====
-- A disarmed motor (`ten_khz_tick`, rm32/src/control/isr_logic.rs).
use rm32_private.Base.{
  ℕ, ◌+◌, ◌≡◌, refl, ap, ◌∙◌, Bool, true, false, not, ◌&&◌, ◌==◌, ltb, Bool-cases, arith,
  if◌then◌else◌, [], ◌∷◌, ◌++◌, ◌⊎◌, inl, inr,
}
use rm32_private.Base.Word.{u32}
use rm32_private.MotorMode
use rm32_private.MotorMode.{MotorMode, disarmed, armed, arm}
use rm32_private.Shared.{
  SharedState, increment_signal_timeout, mode, transition, is_armed, is_running, is_old_routine,
  is_stepper_sine,
}
use rm32_private.Shared.Modes.{mode-transition, only_mode}
use rm32_private.Config.{EepromConfig, drag_brake_strength}
use rm32_private.Duty.{brake_compare, increment_ramp_count, pwm_compare}
use rm32_private.Isr.{
  Context, Reads, set_duty_all, set_auto_reload, apply_throttle, core_tick, apply_arming,
  shape_duty, output, output_duty, ten_khz_tick, bemf_polling,
}

-- Whether this tick completes the arming.
abbrev pub arms : Context → Bool
arms c =
    ((c.shared).input_set && ((c.shared).adjusted_input == 0))
    && ltb 20000 (u32 (c.armed_timeout_count + 1))

-- Neither running nor in a sine start.
abbrev Quiet : SharedState → Type 0
Quiet s = (mode s ≡ disarmed) ⊎ (mode s ≡ armed)

not_armed : (s : SharedState) → mode s ≡ disarmed → is_armed s ≡ false
unfolding is_armed MotorMode.is_armed MotorMode.to_u8
not_armed s h = ap MotorMode.is_armed h

Quiet-running : (s : SharedState) → Quiet s → is_running s ≡ false
unfolding is_running MotorMode.is_running
Quiet-running s (inl h) = ap MotorMode.is_running h
Quiet-running s (inr h) = ap MotorMode.is_running h

Quiet-polling : (s : SharedState) → Quiet s → is_old_routine s ≡ false
unfolding is_old_routine MotorMode.is_old_routine
Quiet-polling s (inl h) = ap MotorMode.is_old_routine h
Quiet-polling s (inr h) = ap MotorMode.is_old_routine h

throttle_idle :
    (config : EepromConfig) (arr : ℕ) (c : Context)
    → mode c.shared ≡ disarmed
    → apply_throttle config arr c ≡ c
unfolding apply_throttle
throttle_idle config arr c h = simp (not_armed c.shared h)

-- The three outcomes of the arming part.
module _ (c : Context) where
  abbrev counted : Bool → Bool → Context
  counted zero_input past =
      if zero_input
      then (if past
          then record c { armed_timeout_count = 0; shared = transition arm c.shared }
          else record c { armed_timeout_count = u32 (c.armed_timeout_count + 1) })
      else record c { armed_timeout_count = 0 }

  arming_eq :
      mode c.shared ≡ disarmed
      → apply_arming c
        ≡ counted
            ((c.shared).input_set && ((c.shared).adjusted_input == 0))
            (ltb 20000 (u32 (c.armed_timeout_count + 1)))
  unfolding apply_arming
  arming_eq h = simp (not_armed c.shared h)

  mode-counted :
      (zero_input past : Bool)
      → mode c.shared ≡ disarmed
      → mode (counted zero_input past).shared ≡ (if zero_input && past then armed else disarmed)
  unfolding MotorMode.transition
  mode-counted true true h =
      mode-transition arm c.shared ∙ ap (λ (m : MotorMode). MotorMode.transition m arm) h
  mode-counted true false h = h
  mode-counted false past h = h

  counted_rest :
      (zero_input past : Bool)
      → ((counted zero_input past).sent ≡ c.sent)
        × (((counted zero_input past).shared).prop_brake_active ≡ (c.shared).prop_brake_active)
  counted_rest true true =
      (refl, ap (λ (s : SharedState). s.prop_brake_active) (only_mode arm c.shared))
  counted_rest true false = (refl, refl)
  counted_rest false past = (refl, refl)

-- The end of a tick that does not run the motor.
module _ (config : EepromConfig) (arr : ℕ) (voltage_based : Bool) (reads : Reads)
    (c : Context) where
  abbrev finish : Context
  finish =
      let s = c.shared in
      output config arr reads (
        shape_duty voltage_based (
          if is_old_routine s && is_running s && not (is_stepper_sine s)
          then bemf_polling reads c
          else c))

  abbrev idle_duty : Bool → ℕ
  idle_duty braking = if braking then brake_compare (drag_brake_strength config) arr else 0

  unpolled :
      Quiet c.shared
      → (if is_old_routine c.shared && is_running c.shared && not (is_stepper_sine c.shared)
          then bemf_polling reads c
          else c)
        ≡ c
  unpolled h = simp (Quiet-polling c.shared h)

  both_false : is_running c.shared ≡ false → (is_armed c.shared && is_running c.shared) ≡ false
  both_false h = ground arith

  output-Quiet :
      Quiet c.shared
      → (output config arr reads (shape_duty voltage_based c)).sent
        ≡ c.sent
          ++ (set_duty_all (idle_duty (c.shared).prop_brake_active) ∷ set_auto_reload arr ∷ [])
  unfolding output output_duty shape_duty is_armed is_running
  output-Quiet h =
      ap
        (λ (b : Bool).
          c.sent
          ++ (set_duty_all (
                if b
                then pwm_compare arr (shape_duty voltage_based c).duty
                else idle_duty (c.shared).prop_brake_active)
              ∷ set_auto_reload arr
              ∷ []))
        (both_false (Quiet-running c.shared h))

  mode-output : mode (output config arr reads (shape_duty voltage_based c)).shared ≡ mode c.shared
  unfolding output shape_duty mode
  mode-output = refl

  finish-Quiet :
      Quiet c.shared
      → (finish.sent
          ≡ c.sent
            ++ (set_duty_all (idle_duty (c.shared).prop_brake_active) ∷ set_auto_reload arr ∷ []))
        × (mode finish.shared ≡ mode c.shared)
  finish-Quiet h =
      let e =
        ap (λ (x : Context). output config arr reads (shape_duty voltage_based x)) (unpolled h) in
      (
        ap (λ (x : Context). x.sent) e ∙ output-Quiet h,
        ap (λ (x : Context). mode x.shared) e ∙ mode-output,
      )

-- The state of a disarmed motor as the arming part sees it.
abbrev reached : Context → Context
reached c = record c {
  commutation = record (c.commutation) { forward = (c.shared).forward };
  duty = increment_ramp_count (record (c.duty) { cycle = (c.shared).duty_cycle_setpoint });
  shared = record (c.shared) {
    signal_timeout = (increment_signal_timeout c.shared).signal_timeout;
  };
}

only_timeout :
    (s : SharedState)
    → increment_signal_timeout s
      ≡ record s { signal_timeout = (increment_signal_timeout s).signal_timeout }
unfolding increment_signal_timeout
only_timeout s = elim (Bool-cases (ltb s.signal_timeout 65535)) [ inl h ↦ rw h | inr h ↦ rw h ]

core_eq :
    (c : Context)
    → core_tick (record c { commutation = record (c.commutation) { forward = (c.shared).forward } })
      ≡ reached c
unfolding core_tick
core_eq c = ap (λ (s : SharedState). record (reached c) { shared = s }) (only_timeout c.shared)

-- The tick of a disarmed motor, part by part.
module _ (config : EepromConfig) (voltage_based : Bool) (reads : Reads) (c : Context) where
  abbrev armed_now : Context
  armed_now =
      counted (reached c) ((c.shared).input_set && ((c.shared).adjusted_input == 0))
        (ltb 20000 (u32 (c.armed_timeout_count + 1)))

  tick_parts :
      mode c.shared ≡ disarmed
      → ten_khz_tick config voltage_based reads c
        ≡ finish config (c.shared).tim1_arr voltage_based reads armed_now
  unfolding ten_khz_tick mode
  tick_parts h =
      let c0 = record c { commutation = record (c.commutation) { forward = (c.shared).forward } } in
      ap
        (λ (x : Context).
          finish config (c.shared).tim1_arr voltage_based reads (apply_arming (core_tick x)))
        (throttle_idle config (c.shared).tim1_arr c0 h)
      ∙ ap (λ (x : Context). finish config (c.shared).tim1_arr voltage_based reads (apply_arming x))
          (core_eq c)
      ∙ ap (λ (x : Context). finish config (c.shared).tim1_arr voltage_based reads x)
          (arming_eq (reached c) h)

counted-Quiet : (c : Context) (z p : Bool) → mode c.shared ≡ disarmed → Quiet (counted c z p).shared
counted-Quiet c true true h = inr (mode-counted c true true h)
counted-Quiet c true false h = inl h
counted-Quiet c false p h = inl h

counted_count :
    (c : Context) (z p : Bool)
    → (counted c z p).armed_timeout_count
      ≡ (if z && not p then u32 (c.armed_timeout_count + 1) else 0)
counted_count c true true = refl
counted_count c true false = refl
counted_count c false p = refl

-- A tick of a disarmed motor sends only a compare value and the reload value: nothing commutates,
-- and the compare value is that of the brake, or 0 without it. The motor is armed by the tick exactly
-- if the throttle is set and zero and the count passes 20000; the count goes on only while the
-- throttle is set and zero.
pub ten_khz_tick-disarmed :
    (config : EepromConfig) (voltage_based : Bool) (reads : Reads) (c : Context)
    → mode c.shared ≡ disarmed
    → let c' = ten_khz_tick config voltage_based reads c in
      let arr = (c.shared).tim1_arr in
      let idle = (c.shared).input_set && ((c.shared).adjusted_input == 0) in
      let next = u32 (c.armed_timeout_count + 1) in
      (c'.sent
        ≡ c.sent
          ++ (set_duty_all (
                if (c.shared).prop_brake_active
                then brake_compare (drag_brake_strength config) arr
                else 0)
              ∷ set_auto_reload arr
              ∷ []))
      × (mode c'.shared ≡ (if idle && ltb 20000 next then armed else disarmed))
      × (c'.armed_timeout_count ≡ (if idle && not (ltb 20000 next) then next else 0))
unfolding mode output shape_duty
ten_khz_tick-disarmed config vb reads c h =
    let z = (c.shared).input_set && ((c.shared).adjusted_input == 0) in
    let p = ltb 20000 (u32 (c.armed_timeout_count + 1)) in
    let e = tick_parts config vb reads c h in
    let arr = (c.shared).tim1_arr in
    let x = counted (reached c) z p in
    let q = counted-Quiet (reached c) z p h in
    let rest = counted_rest (reached c) z p in
    let f = finish-Quiet config arr vb reads x q in
    (
      ap (λ (y : Context). y.sent) e ∙ f.0 ∙ rw (rest.0, rest.1),
      ap (λ (y : Context). mode y.shared) e ∙ f.1 ∙ mode-counted (reached c) z p h,
      ap (λ (y : Context). y.armed_timeout_count) e
          ∙ ap (λ (y : Context). (output config arr reads (shape_duty vb y)).armed_timeout_count)
              (unpolled config arr vb reads x q)
          ∙ counted_count (reached c) z p,
    )
