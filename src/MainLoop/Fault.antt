-- ===== src/MainLoop/Fault.antt =====
-- The stuck-rotor fault across the input pipeline, the iteration and the interrupts
-- (rm32/src/main_state.rs, rm32/src/system.rs, rm32/src/control/input.rs).
use rm32_private.Base.{
  ℕ, ◌<◌, ◌≡◌, ◌≢◌, refl, sym, ap, ◌∙◌, arith, inl, inr, Bool-cases, Bool, true, false, not, ◌&&◌,
  ltb, ◌!=◌, if◌then◌else◌,
}
use rm32_private.Base.Int.{ℤ, pos, ltb_ℤ}
use rm32_private.Config.{low_voltage_cut_off, stuck_rotor_protection}
use rm32_private.Shared.{SharedState, is_armed, is_stepper_sine, e_com_time}
use rm32_private.Input
use rm32_private.Input.{ProtectionState, InputState, is_stuck}
use rm32_private.InputMapping.{from_config}
use rm32_private.Input.Fault.{stuck_stops, stuck_timeout}
use rm32_private.Sensors.{FixedPoint}
use rm32_private.MainLoop.{World, Adc}
use rm32_private.MainLoop.Protection.{
  clears_timeouts, clear_timeouts, detect_stall, set_bemf_threshold, detect_desync, check_signal,
  update_erpm, check_voltage, is_stalled, count_timeout,
}
use rm32_private.MainLoop.Tick.{average_of, watch, protect, tick, tick_input}
use rm32_private.MainLoop.Publish.{publish, blink}
use rm32_private.MainLoop.Frames.{tick-safety, settled-constants}

-- One step of the system: the interrupts leave any shared state, the main loop runs its input
-- pipeline, or it runs an iteration, here with none of the conditions that clear the timeouts.
pub data Step {U : Type 0} (fixed : FixedPoint U)
    : World U × InputState → World U × InputState → Type 0 where
  interrupts :
      (w : World U) (st : InputState) (s : SharedState)
      → Step fixed (w, st) (record w { shared = s }, st)
  input : (w : World U) (st : InputState) → Step fixed (w, st) (tick_input st w)
  main :
      (w : World U) (st : InputState) (adc : Adc)
      → clears_timeouts ((w.main).config) w.shared (w.shared).zero_crosses (w.shared).newinput
        ≡ false
      → Step fixed (w, st) (tick fixed adc w, st)

pub data Steps {U : Type 0} (fixed : FixedPoint U) (c : World U × InputState)
    : World U × InputState → Type 0 where
  here : Steps fixed c c
  next : {d e : World U × InputState} → Steps fixed c d → Step fixed d e → Steps fixed c e

-- The latched fault, under a configuration that asks for the protection.
abbrev pub IsFaulted : {U : Type 0} → World U → Type 0
IsFaulted w =
    (((w.main).protection).bemf_timeout_happened ≡ 102)
    × (((w.main).protection).bemf_timeout < 102)
    × (stuck_rotor_protection ((w.main).config) ≢ 0)

abbrev fault : {U : Type 0} → World U → ℕ × ℕ
fault w = (((w.main).protection).bemf_timeout_happened, ((w.main).protection).bemf_timeout)

latched :
    (p : ProtectionState)
    → p.bemf_timeout_happened ≡ 102
    → (count_timeout p).bemf_timeout_happened ≡ 102
unfolding count_timeout
latched p h = ground arith

threshold-lt : (raw : ℕ) → (if ltb raw 150 then 100 else 10) < 102
threshold-lt raw = ground arith

held : (b : Bool) (n : ℕ) → b ≡ false → n ≡ 102 → (if b then 0 else n) ≡ 102
held b n h k = ground arith

lt_of_eq : {a b : ℕ} → a ≡ b → b < 102 → a < 102
lt_of_eq e h = omega arith

module _ {U : Type 0} where
  desync-fault : (zc : ℕ) (w : World U) → fault (detect_desync zc w) ≡ fault w
  unfolding detect_desync
  desync-fault zc w = elim (Bool-cases ((w.main).desync_check && ltb 10 zc)) [
    | inl h ↦ rw h refl
    | inr h ↦ rw h refl
  ]

  signal-fault : (w : World U) → fault (check_signal w) ≡ fault w
  unfolding check_signal
  signal-fault w = elim (Bool-cases (ltb 10000 (w.shared).signal_timeout && is_armed w.shared)) [
    | inl h ↦ rw h refl
    | inr h ↦ rw h refl
  ]

  erpm-fault : (time : ℤ) (w : World U) → fault (update_erpm time w) ≡ fault w
  unfolding update_erpm
  erpm-fault time w = elim (Bool-cases (not (is_stepper_sine w.shared) && ltb_ℤ (pos 0) time)) [
    | inl h ↦ rw h refl
    | inr h ↦ rw h refl
  ]

  voltage-fault : (w : World U) → fault (check_voltage w) ≡ fault w
  unfolding check_voltage
  voltage-fault w = elim (Bool-cases (low_voltage_cut_off ((w.main).config) != 0)) [
    | inl h ↦ rw h refl
    | inr h ↦ rw h refl
  ]

  stall-latched :
      (w : World U)
      → ((w.main).protection).bemf_timeout_happened ≡ 102
      → (((detect_stall w).main).protection).bemf_timeout_happened ≡ 102
  unfolding detect_stall
  stall-latched w e = elim (Bool-cases (is_stalled w.shared)) [
    | inl h ↦ rw h (latched (w.main).protection e)
    | inr h ↦ rw h e
  ]

  watch-latched :
      (time : ℤ) (zc raw : ℕ) (w : World U)
      → clears_timeouts ((w.main).config) w.shared zc raw ≡ false
      → ((w.main).protection).bemf_timeout_happened ≡ 102
      → ((((watch time zc raw w).main).protection).bemf_timeout_happened ≡ 102)
        × ((((watch time zc raw w).main).protection).bemf_timeout < 102)
  unfolding watch average_of clear_timeouts set_bemf_threshold
  watch-latched time zc raw w h e =
      let cleared = clear_timeouts zc raw (average_of time w) in
      let stalled = detect_stall cleared in
      let ready = set_bemf_threshold raw stalled in
      let same = desync-fault zc ready in
      let kept = stall-latched cleared (
        held (clears_timeouts ((w.main).config) w.shared zc raw)
          ((w.main).protection).bemf_timeout_happened h e) in
      (ap (λ p. p.0) same ∙ kept, lt_of_eq (ap (λ p. p.1) same) (threshold-lt raw))

  protect-fault :
      (time : ℤ) (zc raw : ℕ) (w : World U)
      → fault (protect time zc raw w) ≡ fault (watch time zc raw w)
  unfolding protect
  protect-fault time zc raw w =
      let watched = watch time zc raw w in
      let signalled = check_signal watched in
      voltage-fault (update_erpm time signalled) ∙ erpm-fault time signalled ∙ signal-fault watched

  tick-config :
      (fixed : FixedPoint U) (adc : Adc) (w : World U)
      → ((tick fixed adc w).main).config ≡ (w.main).config
  unfolding tick publish blink
  tick-config fixed adc w = ap (λ p. p.0) (settled-constants fixed adc w)

  tick-IsFaulted :
      (fixed : FixedPoint U) (adc : Adc) (w : World U)
      → clears_timeouts ((w.main).config) w.shared (w.shared).zero_crosses (w.shared).newinput
        ≡ false
      → IsFaulted w
      → IsFaulted (tick fixed adc w)
  tick-IsFaulted fixed adc w h (e, lt, on) =
      let s = w.shared in
      let (kept, low) = watch-latched (e_com_time s) s.zero_crosses s.newinput w h e in
      let same =
        ap (λ p. (p.2.bemf_timeout_happened, p.2.bemf_timeout)) (tick-safety fixed adc w)
        ∙ protect-fault (e_com_time s) s.zero_crosses s.newinput w in
      (
        ap (λ p. p.0) same ∙ kept,
        lt_of_eq (ap (λ p. p.1) same) low,
        λ off. on (sym (ap stuck_rotor_protection (tick-config fixed adc w)) ∙ off),
      )

  stuck : (w : World U) → IsFaulted w → is_stuck ((w.main).config) (w.main).protection ≡ true
  stuck w (e, lt, on) = ground arith

  -- The pipeline's state with the mode that `tick_input` derives.
  abbrev entering : InputState → World U → Input.World
  entering st w = record {
    shared = w.shared;
    protection = (w.main).protection;
    state = record st { input_mode = from_config ((w.main).config) (w.shared).dshot };
  }

  input-stops :
      (w : World U) (st : InputState)
      → IsFaulted w
      → ((((tick_input st w).0).shared).adjusted_input ≡ 0) × IsFaulted ((tick_input st w).0)
  unfolding tick_input Input.tick_input
  input-stops w st (e, lt, on) =
      let config = (w.main).config in
      let is = stuck w (e, lt, on) in
      let stops = stuck_stops config (entering st w) is in
      (stops.0, (stops.3, lt_of_eq (stuck_timeout config (entering st w) is) lt, on))

  Step-IsFaulted :
      (fixed : FixedPoint U) {c d : World U × InputState}
      → Step fixed c d
      → IsFaulted c.0
      → IsFaulted d.0
  Step-IsFaulted fixed (interrupts w st s) h = h
  Step-IsFaulted fixed (input w st) h = (input-stops w st h).1
  Step-IsFaulted fixed (main w st adc e) h = tick-IsFaulted fixed adc w e h

  Steps-IsFaulted :
      (fixed : FixedPoint U) {c d : World U × InputState}
      → Steps fixed c d
      → IsFaulted c.0
      → IsFaulted d.0
  Steps-IsFaulted fixed here h = h
  Steps-IsFaulted fixed (next path step) h =
      Step-IsFaulted fixed step (Steps-IsFaulted fixed path h)

-- However interrupts, runs of the input pipeline and iterations of the main loop interleave, a fault that
-- is latched (the count of timeouts at 102, above its threshold) under settings that ask for the
-- protection stays so, and the pipeline publishes no throttle, as long as no iteration meets a condition
-- that clears the timeouts (`clears_timeouts`): the throttle released; more than 1000 zero crossings; with no
-- bidirectional DShot, a raw throttle below 200 after more than 100 of them, or below 160 where the
-- settings ask for the sine start. Interrupts may leave any shared state.
pub fault_holds :
    {U : Type 0} (fixed : FixedPoint U) (c d : World U × InputState)
    → Steps fixed c d
    → IsFaulted c.0
    → IsFaulted d.0 × ((((tick_input d.1 d.0).0).shared).adjusted_input ≡ 0)
fault_holds fixed c d path h =
    let still = Steps-IsFaulted fixed path h in (still, (input-stops d.0 d.1 still).0)
