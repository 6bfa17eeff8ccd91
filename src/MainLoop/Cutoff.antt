-- ===== src/MainLoop/Cutoff.antt =====
-- What an iteration does where the signal is lost or the battery is low (`MainState::tick`,
-- rm32/src/main_state.rs).
use rm32_private.Base.{
  ℕ, ◌+◌, ◌*◌, ◌≤◌, ◌<◌, ◌≡◌, ◌≢◌, refl, sym, ap, ◌∙◌, arith, inl, inr, Bool-cases, Bool, true,
  false, not, ◌&&◌, ◌||◌, ltb, ◌==◌, ◌!=◌, if◌then◌else◌,
}
use rm32_private.Base.Int.{ℤ, pos, ltb_ℤ}
use rm32_private.Base.Word.{u16}
use rm32_private.Config.{EepromConfig, low_voltage_cut_off, bi_direction}
use rm32_private.MotorMode
use rm32_private.MotorMode.{MotorMode, disarmed, stop_motor, desync_fallback, disarm, to_u8}
use rm32_private.Shared.{
  SharedState, mode, transition, set_old_routine, is_armed, is_stepper_sine, e_com_time,
}
use rm32_private.Shared.Modes.{mode-transition, only_mode}
use rm32_private.Sensors.{FixedPoint}
use rm32_private.MainLoop.{World, MainState, Adc}
use rm32_private.MainLoop.Protection.{
  clear_timeouts, detect_stall, set_bemf_threshold, detect_desync, check_signal, update_erpm,
  check_voltage, is_stalled, stall_shared, desync_shared, low_voltage_counted, is_desync,
  voltage_count, is_cut, count_timeout,
}
use rm32_private.MainLoop.Tick.{average_of, watch, protect, tick}
use rm32_private.MainLoop.Frames.{tick-safety}
use rm32_private.MainLoop.Safety.{
  eases, only_polling, update_erpm-shared, check_voltage-Eases, ended_mode,
}

-- The battery's values, and the counts that belong to them.
abbrev battery : {U : Type 0} → World U → EepromConfig × ℕ × ℕ × ℕ × ℕ × Bool
battery w = (
  (w.main).config,
  ((w.main).measurements).battery_voltage,
  (w.main).cell_count,
  (w.main).low_cell_volt_cutoff,
  ((w.main).protection).low_voltage_count,
  ((w.main).protection).low_voltage_cutoff,
)

module _ {U : Type 0} where
  average_of-battery : (time : ℤ) (w : World U) → battery (average_of time w) ≡ battery w
  unfolding average_of
  average_of-battery time w = refl

  clear_timeouts-battery :
      (zc : ℕ) (raw : ℕ) (w : World U) → battery (clear_timeouts zc raw w) ≡ battery w
  unfolding clear_timeouts
  clear_timeouts-battery zc raw w = refl

  detect_stall-battery : (w : World U) → battery (detect_stall w) ≡ battery w
  unfolding detect_stall count_timeout
  detect_stall-battery w = elim (Bool-cases (is_stalled w.shared)) [
    | inl h ↦ rw h refl
    | inr h ↦ rw h refl
  ]

  set_bemf_threshold-battery :
      (raw : ℕ) (w : World U) → battery (set_bemf_threshold raw w) ≡ battery w
  unfolding set_bemf_threshold
  set_bemf_threshold-battery raw w = refl

  detect_desync-battery : (zc : ℕ) (w : World U) → battery (detect_desync zc w) ≡ battery w
  unfolding detect_desync
  detect_desync-battery zc w = elim (Bool-cases ((w.main).desync_check && ltb 10 zc)) [
    | inl h ↦ rw h refl
    | inr h ↦ rw h refl
  ]

  check_signal-battery : (w : World U) → battery (check_signal w) ≡ battery w
  unfolding check_signal
  check_signal-battery w =
      elim (Bool-cases (ltb 10000 (w.shared).signal_timeout && is_armed w.shared)) [
        | inl h ↦ rw h refl
        | inr h ↦ rw h refl
      ]

  update_erpm-battery : (time : ℤ) (w : World U) → battery (update_erpm time w) ≡ battery w
  unfolding update_erpm
  update_erpm-battery time w =
      elim (Bool-cases (not (is_stepper_sine w.shared) && ltb_ℤ (pos 0) time)) [
        | inl h ↦ rw h refl
        | inr h ↦ rw h refl
      ]

  -- The state in which the battery is looked at.
  abbrev known : ℤ → ℕ → ℕ → World U → World U
  known time zc raw w = update_erpm time (check_signal (watch time zc raw w))

  known-battery : (time : ℤ) (zc raw : ℕ) (w : World U) → battery (known time zc raw w) ≡ battery w
  unfolding watch
  known-battery time zc raw w =
      let w1 = average_of time w in
      let w2 = clear_timeouts zc raw w1 in
      let w3 = detect_stall w2 in
      let w4 = set_bemf_threshold raw w3 in
      let w5 = detect_desync zc w4 in
      let w6 = check_signal w5 in
      update_erpm-battery time w6
      ∙ check_signal-battery w5
      ∙ detect_desync-battery zc w4
      ∙ set_bemf_threshold-battery raw w3
      ∙ detect_stall-battery w2
      ∙ clear_timeouts-battery zc raw w1
      ∙ average_of-battery time w

timeout_kept : (s : SharedState) → (stall_shared s).signal_timeout ≡ s.signal_timeout
unfolding stall_shared
timeout_kept s =
    let p = set_old_routine true s in
    let polling : p.signal_timeout ≡ s.signal_timeout =
      ap (λ (t : SharedState). t.signal_timeout) (only_polling s) in
    elim (Bool-cases (ltb p.adjusted_input 47)) [
      | inl h ↦ rw h (ap (λ (t : SharedState). t.signal_timeout) (only_mode stop_motor p) ∙ polling)
      | inr h ↦ rw h polling
    ]

timeout_after_desync :
    (config : EepromConfig) (s : SharedState)
    → (desync_shared config s).signal_timeout ≡ s.signal_timeout
unfolding desync_shared
timeout_after_desync config s =
    let r = record s { zero_crosses = 0 } in
    elim (Bool-cases (
      ((bi_direction config == 0) && ltb 47 r.adjusted_input) || ltb 1000 r.commutation_interval)) [
        | inl h ↦ rw h (
            ap (λ (t : SharedState). t.signal_timeout)
              (only_mode desync_fallback (transition stop_motor r))
            ∙ ap (λ (t : SharedState). t.signal_timeout) (only_mode stop_motor r))
        | inr h ↦ rw h (ap (λ (t : SharedState). t.signal_timeout) (only_mode desync_fallback r))
      ]

module _ {U : Type 0} where
  stall-timeout :
      (w : World U) → ((detect_stall w).shared).signal_timeout ≡ (w.shared).signal_timeout
  unfolding detect_stall
  stall-timeout w = elim (Bool-cases (is_stalled w.shared)) [
    | inl h ↦ rw h (timeout_kept w.shared)
    | inr h ↦ rw h refl
  ]

  desync-timeout :
      (zc : ℕ) (w : World U)
      → ((detect_desync zc w).shared).signal_timeout ≡ (w.shared).signal_timeout
  unfolding detect_desync
  desync-timeout zc w = elim (Bool-cases ((w.main).desync_check && ltb 10 zc)) [
    | inl h ↦ rw h (elim (Bool-cases (is_desync (w.main).timing)) [
      | inl lost ↦ rw lost (timeout_after_desync ((w.main).config) w.shared)
      | inr kept ↦ rw kept refl
    ])
    | inr h ↦ rw h refl
  ]

  watch-timeout :
      (time : ℤ) (zc raw : ℕ) (w : World U)
      → ((watch time zc raw w).shared).signal_timeout ≡ (w.shared).signal_timeout
  unfolding watch average_of clear_timeouts set_bemf_threshold
  watch-timeout time zc raw w =
      let cleared = clear_timeouts zc raw (average_of time w) in
      desync-timeout zc (set_bemf_threshold raw (detect_stall cleared)) ∙ stall-timeout cleared

disarm_mode : (s : SharedState) → mode (transition disarm s) ≡ disarmed
unfolding MotorMode.transition
disarm_mode s = mode-transition disarm s

unarmed : (s : SharedState) → is_armed s ≡ false → mode s ≡ disarmed
unfolding is_armed MotorMode.is_armed to_u8
unarmed s h = ground arith

below_disarmed : (m n : MotorMode) → m ≡ disarmed → eases m n ≡ true → n ≡ disarmed
unfolding eases
below_disarmed m n h e = ground arith

not_armed : (n : ℕ) (b : Bool) → 10000 < n → ltb 10000 n && b ≡ false → b ≡ false
not_armed n b h e = ground arith

lost_signal :
    {U : Type 0} (w : World U)
    → 10000 < (w.shared).signal_timeout
    → mode (check_signal w).shared ≡ disarmed
unfolding check_signal mode
lost_signal w h = elim (Bool-cases (ltb 10000 (w.shared).signal_timeout && is_armed w.shared)) [
  | inl due ↦ rw due (disarm_mode w.shared)
  | inr kept ↦
      rw kept (unarmed w.shared (not_armed (w.shared).signal_timeout (is_armed w.shared) h kept))
]

-- An iteration that finds more than 10000 periods without a signal ends disarmed, whatever the state.
pub tick-signal_lost :
    {U : Type 0} (fixed : FixedPoint U) (adc : Adc) (w : World U)
    → 10000 < (w.shared).signal_timeout
    → mode (tick fixed adc w).shared ≡ disarmed
unfolding protect
tick-signal_lost fixed adc w h =
    let s = w.shared in
    let watched = watch (e_com_time s) s.zero_crosses s.newinput w in
    let same = watch-timeout (e_com_time s) s.zero_crosses s.newinput w in
    let signalled = check_signal watched in
    let down = lost_signal watched (omega (arith, same)) in
    let known = update_erpm (e_com_time s) signalled in
    ended_mode fixed adc w
    ∙ below_disarmed (mode known.shared) (mode (check_voltage known).shared)
        (ap mode (update_erpm-shared (e_com_time s) signalled) ∙ down) (check_voltage-Eases known)

over : (s : SharedState) (n : ℕ) → 10000 < n → is_cut s n ≡ true
unfolding is_cut
over s n h = ground arith

cut_off :
    {U : Type 0} (w : World U)
    → low_voltage_cut_off ((w.main).config) ≢ 0
    → 10000 < voltage_count w.main
    → (mode (check_voltage w).shared ≡ disarmed)
      × ((((check_voltage w).main).protection).low_voltage_count ≡ voltage_count w.main)
      × ((((check_voltage w).main).protection).low_voltage_cutoff ≡ true)
unfolding check_voltage mode
cut_off w h k =
    let on : (low_voltage_cut_off ((w.main).config) != 0) ≡ true = ground arith in
    let cut : is_cut w.shared (voltage_count w.main) ≡ true =
      over w.shared (voltage_count w.main) k in
    rw (on, cut) (disarm_mode w.shared, refl, refl)

abbrev count_of : EepromConfig × ℕ × ℕ × ℕ × ℕ × Bool → ℕ
count_of b =
    let threshold = u16 (b.2 * b.3) in
    if ltb b.1 threshold && ltb 0 threshold then u16 (b.4 + 1) else if not b.5 then 0 else b.4

same_count :
    {U : Type 0} (v w : World U)
    → battery v ≡ battery w
    → voltage_count v.main ≡ voltage_count w.main
unfolding voltage_count low_voltage_counted
same_count v w h = ap count_of h

-- With the cutoff configured, an iteration whose count of low readings passes 10000 ends disarmed,
-- stores the count and sets the cutoff.
pub tick-low_voltage :
    {U : Type 0} (fixed : FixedPoint U) (adc : Adc) (w : World U)
    → low_voltage_cut_off ((w.main).config) ≢ 0
    → 10000 < voltage_count w.main
    → (mode (tick fixed adc w).shared ≡ disarmed)
      × ((((tick fixed adc w).main).protection).low_voltage_count ≡ voltage_count w.main)
      × ((((tick fixed adc w).main).protection).low_voltage_cutoff ≡ true)
unfolding protect
tick-low_voltage fixed adc w h k =
    let s = w.shared in
    let seen = known (e_com_time s) s.zero_crosses s.newinput w in
    let same = known-battery (e_com_time s) s.zero_crosses s.newinput w in
    let count = same_count seen w same in
    let (down, stored, cut) =
      cut_off seen (λ e. h (sym (ap (λ b. low_voltage_cut_off b.0) same) ∙ e))
        (omega (arith, count)) in
    let protection = ap (λ p. p.2) (tick-safety fixed adc w) in
    (
      ended_mode fixed adc w ∙ down,
      ap (λ p. p.low_voltage_count) protection ∙ stored ∙ count,
      ap (λ p. p.low_voltage_cutoff) protection ∙ cut,
    )

counts_on :
    {U : Type 0} (m : MainState U)
    → (m.protection).low_voltage_cutoff ≡ true
    → (m.protection).low_voltage_count < 65535
    → (m.protection).low_voltage_count ≤ voltage_count m
unfolding voltage_count low_voltage_counted
counts_on m h k = ground arith

-- A battery that was cut off with a count above 10000 keeps the motor disarmed in every iteration,
-- even when the voltage recovers, until the count has reached 65535.
pub tick-holds_cutoff :
    {U : Type 0} (fixed : FixedPoint U) (adc : Adc) (w : World U)
    → low_voltage_cut_off ((w.main).config) ≢ 0
    → ((w.main).protection).low_voltage_cutoff ≡ true
    → 10000 < ((w.main).protection).low_voltage_count
    → ((w.main).protection).low_voltage_count < 65535
    → (mode (tick fixed adc w).shared ≡ disarmed)
      × (10000 < (((tick fixed adc w).main).protection).low_voltage_count)
      × ((((tick fixed adc w).main).protection).low_voltage_cutoff ≡ true)
tick-holds_cutoff fixed adc w h c k l =
    let on = counts_on w.main c l in
    let (down, stored, cut) = tick-low_voltage fixed adc w h (omega arith) in
    (down, omega (arith, stored), cut)

wrapped :
    {U : Type 0} (m : MainState U)
    → (m.protection).low_voltage_count ≡ 65535
    → (m.measurements).battery_voltage < u16 (m.cell_count * m.low_cell_volt_cutoff)
    → voltage_count m ≡ 0
unfolding voltage_count low_voltage_counted
wrapped m h k = ground arith

never : (s : SharedState) → is_cut s 0 ≡ false
unfolding is_cut
never s = ground arith

-- At 65535 a further low reading wraps the count to 0, and this part of the iteration then leaves
-- the mode alone although the cutoff is set and the voltage low.
pub check_voltage-wraps :
    {U : Type 0} (w : World U)
    → low_voltage_cut_off ((w.main).config) ≢ 0
    → ((w.main).protection).low_voltage_cutoff ≡ true
    → ((w.main).protection).low_voltage_count ≡ 65535
    → ((w.main).measurements).battery_voltage
      < u16 ((w.main).cell_count * (w.main).low_cell_volt_cutoff)
    → (((check_voltage w).main).protection ≡ record ((w.main).protection) { low_voltage_count = 0 })
      × ((check_voltage w).shared ≡ w.shared)
unfolding check_voltage
check_voltage-wraps w h c k l =
    let on : (low_voltage_cut_off ((w.main).config) != 0) ≡ true = ground arith in
    let zero_count = wrapped w.main k l in
    let kept : is_cut w.shared (voltage_count w.main) ≡ false =
      ap (is_cut w.shared) zero_count ∙ never w.shared in
    rw (on, kept, zero_count) (refl, refl)
