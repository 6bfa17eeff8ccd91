-- ===== src/MainLoop/Desync.antt =====
-- What an iteration does about a lost synchronisation (`MainState::tick`, rm32/src/main_state.rs).
use rm32_private.Base.{
  ℕ, ◌<◌, ◌≡◌, ◌≢◌, refl, sym, ap, ◌∙◌, arith, inl, inr, Bool-cases, true, ◌&&◌, ltb,
}
use rm32_private.Base.Int.{pos, ◌/ℤ◌}
use rm32_private.Base.Word.{u32_of}
use rm32_private.Config.{EepromConfig}
use rm32_private.MotorMode
use rm32_private.MotorMode.{MotorMode, running, desync_fallback}
use rm32_private.Shared.{SharedState, mode, e_com_time}
use rm32_private.Shared.Modes.{mode-transition}
use rm32_private.Sensors.{FixedPoint}
use rm32_private.MainLoop.{World, TimingState, Adc}
use rm32_private.MainLoop.Protection.{
  clear_timeouts, detect_stall, set_bemf_threshold, detect_desync, is_stalled, desync_shared,
  is_desync,
}
use rm32_private.MainLoop.Tick.{average_of, watch, protect, tick}
use rm32_private.MainLoop.Safety.{eases, ended_mode, after_watch}

falls_back : (m : MotorMode) → MotorMode.transition m desync_fallback ≢ running
unfolding MotorMode.transition
falls_back m h = ground arith

eased_from : (m : MotorMode) → eases m running ≡ true → m ≡ running
unfolding eases
eased_from m h = ground arith

stays_down : (m n : MotorMode) → m ≢ running → eases m n ≡ true → n ≢ running
unfolding eases
stays_down m n h e k = h (eased_from m (sym (ap (eases m) k) ∙ e))

desync_mode : (config : EepromConfig) (s : SharedState) → mode (desync_shared config s) ≢ running
unfolding desync_shared
desync_mode config s h = falls_back _ (sym (mode-transition desync_fallback _) ∙ h)

-- The intervals as the iteration compares them: the average from the period just loaded, and the last
-- one.
abbrev pub compared : {U : Type 0} → World U → TimingState
compared w = record ((w.main).timing) { average_interval = u32_of (e_com_time w.shared /ℤ pos 3) }

module _ {U : Type 0} where
  stall-timing : (w : World U) → ((detect_stall w).main).timing ≡ (w.main).timing
  unfolding detect_stall
  stall-timing w = elim (Bool-cases (is_stalled w.shared)) [ inl h ↦ rw h refl | inr h ↦ rw h refl ]

  stall-check : (w : World U) → ((detect_stall w).main).desync_check ≡ (w.main).desync_check
  unfolding detect_stall
  stall-check w = elim (Bool-cases (is_stalled w.shared)) [ inl h ↦ rw h refl | inr h ↦ rw h refl ]

  lost :
      (zc : ℕ) (w : World U)
      → (w.main).desync_check ≡ true
      → 10 < zc
      → is_desync (w.main).timing ≡ true
      → mode ((detect_desync zc w).shared) ≢ running
  unfolding detect_desync
  lost zc w c h d =
      let due : ((w.main).desync_check && ltb 10 zc) ≡ true = ground arith in
      rw (due, d) (desync_mode ((w.main).config) w.shared)

  watch-lost :
      (w : World U)
      → (w.main).desync_check ≡ true
      → 10 < (w.shared).zero_crosses
      → is_desync (compared w) ≡ true
      → mode ((watch (e_com_time w.shared) (w.shared).zero_crosses (w.shared).newinput w).shared)
        ≢ running
  unfolding watch average_of clear_timeouts set_bemf_threshold
  watch-lost w c h d =
      let s = w.shared in
      let cleared = clear_timeouts s.zero_crosses s.newinput (average_of (e_com_time s) w) in
      let ready = set_bemf_threshold s.newinput (detect_stall cleared) in
      lost s.zero_crosses ready (stall-check cleared ∙ c) h
        (ap is_desync (stall-timing cleared) ∙ d)

-- Where a check is due after more than ten zero crossings, the new average interval is below 2000, and
-- the last one differs from it by more than half the new one, an iteration leaves the interrupt-driven
-- mode, whatever else it finds. (Only the harness, rm32/src/bin/harness.rs, ever makes a check due.)
pub tick-desync :
    {U : Type 0} (fixed : FixedPoint U) (adc : Adc) (w : World U)
    → (w.main).desync_check ≡ true
    → 10 < (w.shared).zero_crosses
    → is_desync (compared w) ≡ true
    → mode (tick fixed adc w).shared ≢ running
tick-desync fixed adc w c h d k =
    let s = w.shared in
    stays_down (mode (watch (e_com_time s) s.zero_crosses s.newinput w).shared)
      (mode (protect (e_com_time s) s.zero_crosses s.newinput w).shared) (watch-lost w c h d)
      (after_watch (e_com_time s) s.zero_crosses s.newinput w) (sym (ended_mode fixed adc w) ∙ k)
