-- ===== src/MainLoop/Tick.antt =====
-- The whole iteration (`MainState::tick`, rm32/src/main_state.rs) and the two entries of
-- rm32/src/system.rs.
use rm32_private.Base.{ℕ}
use rm32_private.Base.Int.{ℤ, pos, ◌/ℤ◌}
use rm32_private.Base.Word.{u32_of}
use rm32_private.Shared.{e_com_time}
use rm32_private.Input
use rm32_private.Input.{InputState}
use rm32_private.Sensors.{FixedPoint}
use rm32_private.MainLoop.{World, Adc}
use rm32_private.MainLoop.Protection.{
  clear_timeouts, detect_stall, set_bemf_threshold, detect_desync, check_signal, update_erpm,
  check_voltage,
}
use rm32_private.MainLoop.Measure.{
  measure, detect_cells, regulate_stall, regulate_current, regulate_speed, report, accumulate,
}
use rm32_private.MainLoop.Publish.{publish, blink}

module _ {U : Type 0} where
  unfoldable pub average_of : ℤ → World U → World U
  average_of time w = record w {
    main = record (w.main) {
      timing = record ((w.main).timing) { average_interval = u32_of (time /ℤ pos 3) };
    };
  }

  -- The first half, with the period, the zero crossings and the throttle as loaded.
  unfoldable pub watch : ℤ → ℕ → ℕ → World U → World U
  unfolding average_of
  watch time zc raw_input w = detect_desync zc (
      set_bemf_threshold raw_input (detect_stall (clear_timeouts zc raw_input (average_of time w))))

  unfoldable pub protect : ℤ → ℕ → ℕ → World U → World U
  unfolding watch
  protect time zc raw_input w =
      check_voltage (update_erpm time (check_signal (watch time zc raw_input w)))

  unfoldable pub regulate : FixedPoint U → Adc → ℕ → World U → World U
  regulate fixed adc zc w =
      regulate_speed zc (regulate_current (regulate_stall (detect_cells (measure fixed adc w))))

  -- The iteration up to the publication.
  unfoldable pub settled : FixedPoint U → Adc → World U → World U
  unfolding protect regulate
  settled fixed adc w =
      let s = w.shared in
      accumulate (
        report
          (regulate fixed adc s.zero_crosses (protect (e_com_time s) s.zero_crosses s.newinput w)))

  unfoldable pub tick : FixedPoint U → Adc → World U → World U
  unfolding settled
  tick fixed adc w =
      let s = w.shared in blink (publish (e_com_time s) s.zero_crosses (settled fixed adc w))

  -- `SystemTick::tick_main` is the iteration; `SystemTick::tick_input` runs the input pipeline on the
  -- same settings and protection state.
  unfoldable pub tick_input : InputState → World U → World U × InputState
  tick_input input_state w =
      let r =
        Input.tick_input ((w.main).config)
          (record { shared = w.shared; protection = (w.main).protection; state = input_state }) in
      (
        record w { shared = r.shared; main = record (w.main) { protection = r.protection } },
        r.state,
      )
