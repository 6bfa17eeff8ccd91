-- ===== src/Input/Untouched.antt =====
-- What the input pipeline (rm32/src/control/input.rs) leaves to the interrupts.
use rm32_private.Base.{◌≡◌, refl, ◌∙◌, true, not, ◌&&◌, ltb, ◌!=◌, inl, inr, Bool-cases}
use rm32_private.Config.{EepromConfig, dir_reversed, use_sine_start}
use rm32_private.Shared.{SharedState, set_old_routine, is_stepper_sine}
use rm32_private.Shared.Untouched.{old_routine-telemetry, either}
use rm32_private.InputMapping.{
  BidirResult, InputMode, unidirectional, bidir_dshot, bidir_servo, speed_gated, rc_car,
  from_config, dshot_bidir, dshot_rc_car, servo_bidir, servo_rc_car,
}
use rm32_private.Input.{
  World, InputState, map_input, gated_shared, handshake_shared, is_stuck, mapped, latch_fault,
  apply_sine_start, apply_brake, process_input, tick_input,
}

gated-telemetry :
    (r : BidirResult) (s : SharedState) → (gated_shared r s).dshot_telemetry ≡ s.dshot_telemetry
gated-telemetry r s =
    let s' = record s { adjusted_input = r.adjusted } in
    let turned = record s' { forward = not s'.forward; zero_crosses = 0 } in
    either r.reverse (set_old_routine true turned) s' s (old_routine-telemetry true turned) refl

handshake-telemetry :
    (r : BidirResult) (s : SharedState) → (handshake_shared r s).dshot_telemetry ≡ s.dshot_telemetry
handshake-telemetry r s =
    let s' = record s { adjusted_input = r.adjusted } in
    either r.reverse (record s' { forward = not s'.forward }) s' s refl refl

map_input-telemetry :
    (config : EepromConfig) (mode : InputMode) (s : SharedState) (st : InputState)
    → ((map_input config mode s st).0).dshot_telemetry ≡ s.dshot_telemetry
unfolding map_input
map_input-telemetry config unidirectional s st = refl
map_input-telemetry config (bidir_dshot speed_gated) s st =
    let r =
      dshot_bidir s.newinput s.forward (dir_reversed config != 0) s.commutation_interval
        s.duty_cycle (is_stepper_sine s) st.reverse_speed_threshold in
    gated-telemetry r s
map_input-telemetry config (bidir_dshot rc_car) s st =
    let r =
      dshot_rc_car s.newinput s.forward (dir_reversed config != 0) st.prop_brake
        st.return_to_center in
    handshake-telemetry r s
map_input-telemetry config (bidir_servo speed_gated dead_band) s st =
    let r =
      servo_bidir s.newinput s.forward (dir_reversed config != 0) s.commutation_interval
        s.duty_cycle (is_stepper_sine s) st.reverse_speed_threshold dead_band in
    gated-telemetry r s
map_input-telemetry config (bidir_servo rc_car dead_band) s st =
    let r =
      servo_rc_car s.newinput s.forward (dir_reversed config != 0) st.prop_brake st.return_to_center
        dead_band in
    handshake-telemetry r s

apply_sine_start-telemetry :
    (config : EepromConfig) (w : World)
    → ((apply_sine_start config w).shared).dshot_telemetry ≡ (w.shared).dshot_telemetry
unfolding apply_sine_start
apply_sine_start-telemetry config w =
    elim (Bool-cases ((use_sine_start config != 0) && ltb 47 (w.shared).adjusted_input)) [
      | inl h ↦ rw h refl
      | inr h ↦ rw h refl
    ]

process_input-telemetry :
    (config : EepromConfig) (w : World)
    → ((process_input config w).shared).dshot_telemetry ≡ (w.shared).dshot_telemetry
unfolding process_input latch_fault apply_brake
process_input-telemetry config w =
    let mode = map_input-telemetry config (w.state).input_mode w.shared w.state in
    elim (Bool-cases (is_stuck config w.protection)) [
      | inl h ↦ rw h mode
      | inr h ↦ rw h (apply_sine_start-telemetry config (mapped config w) ∙ mode)
    ]

-- The input pipeline leaves the flag of bidirectional telemetry alone.
pub tick_input-telemetry :
    (config : EepromConfig) (w : World)
    → ((tick_input config w).shared).dshot_telemetry ≡ (w.shared).dshot_telemetry
unfolding tick_input
tick_input-telemetry config w =
    process_input-telemetry config
      (record w { state = record (w.state) { input_mode = from_config config (w.shared).dshot } })
