-- ===== src/MainLoop/Protection.antt =====
-- The parts of the iteration that watch over the motor (the first half of `MainState::tick`,
-- rm32/src/main_state.rs): stalls, desyncs, the signal, the battery. `zc` and `raw_input` are the
-- values that the iteration loaded at its start.
use rm32_private.Base.{
  ℕ, ◌+◌, ◌-◌, ◌*◌, ◌/◌, Bool, true, false, not, ◌&&◌, ◌||◌, ltb, leb, ◌==◌, ◌!=◌, if◌then◌else◌,
}
use rm32_private.Base.Int.{ℤ, pos, ◌/ℤ◌, ltb_ℤ}
use rm32_private.Base.Word.{u16, u16_of, signed, sat_u8}
use rm32_private.Functions.{get_abs_dif}
use rm32_private.Config.{
  EepromConfig, bi_direction, servo_dead_band, use_sine_start, low_voltage_cut_off,
}
use rm32_private.MotorMode.{stop_motor, desync_fallback, disarm}
use rm32_private.Shared.{
  SharedState, transition, set_old_routine, is_armed, is_running, is_stepper_sine,
}
use rm32_private.Input.{ProtectionState}
use rm32_private.MainLoop.{World, MainState, TimingState}

abbrev pub dshot_bidirectional : EepromConfig → SharedState → Bool
dshot_bidirectional config s = (bi_direction config != 0) && s.dshot

unfoldable pub stick_released : EepromConfig → SharedState → ℕ → Bool
stick_released config s raw_input =
    if dshot_bidirectional config s
    then raw_input == 0
    else if bi_direction config != 0
    then (let db = u16 (servo_dead_band config * 2) in
        leb (1000 - db) raw_input && leb raw_input (u16 (1000 + db)))
    else raw_input == 0

-- The three conditions that clear the count of back-EMF timeouts.
unfoldable pub clears_timeouts : EepromConfig → SharedState → ℕ → ℕ → Bool
unfolding stick_released
clears_timeouts config s zc raw_input =
    ltb 1000 zc
    || stick_released config s raw_input
    || (ltb 100 zc && ltb raw_input 200 && not (dshot_bidirectional config s))
    || ((use_sine_start config != 0) && ltb raw_input 160 && not (dshot_bidirectional config s))

-- `BEMF_STALL_TIMER_THRESHOLD` is 45000; 102 is the latched fault.
abbrev pub is_stalled : SharedState → Bool
is_stalled s = ltb 45000 s.interval_timer_count && is_running s

unfoldable pub stall_shared : SharedState → SharedState
stall_shared s =
    let polling = set_old_routine true s in
    let stopped =
      if ltb polling.adjusted_input 47
      then record (transition stop_motor polling) { commutation_interval = 5000 }
      else polling in
    record stopped { zero_crosses = 0 }

unfoldable pub count_timeout : ProtectionState → ProtectionState
count_timeout p = record p {
  bemf_timeout_happened =
      if p.bemf_timeout_happened != 102
      then sat_u8 (p.bemf_timeout_happened + 1)
      else p.bemf_timeout_happened;
}

-- What a desync does to the shared state.
unfoldable pub desync_shared : EepromConfig → SharedState → SharedState
desync_shared config s =
    let reset = record s { zero_crosses = 0 } in
    let stopped =
      if ((bi_direction config == 0) && ltb 47 reset.adjusted_input)
        || ltb 1000 reset.commutation_interval
      then transition stop_motor reset
      else reset in
    transition desync_fallback stopped

unfoldable pub is_desync : TimingState → Bool
is_desync t =
    ltb (t.average_interval / 2) (
      get_abs_dif (signed 4294967296 t.last_average_interval)
        (signed 4294967296 t.average_interval))
    && ltb t.average_interval 2000

-- The count of readings below the threshold. The cutoff, once set, keeps it.
unfoldable pub low_voltage_counted : ℕ → ℕ → ProtectionState → ℕ
low_voltage_counted threshold voltage p =
    if ltb voltage threshold && ltb 0 threshold
    then u16 (p.low_voltage_count + 1)
    else if not p.low_voltage_cutoff
    then 0
    else p.low_voltage_count

-- The count that cuts the motor off is lower while it starts on the sine wave.
unfoldable pub is_cut : SharedState → ℕ → Bool
is_cut s count = ltb (if is_stepper_sine s then 1000 else 10000) count

module _ {U : Type 0} where
  unfoldable pub clear_timeouts : ℕ → ℕ → World U → World U
  unfolding clears_timeouts
  clear_timeouts zc raw_input w =
      let m = w.main in
      let p = m.protection in
      record w {
        main = record m {
          protection = record p {
            bemf_timeout_happened =
                if clears_timeouts m.config w.shared zc raw_input
                then 0
                else p.bemf_timeout_happened;
          };
        };
      }

  unfoldable pub detect_stall : World U → World U
  unfolding stall_shared count_timeout
  detect_stall w =
      if is_stalled w.shared
      then record w {
        shared = stall_shared w.shared;
        main = record (w.main) { protection = count_timeout (w.main).protection };
      }
      else w

  unfoldable pub set_bemf_threshold : ℕ → World U → World U
  set_bemf_threshold raw_input w =
      let m = w.main in
      let p = m.protection in
      record w {
        main = record m {
          protection = record p { bemf_timeout = if ltb raw_input 150 then 100 else 10 };
        };
      }

  unfoldable pub detect_desync : ℕ → World U → World U
  unfolding desync_shared is_desync
  detect_desync zc w =
      let m = w.main in
      let t = m.timing in
      if m.desync_check && ltb 10 zc
      then (let lost = is_desync t in
          let average = if lost && ltb 100 zc then 5000 else t.average_interval in
          record w {
            shared = if lost then desync_shared m.config w.shared else w.shared;
            main = record m {
              desync_check = false;
              timing = record t { average_interval = average; last_average_interval = average };
            };
          })
      else w

  unfoldable pub check_signal : World U → World U
  check_signal w =
      let s = w.shared in
      if ltb 10000 s.signal_timeout && is_armed s
      then record w { shared = record (transition disarm s) { input_set = false } }
      else w

  unfoldable pub update_erpm : ℤ → World U → World U
  update_erpm time w =
      let m = w.main in
      let t = m.timing in
      if not (is_stepper_sine w.shared) && ltb_ℤ (pos 0) time
      then record w {
        main = record m {
          timing = record t {
            e_rpm = if is_running w.shared then u16_of (pos 600000 /ℤ time) else 0;
          };
        };
      }
      else w

  unfoldable pub voltage_count : MainState U → ℕ
  unfolding low_voltage_counted
  voltage_count m =
      low_voltage_counted (u16 (m.cell_count * m.low_cell_volt_cutoff))
        (m.measurements).battery_voltage m.protection

  unfoldable pub check_voltage : World U → World U
  unfolding voltage_count is_cut
  check_voltage w =
      let m = w.main in
      let p = m.protection in
      if low_voltage_cut_off m.config != 0
      then (let count = voltage_count m in
          let cut = is_cut w.shared count in
          record w {
            shared = if cut then transition disarm w.shared else w.shared;
            main = record m {
              protection = record p {
                low_voltage_count = count;
                low_voltage_cutoff = if cut then true else p.low_voltage_cutoff;
              };
            };
          })
      else w
