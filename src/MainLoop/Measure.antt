-- ===== src/MainLoop/Measure.antt =====
-- The parts of the iteration that measure and regulate (the middle of `MainState::tick`,
-- rm32/src/main_state.rs): the converter, the cells, the three loops, the report.
use rm32_private.Base.{
  ℕ, ◌+◌, ◌*◌, ◌/◌, Bool, false, not, ◌&&◌, ltb, ◌==◌, ◌!=◌, if◌then◌else◌, min, [], ◌∷◌, ◌++◌,
  Option, some, none,
}
use rm32_private.Base.Int.{pos, ◌+ℤ◌, ◌/ℤ◌}
use rm32_private.Base.Word.{u8, u32, u16_of, i8, i32, signed, clamp}
use rm32_private.Config.{low_voltage_cut_off, stall_protection, current_limit, minimum_duty_cycle}
use rm32_private.Shared.{
  SharedState, is_armed, is_running, e_com_time, set_actual_current, set_degrees_celsius,
}
use rm32_private.Pid.{tick_stall, tick_current_limit, tick_speed_control}
use rm32_private.CurrentFilter
use rm32_private.Sensors.{
  FixedPoint, to_millivolts, to_milliamps, to_centivolts, to_centiamps, ntc_degrees,
  make_telem_package,
}
use rm32_private.Sensors
use rm32_private.MainLoop.{World, MainState, Measurements, Adc, start_conversion, send_dma}

-- The readings after their filters, in their units.
unfoldable pub measured : {U : Type 0} → FixedPoint U → Adc → MainState U → Measurements U
measured fixed adc m =
    let (voltage_filter, smoothed_v) =
      Sensors.update fixed 3 adc.raw_voltage (m.measurements).voltage_filter in
    let (current_filter, smoothed_c) =
      CurrentFilter.update adc.raw_current (m.measurements).current_filter in
    record (m.measurements) {
      voltage_filter = voltage_filter;
      current_filter = current_filter;
      battery_voltage = to_millivolts fixed m.voltage_divider smoothed_v;
      actual_current = to_milliamps m.current_offset m.millivolt_per_amp smoothed_c;
      degrees_celsius =
          if m.use_ntc
          then ntc_degrees adc.raw_temperature
          else adc.calc_temperature adc.raw_temperature;
    }

-- The cells are counted once, when the motor is armed.
unfoldable pub counted_cells : {U : Type 0} → Bool → MainState U → ℕ
counted_cells just_armed m =
    if just_armed && (m.cell_count == 0) && (low_voltage_cut_off m.config == 1)
    then u8 ((m.measurements).battery_voltage / 370)
    else m.cell_count

-- An override of the speed control takes the place of the throttle.
unfoldable pub overridden : Option ℕ → SharedState → SharedState
overridden none s = s
overridden (some throttle) s = record s { newinput = clamp 48 2047 throttle }

module _ {U : Type 0} where
  unfoldable pub measure : FixedPoint U → Adc → World U → World U
  unfolding measured
  measure fixed adc w =
      let values = measured fixed adc w.main in
      record w {
        shared =
            record (set_degrees_celsius values.degrees_celsius
              (set_actual_current values.actual_current w.shared)) {
                battery_voltage = values.battery_voltage;
              };
        main = record (w.main) { measurements = values };
        calls = w.calls ++ (start_conversion ∷ []);
      }

  unfoldable pub detect_cells : World U → World U
  unfolding counted_cells
  detect_cells w =
      let m = w.main in
      let armed = is_armed w.shared in
      let just_armed = armed && not m.last_armed in
      record w {
        main = record m {
          just_armed = just_armed;
          cell_count = counted_cells just_armed m;
          last_armed = armed;
        };
      }

  unfoldable pub regulate_stall : World U → World U
  regulate_stall w =
      let m = w.main in
      let s = w.shared in
      if (stall_protection m.config != 0) && is_running s
      then (let (pid, boost) = tick_stall (signed 4294967296 s.commutation_interval) m.pid in
          record w {
            shared = record s { stall_protection_adjust = boost };
            main = record m { pid = pid };
          })
      else w

  unfoldable pub regulate_current : World U → World U
  regulate_current w =
      let m = w.main in
      let s = w.shared in
      let target = pos (current_limit m.config * 200) in
      let min_duty = pos (min (minimum_duty_cycle m.config) 50 * 10) in
      let (pid, ceiling) =
        tick_current_limit (m.measurements).actual_current target min_duty (is_running s) m.pid in
      record w {
        shared = record s { current_limit_adjust = ceiling };
        main = record m { pid = pid };
      }

  unfoldable pub regulate_speed : ℕ → World U → World U
  unfolding overridden
  regulate_speed zc w =
      let m = w.main in
      let s = w.shared in
      let (pid, override) = tick_speed_control (e_com_time s) zc (is_running s) m.pid in
      record w { shared = overridden override s; main = record m { pid = pid } }

  unfoldable pub report : World U → World U
  report w =
      let m = w.main in
      let v = m.measurements in
      if (w.shared).send_telemetry
      then (let packet =
            make_telem_package (i8 v.degrees_celsius) (to_centivolts v.battery_voltage)
              (to_centiamps v.actual_current) (u16_of (v.consumed_current /ℤ pos 1000))
              (m.timing).e_rpm in
          record w {
            shared = record (w.shared) { send_telemetry = false };
            calls = w.calls ++ (send_dma packet ∷ []);
          })
      else w

  -- The current adds up at every 20001st iteration.
  unfoldable pub accumulate : World U → World U
  accumulate w =
      let m = w.main in
      let v = m.measurements in
      let counter = u32 (m.ten_khz_counter + 1) in
      let due = ltb 20000 counter in
      record w {
        main = record m {
          ten_khz_counter = if due then 0 else counter;
          measurements = record v {
            consumed_current =
                if due then i32 (v.consumed_current +ℤ v.actual_current) else v.consumed_current;
          };
        };
      }
