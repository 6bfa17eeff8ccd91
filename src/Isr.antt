-- ===== src/Isr.antt =====
-- The interrupt handlers (rm32/src/control/isr_logic.rs). A handler takes the motor state, the shared
-- state and what the hardware returns to its reads, and gives the states with the commands that it
-- sent to the hardware, in their order.
pub mod Disarmed
pub mod Arming
pub mod Timer
mod Examples
use rm32_private.Base.{
  ℕ, ◌+◌, ◌-◌, ◌*◌, ◌/◌, Bool, true, false, not, ◌&&◌, ◌||◌, ◌<=>◌, ◌==◌, ltb, leb, if◌then◌else◌,
  zero, suc, List, [], ◌∷◌, ◌++◌,
}
use rm32_private.Base.Int.{ℤ, pos, ◌/ℤ◌}
use rm32_private.Base.Word.{u16, u32, u32_of}
use rm32_private.MotorMode.{arm, start_motor, bemf_locked}
use rm32_private.Shared.{
  SharedState, transition, is_armed, is_running, is_old_routine, is_stepper_sine,
  increment_zero_crosses, increment_signal_timeout, e_com_time, set_e_com_time,
}
use rm32_private.Commutation.{Commutation, record_interval, advance}
use rm32_private.Bemf.{
  BemfState, sync_config, reset_for_step, reset_after_commutation, zero_cross_detected,
  record_zero_cross, update_timing_from_timer, record_zc_timing, com_timer_delay, update,
}
use rm32_private.Duty
use rm32_private.Duty.{
  DutyState, compute_setpoint, ramp_limit, clamp_ceilings, increment_ramp_count, pwm_compare,
  brake_compare, finalize,
}
use rm32_private.Config.{
  EepromConfig, stall_protection, brake_on_stop, active_brake_power, drag_brake_strength,
}

-- The calls of the hardware traits (rm32/src/hal.rs) that change something.
pub data Command : Type 0 where
  com_step pulse_toggle set_duty_all set_auto_reload set_count set_and_enable : ℕ → Command
  set_step : ℕ → Bool → Command
  change_input enable_interrupts mask_interrupts disable_interrupt : Command

-- What the hardware answers in one tick: the comparator, and the interval timer when it is polled and
-- at the end.
pub record Reads : Type 0 where
  pub output_level : Bool
  pub polled_count : ℕ
  pub end_count : ℕ

-- `MotorContext` without the hardware, and the commands sent so far.
pub record Context : Type 0 where
  pub commutation : Commutation
  pub bemf : BemfState
  pub duty : DutyState
  pub armed_timeout_count : ℕ
  pub shared : SharedState
  pub sent : List Command

abbrev pub send : List Command → Context → Context
send commands c = record c { sent = c.sent ++ commands }

abbrev pub on_shared : (SharedState → SharedState) → Context → Context
on_shared f c = record c { shared = f c.shared }

-- `advance`, `record_interval` and `set_e_com_time`, which every commutation does.
unfoldable pub commutate : Context → Context
commutate c =
    let r = record_interval (u16 (c.shared).commutation_interval) (advance c.commutation) in
    record c { commutation = r.0; shared = set_e_com_time r.1 c.shared }

-- The start of the motor.
unfoldable pub start : Context → Context
unfolding commutate
start c =
    let s = transition start_motor c.shared in
    let c' = commutate (record c { shared = s; duty = Duty.start_motor c.duty }) in
    let m = c'.commutation in
    send (com_step m.step ∷ set_step m.step m.rising ∷ change_input ∷ enable_interrupts ∷ []) c'

-- The throttle part of the tick.
unfoldable pub apply_throttle : EepromConfig → ℕ → Context → Context
unfolding start
apply_throttle config tim1_arr c =
    let input = (c.shared).adjusted_input in
    if is_armed c.shared && not (is_stepper_sine c.shared)
    then (if leb 47 input
        then (let setpoint =
              compute_setpoint input (c.shared).zero_crosses (stall_protection config) c.duty in
            let c' = record c { shared = record (c.shared) { duty_cycle_setpoint = setpoint } } in
            if not (is_running c'.shared) then start c' else c')
        else (let c' = record c { shared = record (c.shared) { duty_cycle_setpoint = 0 } } in
            if brake_on_stop config == 2
            then send
                (com_step 2
                  ∷ set_duty_all
                      (u16 (u32 (u32 (active_brake_power config * tim1_arr) / 2000 * 10)))
                  ∷ [])
                c'
            else c'))
    else c

-- The arming part: after more than 20000 ticks of zero throttle.
unfoldable pub apply_arming : Context → Context
apply_arming c =
    if not (is_armed c.shared)
    then (if (c.shared).input_set && ((c.shared).adjusted_input == 0)
        then (let count = u32 (c.armed_timeout_count + 1) in
            if ltb 20000 count
            then record c { armed_timeout_count = 0; shared = transition arm c.shared }
            else record c { armed_timeout_count = count })
        else record c { armed_timeout_count = 0 })
    else c

-- A polled zero cross: the step is taken at once while the motor starts, and by the timer later.
unfoldable pub polled_step : Context → Context
unfolding commutate
polled_step c =
    if ltb (c.shared).zero_crosses 5
    then (let c' = commutate c in
        let m = c'.commutation in
        send (com_step m.step ∷ pulse_toggle m.step ∷ set_step m.step m.rising ∷ change_input ∷ [])
          (record c' { bemf = reset_for_step c'.bemf; shared = increment_zero_crosses c'.shared }))
    else send (set_and_enable (com_timer_delay c.bemf) ∷ []) c

unfoldable pub bemf_polling : Reads → Context → Context
unfolding polled_step
bemf_polling reads c =
    let rising = (c.commutation).rising in
    let c1 =
      send (mask_interrupts ∷ []) (record c { bemf = update reads.output_level rising c.bemf }) in
    if zero_cross_detected rising c1.bemf
    then (let r =
          record_zero_cross (u16 reads.polled_count) (c1.shared).commutation_interval c1.bemf in
        polled_step (
          send (set_count 0 ∷ [])
            (record c1 { bemf = r.0; shared = record (c1.shared) { commutation_interval = r.1 } })))
    else c1

-- The ramp, the published settings, and the ceilings.
unfoldable pub shape_duty : Bool → Context → Context
shape_duty voltage_based c =
    let s = c.shared in
    let average_interval = u32_of (e_com_time s /ℤ pos 3) in
    let d =
      ramp_limit s.battery_voltage s.commutation_interval s.zero_crosses average_interval
        voltage_based c.duty in
    let stall_boost = if is_running s then s.stall_protection_adjust else 0 in
    record c {
      bemf = sync_config s.filter_level s.auto_advance s.min_bemf_counts c.bemf;
      duty = clamp_ceilings stall_boost s.duty_maximum s.current_limit_adjust d;
    }

-- The compare value of the tick.
unfoldable pub output_duty : EepromConfig → ℕ → Context → ℕ
output_duty config tim1_arr c =
    if is_armed c.shared && is_running c.shared
    then pwm_compare tim1_arr c.duty
    else if (c.shared).prop_brake_active
    then brake_compare (drag_brake_strength config) tim1_arr
    else 0

-- The setpoint is taken over, and the counters advance.
unfoldable pub core_tick : Context → Context
core_tick c = record c {
  duty = increment_ramp_count (record (c.duty) { cycle = (c.shared).duty_cycle_setpoint });
  shared = increment_signal_timeout c.shared;
}

-- The output, and what is published to the main loop.
unfoldable pub output : EepromConfig → ℕ → Reads → Context → Context
unfolding output_duty
output config tim1_arr reads c =
    let r = finalize c.duty in
    send (set_duty_all (output_duty config tim1_arr c) ∷ set_auto_reload tim1_arr ∷ []) (record c {
      duty = r.0;
      shared = record (c.shared) {
        duty_cycle = r.1;
        forward = (c.commutation).forward;
        interval_timer_count = reads.end_count;
      };
    })

unfoldable pub ten_khz_tick : EepromConfig → Bool → Reads → Context → Context
ten_khz_tick config voltage_based reads c =
    let tim1_arr = (c.shared).tim1_arr in
    let c0 = record c { commutation = record (c.commutation) { forward = (c.shared).forward } } in
    let c1 = apply_arming (core_tick (apply_throttle config tim1_arr c0)) in
    let s = c1.shared in
    let c2 =
      if is_old_routine s && is_running s && not (is_stepper_sine s)
      then bemf_polling reads c1
      else c1 in
    output config tim1_arr reads (shape_duty voltage_based c2)

-- The interval and the delay from the timer, in interrupt-driven running.
unfoldable pub retime : Context → Context
retime c =
    if not (is_old_routine c.shared)
    then (let r = update_timing_from_timer (c.shared).commutation_interval c.bemf in
        record c { bemf = r.0; shared = record (c.shared) { commutation_interval = r.1 } })
    else c

-- The end of the polling routine.
unfoldable pub lock : SharedState → SharedState
lock s =
    if is_old_routine s && leb 20 s.zero_crosses && leb s.commutation_interval 2000
    then transition bemf_locked s
    else s

-- The commutation timer has expired.
unfoldable pub commutation_timer_expired : Context → Context
commutation_timer_expired c =
    let c1 = commutate c in
    let m = c1.commutation in
    let c2 =
      send
        (disable_interrupt
          ∷ com_step m.step
          ∷ pulse_toggle m.step
          ∷ set_step m.step m.rising
          ∷ change_input
          ∷ [])
        c1 in
    let c3 = send (enable_interrupts ∷ []) (retime c2) in
    record c3 {
      bemf = reset_after_commutation c3.bemf;
      shared = lock (increment_zero_crosses c3.shared);
    }

-- The polls of the comparator handler, of which each must show the other level than `rising`. The
-- comparator answers poll `i` with `levels i`.
unfoldable pub confirmed : ℕ → ℕ → (ℕ → Bool) → Bool → Bool
confirmed zero i levels rising = true
confirmed (suc polls) i levels rising =
    let rest = confirmed polls (suc i) levels rising in if levels i <=> rising then false else rest

-- The comparator has seen a zero cross. `count` is what the interval timer shows.
unfoldable pub bemf_zero_cross : (ℕ → Bool) → ℕ → Context → Context
bemf_zero_cross levels count c =
    if confirmed (c.bemf).filter_level 0 levels (c.commutation).rising
    then (let b = record_zc_timing (u16 count) c.bemf in
        send (mask_interrupts ∷ set_count 0 ∷ set_and_enable (com_timer_delay b) ∷ [])
          (record c { bemf = b }))
    else c
