-- ===== src/Firmware/Quiet.antt =====
-- The flag of bidirectional telemetry, `dshot_telemetry` (rm32/src/shared_state.rs): no handler writes it.
use rm32_private.Base.{
  ℕ, Bool, true, false, ◌≡◌, refl, ◌∙◌, arith, inl, inr, Bool-cases, not, ◌&&◌, leb, if◌then◌else◌,
  ◌==◌,
}
use rm32_private.MotorMode.{start_motor, arm, bemf_locked}
use rm32_private.Shared.{
  SharedState, is_armed, is_running, is_stepper_sine, is_old_routine, set_e_com_time,
  increment_zero_crosses, increment_signal_timeout,
}
use rm32_private.Config.{EepromConfig, stall_protection, brake_on_stop}
use rm32_private.Duty.{compute_setpoint}
use rm32_private.Isr.{
  Context, Reads, commutate, start, apply_throttle, apply_arming, polled_step, bemf_polling,
  shape_duty, core_tick, output, ten_khz_tick, retime, lock, commutation_timer_expired,
  bemf_zero_cross,
}
use rm32_private.Shared.Untouched.{transition-telemetry}
use rm32_private.Firmware.{Interrupt, context, handle_tim6, handle_tim14, handle_comp}

commutate-telemetry :
    (c : Context) → ((commutate c).shared).dshot_telemetry ≡ (c.shared).dshot_telemetry
unfolding commutate set_e_com_time
commutate-telemetry c = refl

start-telemetry : (c : Context) → ((start c).shared).dshot_telemetry ≡ (c.shared).dshot_telemetry
unfolding start commutate set_e_com_time
start-telemetry c = transition-telemetry start_motor c.shared

apply_throttle-telemetry :
    (config : EepromConfig) (arr : ℕ) (c : Context)
    → ((apply_throttle config arr c).shared).dshot_telemetry ≡ (c.shared).dshot_telemetry
unfolding apply_throttle
apply_throttle-telemetry config arr c =
    let input = (c.shared).adjusted_input in
    let setpoint =
      compute_setpoint input (c.shared).zero_crosses (stall_protection config) c.duty in
    let c' = record c { shared = record (c.shared) { duty_cycle_setpoint = setpoint } } in
    elim (Bool-cases (is_armed c.shared && not (is_stepper_sine c.shared))) [
      | inl h ↦ rw h (elim (Bool-cases (leb 47 input)) [
        | inl k ↦ rw k (elim (Bool-cases (is_running c'.shared)) [
          | inl r ↦ rw r refl
          | inr r ↦ rw r (start-telemetry c')
        ])
        | inr k ↦ rw k (elim (Bool-cases (brake_on_stop config == 2)) [
          | inl b ↦ rw b refl
          | inr b ↦ rw b refl
        ])
      ])
      | inr h ↦ rw h refl
    ]

apply_arming-telemetry :
    (c : Context) → ((apply_arming c).shared).dshot_telemetry ≡ (c.shared).dshot_telemetry
unfolding apply_arming
apply_arming-telemetry c = ground (arith, transition-telemetry arm c.shared)

core_tick-telemetry :
    (c : Context) → ((core_tick c).shared).dshot_telemetry ≡ (c.shared).dshot_telemetry
unfolding core_tick increment_signal_timeout
core_tick-telemetry c = ground arith

bemf_polling-telemetry :
    (reads : Reads) (c : Context)
    → ((bemf_polling reads c).shared).dshot_telemetry ≡ (c.shared).dshot_telemetry
unfolding bemf_polling polled_step commutate set_e_com_time increment_zero_crosses
bemf_polling-telemetry reads c = ground arith

lock-telemetry : (s : SharedState) → (lock s).dshot_telemetry ≡ s.dshot_telemetry
unfolding lock
lock-telemetry s = ground (arith, transition-telemetry bemf_locked s)

shape_duty-telemetry :
    (voltage_based : Bool) (c : Context)
    → ((shape_duty voltage_based c).shared).dshot_telemetry ≡ (c.shared).dshot_telemetry
unfolding shape_duty
shape_duty-telemetry voltage_based c = refl

output-telemetry :
    (config : EepromConfig) (arr : ℕ) (reads : Reads) (c : Context)
    → ((output config arr reads c).shared).dshot_telemetry ≡ (c.shared).dshot_telemetry
unfolding output
output-telemetry config arr reads c = refl

polled-telemetry :
    (b : Bool) (reads : Reads) (c : Context)
    → ((if b then bemf_polling reads c else c).shared).dshot_telemetry ≡ (c.shared).dshot_telemetry
polled-telemetry true reads c = bemf_polling-telemetry reads c
polled-telemetry false reads c = refl

ten_khz_tick-telemetry :
    (config : EepromConfig) (voltage_based : Bool) (reads : Reads) (c : Context)
    → ((ten_khz_tick config voltage_based reads c).shared).dshot_telemetry
      ≡ (c.shared).dshot_telemetry
unfolding ten_khz_tick
ten_khz_tick-telemetry config voltage_based reads c =
    let arr = (c.shared).tim1_arr in
    let c0 = record c { commutation = record (c.commutation) { forward = (c.shared).forward } } in
    let thrust = apply_throttle config arr c0 in
    let counted = core_tick thrust in
    let c1 = apply_arming counted in
    let s = c1.shared in
    let polls = is_old_routine s && is_running s && not (is_stepper_sine s) in
    let c2 = if polls then bemf_polling reads c1 else c1 in
    output-telemetry config arr reads (shape_duty voltage_based c2)
    ∙ shape_duty-telemetry voltage_based c2
    ∙ polled-telemetry polls reads c1
    ∙ apply_arming-telemetry counted
    ∙ core_tick-telemetry thrust
    ∙ apply_throttle-telemetry config arr c0

pub handle_tim6-telemetry :
    (reads : Reads) (m : Interrupt)
    → ((handle_tim6 reads m).shared).dshot_telemetry ≡ (m.shared).dshot_telemetry
unfolding handle_tim6
handle_tim6-telemetry reads m =
    ten_khz_tick-telemetry ((m.state).config) ((m.state).voltage_based_ramp) reads (context m)

pub handle_tim14-telemetry :
    (m : Interrupt) → ((handle_tim14 m).shared).dshot_telemetry ≡ (m.shared).dshot_telemetry
unfolding handle_tim14 commutation_timer_expired commutate set_e_com_time retime
    increment_zero_crosses
handle_tim14-telemetry m = grind (arith, lock-telemetry)

pub handle_comp-telemetry :
    (levels : ℕ → Bool) (count : ℕ) (m : Interrupt)
    → ((handle_comp levels count m).shared).dshot_telemetry ≡ (m.shared).dshot_telemetry
unfolding handle_comp bemf_zero_cross
handle_comp-telemetry levels count m = ground arith
