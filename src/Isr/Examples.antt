-- ===== src/Isr/Examples.antt =====
-- Runs of the interrupt handlers.
use rm32_private.Base.{
  ℕ, ◌+◌, ◌≡◌, refl, true, false, not, ◌&&◌, ◌==◌, ltb, leb, arith, if◌then◌else◌, [], ◌∷◌, ◌++◌,
}
use rm32_private.Base.Word.{u32}
use rm32_private.MotorMode.{from_u8, disarmed, armed, running}
use rm32_private.Shared.{SharedState, mode, is_old_routine}
use rm32_private.Config.{zeroed, drag_brake_strength}
use rm32_private.Duty.{brake_compare}
use rm32_private.Commutation.Cycle.{next_step}
use rm32_private.Isr.{
  Context, Reads, ten_khz_tick, commutation_timer_expired, set_duty_all, set_auto_reload, com_step,
  pulse_toggle, set_step, change_input, enable_interrupts, disable_interrupt,
}
use rm32_private.Isr.Disarmed.{ten_khz_tick-disarmed}
use rm32_private.Isr.Arming.{Round, ticks, at_rest, ticks-disarmed, ticks-armed}
use rm32_private.Isr.Timer.{commutation_timer_expired_lem}

abbrev powered_up : Context
powered_up = record {
  commutation = rm32_private.Commutation.new;
  bemf = rm32_private.Bemf.default;
  duty = rm32_private.Duty.default;
  armed_timeout_count = 0;
  shared = record rm32_private.Shared.new { input_set = true; prop_brake_active = true };
  sent = [];
}

abbrev quiet_reads : Reads
quiet_reads = record { output_level = false; polled_count = 500; end_count = 510 }

starts_disarmed : (n : ℕ) → mode (record powered_up { armed_timeout_count = n }).shared ≡ disarmed
unfolding mode from_u8
starts_disarmed n = refl

ten_khz_tick-disarmed_example :
    let c' = ten_khz_tick zeroed false quiet_reads powered_up in
    let arr = (powered_up.shared).tim1_arr in
    let idle = (powered_up.shared).input_set && ((powered_up.shared).adjusted_input == 0) in
    let next = u32 (powered_up.armed_timeout_count + 1) in
    (c'.sent
      ≡ []
        ++ (set_duty_all (if true then brake_compare (drag_brake_strength zeroed) arr else 0)
            ∷ set_auto_reload arr
            ∷ []))
    × (mode c'.shared ≡ (if idle && ltb 20000 next then armed else disarmed))
    × (c'.armed_timeout_count ≡ (if idle && not (ltb 20000 next) then next else 0))
ten_khz_tick-disarmed_example =
    ten_khz_tick-disarmed zeroed false quiet_reads powered_up (starts_disarmed 0)

abbrev spinning : Round
spinning = record { throttle = 900; set = true; reads = quiet_reads }

ticks-disarmed_example :
    mode (ticks zeroed true (spinning ∷ spinning ∷ []) powered_up).shared ≡ disarmed
ticks-disarmed_example =
    ticks-disarmed zeroed true (spinning ∷ spinning ∷ []) powered_up (starts_disarmed 0)
      (omega arith)

abbrev nearly : Context
nearly = record powered_up { armed_timeout_count = 19999 }

ticks-armed_example :
    mode (ticks zeroed true (at_rest (quiet_reads ∷ quiet_reads ∷ [])) nearly).shared ≡ armed
ticks-armed_example =
    ticks-armed zeroed true quiet_reads (quiet_reads ∷ []) nearly (starts_disarmed 19999)
      (omega arith)

abbrev polling : Context
polling = record powered_up {
  shared = record rm32_private.Shared.new {
    motor_mode = 3;
    zero_crosses = 30;
    commutation_interval = 900;
  };
}

commutation_timer_expired_lem_example :
    let c' = commutation_timer_expired polling in
    let n = next_step (polling.commutation).forward (polling.commutation).step in
    ((c'.commutation).step ≡ n)
    × (c'.sent
        ≡ []
          ++ (disable_interrupt
              ∷ com_step n
              ∷ pulse_toggle n
              ∷ set_step n (c'.commutation).rising
              ∷ change_input
              ∷ enable_interrupts
              ∷ []))
    × ((c'.bemf).counter ≡ 0)
    × ((c'.bemf).bad_count ≡ 0)
    × ((c'.bemf).zc_found ≡ false)
    × (mode c'.shared ≡ (
        if is_old_routine polling.shared
          && leb 20 (c'.shared).zero_crosses
          && leb (c'.shared).commutation_interval 2000
        then running
        else mode polling.shared))
commutation_timer_expired_lem_example =
    commutation_timer_expired_lem polling (omega arith, omega arith)
