-- ===== src/Firmware/Silence.antt =====
-- Bidirectional telemetry in the whole firmware: the flag `dshot_telemetry` of rm32/src/shared_state.rs has a
-- setter that nothing calls.
use rm32_private.Base.{
  ℕ, ◌≡◌, refl, ap, ◌∙◌, Bool, true, false, ◌&&◌, Option, none, some, List, [], ◌∷◌, ◌++◌, ltb,
  ◌!=◌, if◌then◌else◌,
}
use mathlib.Core.Path.{ap₂}
use rm32_private.Shared.{is_armed, is_stepper_sine}
use rm32_private.Input.Untouched.{tick_input-telemetry}
use rm32_private.Sensors.{FixedPoint}
use rm32_private.MainLoop.Tick.{tick_input}
use rm32_private.Crsf.{
  Outcome, waiting, finished, panics, channels, other_frame, bad_crc, incomplete, feed,
}
use rm32_private.Drivers.Capture.{CaptureCall, GenericCapture, receive_dshot_dma}
use rm32_private.Transfer.{
  TransferAction, dshot, servo_input, no_action, servo_calibrating, input_detected, dshot_throttle,
  dshot_command, servo_throttle, process,
}
use rm32_private.Firmware.{
  IsrState, Interrupt, handle_tim6, handle_tim14, handle_comp, handle_dma_tc, handle_exti_frame,
  handle_crsf_byte, after_feed, take_channels, act_on, run_command, pass_edt, set_frametime,
  frame_inputs, answer,
}
use rm32_private.Firmware.Quiet.{
  handle_tim6-telemetry, handle_tim14-telemetry, handle_comp-telemetry,
}
use rm32_private.Firmware.Input.{handle_exti_frame-telemetry}
use rm32_private.Firmware.Loop.{tick-telemetry}
use rm32_private.Firmware.System.{
  System, Part, Step, edges, tim6, tim14, comp, dma_tc, exti_frame, crsf_byte, main_loop, Run, here,
  then_step, as_world, sine, input, iteration, arming, failing, priorities, saving, informing,
  sleeping,
}
use rm32_private.Firmware.Boot.{Board, Chip, Machine, tim1_autoreload, set_compare}
use rm32_private.Firmware.Body.{
  step_sine, after_sine, signal_arming, signal_error, prioritize, save, send_info, if_present,
}
use rm32_private.Config.{motor_poles, sine_mode_power, stuck_rotor_protection}
use rm32_private.MotorMode.{exit_sine}
use rm32_private.Sine.{SineStepResult, continue, changeover, idle, sine_step}
use rm32_private.Shared.Untouched.{transition-telemetry}
use rm32_private.Base.Int.{pos}

-- What of a capture decides its wire: its direction, the answer it holds, and the calls to the DMA
-- channel and the timer. The captured edges are left out.
abbrev pub line_of : GenericCapture → Bool × List ℕ × List CaptureCall
line_of c = (c.out_put, c.gcr_buf, c.calls)

-- The flag and that.
abbrev pub wire : Interrupt → Bool × (Bool × List ℕ × List CaptureCall)
wire m = ((m.shared).dshot_telemetry, line_of (m.state).input)

act_on-input : (a : TransferAction) (m : Interrupt) → ((act_on a m).state).input ≡ (m.state).input
unfolding act_on run_command pass_edt
act_on-input no_action m = refl
act_on-input (input_detected dshot) m = refl
act_on-input (input_detected servo_input) m = refl
act_on-input (dshot_throttle value telemetry) m = refl
act_on-input (dshot_command cmd telemetry) m = refl
act_on-input (servo_throttle value) m = refl
act_on-input servo_calibrating m = refl

set_frametime-input : (o : Option (ℕ × ℕ)) (st : IsrState) → (set_frametime o st).input ≡ st.input
set_frametime-input none st = refl
set_frametime-input (some (low, high)) st = refl

handle_exti_frame-input :
    (pin_high : Bool) (m : Interrupt)
    → ((handle_exti_frame pin_high m).state).input ≡ (m.state).input
unfolding handle_exti_frame
handle_exti_frame-input pin_high m =
    let t =
      process (frame_inputs pin_high m) ((m.state).input).dma_buf (m.shared).zero_input_count
        (m.state).transfer in
    let stored = record m {
      state = record (m.state) { transfer = t.0.state };
      shared = record (m.shared) { zero_input_count = t.0.zero_input_count };
    } in
    set_frametime-input t.1 (act_on t.0.action stored).state ∙ act_on-input t.0.action stored

take_channels-wire : (o : Outcome) (m : Interrupt) → wire (take_channels o m) ≡ wire m
unfolding take_channels
take_channels-wire (finished (channels values)) m = refl
take_channels-wire (finished (other_frame n)) m = refl
take_channels-wire (finished bad_crc) m = refl
take_channels-wire (finished incomplete) m = refl
take_channels-wire waiting m = refl
take_channels-wire panics m = refl

fed : List ℕ → Outcome → Interrupt → Interrupt
fed buf o m = take_channels o (record m { state = record (m.state) { crsf = buf } })

fed-wire :
    (buf : List ℕ) (o : Outcome) (m n : Interrupt) → some (fed buf o m) ≡ some n → wire n ≡ wire m
unfolding fed
fed-wire buf o m n e =
    let same : n ≡ fed buf o m = cc in
    ap wire same ∙ take_channels-wire o (record m { state = record (m.state) { crsf = buf } })

after_feed-wire :
    (buf : List ℕ) (o : Outcome) (m n : Interrupt)
    → after_feed (buf, o) m ≡ some n
    → wire n ≡ wire m
unfolding after_feed fed
after_feed-wire buf panics m n e = cc
after_feed-wire buf waiting m n e = fed-wire buf waiting m n e
after_feed-wire buf (finished r) m n e = fed-wire buf (finished r) m n e

no_conjunction : (a b : Bool) → b ≡ false → (a && b) ≡ false
no_conjunction true b h = h
no_conjunction false b h = refl

skipped : (b : Bool) (x m : Interrupt) → b ≡ false → (if b then x else m) ≡ m
skipped b x m h = rw h refl

handle_dma_tc-skips :
    (gcr_shift : ℕ) (m : Interrupt)
    → (m.shared).dshot_telemetry ≡ false
    → handle_dma_tc gcr_shift m ≡ m
unfolding handle_dma_tc
handle_dma_tc-skips gcr_shift m h =
    skipped (is_armed m.shared && (m.shared).dshot_telemetry)
      (record m {
        state =
            if ((m.state).input).out_put
            then record (m.state) { input = receive_dshot_dma ((m.state).input) }
            else answer gcr_shift m.shared m.state;
      })
      m (no_conjunction (is_armed m.shared) (m.shared).dshot_telemetry h)

module _ {U : Type 0} (fixed : FixedPoint U) (board : Board) (chip : Chip) where
  after_sine-telemetry :
      (r : SineStepResult) (m : Machine U)
      → ((after_sine r m).shared).dshot_telemetry ≡ (m.shared).dshot_telemetry
  unfolding after_sine
  after_sine-telemetry (continue d) m = refl
  after_sine-telemetry (changeover i n) m = transition-telemetry exit_sine m.shared
  after_sine-telemetry idle m = refl

  kept :
      (b : Bool) (n m : Machine U)
      → (n.shared).dshot_telemetry ≡ (m.shared).dshot_telemetry
      → ((if b then n else m).shared).dshot_telemetry ≡ (m.shared).dshot_telemetry
  kept true n m h = h
  kept false n m h = refl

  step_sine-telemetry :
      (m : Machine U)
      → ((step_sine board chip m).shared).dshot_telemetry ≡ (m.shared).dshot_telemetry
  unfolding step_sine
  step_sine-telemetry m =
      let (positions, result, (ch1, ch2, ch3)) =
        sine_step (m.shared).newinput (is_armed m.shared) true (motor_poles (m.main).config) 5
          (pos board.dead_time) (tim1_autoreload chip) (sine_mode_power (m.main).config)
          m.positions in
      let compares = if_present (m.globals).isr_state (set_compare ch1 ch2 ch3 ∷ []) in
      let n : Machine U = record m { positions = positions; sent = m.sent ++ compares } in
      kept (is_stepper_sine m.shared) (after_sine result n) m (after_sine-telemetry result n)

  Part-telemetry :
      {m n : Machine U}
      → Part fixed board chip m n
      → (n.shared).dshot_telemetry ≡ (m.shared).dshot_telemetry
  unfolding tick_input signal_arming signal_error prioritize save send_info
  Part-telemetry (sine m) = step_sine-telemetry m
  Part-telemetry (input m) =
      tick_input-telemetry ((m.main).config)
        (record { shared = m.shared; protection = (m.main).protection; state = m.input_state })
  Part-telemetry (iteration m adc) = tick-telemetry fixed adc (as_world m)
  Part-telemetry (arming m) = kept (m.main).just_armed _ m refl
  Part-telemetry (failing m) =
      kept
        (board.has_led
          && ltb ((m.main).protection).bemf_timeout ((m.main).protection).bemf_timeout_happened
          && (stuck_rotor_protection (m.main).config != 0))
        _ m refl
  Part-telemetry (priorities m) = refl
  Part-telemetry (saving m) = kept (m.shared).save_settings_flag _ m refl
  Part-telemetry (informing m) = kept (m.shared).send_esc_info_flag _ m refl
  Part-telemetry (sleeping m) = refl

module _ {U : Type 0} (fixed : FixedPoint U) (board : Board) (chip : Chip)
    (push : List ℕ → ℕ → Option (List ℕ)) (gcr_shift : ℕ) where
  Step-wire :
      {s t : System U}
      → Step fixed board chip push gcr_shift s t
      → ((s.interrupt).shared).dshot_telemetry ≡ false
      → wire t.interrupt ≡ wire s.interrupt
  unfolding handle_tim6 handle_tim14 handle_comp handle_crsf_byte
  Step-wire (edges s times) h = refl
  Step-wire (tim6 s reads) h =
      ap (λ b. (b, line_of ((s.interrupt).state).input)) (handle_tim6-telemetry reads s.interrupt)
  Step-wire (tim14 s) h =
      ap (λ b. (b, line_of ((s.interrupt).state).input)) (handle_tim14-telemetry s.interrupt)
  Step-wire (comp s levels count) h =
      ap (λ b. (b, line_of ((s.interrupt).state).input))
        (handle_comp-telemetry levels count s.interrupt)
  Step-wire (dma_tc s) h = ap wire (handle_dma_tc-skips gcr_shift s.interrupt h)
  Step-wire (exti_frame s pin_high) h =
      ap₂ (λ b i. (b, line_of i)) (handle_exti_frame-telemetry pin_high s.interrupt)
        (handle_exti_frame-input pin_high s.interrupt)
  Step-wire (crsf_byte s byte m e) h =
      after_feed-wire ((feed push ((s.interrupt).state).crsf byte).0)
        ((feed push ((s.interrupt).state).crsf byte).1) s.interrupt m e
  Step-wire (main_loop s m p) h =
      ap (λ b. (b, line_of ((s.interrupt).state).input)) (Part-telemetry fixed board chip p)

  -- The firmware never answers on the signal wire: from a state with the flag of bidirectional telemetry
  -- off, as it is at the start, no run of interrupts and of parts of the main loop, in whatever order,
  -- with whatever edges captured and bytes received that do not make a handler panic, puts it on. Nor
  -- does one turn the wire round, change the answer that is held, or call the DMA channel or the timer.
  pub Run-silent :
      {s t : System U}
      → ((s.interrupt).shared).dshot_telemetry ≡ false
      → Run fixed board chip push gcr_shift s t
      → (((t.interrupt).shared).dshot_telemetry ≡ false)
        × ((((t.interrupt).state).input).out_put ≡ (((s.interrupt).state).input).out_put)
        × ((((t.interrupt).state).input).gcr_buf ≡ (((s.interrupt).state).input).gcr_buf)
        × ((((t.interrupt).state).input).calls ≡ (((s.interrupt).state).input).calls)
  Run-silent h here = (h, refl, refl, refl)
  Run-silent h (then_step r st) =
      let before = Run-silent h r in
      let same = Step-wire st before.0 in
      (
        ap (λ p. p.0) same ∙ before.0,
        ap (λ p. p.1.0) same ∙ before.1,
        ap (λ p. p.1.1) same ∙ before.2,
        ap (λ p. p.1.2) same ∙ before.3,
      )
