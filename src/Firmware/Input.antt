-- ===== src/Firmware/Input.antt =====
-- What a frame of the input leaves alone of the shared cells (`handle_exti_frame` of
-- rm32_stm32/src/isr_handlers.rs), and the throttle after a command.
use rm32_private.Base.{ℕ, Bool, true, false, ◌≡◌, refl, arith, ◌∙◌, Option}
use rm32_private.Shared.{SharedState, is_armed, is_running}
use rm32_private.DshotCommands.{
  Env, execute, after_count, fire, counted, CommandProcessor, CommandResult, no_result, play_tone,
  send_esc_info, save_settings, programming_commit,
}
use rm32_private.DshotCommands
use rm32_private.Transfer.{
  Transfer, TransferAction, dshot, servo_input, no_action, servo_calibrating, input_detected,
  dshot_throttle, dshot_command, servo_throttle, process,
}
use rm32_private.Firmware.{
  Interrupt, raise, run_command, act_on, handle_exti_frame, frame_inputs, request_telemetry,
}

raise-keeps :
    (r : CommandResult) (s : SharedState)
    → ((raise r s).dshot_telemetry ≡ s.dshot_telemetry) × ((raise r s).newinput ≡ s.newinput)
unfolding raise
raise-keeps no_result s = (refl, refl)
raise-keeps (play_tone n) s = (refl, refl)
raise-keeps send_esc_info s = (refl, refl)
raise-keeps save_settings s = (refl, refl)
raise-keeps (programming_commit i v) s = (refl, refl)

request-keeps :
    (b : Bool) (s : SharedState)
    → ((request_telemetry b s).dshot_telemetry ≡ s.dshot_telemetry)
      × ((request_telemetry b s).newinput ≡ s.newinput)
request-keeps true s = (refl, refl)
request-keeps false s = (refl, refl)

pub run_command-keeps :
    (cmd : ℕ) (telemetry : Bool) (m : Interrupt)
    → (((run_command cmd telemetry m).shared).dshot_telemetry ≡ (m.shared).dshot_telemetry)
      × (((run_command cmd telemetry m).shared).newinput ≡ 0)
unfolding run_command
run_command-keeps cmd telemetry m =
    let st = m.state in
    let s0 = record (m.shared) { newinput = 0 } in
    let s2 = record (request_telemetry telemetry s0) { signal_timeout = 0 } in
    let env : Env = record {
      processor = st.cmd;
      config = st.config;
      forward = st.forward;
      edt_armed = st.edt_armed;
    } in
    let r =
      DshotCommands.process cmd (is_armed s2) (is_running s2) (st.cmd).extended_telemetry env in
    (
      (raise-keeps r.1 s2).0 ∙ (request-keeps telemetry s0).0,
      (raise-keeps r.1 s2).1 ∙ (request-keeps telemetry s0).1,
    )

act_on-telemetry :
    (a : TransferAction) (m : Interrupt)
    → ((act_on a m).shared).dshot_telemetry ≡ (m.shared).dshot_telemetry
unfolding act_on
act_on-telemetry no_action m = refl
act_on-telemetry (input_detected dshot) m = refl
act_on-telemetry (input_detected servo_input) m = refl
act_on-telemetry (dshot_throttle value telemetry) m = ground arith
act_on-telemetry (dshot_command cmd telemetry) m = (run_command-keeps cmd telemetry m).0
act_on-telemetry (servo_throttle value) m = refl
act_on-telemetry servo_calibrating m = refl

-- The interrupt with the outcome of the dispatch stored, which the action works on.
abbrev pub dispatched : Bool → Interrupt → Transfer
dispatched pin_high m =
    (process (frame_inputs pin_high m) ((m.state).input).dma_buf (m.shared).zero_input_count
      (m.state).transfer).0

abbrev pub frametime_of : Bool → Interrupt → Option (ℕ × ℕ)
frametime_of pin_high m =
    (process (frame_inputs pin_high m) ((m.state).input).dma_buf (m.shared).zero_input_count
      (m.state).transfer).1

abbrev pub stored : Bool → Interrupt → Interrupt
stored pin_high m = record m {
  state = record (m.state) { transfer = (dispatched pin_high m).state };
  shared = record (m.shared) { zero_input_count = (dispatched pin_high m).zero_input_count };
}

pub handle_exti_frame-telemetry :
    (pin_high : Bool) (m : Interrupt)
    → ((handle_exti_frame pin_high m).shared).dshot_telemetry ≡ (m.shared).dshot_telemetry
unfolding handle_exti_frame
handle_exti_frame-telemetry pin_high m =
    act_on-telemetry ((dispatched pin_high m).action) (stored pin_high m)
