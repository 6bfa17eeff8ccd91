-- ===== src/Firmware.antt =====
-- The interrupt handlers of the firmware (rm32_stm32/src/isr_handlers.rs) over their state
-- (rm32_stm32/src/isr.rs): each puts the state, the shared cells and a component together.
pub mod Quiet
pub mod Input
pub mod Gated
pub mod Answer
pub mod Loop
pub mod System
pub mod Silence
pub mod Globals
pub mod Boot
pub mod Body
pub mod Lost
pub mod Still
pub mod Settings
mod Examples
use rm32_private.Base.{
  ℕ, Bool, true, false, ◌&&◌, ◌||◌, ◌==◌, ◌!=◌, List, [], ◌∷◌, ◌++◌, get_or, Option, none, some,
  if◌then◌else◌,
}
use rm32_private.Base.Int.{ℤ}
use rm32_private.Base.Word.{u16_of}
use rm32_private.MotorMode.{MotorEvent}
use rm32_private.Shared.{
  SharedState, is_armed, is_running, e_com_time, actual_current, degrees_celsius,
}
use rm32_private.Commutation
use rm32_private.Commutation.{Commutation}
use rm32_private.Bemf
use rm32_private.Bemf.{BemfState}
use rm32_private.Duty
use rm32_private.Duty.{DutyState}
use rm32_private.Config.{EepromConfig, bi_direction, disable_stick_calibration}
use rm32_private.Dshot.{encode_gcr_frame, erpm_to_12bit}
use rm32_private.DshotCommands
use rm32_private.DshotCommands.{
  CommandProcessor, CommandResult, no_result, play_tone, send_esc_info, save_settings,
  programming_commit, take_edt_init, take_edt_deinit,
}
use rm32_private.Edt
use rm32_private.Edt.{
  EdtScheduler, EdtFrame, erpm, extended, next_frame, request_init, request_deinit,
}
use rm32_private.Crsf.{Outcome, waiting, finished, panics, channels, feed, channel_to_throttle}
use rm32_private.Transfer
use rm32_private.Transfer.{
  TransferState, TransferAction, DetectedProtocol, dshot, servo_input, no_action, servo_calibrating,
  input_detected, dshot_throttle, dshot_command, servo_throttle,
}
use rm32_private.Isr
use rm32_private.Isr.{Command, Reads, Context}
use rm32_private.Drivers.Capture.{GenericCapture, receive_dshot_dma, send_dshot_dma}

-- The state of the interrupts. Of the hardware it holds the capture; what the other devices are sent
-- is a list beside it.
pub record IsrState : Type 0 where
  pub commutation : Commutation
  pub bemf : BemfState
  pub duty : DutyState
  pub input : GenericCapture
  pub cmd : CommandProcessor
  pub edt : EdtScheduler
  pub crsf : List ℕ
  pub transfer : TransferState
  pub config : EepromConfig
  pub forward : Bool
  pub edt_armed : Bool
  pub armed_timeout_count : ℕ
  pub frametime_low : ℕ
  pub frametime_high : ℕ
  pub voltage_based_ramp : Bool

-- An interrupt's view: its state, the shared cells, and the commands sent so far.
pub record Interrupt : Type 0 where
  pub state : IsrState
  pub shared : SharedState
  pub sent : List Command

abbrev pub context : Interrupt → Context
context m = record {
  commutation = (m.state).commutation;
  bemf = (m.state).bemf;
  duty = (m.state).duty;
  armed_timeout_count = (m.state).armed_timeout_count;
  shared = m.shared;
  sent = m.sent;
}

abbrev pub returned : Context → Interrupt → Interrupt
returned c m = record {
  state = record (m.state) {
    commutation = c.commutation;
    bemf = c.bemf;
    duty = c.duty;
    armed_timeout_count = c.armed_timeout_count;
  };
  shared = c.shared;
  sent = c.sent;
}

unfoldable pub handle_tim6 : Reads → Interrupt → Interrupt
handle_tim6 reads m =
    returned (Isr.ten_khz_tick ((m.state).config) ((m.state).voltage_based_ramp) reads (context m))
      m

unfoldable pub handle_tim14 : Interrupt → Interrupt
handle_tim14 m = returned (Isr.commutation_timer_expired (context m)) m

unfoldable pub handle_comp : (ℕ → Bool) → ℕ → Interrupt → Interrupt
handle_comp levels count m = returned (Isr.bemf_zero_cross levels count (context m)) m

-- The twelve bits of the answer.
unfoldable pub answer_value : EdtFrame → SharedState → ℕ
answer_value (extended v) s = v
answer_value erpm s = erpm_to_12bit (u16_of (e_com_time s)) (is_running s)

-- `gcr_shift` is `Chip::GCR_SHIFT`.
unfoldable pub answer : ℕ → SharedState → IsrState → IsrState
unfolding answer_value send_dshot_dma
answer gcr_shift s st =
    let (edt, frame) = next_frame (actual_current s) s.battery_voltage (degrees_celsius s) st.edt in
    let gcr = encode_gcr_frame (answer_value frame s) (st.input).gcr_buf 7 gcr_shift in
    record st { edt = edt; input = send_dshot_dma (record (st.input) { gcr_buf = gcr }) }

unfoldable pub handle_dma_tc : ℕ → Interrupt → Interrupt
unfolding answer receive_dshot_dma
handle_dma_tc gcr_shift m =
    if is_armed m.shared && (m.shared).dshot_telemetry
    then record m {
      state =
          if ((m.state).input).out_put
          then record (m.state) { input = receive_dshot_dma ((m.state).input) }
          else answer gcr_shift m.shared m.state;
    }
    else m

-- The flags that a command's result raises.
unfoldable pub raise : CommandResult → SharedState → SharedState
raise save_settings s = record s { save_settings_flag = true }
raise send_esc_info s = record s { send_esc_info_flag = true }
raise no_result s = s
raise (play_tone n) s = s
raise (programming_commit i v) s = s

abbrev pub request_telemetry : Bool → SharedState → SharedState
request_telemetry telemetry s = if telemetry then record s { send_telemetry = true } else s

-- The requests for a start or stop frame move from the command processor to the scheduler.
unfoldable pub pass_edt : IsrState → IsrState
pass_edt st =
    let (cmd1, init) = take_edt_init st.cmd in
    let (cmd2, deinit) = take_edt_deinit cmd1 in
    let edt1 = if init then request_init st.edt else st.edt in
    record st { cmd = cmd2; edt = if deinit then request_deinit edt1 else edt1 }

-- A command frame. The last argument of `process` is its own flag of extended telemetry.
unfoldable pub run_command : ℕ → Bool → Interrupt → Interrupt
unfolding raise pass_edt
run_command cmd telemetry m =
    let s1 = request_telemetry telemetry (record (m.shared) { newinput = 0 }) in
    let s2 = record s1 { signal_timeout = 0 } in
    let st = m.state in
    let (e, result) =
      DshotCommands.process cmd (is_armed s2) (is_running s2) (st.cmd).extended_telemetry (record {
        processor = st.cmd;
        config = st.config;
        forward = st.forward;
        edt_armed = st.edt_armed;
      }) in
    record m {
      state = pass_edt (record st {
        cmd = e.processor;
        config = e.config;
        forward = e.forward;
        edt_armed = e.edt_armed;
      });
      shared = record (raise result s2) { forward = e.forward };
    }

unfoldable pub act_on : TransferAction → Interrupt → Interrupt
unfolding run_command
act_on no_action m = m
act_on (input_detected dshot) m = record m {
  shared = record (m.shared) { input_set = true; dshot = true };
}
act_on (input_detected servo_input) m = record m {
  shared = record (m.shared) { input_set = true; servo_pwm = true };
}
act_on (dshot_throttle value telemetry) m =
    let s =
      if (m.state).edt_armed || (value == 0)
      then record (m.shared) { newinput = value }
      else m.shared in
    record m { shared = record (request_telemetry telemetry s) { signal_timeout = 0 } }
act_on (dshot_command cmd telemetry) m = run_command cmd telemetry m
act_on (servo_throttle value) m = record m {
  shared = record (m.shared) { newinput = value; signal_timeout = 0 };
}
act_on servo_calibrating m = record m { shared = record (m.shared) { signal_timeout = 0 } }

-- What the handler hands to the dispatcher.
abbrev pub frame_inputs : Bool → Interrupt → Transfer.Inputs
frame_inputs pin_high m = record {
  input_set = (m.shared).input_set;
  dshot_mode = (m.shared).dshot;
  servo_mode = (m.shared).servo_pwm;
  dshot_telemetry = (m.shared).dshot_telemetry;
  armed = is_armed m.shared;
  input_pin_high = pin_high;
  adjusted_input = (m.shared).adjusted_input;
  current_newinput = (m.shared).newinput;
  bidirectional = bi_direction (m.state).config != 0;
  disable_stick_cal = disable_stick_calibration (m.state).config != 0;
  frametime_low = (m.state).frametime_low;
  frametime_high = (m.state).frametime_high;
}

abbrev pub set_frametime : Option (ℕ × ℕ) → IsrState → IsrState
set_frametime none st = st
set_frametime (some (low, high)) st = record st { frametime_low = low; frametime_high = high }

unfoldable pub handle_exti_frame : Bool → Interrupt → Interrupt
unfolding act_on
handle_exti_frame pin_high m =
    let (t, frametime) =
      Transfer.process (frame_inputs pin_high m) ((m.state).input).dma_buf
        (m.shared).zero_input_count (m.state).transfer in
    let m' = act_on t.action (record m {
      state = record (m.state) { transfer = t.state };
      shared = record (m.shared) { zero_input_count = t.zero_input_count };
    }) in
    record m' { state = set_frametime frametime m'.state }

-- The throttle of a channels frame. `THROTTLE_CHANNEL` is 2.
unfoldable pub take_channels : Outcome → Interrupt → Interrupt
take_channels (finished (channels values)) m = record m {
  shared = record (m.shared) {
    newinput = channel_to_throttle (get_or values 2 0);
    signal_timeout = 0;
    input_set = true;
  };
}
take_channels _ m = m

-- A panic of the parser is one of the handler: `none`.
unfoldable pub after_feed : List ℕ × Outcome → Interrupt → Option Interrupt
unfolding take_channels
after_feed (buf, panics) m = none
after_feed (buf, outcome) m =
    some (take_channels outcome (record m { state = record (m.state) { crsf = buf } }))

module _ (push : List ℕ → ℕ → Option (List ℕ)) where
  unfoldable pub handle_crsf_byte : ℕ → Interrupt → Option Interrupt
  unfolding after_feed
  handle_crsf_byte byte m = after_feed (feed push (m.state).crsf byte) m
