-- ===== src/Transfer.antt =====
-- The end of a capture: protocol detection (rm32/src/signal.rs) and the dispatch of the captured edge
-- times (rm32/src/transfer.rs). It uses Dshot and Servo.
pub mod Detection
pub mod Calibration
mod Examples
use rm32_private.Base.{
  ℕ, ◌+◌, ◌-◌, ◌*◌, ◌/◌, Bool, true, false, not, ◌&&◌, ◌==◌, ltb, leb, if◌then◌else◌, List, [], ◌∷◌,
  length, get_or, take, drop, Option, none, some,
}
use rm32_private.Base.Int.{ℤ, pos, leb_ℤ}
use rm32_private.Base.Word.{u8, u16, u32, sub_u32, u16_of}
use rm32_private.Functions.{map, get_abs_dif}
use rm32_private.Dshot.{DshotFrame, throttle_frame, command_frame, decode_frame}
use rm32_private.Servo.{
  ServoState, ServoResult, throttle, out_of_range, calibrating, calibration_high_done,
  calibration_done, compute,
}
use rm32_private.Servo

pub data SignalType : Type 0 where
  no_signal dshot600 dshot300 servo_pwm : SignalType

-- The shortest distance between two samples and the sum of all of them.
unfoldable pub scan : ℕ → ℕ → ℕ → List ℕ → ℕ × ℕ
scan smallest total last [] = (smallest, total)
scan smallest total last (sample ∷ samples) =
    let diff = sub_u32 sample last in
    scan (if ltb 0 diff && ltb (u16 diff) smallest then u16 diff else smallest)
      (if ltb 0 diff then u32 (total + diff) else total) sample samples

unfoldable pub classify : ℕ → ℕ → SignalType
classify smallest average =
    if leb 1 smallest && ltb smallest 4 && ltb average 60
    then dshot600
    else if leb 4 smallest && leb smallest 8 && ltb average 100
    then dshot300
    else if ltb 200 smallest && ltb smallest 20000
    then servo_pwm
    else no_signal

-- The capture has at least 31 samples; the source panics on a shorter one.
unfoldable pub detect_input : List ℕ → SignalType
detect_input dma =
    let (smallest, total) = scan 20000 0 (get_or dma 0 0) (take 30 (drop 1 dma)) in
    classify smallest (total / 32)

unfoldable pub compute_multishot : List ℕ → Option ℕ
compute_multishot dma =
    if ltb (length dma) 2
    then none
    else let pulse = sub_u32 (get_or dma 1 0) (get_or dma 0 0) in
      if ltb 0 pulse && ltb pulse 1500
      then some (u16_of (map (pos pulse) (pos 243) (pos 1200) (pos 0) (pos 2000)))
      else none

unfoldable pub compute_servo_unidirectional : ℕ → ℕ → ℕ → ℕ
compute_servo_unidirectional pulse_width low_threshold high_threshold =
    let raw = map (pos pulse_width) (pos low_threshold) (pos high_threshold) (pos 47) (pos 2047) in
    if leb_ℤ raw (pos 48) then 0 else u16_of raw

pub record TransferState : Type 0 where
  pub servo : ServoState
  pub average_count : ℕ
  pub average_packet_length : ℕ
  pub enter_calibration_count : ℕ
  pub last_input : ℕ

abbrev pub new : TransferState
new = record {
  servo = Servo.default;
  average_count = 0;
  average_packet_length = 0;
  enter_calibration_count = 0;
  last_input = 0;
}

pub data DetectedProtocol : Type 0 where
  dshot servo_input : DetectedProtocol

pub data TransferAction : Type 0 where
  no_action servo_calibrating : TransferAction
  input_detected : DetectedProtocol → TransferAction
  dshot_throttle dshot_command : ℕ → Bool → TransferAction
  servo_throttle : ℕ → TransferAction

-- The state, the count of zero inputs and the action, which the parts pass on.
pub record Transfer : Type 0 where
  pub state : TransferState
  pub zero_input_count : ℕ
  pub action : TransferAction

-- What the caller passes in, the capture apart.
pub record Inputs : Type 0 where
  pub input_set : Bool
  pub dshot_mode : Bool
  pub servo_mode : Bool
  pub dshot_telemetry : Bool
  pub armed : Bool
  pub input_pin_high : Bool
  pub adjusted_input : ℕ
  pub current_newinput : ℕ
  pub bidirectional : Bool
  pub disable_stick_cal : Bool
  pub frametime_low : ℕ
  pub frametime_high : ℕ

unfoldable pub detected : SignalType → TransferAction
detected dshot600 = input_detected dshot
detected dshot300 = input_detected dshot
detected servo_pwm = input_detected servo_input
detected no_signal = no_action

unfoldable pub frame_action : DshotFrame → TransferAction
frame_action (throttle_frame value telemetry) = dshot_throttle value telemetry
frame_action (command_frame cmd telemetry) = dshot_command cmd telemetry
frame_action _ = no_action

unfoldable pub servo_action : ServoResult → TransferAction
servo_action (throttle v) = servo_throttle v
servo_action out_of_range = no_action
servo_action calibrating = servo_calibrating
servo_action calibration_high_done = servo_calibrating
servo_action (calibration_done low high) = servo_calibrating

unfoldable pub servo_zero_count : ServoResult → ℕ → ℕ
servo_zero_count out_of_range count = 0
servo_zero_count _ count = count

-- The frame or the pulse of the capture.
unfoldable pub dispatch : Inputs → List ℕ → Transfer → Transfer
unfolding frame_action servo_action servo_zero_count
dispatch i dma t =
    if i.dshot_mode && leb 32 (length dma)
    then record t {
      action =
          frame_action
            (decode_frame (take 32 dma) i.frametime_low i.frametime_high i.dshot_telemetry);
    }
    else if i.servo_mode && not i.input_pin_high && leb 2 (length dma)
    then (let pulse = u16 (sub_u32 (get_or dma 1 0) (get_or dma 0 0)) in
        let (servo, result) = compute pulse i.current_newinput i.bidirectional (t.state).servo in
        record {
          state = record (t.state) { servo = servo };
          zero_input_count = servo_zero_count result t.zero_input_count;
          action = servo_action result;
        })
    else t

-- The average length of eight frames gives the bounds of the frame time.
unfoldable pub average_frames : Inputs → List ℕ → Transfer → Transfer × Option (ℕ × ℕ)
average_frames i dma t =
    let s = t.state in
    if i.dshot_mode && ltb s.average_count 8 && ltb 5 t.zero_input_count
    then (let count = u8 (s.average_count + 1) in
        let total =
          if leb 32 (length dma)
          then u32 (s.average_packet_length + u16 (sub_u32 (get_or dma 31 0) (get_or dma 0 0)))
          else s.average_packet_length in
        let avg = total / 8 in
        (
          record t { state = record s { average_count = count; average_packet_length = total } },
          if count == 8
              then some (u16 (avg - total / 128), u16 (u32 (avg + total / 128)))
              else none,
        ))
    else (t, none)

-- A steady high throttle asks for the calibration of the stick.
unfoldable pub enter_calibration : ℕ → TransferState → TransferState
enter_calibration adjusted_input s =
    let count =
      if ltb 50 (get_abs_dif (pos adjusted_input) (pos s.last_input))
      then 0
      else u8 (s.enter_calibration_count + 1) in
    let enters = ltb 50 count && not (s.servo).high_calibration_set in
    record s {
      servo = if enters then record (s.servo) { calibration_required = true } else s.servo;
      enter_calibration_count = if enters then 0 else count;
      last_input = adjusted_input;
    }

unfoldable pub watch_stick : Inputs → Transfer → Transfer
unfolding enter_calibration
watch_stick i t =
    if (i.adjusted_input == 0) && not ((t.state).servo).calibration_required
    then record t { zero_input_count = u16 (t.zero_input_count + 1) }
    else if not i.disable_stick_cal
    then record t {
      zero_input_count = 0;
      state =
          if ltb 1500 i.adjusted_input then enter_calibration i.adjusted_input t.state else t.state;
    }
    else t

-- The whole call. The bounds of the frame time come with the action.
unfoldable pub process : Inputs → List ℕ → ℕ → TransferState → Transfer × Option (ℕ × ℕ)
unfolding detected dispatch average_frames watch_stick
process i dma zero_input_count s =
    let t : Transfer = record {
      state = s;
      zero_input_count = zero_input_count;
      action = no_action;
    } in
    if not i.input_set
    then (record t { action = detected (detect_input dma) }, none)
    else let d = dispatch i dma t in
      if not i.armed
      then (let (a, frametime) = average_frames i dma d in (watch_stick i a, frametime))
      else (d, none)
