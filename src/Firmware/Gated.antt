-- ===== src/Firmware/Gated.antt =====
-- The throttle that the frames of the input publish while `edt_armed` is off (`handle_exti_frame` of
-- rm32_stm32/src/isr_handlers.rs).
use rm32_private.Base.{
  ℕ, Bool, true, false, not, ◌≡◌, ◌⊎◌, inl, inr, refl, arith, ◌∙◌, ap, Bool-cases, ◌&&◌, ◌||◌, ltb,
  leb, List, length, take, Option, none, some,
}
use rm32_private.Dshot.{DshotFrame}
use rm32_private.DshotCommands.{
  Env, execute, after_count, fire, counted, CommandProcessor, CommandResult, no_result, play_tone,
  send_esc_info, save_settings, programming_commit,
}
use rm32_private.DshotCommands
use rm32_private.Dshot.{throttle_frame, command_frame, bad_crc, invalid_timing, decode_frame}
use rm32_private.Transfer.{
  SignalType, no_signal, dshot600, dshot300, servo_pwm, TransferState, Transfer, Inputs,
  TransferAction, dshot, servo_input, no_action, servo_calibrating, input_detected, dshot_throttle,
  dshot_command, servo_throttle, frame_action, dispatch, average_frames, watch_stick, detected,
  detect_input, process,
}
use rm32_private.Firmware.{
  Interrupt, IsrState, run_command, act_on, handle_exti_frame, frame_inputs, set_frametime,
  pass_edt,
}
use rm32_private.Firmware.Input.{run_command-keeps, dispatched, frametime_of, stored}

abbrev from_servo : TransferAction → Bool
from_servo (servo_throttle value) = true
from_servo _ = false

frame_action-servo : (f : DshotFrame) → from_servo (frame_action f) ≡ false
unfolding frame_action
frame_action-servo (throttle_frame v t) = refl
frame_action-servo (command_frame v t) = refl
frame_action-servo bad_crc = refl
frame_action-servo invalid_timing = refl

dispatch-servo :
    (i : Inputs) (dma : List ℕ) (t : Transfer)
    → i.servo_mode ≡ false
    → from_servo t.action ≡ false
    → from_servo (dispatch i dma t).action ≡ false
unfolding dispatch
dispatch-servo i dma t h k = elim (Bool-cases (i.dshot_mode && leb 32 (length dma))) [
  | inl frame ↦ rw frame (
      frame_action-servo
        (decode_frame (take 32 dma) i.frametime_low i.frametime_high i.dshot_telemetry))
  | inr other ↦ rw (other, h) k
]

average_frames-action :
    (i : Inputs) (dma : List ℕ) (t : Transfer) → ((average_frames i dma t).0).action ≡ t.action
unfolding average_frames
average_frames-action i dma t =
    elim (Bool-cases (i.dshot_mode && ltb (t.state).average_count 8 && ltb 5 t.zero_input_count)) [
      | inl h ↦ rw h refl
      | inr h ↦ rw h refl
    ]

watch_stick-action : (i : Inputs) (t : Transfer) → (watch_stick i t).action ≡ t.action
unfolding watch_stick
watch_stick-action i t = ground arith

detected-servo : (k : SignalType) → from_servo (detected k) ≡ false
unfolding detected
detected-servo no_signal = refl
detected-servo dshot600 = refl
detected-servo dshot300 = refl
detected-servo servo_pwm = refl

process-servo :
    (i : Inputs) (dma : List ℕ) (count : ℕ) (s : TransferState)
    → i.servo_mode ≡ false
    → from_servo ((process i dma count s).0).action ≡ false
unfolding process
process-servo i dma count s h =
    let t : Transfer = record { state = s; zero_input_count = count; action = no_action } in
    let d = dispatch i dma t in
    elim (Bool-cases i.input_set) [
      | inr unset ↦ rw unset (detected-servo (detect_input dma))
      | inl set ↦ rw set (elim (Bool-cases i.armed) [
        | inl armed ↦ rw armed (dispatch-servo i dma t h refl)
        | inr waiting ↦ rw waiting (
            ap from_servo
              (watch_stick-action i ((average_frames i dma d).0) ∙ average_frames-action i dma d)
            ∙ dispatch-servo i dma t h refl)
      ])
    ]

act_on-gated :
    (a : TransferAction) (m : Interrupt)
    → from_servo a ≡ false
    → (m.state).edt_armed ≡ false
    → (((act_on a m).shared).newinput ≡ (m.shared).newinput) ⊎ (((act_on a m).shared).newinput ≡ 0)
unfolding act_on
act_on-gated no_action m f h = inl refl
act_on-gated (input_detected dshot) m f h = inl refl
act_on-gated (input_detected servo_input) m f h = inl refl
act_on-gated (dshot_throttle value telemetry) m f h = ground arith
act_on-gated (dshot_command cmd telemetry) m f h = inr ((run_command-keeps cmd telemetry m).1)
act_on-gated (servo_throttle value) m f h = cc
act_on-gated servo_calibrating m f h = inl refl

execute-armed :
    (cmd : ℕ) (enable : Bool) (e : Env)
    → ((execute cmd enable e).0).edt_armed ≡ true
    → (enable ≡ true) ⊎ (e.edt_armed ≡ true)
unfolding execute
execute-armed cmd enable e h = ground arith

after_count-armed :
    (cmd : ℕ) (enable : Bool) (e : Env) (p : CommandProcessor)
    → ((after_count cmd enable e p).0).edt_armed ≡ true
    → (enable ≡ true) ⊎ (e.edt_armed ≡ true)
unfolding after_count fire
after_count-armed cmd enable e p h = elim (Bool-cases (ltb p.command_count 6)) [
  | inl few ↦ inr (rw few at h)
  | inr enough ↦
      execute-armed cmd enable (record e { processor = record p { command_count = 0 } })
        (rw enough at h)
]

process-armed :
    (cmd : ℕ) (armed running enable : Bool) (e : Env)
    → e.edt_armed ≡ false
    → ((DshotCommands.process cmd armed running enable e).0).edt_armed ≡ true
    → enable ≡ true
unfolding DshotCommands.process
process-armed cmd armed running enable e off h = elim (Bool-cases (not armed || running)) [
  | inl skipped ↦ cc (rw skipped at h)
  | inr run ↦ elim (after_count-armed cmd enable e (counted cmd e.processor) (rw run at h)) [
    | inl on ↦ on
    | inr on ↦ cc on
  ]
]

set_frametime-armed :
    (o : Option (ℕ × ℕ)) (st : IsrState) → (set_frametime o st).edt_armed ≡ st.edt_armed
set_frametime-armed none st = refl
set_frametime-armed (some (low, high)) st = refl

act_on-armed :
    (a : TransferAction) (m : Interrupt)
    → (m.state).edt_armed ≡ false
    → ((act_on a m).state).edt_armed ≡ true
    → ((m.state).cmd).extended_telemetry ≡ true
unfolding act_on run_command pass_edt
act_on-armed no_action m off h = cc
act_on-armed (input_detected dshot) m off h = cc
act_on-armed (input_detected servo_input) m off h = cc
act_on-armed (dshot_throttle value telemetry) m off h = cc
act_on-armed (dshot_command cmd telemetry) m off h =
    process-armed cmd _ _ ((m.state).cmd).extended_telemetry _ off h
act_on-armed (servo_throttle value) m off h = cc
act_on-armed servo_calibrating m off h = cc

-- A frame of a DShot receiver, while the flag `edt_armed` is off, leaves the throttle as it was or
-- clears it, whatever the frame is; and the flag stays off, or the extended telemetry was already on.
pub handle_exti_frame-gated :
    (pin_high : Bool) (m : Interrupt)
    → (m.shared).servo_pwm ≡ false
    → (m.state).edt_armed ≡ false
    → ((((handle_exti_frame pin_high m).shared).newinput ≡ (m.shared).newinput)
        ⊎ (((handle_exti_frame pin_high m).shared).newinput ≡ 0))
      × ((((handle_exti_frame pin_high m).state).edt_armed ≡ false)
          ⊎ (((m.state).cmd).extended_telemetry ≡ true))
unfolding handle_exti_frame
handle_exti_frame-gated pin_high m s h =
    let a = (dispatched pin_high m).action in
    (
      act_on-gated a (stored pin_high m)
          (process-servo (frame_inputs pin_high m) ((m.state).input).dma_buf
            (m.shared).zero_input_count (m.state).transfer s)
          h,
      elim (Bool-cases ((act_on a (stored pin_high m)).state).edt_armed) [
        | inl on ↦ inr (act_on-armed a (stored pin_high m) h on)
        | inr off ↦ inl (
            set_frametime-armed (frametime_of pin_high m) ((act_on a (stored pin_high m)).state)
            ∙ off)
      ],
    )
