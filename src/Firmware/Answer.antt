-- ===== src/Firmware/Answer.antt =====
-- The answer on the signal wire after a frame (`handle_dma_tc` of rm32_stm32/src/isr_handlers.rs): the
-- scheduler, the period's twelve bits, the code, and the direction of the capture together.
use rm32_private.Base.{
  ℕ, ◌+◌, ◌≤◌, ◌<◌, ◌/◌, ◌≡◌, refl, ap, Bool, if◌then◌else◌, true, false, ◌&&◌, some, ◌∷◌, [], ◌++◌,
  length, arith,
}
use rm32_private.Base.Int.{ℤ, pos, negsuc}
use rm32_private.Base.Word.{u16_of}
use rm32_private.Shared.{
  SharedState, is_armed, is_running, e_com_time, actual_current, degrees_celsius,
}
use rm32_private.Edt.{EdtFrame, erpm, extended, next_frame}
use rm32_private.Edt.Frames.{IsSmall, next_frame-IsSmall}
use rm32_private.Dshot.{erpm_to_12bit}
use rm32_private.Dshot.Erpm.{erpm_to_12bit-Represents}
use rm32_private.Dshot.Answer.{read_answer, read_answer-encode_gcr_frame}
use rm32_private.Drivers.Capture.{
  disable, reset, configure_output, set_mar, gcr_memory, set_par, set_ndtr, start_tx, start,
  receive_dshot_dma,
}
use rm32_private.Firmware.{Interrupt, IsrState, answer, answer_value, handle_dma_tc}

u16_of-lt : (z : ℤ) → u16_of z < 65536
unfolding u16_of
u16_of-lt (pos n) = omega arith
u16_of-lt (negsuc n) = omega arith

erpm-small : (t : ℕ) (running : Bool) → t < 65536 → erpm_to_12bit t running < 4096
erpm-small t true h = (erpm_to_12bit-Represents t h).0.0
erpm-small t false h =
    rw ((erpm_to_12bit-Represents t h).1) ((erpm_to_12bit-Represents 65535 (omega arith)).0.0)

answer_value-lt : (f : EdtFrame) (s : SharedState) → IsSmall f → answer_value f s < 4096
unfolding answer_value
answer_value-lt erpm s h = erpm-small (u16_of (e_com_time s)) (is_running s) (u16_of-lt _)
answer_value-lt (extended v) s h = h

-- The frame that is due.
abbrev pub frame_due : Interrupt → EdtFrame
frame_due m =
    (next_frame (actual_current m.shared) (m.shared).battery_voltage (degrees_celsius m.shared)
      (m.state).edt).1

if_false : (b : Bool) (x y : IsrState) → b ≡ false → (if b then x else y) ≡ y
if_false b x y h = rw h refl

if_true : (b : Bool) (x y : IsrState) → b ≡ true → (if b then x else y) ≡ x
if_true b x y h = rw h refl

conjunction : (a b : Bool) → a ≡ true → b ≡ true → (a && b) ≡ true
conjunction a b p q = rw (p, q) refl

-- The two branches of the handler.
chosen :
    (b c : Bool) (x y z : IsrState) (m : Interrupt)
    → b ≡ true
    → (if c then x else y) ≡ z
    → (if b then record m { state = if c then x else y } else m) ≡ record m { state = z }
chosen b c x y z m p q = rw (p, q) refl

sends :
    (gcr_shift : ℕ) (m : Interrupt)
    → (is_armed m.shared && (m.shared).dshot_telemetry) ≡ true
    → ((m.state).input).out_put ≡ false
    → handle_dma_tc gcr_shift m ≡ record m { state = answer gcr_shift m.shared m.state }
unfolding handle_dma_tc
sends gcr_shift m p q =
    let back = record (m.state) { input = receive_dshot_dma ((m.state).input) } in
    let sent = answer gcr_shift m.shared m.state in
    chosen (is_armed m.shared && (m.shared).dshot_telemetry) ((m.state).input).out_put back sent
      sent m p (if_false ((m.state).input).out_put back sent q)

receives :
    (gcr_shift : ℕ) (m : Interrupt)
    → (is_armed m.shared && (m.shared).dshot_telemetry) ≡ true
    → ((m.state).input).out_put ≡ true
    → handle_dma_tc gcr_shift m
      ≡ record m { state = record (m.state) { input = receive_dshot_dma ((m.state).input) } }
unfolding handle_dma_tc
receives gcr_shift m p q =
    let back = record (m.state) { input = receive_dshot_dma ((m.state).input) } in
    let sent = answer gcr_shift m.shared m.state in
    chosen (is_armed m.shared && (m.shared).dshot_telemetry) ((m.state).input).out_put back sent
      back m p (if_true ((m.state).input).out_put back sent q)

-- At the end of a frame, an armed motor with bidirectional telemetry turns the wire round: it points
-- the channel at a buffer from which a receiver reads the frame that is due (the motor's period, or the
-- extended data of its scheduler), and starts it. At the end of that answer it listens again.
-- (Nothing in the firmware puts bidirectional telemetry on.)
pub handle_dma_tc-answers :
    (gcr_shift : ℕ) (m : Interrupt)
    → is_armed m.shared ≡ true
    → (m.shared).dshot_telemetry ≡ true
    → ((m.state).input).out_put ≡ false
    → gcr_shift < 31
    → 29 ≤ length (((m.state).input).gcr_buf)
    → let m' = handle_dma_tc gcr_shift m in
      (read_answer 7 gcr_shift (((m'.state).input).gcr_buf)
        ≡ some (answer_value (frame_due m) m.shared))
      × (((m'.state).input).out_put ≡ true)
      × (((m'.state).input).calls
          ≡ ((m.state).input).calls
            ++ (disable
                ∷ reset
                ∷ configure_output 92
                ∷ set_mar gcr_memory
                ∷ set_par
                ∷ set_ndtr (23 + ((m.state).input).buffer_size / 4)
                ∷ start_tx
                ∷ start
                ∷ []))
      × ((((handle_dma_tc gcr_shift m').state).input).out_put ≡ false)
      × (m'.shared ≡ m.shared)
unfolding answer receive_dshot_dma
handle_dma_tc-answers gcr_shift m armed on listens h k =
    let small = answer_value-lt (frame_due m) m.shared (
      next_frame-IsSmall (actual_current m.shared) (m.shared).battery_voltage
        (degrees_celsius m.shared) (m.state).edt) in
    let both = conjunction _ _ armed on in
    let m' = record m { state = answer gcr_shift m.shared m.state } in
    rw (sends gcr_shift m both listens) (
      read_answer-encode_gcr_frame (answer_value (frame_due m) m.shared) 7 gcr_shift
          (((m.state).input).gcr_buf) small h k,
      refl,
      refl,
      ap (λ (t : Interrupt). ((t.state).input).out_put) (receives gcr_shift m' both refl),
      refl,
    )
