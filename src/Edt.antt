-- ===== src/Edt.antt =====
-- The scheduler of extended telemetry (rm32/src/edt.rs).
pub mod Frames
mod Examples
use rm32_private.Base.{ℕ, ◌+◌, ◌*◌, ◌/◌, ◌%◌, Bool, true, false, ◌==◌, if◌then◌else◌, bit_or, min}
use rm32_private.Base.Int.{ℤ, pos, max_ℤ, ◌/ℤ◌}
use rm32_private.Base.Word.{u8, u16, u8_of}

pub record EdtScheduler : Type 0 where
  pub counter : ℕ
  pub last_sent_extended : Bool
  pub active : Bool
  pub send_init : Bool
  pub send_deinit : Bool

abbrev pub new : EdtScheduler
new = record {
  counter = 0;
  last_sent_extended = false;
  active = false;
  send_init = false;
  send_deinit = false;
}

unfoldable pub request_init : EdtScheduler → EdtScheduler
request_init s = record s { send_init = true }

unfoldable pub request_deinit : EdtScheduler → EdtScheduler
request_deinit s = record s { send_deinit = true }

pub data EdtFrame : Type 0 where
  erpm : EdtFrame
  extended : ℕ → EdtFrame

-- A data frame: the type in the upper four bits, the payload in the lower eight.
current_frame : ℤ → ℕ
current_frame current_ma = bit_or (6 * 256) (u8_of (max_ℤ current_ma (pos 0) /ℤ pos 50))

voltage_frame : ℕ → ℕ
voltage_frame voltage_mv = bit_or (4 * 256) (min (voltage_mv / 25) 255)

temperature_frame : ℤ → ℕ
temperature_frame temperature = bit_or (2 * 256) (u8_of temperature)

-- The data that is due at the counter, if any.
due : ℤ → ℕ → ℤ → ℕ → EdtFrame
unfolding current_frame voltage_frame temperature_frame
due current_ma voltage_mv temperature counter =
    if counter % 40 == 0
    then extended (current_frame current_ma)
    else if counter % 200 == 100
    then extended (voltage_frame voltage_mv)
    else if counter % 200 == 150
    then extended (temperature_frame temperature)
    else erpm

is_extended : EdtFrame → Bool
is_extended erpm = false
is_extended (extended _) = true

unfoldable pub next_frame : ℤ → ℕ → ℤ → EdtScheduler → EdtScheduler × EdtFrame
unfolding due is_extended
next_frame current_ma voltage_mv temperature s =
    if s.send_init
    then (record s { send_init = false; active = true }, extended 3584)
    else if s.send_deinit
    then (record s { send_deinit = false; active = false }, extended 3839)
    else if s.active
    then (let s' = record s { counter = u16 (s.counter + 1) } in
        if s'.last_sent_extended
        then (record s' { last_sent_extended = false }, erpm)
        else (let frame = due current_ma voltage_mv temperature s'.counter in
            (record s' { last_sent_extended = is_extended frame }, frame)))
    else (s, erpm)
