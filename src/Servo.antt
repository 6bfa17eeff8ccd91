-- ===== src/Servo.antt =====
-- Servo pulses (rm32/src/servo.rs).
pub mod Rate
mod Examples
use rm32_private.Base.{
  ℕ, ◌+◌, ◌*◌, ◌/◌, Bool, true, false, not, ◌||◌, ◌==◌, ltb, leb, if◌then◌else◌,
}
use rm32_private.Base.Int.{ℤ, pos, ◌+ℤ◌, ◌-ℤ◌, ltb_ℤ, leb_ℤ}
use rm32_private.Base.Word.{u8, u16, u32, sub_u16, i32, u16_of}
use rm32_private.Functions.{map, get_abs_dif}

pub record ServoState : Type 0 where
  pub low_threshold : ℕ
  pub high_threshold : ℕ
  pub neutral : ℕ
  pub dead_band : ℕ
  pub max_deviation : ℕ
  pub raw_input : ℤ
  pub calibration_required : Bool
  pub high_calibration_set : Bool
  pub high_calibration_counts : ℕ
  pub low_calibration_counts : ℕ
  pub last_high_threshold : ℕ

abbrev pub default : ServoState
default = record {
  low_threshold = 1100;
  high_threshold = 1900;
  neutral = 1500;
  dead_band = 100;
  max_deviation = 250;
  raw_input = pos 0;
  calibration_required = false;
  high_calibration_set = false;
  high_calibration_counts = 0;
  low_calibration_counts = 0;
  last_high_threshold = 0;
}

unfoldable pub set_calibration : ℕ → ℕ → ℕ → ℕ → ServoState → ServoState
set_calibration low high neutral dead_band s = record s {
  low_threshold = low;
  high_threshold = high;
  neutral = neutral;
  dead_band = dead_band;
}

pub data ServoResult : Type 0 where
  throttle : ℕ → ServoResult
  out_of_range calibrating calibration_high_done : ServoResult
  calibration_done : ℕ → ℕ → ServoResult

unfoldable pub rate_limit : ℕ → ServoState → ℕ
rate_limit current s =
    let cur = pos current in
    let max_dev = pos s.max_deviation in
    if ltb_ℤ max_dev (i32 (s.raw_input -ℤ cur))
    then u16_of (i32 (cur +ℤ max_dev))
    else if ltb_ℤ max_dev (i32 (cur -ℤ s.raw_input))
    then u16_of (i32 (cur -ℤ max_dev))
    else u16_of s.raw_input

-- `((7 * threshold + pulse_width) >> 3) as u16`.
abbrev smoothed : ℕ → ℕ → ℕ
smoothed threshold pulse_width = u16 (u32 (7 * threshold + pulse_width) / 8)

-- The high end: pulses near the threshold are averaged, a pulse far from it ends the calibration.
calibrate_high : ℕ → ServoState → ServoState × ServoResult
calibrate_high pulse_width s =
    let s1 =
      if s.high_calibration_counts == 0
      then record s { last_high_threshold = pulse_width }
      else s in
    let s2 = record s1 { high_calibration_counts = u8 (s1.high_calibration_counts + 1) } in
    if ltb 50 (get_abs_dif (pos s2.last_high_threshold) (pos s2.high_threshold))
    then (record s2 { calibration_required = false }, calibrating)
    else (let high = smoothed s2.high_threshold pulse_width in
        if ltb 50 s2.high_calibration_counts
        then (let lowered = sub_u16 high 25 in
            (
              record s2 {
                high_threshold = lowered;
                high_calibration_set = true;
                last_high_threshold = lowered;
              },
              calibration_high_done,
            ))
        else (record s2 { high_threshold = high; last_high_threshold = high }, calibrating))

calibrate_low : ℕ → ServoState → ServoState × ServoResult
calibrate_low pulse_width s =
    let s1 =
      if ltb pulse_width 1250
      then record s {
        low_calibration_counts = u8 (s.low_calibration_counts + 1);
        low_threshold = smoothed s.low_threshold pulse_width;
      }
      else s in
    if ltb 75 s1.low_calibration_counts
    then (let low = u16 (s1.low_threshold + 25) in
        (
          record s1 {
            low_threshold = low;
            calibration_required = false;
            low_calibration_counts = 0;
          },
          calibration_done (u8 (sub_u16 low 750 / 2)) (u8 (sub_u16 s1.high_threshold 1750 / 2)),
        ))
    else (s1, calibrating)

unfoldable pub process_calibration : ℕ → ServoState → ServoState × ServoResult
unfolding calibrate_high calibrate_low
process_calibration pulse_width s =
    if not s.high_calibration_set then calibrate_high pulse_width s else calibrate_low pulse_width s

-- The throttle that a pulse stands for.
unfoldable pub mapped : ℕ → Bool → ServoState → ℤ
mapped pulse_width bidirectional s =
    if bidirectional
    then (if leb pulse_width s.neutral
        then map (pos pulse_width) (pos s.low_threshold) (pos s.neutral) (pos 0) (pos 1000)
        else map (pos pulse_width) (pos (s.neutral + 1)) (pos s.high_threshold) (pos 1001)
            (pos 2000))
    else (let raw =
          map (pos pulse_width) (pos s.low_threshold) (pos s.high_threshold) (pos 47) (pos 2047) in
        if leb_ℤ raw (pos 48) then pos 0 else raw)

unfoldable pub compute : ℕ → ℕ → Bool → ServoState → ServoState × ServoResult
unfolding rate_limit mapped process_calibration
compute pulse_width current_newinput bidirectional s =
    if leb pulse_width 800 || leb 2200 pulse_width
    then (s, out_of_range)
    else if s.calibration_required
    then process_calibration pulse_width s
    else let s' = record s { raw_input = mapped pulse_width bidirectional s } in
      (s', throttle (rate_limit current_newinput s'))
