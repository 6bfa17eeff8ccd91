-- ===== src/InputMapping.antt =====
-- Throttle mapping for the bidirectional modes (rm32/src/input_mapping.rs).
pub mod Direction
pub mod Range
mod Examples
use rm32_private.Base.{
  ℕ, ◌+◌, ◌-◌, ◌*◌, ◌/◌, Bool, true, false, not, ◌&&◌, ◌||◌, ◌!=◌, ◌<=>◌, ltb, leb, if◌then◌else◌,
}
use rm32_private.Base.Int.{ℤ, pos}
use rm32_private.Base.Word.{u16, sub_u16, u16_of}
use rm32_private.Functions.{map}
use rm32_private.Config.{EepromConfig, bi_direction, rc_car_reverse, servo_dead_band}

pub data ReverseMode : Type 0 where
  speed_gated rc_car : ReverseMode

pub data InputMode : Type 0 where
  unidirectional : InputMode
  bidir_dshot : ReverseMode → InputMode
  bidir_servo : ReverseMode → ℕ → InputMode

unfoldable pub is_rc_car : InputMode → Bool
is_rc_car unidirectional = false
is_rc_car (bidir_dshot rc_car) = true
is_rc_car (bidir_dshot speed_gated) = false
is_rc_car (bidir_servo rc_car _) = true
is_rc_car (bidir_servo speed_gated _) = false

unfoldable pub from_config : EepromConfig → Bool → InputMode
from_config config is_dshot =
    if not (bi_direction config != 0)
    then unidirectional
    else let reverse_mode = if rc_car_reverse config != 0 then rc_car else speed_gated in
      if is_dshot
      then bidir_dshot reverse_mode
      else bidir_servo reverse_mode (servo_dead_band config)

pub record BidirResult : Type 0 where
  pub adjusted : ℕ
  pub reverse : Bool
  pub prop_brake : Bool

abbrev idle : BidirResult
idle = record { adjusted = 0; reverse = false; prop_brake = false }

abbrev brake : BidirResult
brake = record { adjusted = 0; reverse = false; prop_brake = true }

abbrev drive : ℕ → BidirResult
drive v = record { adjusted = v; reverse = false; prop_brake = false }

abbrev turn : ℕ → BidirResult
turn v = record { adjusted = v; reverse = true; prop_brake = false }

-- `((newinput.saturating_sub(base)) * 2 + 47).saturating_sub(1)`; `-` on ℕ saturates.
abbrev pub dshot_scale : ℕ → ℕ → ℕ
dshot_scale base newinput = u16 (u16 ((newinput - base) * 2) + 47) - 1

-- Whether the motor is slow enough to be reversed.
abbrev pub can_reverse : ℕ → ℕ → Bool → ℕ → Bool
can_reverse commutation_interval duty_cycle stepper_sine threshold =
    (ltb threshold commutation_interval && ltb duty_cycle 200) || stepper_sine

-- The arm of a speed-gated mapping for one half of the stick: `value` is the throttle of that half
-- and `wanted` says that the motor already turns its way.
abbrev dshot_gated : Bool → Bool → ℕ → BidirResult
dshot_gated wanted able value =
    let reverse = not wanted && able in
    record {
      adjusted = if reverse || wanted then value else 0;
      reverse = reverse;
      prop_brake = false;
    }

unfoldable pub dshot_bidir : ℕ → Bool → Bool → ℕ → ℕ → Bool → ℕ → BidirResult
dshot_bidir newinput forward dir_reversed commutation_interval duty_cycle stepper_sine threshold =
    let able = can_reverse commutation_interval duty_cycle stepper_sine threshold in
    if ltb 1047 newinput
    then dshot_gated (forward <=> not dir_reversed) able (dshot_scale 1048 newinput)
    else if ltb 47 newinput
    then dshot_gated (forward <=> dir_reversed) able (dshot_scale 48 newinput)
    else idle

-- The brake-and-reverse handshake, for one half of the stick.
abbrev handshake : Bool → Bool → Bool → ℕ → BidirResult
handshake wanted prop_brake_active return_to_center value =
    if not wanted
    then (if return_to_center then turn value else brake)
    else if not prop_brake_active
    then drive value
    else brake

unfoldable pub dshot_rc_car : ℕ → Bool → Bool → Bool → Bool → BidirResult
dshot_rc_car newinput forward dir_reversed prop_brake_active return_to_center =
    if ltb 1047 newinput
    then handshake (forward <=> not dir_reversed) prop_brake_active return_to_center
        (dshot_scale 1048 newinput)
    else if ltb 47 newinput
    then handshake (forward <=> dir_reversed) prop_brake_active return_to_center
        (dshot_scale 48 newinput)
    else idle

-- Throttle of the two halves of a servo stick around the centre 1000 with its dead band.
pub servo_forward : ℕ → ℕ → ℕ
servo_forward db2 newinput =
    u16_of (map (pos newinput) (pos (u16 (1000 + db2))) (pos 2000) (pos 47) (pos 2047))

pub servo_backward : ℕ → ℕ → ℕ
servo_backward db2 newinput =
    u16_of (map (pos newinput) (pos 0) (pos (sub_u16 1000 db2)) (pos 2047) (pos 47))

abbrev servo_gated : Bool → Bool → ℕ → BidirResult
servo_gated wanted able value =
    if not wanted then (if able then turn value else idle) else drive value

unfoldable pub servo_bidir : ℕ → Bool → Bool → ℕ → ℕ → Bool → ℕ → ℕ → BidirResult
unfolding servo_forward servo_backward
servo_bidir newinput forward dir_reversed commutation_interval duty_cycle stepper_sine threshold
      dead_band =
    let db2 = u16 (dead_band * 2) in
    let able = can_reverse commutation_interval duty_cycle stepper_sine threshold in
    if ltb (u16 (1000 + db2)) newinput
    then servo_gated (forward <=> not dir_reversed) able (servo_forward db2 newinput)
    else if ltb newinput (1000 - db2)
    then servo_gated (forward <=> dir_reversed) able (servo_backward db2 newinput)
    else idle

unfoldable pub servo_rc_car : ℕ → Bool → Bool → Bool → Bool → ℕ → BidirResult
unfolding servo_forward servo_backward
servo_rc_car newinput forward dir_reversed prop_brake_active return_to_center dead_band =
    let db2 = u16 (dead_band * 2) in
    if ltb (u16 (1000 + db2)) newinput
    then handshake (forward <=> not dir_reversed) prop_brake_active return_to_center
        (servo_forward db2 newinput)
    else if ltb newinput (1000 - db2)
    then handshake (forward <=> dir_reversed) prop_brake_active return_to_center
        (servo_backward db2 newinput)
    else idle

unfoldable pub sine_start_map : ℕ → ℕ → ℕ
sine_start_map adjusted changeover_level =
    let changeover = u16 (changeover_level * 20) in
    if ltb adjusted 30
    then 0
    else if ltb adjusted changeover
    then u16_of (map (pos adjusted) (pos 30) (pos changeover) (pos 47) (pos 160))
    else u16_of (map (pos adjusted) (pos changeover) (pos 2047) (pos 160) (pos 2047))
