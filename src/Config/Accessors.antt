-- ===== src/Config/Accessors.antt =====
-- The views of the settings as bytes and as truth values (rm32/src/config.rs).
use rm32_private.Base.{ℕ, Bool, true, false, List, ◌==◌, ◌!=◌, ◌≡◌, refl, replicate, arith}
use rm32_private.Config.{
  EepromConfig, field_at, dir_reversed, bi_direction, comp_pwm, stuck_rotor_protection,
  stall_protection, low_voltage_cut_off, disable_stick_calibration, rc_car_reverse,
}

unfoldable as_bytes : EepromConfig → List ℕ
as_bytes c = c.bytes

unfoldable from_bytes : List ℕ → EepromConfig
from_bytes bytes = record { bytes = bytes }

unfoldable is_dir_reversed : EepromConfig → Bool
is_dir_reversed c = dir_reversed c != 0

unfoldable is_bidirectional : EepromConfig → Bool
is_bidirectional c = bi_direction c != 0

-- The accessor has the name of its field, the byte at offset 19.
unfoldable use_sine_start : EepromConfig → Bool
use_sine_start c = field_at 19 c != 0

unfoldable use_comp_pwm : EepromConfig → Bool
use_comp_pwm c = comp_pwm c != 0

unfoldable has_stuck_rotor_protection : EepromConfig → Bool
has_stuck_rotor_protection c = stuck_rotor_protection c != 0

unfoldable has_stall_protection : EepromConfig → Bool
has_stall_protection c = stall_protection c != 0

unfoldable has_low_voltage_cutoff : EepromConfig → Bool
has_low_voltage_cutoff c = low_voltage_cut_off c != 0

unfoldable is_lvc_per_cell : EepromConfig → Bool
is_lvc_per_cell c = low_voltage_cut_off c == 1

unfoldable is_lvc_absolute : EepromConfig → Bool
is_lvc_absolute c = low_voltage_cut_off c == 2

unfoldable disable_stick_cal : EepromConfig → Bool
disable_stick_cal c = disable_stick_calibration c != 0

unfoldable is_rc_car_reverse : EepromConfig → Bool
is_rc_car_reverse c = rc_car_reverse c != 0

bytes_round_trip : (c : EepromConfig) → from_bytes (as_bytes c) ≡ c
unfolding from_bytes as_bytes
bytes_round_trip c = refl

-- A cutoff is for a cell or absolute but not both, and is a cutoff in either case.
lvc_kinds :
    (c : EepromConfig)
    → (is_lvc_per_cell c ≡ true → is_lvc_absolute c ≡ false)
      × (is_lvc_per_cell c ≡ true → has_low_voltage_cutoff c ≡ true)
      × (is_lvc_absolute c ≡ true → has_low_voltage_cutoff c ≡ true)
unfolding is_lvc_per_cell is_lvc_absolute has_low_voltage_cutoff
lvc_kinds c = (λ h. ground arith, λ h. ground arith, λ h. ground arith)

-- The settings after a first start: nothing switched on.
zeroed_switches :
    let c = from_bytes (replicate 192 0) in
    (is_dir_reversed c ≡ false)
    × (is_bidirectional c ≡ false)
    × (use_sine_start c ≡ false)
    × (use_comp_pwm c ≡ false)
    × (has_stuck_rotor_protection c ≡ false)
    × (has_stall_protection c ≡ false)
    × (disable_stick_cal c ≡ false)
    × (is_rc_car_reverse c ≡ false)
unfolding from_bytes is_dir_reversed is_bidirectional use_sine_start use_comp_pwm
    has_stuck_rotor_protection has_stall_protection disable_stick_cal is_rc_car_reverse
zeroed_switches = (refl, refl, refl, refl, refl, refl, refl, refl)
