-- ===== src/Sensors.antt =====
-- Readings and reports: the smoothing filter (rm32/src/filter.rs), the units (rm32/src/units.rs), the
-- thermistor's table (rm32/src/ntc.rs) and the telemetry packets (rm32/src/telemetry.rs).
pub mod Smoothing
pub mod Packets
pub mod Conversions
pub mod Bits
mod Examples
use rm32_private.Base.{
  ℕ, ◌+◌, ◌-◌, ◌*◌, ◌/◌, ◌^◌, ◌%◌, ◌≡◌, ◌<◌, ◌==◌, ◌&&◌, ltb, Bool, true, false, if◌then◌else◌, min,
  List, [], ◌∷◌, ◌++◌, take,
}
use rm32_private.Base.Int.{ℤ, pos, negsuc, ◌+ℤ◌, ◌-ℤ◌, ◌*ℤ◌, ◌/ℤ◌, eq_ℤ}
use rm32_private.Base.Word.{u8, u16, u32, i8, i16, i32, u8_of, u16_of, u32_of, signed}
use rm32_private.Functions.{get_crc8}

-- What the code uses of the type `U16F16` of the crate `fixed`: 16 whole and 16 fractional bits.
pub record FixedPoint (U : Type 0) : Type 0 where
  pub zero_value : U
  pub from_num : ℕ → U
  pub from_bits : ℕ → U
  pub to_bits : U → ℕ
  pub to_num : U → ℕ
  pub multiply : U → U → U

-- `to_num` truncates; a product is rounded down, and wraps where it does not fit.
abbrev pub IsFixedPoint : {U : Type 0} → FixedPoint U → Type 0
IsFixedPoint f =
    ((n : ℕ) → n < 65536 → f.to_bits (f.from_num n) ≡ n * 65536)
    × ((n : ℕ) → n < 4294967296 → f.to_bits (f.from_bits n) ≡ n)
    × ((x : _) → f.to_num x ≡ f.to_bits x / 65536)
    × ((x y : _) → f.to_bits (f.multiply x y) ≡ u32 (f.to_bits x * f.to_bits y / 65536))

pub record EwmaPow2 (U : Type 0) : Type 0 where
  pub state : U
  pub initialized : Bool

-- `>>` on a signed value rounds down.
abbrev pub shift_right : ℤ → ℕ → ℤ
shift_right (pos n) k = pos (n / 2 ^ k)
shift_right (negsuc n) k = negsuc (n / 2 ^ k)

-- The new bits of the filter's state.
unfoldable pub smoothed : ℕ → ℕ → ℕ → ℕ
smoothed k sample bits =
    let old = signed 4294967296 bits in
    let wide = signed 4294967296 (u32 (sample * 65536)) in
    u32_of (i32 (old +ℤ shift_right (i32 (wide -ℤ old)) k))

module _ {U : Type 0} (fixed : FixedPoint U) where
  unfoldable pub new : EwmaPow2 U
  new = record { state = fixed.zero_value; initialized = false }

  unfoldable pub update : ℕ → ℕ → EwmaPow2 U → EwmaPow2 U × ℕ
  unfolding smoothed
  update k sample filter =
      if filter.initialized
      then (let state = fixed.from_bits (smoothed k sample (fixed.to_bits filter.state)) in
          (record filter { state = state }, u16 (fixed.to_num state)))
      else (record { state = fixed.from_num sample; initialized = true }, sample)

  -- 52812 is `MV_PER_COUNT`, 3300 / 4095 in bits.
  unfoldable pub to_millivolts : ℕ → ℕ → ℕ
  to_millivolts voltage_divider count =
      let raw = fixed.multiply (fixed.from_bits (3300 * 65536 / 4095)) (fixed.from_num count) in
      u16 (u32 (fixed.to_num raw * voltage_divider) / 100)

unfoldable pub to_milliamps : ℤ → ℕ → ℕ → ℤ
to_milliamps current_offset mv_per_amp count =
    let mv = i32 (i32 (pos (count * 80)) -ℤ i32 (current_offset *ℤ pos 100)) in
    if ltb 0 mv_per_amp then i16 (mv /ℤ pos mv_per_amp) else pos 0

unfoldable pub to_centivolts : ℕ → ℕ
to_centivolts mv = mv / 10

unfoldable pub to_centiamps : ℤ → ℕ
to_centiamps ma = u16_of (ma /ℤ pos 10)

unfoldable pub below_cell_threshold : ℕ → ℕ → ℕ → Bool
below_cell_threshold cell_count per_cell_mv mv =
    let threshold = u16 (cell_count * per_cell_mv) in ltb 0 threshold && ltb mv threshold

unfoldable pub to_erpm_100 : ℕ → ℕ
to_erpm_100 ticks = if ticks == 0 then 0 else u16 (600000 / ticks)

-- The two calibration points of the chip's sensor: 25 degrees where they coincide.
unfoldable pub calc_temperature_pure : ℕ → ℕ → ℕ → ℤ → ℤ → ℤ
calc_temperature_pure raw ts_cal1 ts_cal2 cal1_temp cal2_temp =
    let c1 = pos ts_cal1 in
    let c2 = pos ts_cal2 in
    if eq_ℤ c2 c1
    then pos 25
    else i16 (
        i32 (
          i32 (i32 (cal2_temp -ℤ cal1_temp) *ℤ i32 (pos raw -ℤ c1)) /ℤ i32 (c2 -ℤ c1) +ℤ cal1_temp))

-- An entry of `NTC_TABLE`, for the first of its sixteen readings.
unfoldable pub ntc_table : ℕ → ℤ
ntc_table i =
    let adc = i * 16 in
    if ltb adc 200
    then pos 150
    else if ltb adc 500
    then pos (150 - (adc - 200) * 50 / 300)
    else if ltb adc 1500
    then pos (100 - (adc - 500) * 60 / 1000)
    else if ltb adc 3000
    then pos (40 - (adc - 1500) * 40 / 1500)
    else pos 0

unfoldable pub ntc_degrees : ℕ → ℤ
unfolding ntc_table
ntc_degrees raw_adc = ntc_table (min (raw_adc / 16) 255)

-- The nine bytes of the report that the checksum covers.
unfoldable pub telem_bytes : ℤ → ℕ → ℕ → ℕ → ℕ → List ℕ
telem_bytes temp voltage current consumption e_rpm =
    u8_of temp
    ∷ u8 (voltage / 256)
    ∷ u8 voltage
    ∷ u8 (current / 256)
    ∷ u8 current
    ∷ u8 (consumption / 256)
    ∷ u8 consumption
    ∷ u8 (e_rpm / 256)
    ∷ u8 e_rpm
    ∷ []

unfoldable pub make_telem_package : ℤ → ℕ → ℕ → ℕ → ℕ → List ℕ
unfolding telem_bytes
make_telem_package temp voltage current consumption e_rpm =
    let bytes = telem_bytes temp voltage current consumption e_rpm in bytes ++ (get_crc8 bytes ∷ [])

-- The first 48 bytes of the settings.
unfoldable pub make_info_packet : List ℕ → List ℕ
make_info_packet eeprom = take 48 eeprom ++ (get_crc8 (take 48 eeprom) ∷ [])
