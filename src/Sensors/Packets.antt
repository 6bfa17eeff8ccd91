-- ===== src/Sensors/Packets.antt =====
-- What a receiver of the telemetry reads (rm32/src/telemetry.rs).
use rm32_private.Base.{
  ℕ, zero, suc, ◌+◌, ◌*◌, ◌<◌, ◌≤◌, ◌≡◌, refl, arith, List, [], ◌∷◌, ◌++◌, length, get_or, take,
}
use rm32_private.Base.Int.{ℤ, pos, negsuc, pos_part, neg_part}
use rm32_private.Base.Word.{u8_of, signed}
use rm32_private.Functions.{get_crc8}
use rm32_private.Functions.Crc8.{get_crc8_residue}
use rm32_private.Sensors.{telem_bytes, make_telem_package, make_info_packet}

-- A word of two bytes, the high byte first.
abbrev pub word_at : List ℕ → ℕ → ℕ
word_at bytes i = get_or bytes i 0 * 256 + get_or bytes (i + 1) 0

as_i8 : (t : ℤ) → pos_part t < 128 → neg_part t ≤ 128 → signed 256 (u8_of t) ≡ t
unfolding u8_of
as_i8 (pos n) h k = ground arith
as_i8 (negsuc n) h k = ground arith

-- The packet of a temperature in eight bits and four words reads back as these, has ten bytes, and
-- the checksum over the whole packet is 0.
pub make_telem_package_lem :
    (temp : ℤ) (voltage current consumption e_rpm : ℕ)
    → (pos_part temp < 128) × (neg_part temp ≤ 128)
    → (voltage < 65536) × (current < 65536) × (consumption < 65536) × (e_rpm < 65536)
    → (signed 256 (get_or (make_telem_package temp voltage current consumption e_rpm) 0 0) ≡ temp)
      × (word_at (make_telem_package temp voltage current consumption e_rpm) 1 ≡ voltage)
      × (word_at (make_telem_package temp voltage current consumption e_rpm) 3 ≡ current)
      × (word_at (make_telem_package temp voltage current consumption e_rpm) 5 ≡ consumption)
      × (word_at (make_telem_package temp voltage current consumption e_rpm) 7 ≡ e_rpm)
      × (length (make_telem_package temp voltage current consumption e_rpm) ≡ 10)
      × (get_crc8 (make_telem_package temp voltage current consumption e_rpm) ≡ 0)
unfolding make_telem_package telem_bytes
make_telem_package_lem temp voltage current consumption e_rpm (hp, hn) (hv, hc, hm, he) = (
  as_i8 temp hp hn,
  omega arith,
  omega arith,
  omega arith,
  omega arith,
  refl,
  get_crc8_residue (telem_bytes temp voltage current consumption e_rpm),
)

get_or-take :
    (xs ys : List ℕ) (n i : ℕ)
    → i < n
    → n ≤ length xs
    → get_or (take n xs ++ ys) i 0 ≡ get_or xs i 0
get_or-take xs ys zero i h k = absurd (omega arith)
get_or-take [] ys (suc n) i h k = absurd (omega arith)
get_or-take (x ∷ xs) ys (suc n) zero h k = refl
get_or-take (x ∷ xs) ys (suc n) (suc i) h k = get_or-take xs ys n i (omega arith) (omega arith)

-- The information packet has the settings' first 48 bytes in their places, and the checksum over the
-- whole packet is 0.
pub make_info_packet_lem :
    (eeprom : List ℕ) (i : ℕ)
    → 48 ≤ length eeprom
    → i < 48
    → (get_or (make_info_packet eeprom) i 0 ≡ get_or eeprom i 0)
      × (get_crc8 (make_info_packet eeprom) ≡ 0)
unfolding make_info_packet
make_info_packet_lem eeprom i h k = (
  get_or-take eeprom (get_crc8 (take 48 eeprom) ∷ []) 48 i k h,
  get_crc8_residue (take 48 eeprom),
)
