-- ===== src/Dshot.antt =====
-- DShot frames and the GCR-coded answer (rm32/src/dshot.rs).
pub mod Frame
pub mod Gcr
pub mod Answer
pub mod Erpm
mod Examples
use rm32_private.Base.{
  ℕ, zero, suc, ◌+◌, ◌-◌, ◌*◌, ◌/◌, ◌^◌, ◌%◌, Bool, true, false, not, ◌&&◌, ◌||◌, ◌==◌, ◌!=◌, ltb,
  leb, if◌then◌else◌, bit_xor, bit_or, bit_and, List, [], ◌∷◌, get_or, set,
}
use rm32_private.Base.Word.{u8, u16, u32, sub_u32}

pub data DshotFrame : Type 0 where
  throttle_frame command_frame : ℕ → Bool → DshotFrame
  bad_crc invalid_timing : DshotFrame

-- The pulse `i` of the capture: 1 if it was high for more than half of its time.
unfoldable pub pulse : ℕ → List ℕ → ℕ → ℕ
pulse halfpulsetime dma i =
    let pdiff = u16 (sub_u32 (get_or dma (i * 2 + 1) 0) (get_or dma (i * 2) 0)) in
    if ltb halfpulsetime pdiff then 1 else 0

-- Bits of 0 and 1, the highest first.
abbrev pub nibble : ℕ → ℕ → ℕ → ℕ → ℕ
nibble a b c d = bit_or (bit_or (bit_or (a * 8) (b * 4)) (c * 2)) d

abbrev pub xor3 : ℕ → ℕ → ℕ → ℕ
xor3 a b c = bit_xor (bit_xor a b) c

unfoldable pub frame_crc : (ℕ → ℕ) → ℕ
frame_crc p =
    nibble (xor3 (p 0) (p 4) (p 8)) (xor3 (p 1) (p 5) (p 9)) (xor3 (p 2) (p 6) (p 10))
      (xor3 (p 3) (p 7) (p 11))

-- `(!check_crc).wrapping_add(16)` on a byte.
abbrev pub inverted : ℕ → ℕ
inverted crc = u8 (255 - crc + 16)

unfoldable pub sent_crc : Bool → (ℕ → ℕ) → ℕ
sent_crc bidirectional p =
    let crc = nibble (p 12) (p 13) (p 14) (p 15) in if bidirectional then inverted crc else crc

unfoldable pub frame_value : (ℕ → ℕ) → ℕ
frame_value p =
    bit_or
      (bit_or
        (bit_or
          (bit_or
            (bit_or
              (bit_or
                (bit_or (bit_or (bit_or (bit_or (p 0 * 1024) (p 1 * 512)) (p 2 * 256)) (p 3 * 128))
                  (p 4 * 64))
                (p 5 * 32))
              (p 6 * 16))
            (p 7 * 8))
          (p 8 * 4))
        (p 9 * 2))
      (p 10)

-- A frame from its sixteen bits.
unfoldable pub decode_bits : Bool → (ℕ → ℕ) → DshotFrame
unfolding frame_crc sent_crc frame_value
decode_bits bidirectional p =
    if frame_crc p != sent_crc bidirectional p
    then bad_crc
    else let value = frame_value p in
      let telemetry = p 11 == 1 in
      if ltb 47 value
      then throttle_frame value telemetry
      else if ltb 0 value
      then command_frame value telemetry
      else throttle_frame 0 telemetry

unfoldable pub decode_frame : List ℕ → ℕ → ℕ → Bool → DshotFrame
unfolding pulse decode_bits
decode_frame dma frametime_low frametime_high bidirectional =
    let frametime = u16 (sub_u32 (get_or dma 31 0) (get_or dma 0 0)) in
    let halfpulsetime = frametime / 32 in
    if leb frametime frametime_low || leb frametime_high frametime
    then invalid_timing
    else decode_bits bidirectional (pulse halfpulsetime dma)

abbrev pub gcr_encode_table : List ℕ
gcr_encode_table = 25 ∷ 27 ∷ 18 ∷ 19 ∷ 29 ∷ 21 ∷ 22 ∷ 23 ∷ 26 ∷ 9 ∷ 10 ∷ 11 ∷ 30 ∷ 13 ∷ 14 ∷ 15 ∷ []

-- The checksum: the inverted exclusive or of the three nibbles, of 16-bit words.
unfoldable pub checksum : ℕ → ℕ
checksum value =
    let csum = bit_xor (bit_xor (bit_xor 0 value) (value / 16)) (value / 16 / 16) in
    bit_and (65535 - csum) 15

-- `(value_12bit << 4) | csum`, in 16 bits.
unfoldable pub full_number : ℕ → ℕ
unfolding checksum
full_number value = bit_or (u16 (value * 16)) (checksum value)

-- Four nibbles to four groups of five bits.
unfoldable pub gcr_number : ℕ → ℕ
gcr_number full =
    let code = λ (n : ℕ). get_or gcr_encode_table n 0 in
    bit_or
      (bit_or (bit_or (code (full / 4096) * 32768) (code (bit_and (full / 256) 15) * 1024))
        (code (bit_and (full / 16) 15) * 32))
      (code (bit_and full 15))

-- The loop over the twenty bits, from bit `n - 1` down: bit `i` toggles the level of the entry before
-- it where it is 1, and is written at `padding + 20 - i + 1`.
unfoldable pub gcr_levels : ℕ → ℕ → ℕ → ℕ → List ℕ → List ℕ
gcr_levels zero number padding shift out = out
gcr_levels (suc i) number padding shift out =
    let bit = bit_xor (bit_and (number / 2 ^ i) 1) (get_or out (padding + 20 - i) 0 / 2 ^ shift) in
    gcr_levels i number padding shift (set out (padding + 20 - i + 1) (u32 (bit * 2 ^ shift)))

-- An index past the end of `gcr_out` panics in the source and writes nothing here.
unfoldable pub encode_gcr_frame : ℕ → List ℕ → ℕ → ℕ → List ℕ
unfolding full_number gcr_number gcr_levels
encode_gcr_frame value out padding shift =
    gcr_levels 20 (gcr_number (full_number value)) padding shift
      (set (set out padding 0) (1 + padding) (u32 (2 ^ shift)))

-- The loop over `(9..=15).rev()`: the position of the leading one, counted from bit 8.
unfoldable pub find_shift : ℕ → ℕ → ℕ
find_shift zero period = 0
find_shift (suc n) period =
    let rest = find_shift n period in if period / 2 ^ (n + 9) == 1 then n + 1 else rest

unfoldable pub erpm_to_12bit : ℕ → Bool → ℕ
unfolding find_shift
erpm_to_12bit com_time running =
    let period = if not running then 65535 else com_time in
    let shift_amount = find_shift 7 period in
    bit_or (shift_amount * 512) (period / 2 ^ shift_amount)

unfoldable pub encode_telemetry_with_shift : ℕ → Bool → List ℕ → ℕ → ℕ → List ℕ
encode_telemetry_with_shift com_time running out padding shift =
    encode_gcr_frame (erpm_to_12bit com_time running) out padding shift
