-- ===== src/Crsf.antt =====
-- The CRSF serial receiver (rm32/src/crsf.rs).
pub mod Channels
pub mod Frames
mod Examples
use rm32_private.Base.{
  ℕ, zero, suc, ◌+◌, ◌-◌, ◌*◌, ◌/◌, Bool, true, false, ◌||◌, ◌==◌, ◌!=◌, ltb, leb, if◌then◌else◌,
  bit_and, bit_or, bit_xor, List, [], ◌∷◌, length, get_or, take, drop, Option, none, some,
}
use rm32_private.Base.Word.{u8, u16, u32}

-- One bit of the polynomial division, and an entry of `CRC8_TABLE`, which eight of them make.
abbrev dvb_bit : ℕ → ℕ
dvb_bit crc = if bit_and crc 128 != 0 then bit_xor (u8 (crc * 2)) 213 else u8 (crc * 2)

unfoldable pub crc8_table : ℕ → ℕ
crc8_table i = dvb_bit (dvb_bit (dvb_bit (dvb_bit (dvb_bit (dvb_bit (dvb_bit (dvb_bit i)))))))

crc8_from : ℕ → List ℕ → ℕ
unfolding crc8_table
crc8_from crc [] = crc
crc8_from crc (b ∷ bs) = crc8_from (crc8_table (bit_xor crc b)) bs

unfoldable pub crc8_dvb_s2 : List ℕ → ℕ
unfolding crc8_from
crc8_dvb_s2 bytes = crc8_from 0 bytes

pub data CrsfResult : Type 0 where
  channels : List ℕ → CrsfResult
  other_frame : ℕ → CrsfResult
  bad_crc incomplete : CrsfResult

-- What a call of `feed` does: it returns `None`, or `Some` of a result, or it panics.
pub data Outcome : Type 0 where
  waiting : Outcome
  finished : CrsfResult → Outcome
  panics : Outcome

abbrev pub shifted : ℕ → ℕ → ℕ
shifted b factor = u16 (b * factor)

abbrev pub low11 : ℕ → ℕ
low11 n = bit_and n 2047

unfoldable pub unpack_channels : List ℕ → List ℕ
unpack_channels payload =
    let p = λ (i : ℕ). get_or payload i 0 in
    low11 (bit_or (p 0) (shifted (p 1) 256))
    ∷ low11 (bit_or (p 1 / 8) (shifted (p 2) 32))
    ∷ low11 (bit_or (bit_or (p 2 / 64) (shifted (p 3) 4)) (shifted (p 4) 1024))
    ∷ low11 (bit_or (p 4 / 2) (shifted (p 5) 128))
    ∷ low11 (bit_or (p 5 / 16) (shifted (p 6) 16))
    ∷ low11 (bit_or (bit_or (p 6 / 128) (shifted (p 7) 2)) (shifted (p 8) 512))
    ∷ low11 (bit_or (p 8 / 4) (shifted (p 9) 64))
    ∷ low11 (bit_or (p 9 / 32) (shifted (p 10) 8))
    ∷ low11 (bit_or (p 11) (shifted (p 12) 256))
    ∷ low11 (bit_or (p 12 / 8) (shifted (p 13) 32))
    ∷ low11 (bit_or (bit_or (p 13 / 64) (shifted (p 14) 4)) (shifted (p 15) 1024))
    ∷ low11 (bit_or (p 15 / 2) (shifted (p 16) 128))
    ∷ low11 (bit_or (p 16 / 16) (shifted (p 17) 16))
    ∷ low11 (bit_or (bit_or (p 17 / 128) (shifted (p 18) 2)) (shifted (p 19) 512))
    ∷ low11 (bit_or (p 19 / 4) (shifted (p 20) 64))
    ∷ low11 (bit_or (p 20 / 32) (shifted (p 21) 8))
    ∷ []

-- The frame is complete. `&self.buf[3..3 + 22]` is out of range for a shorter buffer.
unfoldable pub complete : List ℕ → ℕ → List ℕ × Outcome
complete buf total_len =
    let crc_idx = total_len - 1 in
    if crc8_dvb_s2 (take (crc_idx - 2) (drop 2 buf)) != get_or buf crc_idx 0
    then ([], finished bad_crc)
    else if get_or buf 2 0 == 22
    then (if leb 25 (length buf)
        then ([], finished (channels (unpack_channels (take 22 (drop 3 buf)))))
        else (buf, panics))
    else ([], finished (other_frame (get_or buf 2 0)))

unfoldable pub after_push : List ℕ → List ℕ × Outcome
unfolding complete
after_push buf =
    let frame_len = get_or buf 1 0 in
    let total_len = 2 + frame_len in
    if ltb (length buf) 3
    then (buf, waiting)
    else if ltb frame_len 2 || ltb 64 total_len
    then ([], finished incomplete)
    else if ltb (length buf) total_len
    then (buf, waiting)
    else complete buf total_len

unfoldable pub received : Option (List ℕ) → List ℕ × Outcome
unfolding after_push
received none = ([], finished incomplete)
received (some buf) = after_push buf

-- The buffer is a vector of the crate `heapless`, here by its contents; `push` is its operation, which
-- gives nothing where it returns an error.
module _ (push : List ℕ → ℕ → Option (List ℕ)) where
  unfoldable pub feed : List ℕ → ℕ → List ℕ × Outcome
  unfolding received
  feed [] byte =
      if byte == 200
      then (elim (push [] byte) [ some b ↦ b | none ↦ [] ], waiting)
      else ([], waiting)
  feed (x ∷ xs) byte = received (push (x ∷ xs) byte)

-- A channel from its range 172 to 1811 to the throttle's.
unfoldable pub channel_to_throttle : ℕ → ℕ
channel_to_throttle value =
    if leb value 172
    then 0
    else if leb 1811 value
    then 2047
    else u16 (u32 ((value - 172) * 2047) / 1639)
