-- ===== src/Functions.antt =====
-- The numeric helpers of rm32/src/functions.rs: interpolation, absolute difference, CRC-8.
pub mod Interpolate
pub mod Crc8
mod Examples
use rm32_private.Base.{
  ℕ, zero, suc, ◌+◌, ◌*◌, ◌≡◌, refl, Bool, true, List, [], ◌∷◌, bit_and, bit_xor, ◌!=◌,
  if◌then◌else◌, ◌&&◌,
}
use rm32_private.Base.Int.{
  ℤ, pos, negsuc, ◌+ℤ◌, ◌-ℤ◌, ◌*ℤ◌, ◌/ℤ◌, eq_ℤ, min_ℤ, max_ℤ, clamp_ℤ, pos_part, neg_part,
}
use rm32_private.Base.Word.{i32, u8, residue}

-- The two differences are taken in 32 bits, the product and the quotient in 64, where they do not
-- overflow.
unfoldable pub map : ℤ → ℤ → ℤ → ℤ → ℤ → ℤ
map x in_min in_max out_min out_max =
    if eq_ℤ in_max in_min
    then out_min
    else let lo = min_ℤ in_min in_max in
      let hi = max_ℤ in_min in_max in
      let x' = clamp_ℤ lo hi x in
      i32 (i32 (x' -ℤ in_min) *ℤ i32 (out_max -ℤ out_min) /ℤ i32 (in_max -ℤ in_min) +ℤ out_min)

-- `(a - b).unsigned_abs()`.
unfoldable pub get_abs_dif : ℤ → ℤ → ℕ
get_abs_dif a b = let d = i32 (a -ℤ b) in pos_part d + neg_part d

-- One bit of the polynomial division.
abbrev crc8_bit : ℕ → ℕ
crc8_bit crc = if bit_and crc 0x80 != 0 then bit_xor 0x07 (u8 (crc * 2)) else u8 (crc * 2)

crc8_bits : ℕ → ℕ → ℕ
crc8_bits zero crc = crc
crc8_bits (suc n) crc = crc8_bits n (crc8_bit crc)

unfoldable pub update_crc8 : ℕ → ℕ → ℕ
unfolding crc8_bits
update_crc8 crc seed = crc8_bits 8 (bit_xor crc seed)

crc8_from : ℕ → List ℕ → ℕ
crc8_from crc [] = crc
crc8_from crc (b ∷ bs) = crc8_from (update_crc8 b crc) bs

unfoldable pub get_crc8 : List ℕ → ℕ
unfolding crc8_from
get_crc8 buf = crc8_from 0 buf
