-- ===== src/Base/Word.antt =====
-- Machine integers. An unsigned value is a native number and a signed value an integer; a cast, or
-- an operation that can leave the width, wraps (the firmware is built without overflow checks).
use Prim.Native.Nat.{ℕ, ◌+◌, ◌-◌, ◌/◌, ◌%◌, ◌≤◌, ◌<◌}
use mathlib.Core.Path.{◌≡◌, refl}
use native.Mathlib.Omega.{arith}
use rm32_private.Base.Tests.{ltb, if◌then◌else◌}
use rm32_private.Base.Int.{ℤ, pos, negsuc, pos_part, neg_part}

abbrev pub u8 : ℕ → ℕ
u8 n = n % 256

abbrev pub u16 : ℕ → ℕ
u16 n = n % 65536

abbrev pub u32 : ℕ → ℕ
u32 n = n % 4294967296

-- `wrapping_sub`, and `-` on unsigned values.
abbrev pub sub_u8 : ℕ → ℕ → ℕ
sub_u8 a b = u8 (a + 256 - b)

abbrev pub sub_u16 : ℕ → ℕ → ℕ
sub_u16 a b = u16 (a + 65536 - b)

abbrev pub sub_u32 : ℕ → ℕ → ℕ
sub_u32 a b = u32 (a + 4294967296 - b)

-- `saturating_sub` is the truncated `-` of ℕ; `saturating_add` and `saturating_mul` stop at the top.
abbrev pub sat_u8 : ℕ → ℕ
sat_u8 n = if ltb n 255 then n else 255

abbrev pub sat_u16 : ℕ → ℕ
sat_u16 n = if ltb n 65535 then n else 65535

-- `v.clamp(lo, hi)` on unsigned values.
abbrev pub clamp : ℕ → ℕ → ℕ → ℕ
clamp lo hi x = if ltb x lo then lo else if ltb hi x then hi else x

-- The residue of an integer modulo `m`: its bits, as an unsigned word.
abbrev pub residue : ℕ → ℤ → ℕ
residue m (pos n) = n % m
residue m (negsuc n) = m - 1 - n % m

-- The integer that a word of an even modulus stands for in two's complement.
abbrev pub signed : ℕ → ℕ → ℤ
signed m w = if ltb w (m / 2) then pos w else negsuc (m - w - 1)

-- `as i8`, `as i16`, `as i32` of a signed value.
unfoldable pub i8 : ℤ → ℤ
i8 z = signed 256 (residue 256 z)

unfoldable pub i16 : ℤ → ℤ
i16 z = signed 65536 (residue 65536 z)

unfoldable pub i32 : ℤ → ℤ
i32 z = signed 4294967296 (residue 4294967296 z)

-- `as u8`, `as u16`, `as u32` of a signed value.
unfoldable pub u8_of : ℤ → ℕ
u8_of z = residue 256 z

unfoldable pub u16_of : ℤ → ℕ
u16_of z = residue 65536 z

unfoldable pub u32_of : ℤ → ℕ
u32_of z = residue 4294967296 z

abbrev pub FitsI32 : ℤ → Type 0
FitsI32 z = (pos_part z < 2147483648) × (neg_part z ≤ 2147483648)

abbrev pub FitsI16 : ℤ → Type 0
FitsI16 z = (pos_part z < 32768) × (neg_part z ≤ 32768)

-- A value that fits is left alone, and every wrapped value fits.
pub i32_id : (z : ℤ) → FitsI32 z → i32 z ≡ z
unfolding i32
i32_id (pos n) h = ground arith
i32_id (negsuc n) h = ground arith

pub i16_id : (z : ℤ) → FitsI16 z → i16 z ≡ z
unfolding i16
i16_id (pos n) h = ground arith
i16_id (negsuc n) h = ground arith

pub i32-FitsI32 : (z : ℤ) → FitsI32 (i32 z)
unfolding i32
i32-FitsI32 (pos n) = ground arith
i32-FitsI32 (negsuc n) = ground arith

pub i16-FitsI16 : (z : ℤ) → FitsI16 (i16 z)
unfolding i16
i16-FitsI16 (pos n) = ground arith
i16-FitsI16 (negsuc n) = ground arith

pub u16_of_pos : (n : ℕ) → n < 65536 → u16_of (pos n) ≡ n
unfolding u16_of
u16_of_pos n h = omega arith

wraps_down : i32 (negsuc 2147483648) ≡ pos 2147483647
unfolding i32
wraps_down = refl
