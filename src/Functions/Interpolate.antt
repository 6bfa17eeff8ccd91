-- ===== src/Functions/Interpolate.antt =====
-- `map` in closed form on the ranges that the program uses, its bounds and its order
-- (rm32/src/functions.rs).
use native.Mathlib.Nat.{mul-div_cancel_left}
use rm32_private.Base.{ℕ, zero, suc, ◌+◌, ◌-◌, ◌*◌, ◌/◌, ◌≤◌, ◌<◌, ◌≡◌, refl, ap, false, arith}
use rm32_private.Base.Int.{pos, ◌+ℤ◌, ◌-ℤ◌, ◌*ℤ◌, ◌/ℤ◌, min_ℤ, max_ℤ, clamp_ℤ, eq_ℤ, ◌≤ℤ◌, sub_ℕ}
use rm32_private.Base.Word.{i32, clamp}
use rm32_private.Functions.{map}

-- Interpolation upwards on natural numbers, with the input clamped.
abbrev pub lerp_up : ℕ → ℕ → ℕ → ℕ → ℕ → ℕ
lerp_up x lo hi a b = a + (clamp lo hi x - lo) * (b - a) / (hi - lo)

-- Interpolation downwards, from `a` at `lo` to `b` at `hi`.
abbrev pub lerp_down : ℕ → ℕ → ℕ → ℕ → ℕ → ℕ
lerp_down x lo hi a b = a - (clamp lo hi x - lo) * (a - b) / (hi - lo)

share : (d w p : ℕ) → d ≤ w → 0 < w → d * p / w ≤ p
share d w p h k = grind arith

clamp-between : (x lo hi : ℕ) → lo ≤ hi → (lo ≤ clamp lo hi x) × (clamp lo hi x ≤ hi)
clamp-between x lo hi h = ground arith

clamp_pos :
    (x lo hi : ℕ)
    → lo < hi
    → clamp_ℤ (min_ℤ (pos lo) (pos hi)) (max_ℤ (pos lo) (pos hi)) (pos x) ≡ pos (clamp lo hi x)
clamp_pos x lo hi h = ground arith

distinct : (lo hi : ℕ) → lo < hi → eq_ℤ (pos hi) (pos lo) ≡ false
distinct lo hi h = ground arith

difference : (a b : ℕ) → a ≤ b → b < 2147483648 → i32 (pos b -ℤ pos a) ≡ pos (b - a)
unfolding i32 ◌-ℤ◌
difference a b h k = ground arith

difference_neg : (a b : ℕ) → b ≤ a → a < 2147483648 → i32 (pos b -ℤ pos a) ≡ sub_ℕ 0 (a - b)
unfolding i32 ◌-ℤ◌
difference_neg a b h k = ground arith

mul-pos : (d p : ℕ) → 0 < suc d * suc p
mul-pos d p = grind arith

scaled_neg : (d p w : ℕ) → 0 < w → pos d *ℤ sub_ℕ 0 p /ℤ pos w ≡ sub_ℕ 0 (d * p / w)
unfolding ◌*ℤ◌ ◌/ℤ◌
scaled_neg d zero w h = ground arith
scaled_neg zero (suc p) w h = ground arith
scaled_neg (suc d) (suc p) w h = ground (arith, mul-pos d p)

added : (q a : ℕ) → q + a < 2147483648 → i32 (pos q +ℤ pos a) ≡ pos (a + q)
unfolding i32 ◌+ℤ◌
added q a h = ground arith

lowered : (q a : ℕ) → q ≤ a → a < 2147483648 → i32 (sub_ℕ 0 q +ℤ pos a) ≡ pos (a - q)
unfolding i32 ◌+ℤ◌
lowered q a h k = ground arith

module _ (x lo hi a b : ℕ) (ordered : lo < hi) (bound : hi < 2147483648) where
  open_map :
      map (pos x) (pos lo) (pos hi) (pos a) (pos b)
      ≡ i32 (pos (clamp lo hi x - lo) *ℤ i32 (pos b -ℤ pos a) /ℤ pos (hi - lo) +ℤ pos a)
  unfolding map
  open_map =
      let (low, high) = clamp-between x lo hi (omega arith) in
      rw
        (
          distinct lo hi ordered,
          clamp_pos x lo hi ordered,
          difference lo (clamp lo hi x) low (omega arith),
          difference lo hi (omega arith) bound,
        )
        refl

  -- On an increasing range `map` adds the clamped input's share of the output range.
  pub map-lerp_up :
      a ≤ b
      → b < 2147483648
      → map (pos x) (pos lo) (pos hi) (pos a) (pos b) ≡ pos (lerp_up x lo hi a b)
  unfolding ◌*ℤ◌ ◌/ℤ◌
  map-lerp_up i j =
      let (low, high) = clamp-between x lo hi (omega arith) in
      let part = share (clamp lo hi x - lo) (hi - lo) (b - a) (omega arith) (omega arith) in
      rw (open_map, difference a b i j) (added _ a (omega arith))

  -- On a decreasing range it takes the share away.
  pub map-lerp_down :
      b ≤ a
      → a < 2147483648
      → map (pos x) (pos lo) (pos hi) (pos a) (pos b) ≡ pos (lerp_down x lo hi a b)
  map-lerp_down i j =
      let (low, high) = clamp-between x lo hi (omega arith) in
      let part = share (clamp lo hi x - lo) (hi - lo) (a - b) (omega arith) (omega arith) in
      rw
        (
          open_map,
          difference_neg a b i j,
          scaled_neg (clamp lo hi x - lo) (a - b) (hi - lo) (omega arith),
        )
        (lowered _ a (omega arith) j)

share_mono : (d e w p : ℕ) → d ≤ e → 0 < w → d * p / w ≤ e * p / w
share_mono d e w p h k = grind arith

closer : (x y lo hi : ℕ) → lo < hi → x ≤ y → clamp lo hi x - lo ≤ clamp lo hi y - lo
closer x y lo hi h k = ground arith

full_share : (w p : ℕ) → 0 < w → w * p / w ≡ p
full_share w p h = mul-div_cancel_left p h

pub lerp_up-ends :
    (lo hi a b : ℕ) → lo < hi → a ≤ b → (lerp_up lo lo hi a b ≡ a) × (lerp_up hi lo hi a b ≡ b)
lerp_up-ends lo hi a b h k = ground (arith, full_share (hi - lo) (b - a) (omega arith))

-- The interpolation stays between its two ends and meets them, and follows the order of the input.
pub lerp_up-bounds :
    (x lo hi a b : ℕ) → lo < hi → a ≤ b → (a ≤ lerp_up x lo hi a b) × (lerp_up x lo hi a b ≤ b)
lerp_up-bounds x lo hi a b h k =
    let (low, high) = clamp-between x lo hi (omega arith) in
    let part = share (clamp lo hi x - lo) (hi - lo) (b - a) (omega arith) (omega arith) in
    (omega arith, omega arith)

pub lerp_up_mono : (x y lo hi a b : ℕ) → lo < hi → x ≤ y → lerp_up x lo hi a b ≤ lerp_up y lo hi a b
lerp_up_mono x y lo hi a b h k = omega (
  arith,
  share_mono (clamp lo hi x - lo) (clamp lo hi y - lo) (hi - lo) (b - a) (closer x y lo hi h k)
      (omega arith),
)

pub lerp_down-bounds :
    (x lo hi a b : ℕ) → lo < hi → b ≤ a → (b ≤ lerp_down x lo hi a b) × (lerp_down x lo hi a b ≤ a)
lerp_down-bounds x lo hi a b h k =
    let (low, high) = clamp-between x lo hi (omega arith) in
    let part = share (clamp lo hi x - lo) (hi - lo) (a - b) (omega arith) (omega arith) in
    (omega arith, omega arith)

pub lerp_down_anti :
    (x y lo hi a b : ℕ) → lo < hi → x ≤ y → lerp_down y lo hi a b ≤ lerp_down x lo hi a b
lerp_down_anti x y lo hi a b h k = omega (
  arith,
  share_mono (clamp lo hi x - lo) (clamp lo hi y - lo) (hi - lo) (a - b) (closer x y lo hi h k)
      (omega arith),
)

-- On increasing ranges of 32-bit values `map` is monotone, its values lie in the output range, and
-- its ends are the ends of the output range.
pub map_increasing :
    (x y lo hi a b : ℕ)
    → lo < hi
    → hi < 2147483648
    → a ≤ b
    → b < 2147483648
    → x ≤ y
    → let at = λ (v : ℕ). map (pos v) (pos lo) (pos hi) (pos a) (pos b) in
      (pos a ≤ℤ at x) × (at x ≤ℤ at y) × (at y ≤ℤ pos b) × (at lo ≡ pos a) × (at hi ≡ pos b)
map_increasing x y lo hi a b h k i j p =
    let (left, right) = lerp_up-ends lo hi a b h i in
    rw
      (
        map-lerp_up x lo hi a b h k i j,
        map-lerp_up y lo hi a b h k i j,
        map-lerp_up lo lo hi a b h k i j,
        map-lerp_up hi lo hi a b h k i j,
      )
      (
        omega (arith, lerp_up-bounds x lo hi a b h i),
        omega (arith, lerp_up_mono x y lo hi a b h p),
        omega (arith, lerp_up-bounds y lo hi a b h i),
        ap pos left,
        ap pos right,
      )

-- On a decreasing output range `map` reverses the order and stays in the range.
pub map_decreasing :
    (x y lo hi a b : ℕ)
    → lo < hi
    → hi < 2147483648
    → b ≤ a
    → a < 2147483648
    → x ≤ y
    → let at = λ (v : ℕ). map (pos v) (pos lo) (pos hi) (pos a) (pos b) in
      (pos b ≤ℤ at y) × (at y ≤ℤ at x) × (at x ≤ℤ pos a)
map_decreasing x y lo hi a b h k i j p =
    rw (map-lerp_down x lo hi a b h k i j, map-lerp_down y lo hi a b h k i j)
      (
        omega (arith, lerp_down-bounds y lo hi a b h i),
        omega (arith, lerp_down_anti x y lo hi a b h p),
        omega (arith, lerp_down-bounds x lo hi a b h i),
      )
