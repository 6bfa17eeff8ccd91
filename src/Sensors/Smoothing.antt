-- ===== src/Sensors/Smoothing.antt =====
-- The filter between its old state and the sample (`EwmaPow2::update`, rm32/src/filter.rs).
use rm32_private.Base.{
  ℕ, zero, suc, ◌+◌, ◌-◌, ◌*◌, ◌/◌, ◌^◌, ◌≤◌, ◌<◌, ◌≡◌, refl, ap, ◌∙◌, arith, true, min, max, inl,
  inr, ◌⊎◌,
}
use rm32_private.Base.Int.{pos, negsuc, ◌+ℤ◌, ◌-ℤ◌}
use rm32_private.Base.Word.{u32, i32, u32_of, signed}
use native.Mathlib.Nat.{
  eq-zero-or-pos, div-le_self, one-le-pow, le-div_iff_mul-le, div-eq_of_lt, pow-le-pow_right,
}
use rm32_private.Sensors.{FixedPoint, IsFixedPoint, EwmaPow2, update, smoothed}

below_or_above : (a b : ℕ) → (a ≤ b) ⊎ (b < a)
below_or_above a b = elim (eq-zero-or-pos (a - b)) [
  | inl z ↦ inl (omega arith)
  | inr p ↦ inr (omega arith)
]

as_pos : (n : ℕ) → n < 2147483648 → signed 4294967296 n ≡ pos n
as_pos n h = ground arith

wide_sample : (s : ℕ) → s < 32768 → signed 4294967296 (u32 (s * 65536)) ≡ pos (s * 65536)
wide_sample s h = ground arith

up_by : (s b : ℕ) → s < 2147483648 → b ≤ s → i32 (pos s -ℤ pos b) ≡ pos (s - b)
unfolding i32 ◌-ℤ◌
up_by s b h i = ground arith

down_by : (s b : ℕ) → b < 2147483648 → s < b → i32 (pos s -ℤ pos b) ≡ negsuc (b - s - 1)
unfolding i32 ◌-ℤ◌
down_by s b h i = ground arith

raised : (b q : ℕ) → b + q < 2147483648 → u32_of (i32 (pos b +ℤ pos q)) ≡ b + q
unfolding i32 u32_of ◌+ℤ◌
raised b q h = ground arith

lowered : (b q : ℕ) → b < 2147483648 → q < b → u32_of (i32 (pos b +ℤ negsuc q)) ≡ b - (q + 1)
unfolding i32 u32_of ◌+ℤ◌
lowered b q h i = ground arith

share : (k n : ℕ) → n / 2 ^ k ≤ n
share k n = div-le_self n (2 ^ k)

-- From below the state rises by a share of the distance, rounded down; from above it falls by one
-- more than the share of the distance less one.
rises :
    (k sample bits : ℕ)
    → sample < 32768
    → bits ≤ sample * 65536
    → smoothed k sample bits ≡ bits + (sample * 65536 - bits) / 2 ^ k
unfolding smoothed
rises k sample bits h i =
    rw
      (wide_sample sample h, as_pos bits (omega arith), up_by (sample * 65536) bits (omega arith) i)
      (raised bits ((sample * 65536 - bits) / 2 ^ k)
        (omega (arith, share k (sample * 65536 - bits))))

falls :
    (k sample bits : ℕ)
    → bits < 2147483648
    → sample * 65536 < bits
    → smoothed k sample bits ≡ bits - ((bits - sample * 65536 - 1) / 2 ^ k + 1)
unfolding smoothed
falls k sample bits h i =
    rw (wide_sample sample (omega arith), as_pos bits h, down_by (sample * 65536) bits h i)
      (lowered bits ((bits - sample * 65536 - 1) / 2 ^ k) h
        (omega (arith, share k (bits - sample * 65536 - 1))))

-- The filter's updates with one sample, one after the other.
unfoldable pub repeated : ℕ → ℕ → ℕ → ℕ → ℕ
repeated k sample zero bits = bits
repeated k sample (suc n) bits = repeated k sample n (smoothed k sample bits)

whole_share : (k n : ℕ) → 2 ^ k ≤ n → 1 ≤ n / 2 ^ k
whole_share k n h = (le-div_iff_mul-le (one-le-pow k 2 (omega arith))).1 (omega arith)

module _ (k sample : ℕ) (h : sample < 32768) where
  from_below :
      (n bits : ℕ)
      → bits ≤ sample * 65536
      → sample * 65536 - bits < n + 2 ^ k
      → (repeated k sample n bits ≤ sample * 65536)
        × (sample * 65536 - repeated k sample n bits < 2 ^ k)
  unfolding repeated
  from_below zero bits i j = (i, omega arith)
  from_below (suc n) bits i j =
      let step = rises k sample bits h i in
      let cut = share k (sample * 65536 - bits) in
      from_below n (smoothed k sample bits) (omega arith)
        (ground (arith, whole_share k (sample * 65536 - bits)))

  from_above :
      (n bits : ℕ)
      → bits < 2147483648
      → sample * 65536 ≤ bits
      → bits - sample * 65536 ≤ n
      → (repeated k sample n bits ≤ sample * 65536)
        × (sample * 65536 - repeated k sample n bits < 2 ^ k)
  unfolding repeated
  from_above zero bits g i j = (omega arith, omega (arith, one-le-pow k 2))
  from_above (suc n) bits g i j = elim (below_or_above bits (sample * 65536)) [
    | inl low ↦ from_below (suc n) bits low (omega (arith, one-le-pow k 2))
    | inr high ↦
        let step = falls k sample bits g high in
        let cut = share k (bits - sample * 65536 - 1) in
        from_above n (smoothed k sample bits) (omega arith) (omega arith) (omega arith)
  ]

  -- After as many updates with one sample as the distance in bits, the state is at the sample, or
  -- below it by less than `2 ^ k` bits.
  pub repeated-settles :
      (n bits : ℕ)
      → bits < 2147483648
      → (bits - sample * 65536) + (sample * 65536 - bits) ≤ n
      → (repeated k sample n bits ≤ sample * 65536)
        × (sample * 65536 - repeated k sample n bits < 2 ^ k)
  repeated-settles n bits g i = elim (below_or_above bits (sample * 65536)) [
    | inl low ↦ from_below n bits low (omega (arith, one-le-pow k 2))
    | inr high ↦ from_above n bits g (omega arith) (omega arith)
  ]

  still :
      (n bits : ℕ)
      → bits ≤ sample * 65536
      → sample * 65536 - bits < 2 ^ k
      → repeated k sample n bits ≡ bits
  unfolding repeated
  still zero bits i j = refl
  still (suc n) bits i j =
      let same = rises k sample bits h i ∙ omega (arith, div-eq_of_lt j) in
      ap (repeated k sample n) same ∙ still n bits i j

  -- Within that distance from below an update changes nothing: the filter reports one less than
  -- the sample for as long as the samples stay the same.
  pub smoothed-dead_zone :
      (bits n : ℕ)
      → bits < sample * 65536
      → sample * 65536 - bits < 2 ^ k
      → k ≤ 16
      → (repeated k sample n bits ≡ bits) × (bits / 65536 ≡ sample - 1)
  smoothed-dead_zone bits n i j l = (
    still n bits (omega arith) j,
    omega (arith, j, pow-le-pow_right {n = 2} (omega arith) {i = k} {j = 16} l),
  )

smoothed-between :
    (k sample bits : ℕ)
    → sample < 32768
    → bits < 2147483648
    → (min bits (sample * 65536) ≤ smoothed k sample bits)
      × (smoothed k sample bits ≤ max bits (sample * 65536))
smoothed-between k sample bits h g = elim (below_or_above bits (sample * 65536)) [
  | inl low ↦
      let step = rises k sample bits h low in
      let cut = share k (sample * 65536 - bits) in (omega arith, omega arith)
  | inr high ↦
      let step = falls k sample bits g high in
      let cut = share k (bits - sample * 65536 - 1) in (omega arith, omega arith)
]

-- With the documented operations of the number format, an update of a running filter leaves the
-- state between the old state and the sample, the result is its whole part, and the state keeps
-- below the sign bit.
pub update-between :
    {U : Type 0} (fixed : FixedPoint U) (k sample : ℕ) (filter : EwmaPow2 U)
    → IsFixedPoint fixed
    → sample < 32768
    → filter.initialized ≡ true
    → fixed.to_bits filter.state < 2147483648
    → (min (fixed.to_bits filter.state) (sample * 65536)
        ≤ fixed.to_bits ((update fixed k sample filter).0).state)
      × (fixed.to_bits ((update fixed k sample filter).0).state
          ≤ max (fixed.to_bits filter.state) (sample * 65536))
      × ((update fixed k sample filter).1
          ≡ fixed.to_bits ((update fixed k sample filter).0).state / 65536)
      × (fixed.to_bits ((update fixed k sample filter).0).state < 2147483648)
unfolding update
update-between fixed k sample filter (law_num, law_bits, law_to, law_mul) h e g =
    let bits = fixed.to_bits filter.state in
    let (low, high) = smoothed-between k sample bits h g in
    let kept = law_bits (smoothed k sample bits) (omega arith) in
    let whole = law_to (fixed.from_bits (smoothed k sample bits)) in
    rw (e, kept) (low, high, omega (arith, kept, whole), omega arith)
