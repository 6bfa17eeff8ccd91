-- ===== src/Dshot/Erpm.antt =====
-- The floating-point format of the motor's period (`erpm_to_12bit`, rm32/src/dshot.rs).
use rm32_private.Base.{
  ℕ, ◌+◌, ◌*◌, ◌/◌, ◌%◌, ◌^◌, ◌≤◌, ◌<◌, ◌≡◌, refl, true, false, ◌⊎◌, inl, inr, arith, bit_or,
  or_shifted,
}
use rm32_private.Dshot.{find_shift, erpm_to_12bit}

-- What the format stands for: three bits of shift over nine bits of mantissa.
abbrev pub period_of : ℕ → ℕ
period_of v = (v % 512) * 2 ^ (v / 512)

-- The ranges of the shifts, each with its shift.
abbrev Range : ℕ → ℕ → ℕ → Type 0
Range s k p = (s ≡ k) × (p / 2 ^ k < 512) × (256 ≤ p / 2 ^ k)

find_shift_ranges :
    (p : ℕ)
    → p < 65536
    → let s = find_shift 7 p in
      ((s ≡ 0) × (p < 512))
      ⊎ Range s 1 p
      ⊎ Range s 2 p
      ⊎ Range s 3 p
      ⊎ Range s 4 p
      ⊎ Range s 5 p
      ⊎ Range s 6 p
      ⊎ Range s 7 p
unfolding find_shift
find_shift_ranges p h = ground arith

joined : (k q : ℕ) → q < 512 → bit_or (k * 512) q ≡ k * 512 + q
joined k q h = or_shifted 9 k q h

-- The value is in range, stands for the period rounded down to its last place, and uses the whole
-- mantissa where it shifts.
abbrev pub Represents : ℕ → ℕ → Type 0
Represents v p =
    (v < 4096)
    × (period_of v ≤ p)
    × (p < period_of v + 2 ^ (v / 512))
    × ((v / 512 ≡ 0) ⊎ (256 ≤ v % 512))

rounds :
    (k p : ℕ)
    → (q : ℕ) → q ≡ p / 2 ^ k
    → k < 8
    → q < 512
    → (k ≡ 0) ⊎ (256 ≤ q)
    → q * 2 ^ k ≤ p
    → p < q * 2 ^ k + 2 ^ k
    → Represents (k * 512 + q) p
rounds k p q e lt small full low high =
    let high_part : (k * 512 + q) / 512 ≡ k = omega arith in
    let low_part : (k * 512 + q) % 512 ≡ q = omega arith in
    rw (high_part, low_part) (omega arith, low, high, full)

at :
    (s k p : ℕ)
    → s ≡ k
    → k < 8
    → p / 2 ^ k < 512
    → (k ≡ 0) ⊎ (256 ≤ p / 2 ^ k)
    → (p / 2 ^ k) * 2 ^ k ≤ p
    → p < (p / 2 ^ k) * 2 ^ k + 2 ^ k
    → Represents (bit_or (s * 512) (p / 2 ^ s)) p
at s k p e lt small full low high =
    rw (e, joined k (p / 2 ^ k) small) (rounds k p (p / 2 ^ k) refl lt small full low high)

represented :
    (p : ℕ) → p < 65536 → Represents (bit_or (find_shift 7 p * 512) (p / 2 ^ find_shift 7 p)) p
represented p h = elim (find_shift_ranges p h) [
  | inl (e, l) ↦
      at (find_shift 7 p) 0 p e (omega arith) (omega arith) (inl refl) (omega arith) (omega arith)
  | inr (inl (e, l, f)) ↦
      at (find_shift 7 p) 1 p e (omega arith) l (inr f) (omega arith) (omega arith)
  | inr (inr (inl (e, l, f))) ↦
      at (find_shift 7 p) 2 p e (omega arith) l (inr f) (omega arith) (omega arith)
  | inr (inr (inr (inl (e, l, f)))) ↦
      at (find_shift 7 p) 3 p e (omega arith) l (inr f) (omega arith) (omega arith)
  | inr (inr (inr (inr (inl (e, l, f))))) ↦
      at (find_shift 7 p) 4 p e (omega arith) l (inr f) (omega arith) (omega arith)
  | inr (inr (inr (inr (inr (inl (e, l, f)))))) ↦
      at (find_shift 7 p) 5 p e (omega arith) l (inr f) (omega arith) (omega arith)
  | inr (inr (inr (inr (inr (inr (inl (e, l, f))))))) ↦
      at (find_shift 7 p) 6 p e (omega arith) l (inr f) (omega arith) (omega arith)
  | inr (inr (inr (inr (inr (inr (inr (e, l, f))))))) ↦
      at (find_shift 7 p) 7 p e (omega arith) l (inr f) (omega arith) (omega arith)
]

-- The twelve bits for a period of a running motor stand for that period rounded down in the last
-- place of a nine-bit mantissa, which is full where the value is shifted; a motor that does not run
-- reports the longest period.
pub erpm_to_12bit-Represents :
    (com_time : ℕ)
    → com_time < 65536
    → Represents (erpm_to_12bit com_time true) com_time
      × (erpm_to_12bit com_time false ≡ erpm_to_12bit 65535 true)
unfolding erpm_to_12bit
erpm_to_12bit-Represents com_time h = (represented com_time h, refl)
