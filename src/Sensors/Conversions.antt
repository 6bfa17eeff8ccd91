-- ===== src/Sensors/Conversions.antt =====
-- From the counts of the converter to volts and degrees (rm32/src/units.rs, rm32/src/ntc.rs).
use rm32_private.Base.{ℕ, ◌+◌, ◌*◌, ◌/◌, ◌≤◌, ◌<◌, ◌≡◌, ap, ◌∙◌, arith}
use rm32_private.Base.Int.{pos, ◌≤ℤ◌}
use rm32_private.Base.Word.{u16, u32}
use rm32_private.Sensors.{FixedPoint, IsFixedPoint, to_millivolts, ntc_table, ntc_degrees}

-- The hotter the lower the reading: the degrees never rise with the reading, and are 0 to 150.
pub ntc_degrees_antitone :
    (a b : ℕ)
    → a ≤ b
    → (ntc_degrees b ≤ℤ ntc_degrees a) × (pos 0 ≤ℤ ntc_degrees a) × (ntc_degrees a ≤ℤ pos 150)
unfolding ntc_degrees ntc_table
ntc_degrees_antitone a b h = (ground arith, ground arith, ground arith)

-- The millivolts at the pin, which the fixed-point product gives.
abbrev pub pin_millivolts : ℕ → ℕ
pin_millivolts count = 52812 * count / 65536

product :
    (count : ℕ)
    → count ≤ 4095
    → u32 (52812 * (count * 65536) / 65536) / 65536 ≡ pin_millivolts count
product count h = omega arith

-- For a reading of twelve bits the fixed-point constant gives the millivolts of the quotient
-- `count * 3300 / 4095`, or one less, and the divider scales these; nothing wraps where the result
-- fits its word.
pub to_millivolts_lem :
    {U : Type 0} (fixed : FixedPoint U) (voltage_divider count : ℕ)
    → IsFixedPoint fixed
    → count ≤ 4095
    → pin_millivolts count * voltage_divider / 100 < 65536
    → (to_millivolts fixed voltage_divider count ≡ pin_millivolts count * voltage_divider / 100)
      × (pin_millivolts count ≤ count * 3300 / 4095)
      × (count * 3300 / 4095 ≤ pin_millivolts count + 1)
unfolding to_millivolts
to_millivolts_lem fixed voltage_divider count (law_num, law_bits, law_to, law_mul) h j =
    let constant = law_bits 52812 (omega arith) in
    let reading = law_num count (omega arith) in
    (
      rw
          (
            law_to (fixed.multiply (fixed.from_bits 52812) (fixed.from_num count)),
            law_mul (fixed.from_bits 52812) (fixed.from_num count),
            constant,
            reading,
          )
          (ap (λ (t : ℕ). u16 (u32 (t * voltage_divider) / 100)) (product count h) ∙ omega arith),
      omega arith,
      omega arith,
    )
