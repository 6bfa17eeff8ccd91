-- ===== src/Sensors/Bits.antt =====
-- The fixed-point format as its bits, one that does what the crate documents.
use rm32_private.Base.{ℕ, ◌*◌, ◌/◌, refl, arith}
use rm32_private.Base.Word.{u32}
use rm32_private.Sensors.{FixedPoint, IsFixedPoint}

abbrev pub bits32 : FixedPoint ℕ
bits32 = record {
  zero_value = 0;
  from_num = λ n. u32 (n * 65536);
  from_bits = u32;
  to_bits = λ n. n;
  to_num = λ n. n / 65536;
  multiply = λ a b. u32 (a * b / 65536);
}

pub bits32-IsFixedPoint : IsFixedPoint bits32
bits32-IsFixedPoint = ((λ n h. omega arith), (λ n h. omega arith), (λ x. refl), (λ x y. refl))
