-- ===== src/Sine/Drive.antt =====
-- The sine table and the compare values (`sine_drive`, rm32/src/sine.rs).
use rm32_private.Base.{
  ℕ, ◌+◌, ◌*◌, ◌/◌, ◌%◌, ◌≤◌, ◌<◌, ◌≡◌, refl, ap, arith, Bool, true, false, ◌&&◌, ◌==◌, leb,
  if◌then◌else◌, max, get_or, all_below, all_below_sound,
}
use native.Mathlib.Nat.{mul-le-mul_right, mul-le-mul_left}
use rm32_private.Base.Int.{pos, ◌+ℤ◌, ◌*ℤ◌, ◌/ℤ◌, max_ℤ}
use rm32_private.Base.Word.{u16_of, i32, i32_id}
use rm32_private.Sine.{pwm_sin, scaled_duty, phase_duty, sine_drive}
use rm32_private.Sine.Phases.{positions}

abbrev pub sine_at : ℕ → ℕ
sine_at n = get_or pwm_sin (n % 360) 0

-- One row of the table: its bound, its opposite, and the three phases together.
abbrev balanced : ℕ → ℕ → ℕ → ℕ → Bool
balanced x opposite y z =
    (leb x 360 && (x + opposite == 360)) && (leb 539 (x + y + z) && leb (x + y + z) 541)

table_checks :
    all_below 360
      (λ n. balanced (sine_at n) (sine_at (n + 180)) (sine_at (n + 120)) (sine_at (n + 240)))
    ≡ true
unfolding all_below
table_checks = refl

balanced_lem :
    (x opposite y z : ℕ)
    → balanced x opposite y z ≡ true
    → (x ≤ 360) × (x + opposite ≡ 360) × (539 ≤ x + y + z) × (x + y + z ≤ 541)
balanced_lem x opposite y z h = ground arith

turn : (n k : ℕ) → sine_at (n % 360 + k) ≡ sine_at (n + k)
turn n k =
    ap (λ (m : ℕ). get_or pwm_sin m 0) {x = (n % 360 + k) % 360} {y = (n + k) % 360} (omega arith)

-- The table at every angle: at most 360, opposite angles add up to 360, and the three phases add up
-- to 540 give or take 1.
pub sine_at_lem :
    (n : ℕ)
    → (sine_at n ≤ 360)
      × (sine_at n + sine_at (n + 180) ≡ 360)
      × (539 ≤ sine_at n + sine_at (n + 120) + sine_at (n + 240))
      × (sine_at n + sine_at (n + 120) + sine_at (n + 240) ≤ 541)
sine_at_lem n =
    let row =
      all_below_sound 360
        (λ n. balanced (sine_at n) (sine_at (n + 180)) (sine_at (n + 120)) (sine_at (n + 240)))
        (n % 360) table_checks (omega arith) in
    let (a, b, c, d) =
      balanced_lem (sine_at (n % 360)) (sine_at (n % 360 + 180)) (sine_at (n % 360 + 120))
        (sine_at (n % 360 + 240)) row in
    let same = ap (λ (m : ℕ). get_or pwm_sin m 0) {x = n % 360 % 360} {y = n % 360} (omega arith) in
    (
      omega (arith, same),
      omega (arith, same, turn n 180),
      omega (arith, same, turn n 120, turn n 240),
      omega (arith, same, turn n 120, turn n 240),
    )

plain : (n : ℕ) → n < 2147483648 → i32 (pos n) ≡ pos n
plain n h = i32_id (pos n) (h, omega arith)

added : (a b : ℕ) → pos a +ℤ pos b ≡ pos (a + b)
unfolding ◌+ℤ◌
added a b = ground arith

word_bound : (n arr : ℕ) → n ≤ arr → arr < 65536 → u16_of (max_ℤ (pos 0) (pos n)) ≤ arr
unfolding u16_of
word_bound n arr h i = ground arith

weighed :
    (x arr power : ℕ)
    → x ≤ 2000
    → arr < 65536
    → power ≤ 10
    → (x * arr < 2147483648)
      × (x * arr / 2000 * power < 2147483648)
      × (x * arr / 2000 * power / 10 ≤ arr)
weighed x arr power h i j =
    let product = mul-le-mul_right {m = x} {n = 2000} arr h in
    let share = mul-le-mul_left {m = power} {n = 10} (x * arr / 2000) j in
    (omega arith, omega arith, omega arith)

scaled_duty-bound :
    (offset arr power amplitude : ℕ)
    → amplitude + offset ≤ 2000
    → arr < 65536
    → power ≤ 10
    → scaled_duty (pos offset) arr power amplitude ≤ arr
unfolding scaled_duty ◌*ℤ◌ ◌/ℤ◌
scaled_duty-bound offset arr power amplitude h i j =
    let x = amplitude + offset in
    let (p, q, r) = weighed x arr power h i j in
    rw
      (
        added amplitude offset,
        plain x (omega arith),
        plain (x * arr) p,
        plain (x * arr / 2000 * power) q,
      )
      (word_bound (x * arr / 2000 * power / 10) arr r i)

power-bound : (gimbal : Bool) (power : ℕ) → power ≤ 10 → (if gimbal then 10 else max power 1) ≤ 10
power-bound gimbal power h = ground arith

amplitude-bound :
    (gimbal : Bool) (s offset : ℕ)
    → s ≤ 360
    → offset ≤ 1280
    → 2 * s / (if gimbal then 1 else 2) + offset ≤ 2000
amplitude-bound true s offset h i = omega arith
amplitude-bound false s offset h i = omega arith

-- With a gate offset of at most 1280 and a power of at most 10, no phase's compare value passes the
-- timer's reload value.
pub sine_drive-bounds :
    (n offset arr power : ℕ) (gimbal : Bool)
    → offset ≤ 1280
    → arr < 65536
    → power ≤ 10
    → let (x, y, z) = sine_drive (positions n) (pos offset) arr power gimbal in
      (x ≤ arr) × (y ≤ arr) × (z ≤ arr)
unfolding sine_drive phase_duty
sine_drive-bounds n offset arr power gimbal h i j =
    let phase = λ (m : ℕ).
      scaled_duty-bound offset arr (if gimbal then 10 else max power 1)
        (2 * sine_at m / (if gimbal then 1 else 2))
        (amplitude-bound gimbal (sine_at m) offset ((sine_at_lem m).0) h) i
        (power-bound gimbal power j) in
    (phase n, phase (n + 120), phase (n + 240))
