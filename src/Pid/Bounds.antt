-- ===== src/Pid/Bounds.antt =====
-- The limits of the controller hold whatever the inputs, also where the arithmetic wraps
-- (rm32/src/pid.rs).
use rm32_private.Base.{ℕ, ◌≤◌, ◌<◌, ◌≡◌, refl, arith}
use rm32_private.Base.Int.{ℤ, pos, negate, pos_part, neg_part}
use rm32_private.Base.Word.{i32, i32_id}
use rm32_private.Pid.{Pid, calculate, limited}

-- `v` lies between -limit and limit.
abbrev pub Within : ℕ → ℤ → Type 0
Within limit v = (pos_part v ≤ limit) × (neg_part v ≤ limit)

negated : (n : ℕ) → n < 2147483648 → i32 (negate (pos n)) ≡ negate (pos n)
negated n h = i32_id (negate (pos n)) (ground arith)

pub limited-Within : (n : ℕ) (v : ℤ) → n < 2147483648 → Within n (limited (pos n) v)
unfolding limited
limited-Within n v h = rw (negated n h) (ground arith)

-- A value inside the limits passes unchanged.
pub limited_inside : (n : ℕ) (v : ℤ) → n < 2147483648 → Within n v → limited (pos n) v ≡ v
unfolding limited
limited_inside n v h w = rw (negated n h) (ground arith)

limit-Within : (n : ℕ) (l v : ℤ) → l ≡ pos n → n < 2147483648 → Within n (limited l v)
limit-Within n l v e h = rw e (limited-Within n v h)

-- With limits that are 32-bit numbers, one iteration leaves the integral and the output between
-- minus and plus their limits, whatever the inputs and gains; it returns the stored output, and
-- keeps the gains and limits.
pub calculate-Within :
    (actual target : ℤ) (p : Pid) (i o : ℕ)
    → p.integral_limit ≡ pos i
    → p.output_limit ≡ pos o
    → i < 2147483648
    → o < 2147483648
    → let (q, out) = calculate actual target p in
      Within i q.integral
      × Within o out
      × (q.pid_output ≡ out)
      × (q.integral_limit ≡ pos i)
      × (q.output_limit ≡ pos o)
      × (q.kp ≡ p.kp)
      × (q.ki ≡ p.ki)
      × (q.kd ≡ p.kd)
unfolding calculate
calculate-Within actual target p i o ei eo hi ho = (
  limit-Within i p.integral_limit _ ei hi,
  limit-Within o p.output_limit _ eo ho,
  refl,
  ei,
  eo,
  refl,
  refl,
  refl,
)
