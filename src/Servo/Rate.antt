-- ===== src/Servo/Rate.antt =====
-- How fast the servo throttle moves (`rate_limit`, rm32/src/servo.rs).
use rm32_private.Base.{ℕ, ◌+◌, ◌-◌, ◌≤◌, ◌<◌, ◌≡◌, ◌⊎◌, inl, inr, if◌then◌else◌, arith, ltb}
use rm32_private.Base.Int.{pos, ◌+ℤ◌, ◌-ℤ◌, ltb_ℤ}
use rm32_private.Base.Word.{i32, u16_of, u16_of_pos}
use rm32_private.Servo.{ServoState, rate_limit}

-- The comparisons and the sums stay inside 32 bits.
module _ (a b m : ℕ) (a<32768 : a < 32768) (b<32768 : b < 32768) (m<32768 : m < 32768) where
  gap : ltb_ℤ (pos m) (i32 (pos a -ℤ pos b)) ≡ ltb (b + m) a
  unfolding ◌-ℤ◌ i32
  gap = ground arith

  raised : u16_of (i32 (pos a +ℤ pos m)) ≡ a + m
  unfolding ◌+ℤ◌ i32 u16_of
  raised = ground arith

  lowered : m ≤ a → u16_of (i32 (pos a -ℤ pos m)) ≡ a - m
  unfolding ◌-ℤ◌ i32 u16_of
  lowered h = ground arith

at_most : (a b : ℕ) → (a ≤ b) ⊎ (b < a)
at_most a b = omega arith

below :
    (c t m : ℕ)
    → c < 32768
    → t < 32768
    → m < 32768
    → (u16_of (i32 (pos c -ℤ pos m)) ≡ c - m) ⊎ (c ≤ t + m)
below c t m hc ht hm = elim (at_most m c) [
  | inl le ↦ inl (lowered c t m hc ht hm le)
  | inr lt ↦ inr (omega arith)
]

chosen :
    (c t m down straight : ℕ)
    → (down ≡ c - m) ⊎ (c ≤ t + m)
    → straight ≡ t
    → let r = if ltb (c + m) t then c + m else if ltb (t + m) c then down else straight in
      ((r ≡ t) × (t ≤ c + m) × (c ≤ t + m)) ⊎ ((r ≡ c + m) × (r < t)) ⊎ ((r ≡ c - m) × (t < r))
chosen c t m down straight h k = ground arith

-- The throttle is the wanted one if that is at most the allowed change away, and otherwise one whole
-- change towards it; it never moves by more than the change.
pub rate_limit_lem :
    (s : ServoState) (target current : ℕ)
    → target < 32768
    → current < 32768
    → s.max_deviation < 32768
    → let r = rate_limit current (record s { raw_input = pos target }) in
      ((r ≡ target) × (target ≤ current + s.max_deviation) × (current ≤ target + s.max_deviation))
      ⊎ ((r ≡ current + s.max_deviation) × (r < target))
      ⊎ ((r ≡ current - s.max_deviation) × (target < r))
unfolding rate_limit
rate_limit_lem s target current a b c =
    let m = s.max_deviation in
    rw (gap target current m a b c, gap current target m b a c, raised current target m b a c)
      (chosen current target m (u16_of (i32 (pos current -ℤ pos m))) (u16_of (pos target))
        (below current target m b a c) (u16_of_pos target (omega arith)))
