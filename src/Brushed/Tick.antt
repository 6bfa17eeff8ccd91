-- ===== src/Brushed/Tick.antt =====
-- The duty of the brushed motor (`brushed_tick`, rm32/src/brushed.rs).
use rm32_private.Base.{
  ℕ, zero, suc, ◌-◌, ◌*◌, ◌/◌, ◌≤◌, ◌<◌, ◌≡◌, refl, arith, inl, inr, Bool, Bool-cases, true, false,
  ltb, leb,
}
use native.Mathlib.Nat.{mul-le-mul_right}
use rm32_private.Base.Int.{ℤ, pos, negsuc, sub_ℕ, clamp_ℤ, ◌+ℤ◌, ◌-ℤ◌, ◌*ℤ◌, ◌/ℤ◌, ◌≤ℤ◌}
use rm32_private.Base.Word.{i32, u16_of}
use rm32_private.Functions.{map}
use rm32_private.Functions.Interpolate.{map_increasing}
use rm32_private.Brushed.{BrushedState, brushed_tick}

word_below : (z : ℤ) (hi : ℕ) → pos 0 ≤ℤ z → z ≤ℤ pos hi → hi < 65536 → u16_of z ≤ hi
unfolding u16_of
word_below (pos n) hi h i j = omega arith
word_below (negsuc n) hi h i j = absurd (omega arith)

rising :
    (x lo hi m : ℕ)
    → lo < hi
    → hi < 65536
    → m < 65536
    → u16_of (map (pos x) (pos lo) (pos hi) (pos 0) (pos m)) ≤ m
rising x lo hi m h i j =
    let (a, b, c, d, e) =
      map_increasing x x lo hi 0 m h (omega arith) (omega arith) (omega arith) (omega arith) in
    word_below (map (pos x) (pos lo) (pos hi) (pos 0) (pos m)) m a c j

below_end : (x : ℕ) → x ≤ 1047 → i32 (pos x -ℤ pos 1047) ≡ sub_ℕ 0 (1047 - x)
unfolding i32 ◌-ℤ◌
below_end x h = ground arith

debt : (n : ℕ) → sub_ℕ 0 (suc n) ≡ negsuc n
debt n = ground arith

scaled : (k m : ℕ) → sub_ℕ 0 k *ℤ pos m ≡ sub_ℕ 0 (k * m)
unfolding ◌*ℤ◌
scaled zero m = ground arith
scaled (suc k) m = rw (debt k) refl

shared_out : (n : ℕ) → sub_ℕ 0 n /ℤ negsuc 998 ≡ pos (n / 999)
unfolding ◌/ℤ◌
shared_out zero = refl
shared_out (suc n) = rw (debt n) refl

inside : (x : ℕ) → 48 ≤ x → x ≤ 1047 → clamp_ℤ (pos 48) (pos 1047) (pos x) ≡ pos x
inside x h i = ground arith

plain_range : (m : ℕ) → m < 65536 → i32 (pos m -ℤ pos 0) ≡ pos m
unfolding i32 ◌-ℤ◌
plain_range m h = ground arith

width : i32 (pos 48 -ℤ pos 1047) ≡ negsuc 998
unfolding i32 ◌-ℤ◌
width = refl

plain_sum : (n : ℕ) → n < 65536 → i32 (pos n +ℤ pos 0) ≡ pos n
unfolding i32 ◌+ℤ◌
plain_sum n h = ground arith

share : (x m : ℕ) → 48 ≤ x → (1047 - x) * m / 999 ≤ m
share x m h = omega (arith, mul-le-mul_right {m = 1047 - x} {n = 999} m (omega arith))

falling :
    (x m : ℕ)
    → 48 ≤ x
    → x ≤ 1047
    → m < 65536
    → map (pos x) (pos 1047) (pos 48) (pos 0) (pos m) ≡ pos ((1047 - x) * m / 999)
unfolding map
falling x m h i j =
    rw
      (
        inside x h i,
        below_end x i,
        plain_range m j,
        width,
        scaled (1047 - x) m,
        shared_out ((1047 - x) * m),
      )
      (plain_sum ((1047 - x) * m / 999) (omega (arith, share x m h)))

falling_word :
    (x m : ℕ)
    → 48 ≤ x
    → x ≤ 1047
    → m < 65536
    → u16_of (map (pos x) (pos 1047) (pos 48) (pos 0) (pos m)) ≤ m
falling_word x m h i j =
    rw (falling x m h i j)
      (word_below (pos ((1047 - x) * m / 999)) m (omega arith) (omega (arith, share x m h)) j)

stopped :
    (input : ℕ) (bidirectional : Bool) (max_duty : ℕ) (s : BrushedState)
    → input < 48
    → ((brushed_tick input bidirectional max_duty s).1).duty ≡ 0
unfolding brushed_tick
stopped input bidirectional max_duty s h =
    let low : ltb input 48 ≡ true = ground arith in rw low refl

one_way :
    (input max_duty : ℕ) (s : BrushedState)
    → max_duty < 65536
    → ((brushed_tick input false max_duty s).1).duty ≤ max_duty * 95 / 100
unfolding brushed_tick
one_way input max_duty s h = elim (Bool-cases (ltb input 48)) [
  | inl low ↦ rw low (omega arith)
  | inr high ↦
      rw high (rising input 48 2047 (max_duty * 95 / 100) (omega arith) (omega arith) (omega arith))
]

at_most :
    (input : ℕ) (bidirectional : Bool) (max_duty : ℕ) (s : BrushedState)
    → max_duty < 65536
    → ((brushed_tick input bidirectional max_duty s).1).duty ≤ max_duty
unfolding brushed_tick
at_most input false max_duty s h = omega (arith, one_way input max_duty s h)
at_most input true max_duty s h = elim (Bool-cases (ltb input 48)) [
  | inl low ↦ rw low (omega arith)
  | inr high ↦ elim (Bool-cases (leb 1048 input)) [
    | inl up ↦ rw (high, up) (rising input 1048 2047 max_duty (omega arith) (omega arith) h)
    | inr down ↦ rw (high, down) (falling_word input max_duty (ground arith) (ground arith) h)
  ]
]

-- The duty never passes the given limit; below 48 it is 0, and with one direction at most 95 percent
-- of the limit.
pub brushed_tick-bounds :
    (input : ℕ) (bidirectional : Bool) (max_duty : ℕ) (s : BrushedState)
    → max_duty < 65536
    → (((brushed_tick input bidirectional max_duty s).1).duty ≤ max_duty)
      × (input < 48 → ((brushed_tick input bidirectional max_duty s).1).duty ≡ 0)
      × (((brushed_tick input false max_duty s).1).duty ≤ max_duty * 95 / 100)
brushed_tick-bounds input bidirectional max_duty s h = (
  at_most input bidirectional max_duty s h,
  stopped input bidirectional max_duty s,
  one_way input max_duty s h,
)
