-- ===== src/Base/Bits.antt =====
-- `|`, `&` and `^` at variables, through the law of the lowest binary digit.
use Prim.Native.Nat.{
  ℕ, zero, suc, ◌+◌, ◌-◌, ◌*◌, ◌/◌, ◌%◌, ◌^◌, ◌≤◌, ◌<◌, min, max, bit_and, bit_or, bit_xor, digits,
  differ,
}
use Prim.Native.Nat.{bitwise, bit_and-bitwise, bit_or-bitwise, bit_xor-bitwise}
use mathlib.Core.Path.{◌≡◌, refl, ap, ◌∙◌}
use native.Mathlib.Nat.{pow-suc, one-le-pow, le_refl}
use native.Mathlib.Omega.{arith}

-- `digits` is given more rounds than it needs: any two numbers of rounds that reach the value give
-- the same digits.
module _ (only_left : ℕ → ℕ) (digit : ℕ → ℕ → ℕ) where
  rounds_agree :
      (k l x y : ℕ) → x ≤ k → x ≤ l → digits only_left digit k x y ≡ digits only_left digit l x y
  rounds_agree zero zero x y h i = refl
  rounds_agree zero (suc l) zero y h i = refl
  rounds_agree (suc k) zero zero y h i = refl
  rounds_agree (suc k) (suc l) zero y h i = refl
  rounds_agree (suc k) (suc l) (suc x) y h i =
      rw (rounds_agree k l (suc x / 2) (y / 2) (omega arith) (omega arith))
  rounds_agree zero l (suc x) y h i = absurd (omega arith)
  rounds_agree (suc k) zero (suc x) y h i = absurd (omega arith)

  low_digit :
      (x y : ℕ)
      → bitwise only_left digit (suc x) y
        ≡ digit (suc x % 2) (y % 2) + 2 * bitwise only_left digit (suc x / 2) (y / 2)
  low_digit x y =
      let same = rounds_agree x (suc x / 2) (suc x / 2) (y / 2) (omega arith) (le_refl _) in
      omega (arith, same)

-- The lowest digit of each operation, and the operation on the rest.
pub bit_and_step : (x y : ℕ) → bit_and x y ≡ min (x % 2) (y % 2) + 2 * bit_and (x / 2) (y / 2)
bit_and_step zero y = simp bit_and-bitwise (omega arith)
bit_and_step (suc x) y = simp bit_and-bitwise (low_digit (λ z. 0) min x y)

pub bit_or_step : (x y : ℕ) → bit_or x y ≡ max (x % 2) (y % 2) + 2 * bit_or (x / 2) (y / 2)
bit_or_step zero y = simp bit_or-bitwise (omega arith)
bit_or_step (suc x) y = simp bit_or-bitwise (low_digit (λ z. z) max x y)

below_half : (n a : ℕ) → a ≤ suc n → a / 2 ≤ n
below_half n a h = omega arith

bit_or-zero_below : (n a : ℕ) → a ≤ n → bit_or a 0 ≡ a
bit_or-zero_below n zero h = refl
bit_or-zero_below zero (suc a) h = absurd (omega arith)
bit_or-zero_below (suc n) (suc a) h =
    omega (arith, bit_or_step (suc a) 0, bit_or-zero_below n (suc a / 2) (below_half n (suc a) h))

pub bit_or-zero : (a : ℕ) → bit_or a 0 ≡ a
bit_or-zero a = bit_or-zero_below a a (le_refl a)

bit_and-zero_below : (n a : ℕ) → a ≤ n → bit_and a 0 ≡ 0
bit_and-zero_below n zero h = refl
bit_and-zero_below zero (suc a) h = absurd (omega arith)
bit_and-zero_below (suc n) (suc a) h =
    omega (arith, bit_and_step (suc a) 0, bit_and-zero_below n (suc a / 2) (below_half n (suc a) h))

pub bit_and-zero : (a : ℕ) → bit_and a 0 ≡ 0
bit_and-zero a = bit_and-zero_below a a (le_refl a)

doubled : (q k : ℕ) → q * 2 ^ suc k ≡ 2 * (q * 2 ^ k)
doubled q k = omega (arith, ap (λ (t : ℕ). q * t) (pow-suc 2 k))

-- `(q << k) | r` is a sum where `r` has at most `k` bits, and so is `r | (q << k)`.
pub or_shifted : (k q r : ℕ) → r < 2 ^ k → bit_or (q * 2 ^ k) r ≡ q * 2 ^ k + r
or_shifted zero q r h = ground (arith, bit_or-zero q)
or_shifted (suc k) q r h =
    ground (arith, bit_or_step (q * 2 ^ suc k) r, doubled q k, or_shifted k q (r / 2) (omega arith))

zero-bit_or : (b : ℕ) → bit_or 0 b ≡ b
zero-bit_or b = simp bit_or-bitwise

pub or_shifted_right : (k q r : ℕ) → r < 2 ^ k → bit_or r (q * 2 ^ k) ≡ q * 2 ^ k + r
or_shifted_right zero q zero h = ground (arith, zero-bit_or (q * 2 ^ 0))
or_shifted_right zero q (suc r) h = absurd (omega arith)
or_shifted_right (suc k) q r h =
    ground (
      arith,
      bit_or_step r (q * 2 ^ suc k),
      doubled q k,
      or_shifted_right k q (r / 2) (omega arith),
    )

and_low_bits : (k q r : ℕ) → r < 2 ^ k → bit_and (q * 2 ^ k + r) (2 ^ k - 1) ≡ r
and_low_bits zero q r h = ground (arith, bit_and-zero (q + r))
and_low_bits (suc k) q r h = ground (
  arith,
  bit_and_step (q * 2 ^ suc k + r) (2 ^ suc k - 1),
  doubled q k,
  pow-suc 2 k,
  one-le-pow k 2,
  and_low_bits k q (r / 2) (omega arith),
)

-- A mask of `k` ones is the remainder by `2 ^ k`.
pub and_mask : (k a : ℕ) → bit_and a (2 ^ k - 1) ≡ a % 2 ^ k
and_mask k a = ground (arith, one-le-pow k 2, and_low_bits k (a / 2 ^ k) (a % 2 ^ k))

differ-bits : (a b : ℕ) → a < 2 → b < 2 → differ a b ≡ (a + b) % 2
differ-bits zero zero h k = refl
differ-bits zero (suc zero) h k = refl
differ-bits (suc zero) zero h k = refl
differ-bits (suc zero) (suc zero) h k = refl
differ-bits zero (suc (suc b)) h k = absurd (omega arith)
differ-bits (suc (suc a)) b h k = absurd (omega arith)
differ-bits (suc zero) (suc (suc b)) h k = absurd (omega arith)

pub bit_xor_step : (x y : ℕ) → bit_xor x y ≡ (x % 2 + y % 2) % 2 + 2 * bit_xor (x / 2) (y / 2)
bit_xor_step zero y = simp bit_xor-bitwise (omega arith)
bit_xor_step (suc x) y = simp bit_xor-bitwise (
    low_digit (λ z. z) differ x y
    ∙ ap (λ (t : ℕ). t + 2 * bitwise (λ z. z) differ (suc x / 2) (y / 2))
        (differ-bits (suc x % 2) (y % 2) (omega arith) (omega arith)))

-- Exclusive or of a word with itself is 0, and a second exclusive or takes the first one back.
xor_self_below : (n a : ℕ) → a ≤ n → bit_xor a a ≡ 0
xor_self_below n zero h = refl
xor_self_below zero (suc a) h = absurd (omega arith)
xor_self_below (suc n) (suc a) h =
    omega
      (arith, bit_xor_step (suc a) (suc a), xor_self_below n (suc a / 2) (below_half n (suc a) h))

pub xor_self : (a : ℕ) → bit_xor a a ≡ 0
xor_self a = xor_self_below a a (le_refl a)

xor_cancel_below : (n a b : ℕ) → a ≤ n → b ≤ n → bit_xor (bit_xor a b) b ≡ a
xor_cancel_below zero zero zero h k = refl
xor_cancel_below zero (suc a) b h k = absurd (omega arith)
xor_cancel_below zero zero (suc b) h k = absurd (omega arith)
xor_cancel_below (suc n) a b h k =
    let ih = xor_cancel_below n (a / 2) (b / 2) (below_half n a h) (below_half n b k) in
    let inner = bit_xor_step a b in
    let half : bit_xor a b / 2 ≡ bit_xor (a / 2) (b / 2) = omega arith in
    let low : bit_xor a b % 2 ≡ (a % 2 + b % 2) % 2 = omega arith in
    bit_xor_step (bit_xor a b) b ∙ rw (half, low, ih) (omega arith)

pub xor_cancel : (a b : ℕ) → bit_xor (bit_xor a b) b ≡ a
xor_cancel a b = xor_cancel_below (a + b) a b (omega arith) (omega arith)

-- Exclusive or of two words of `k` bits has `k` bits.
pub xor-lt : (k a b : ℕ) → a < 2 ^ k → b < 2 ^ k → bit_xor a b < 2 ^ k
xor-lt zero a b h k = ground (arith, bit_xor_step a b)
xor-lt (suc k) a b h j = omega (
  arith,
  bit_xor_step a b,
  pow-suc 2 k,
  xor-lt k (a / 2) (b / 2) (ground (arith, pow-suc 2 k)) (ground (arith, pow-suc 2 k)),
)

xor_comm_below : (n a b : ℕ) → a ≤ n → b ≤ n → bit_xor a b ≡ bit_xor b a
xor_comm_below zero zero zero h k = refl
xor_comm_below zero (suc a) b h k = absurd (omega arith)
xor_comm_below zero zero (suc b) h k = absurd (omega arith)
xor_comm_below (suc n) a b h k =
    let ih = xor_comm_below n (a / 2) (b / 2) (below_half n a h) (below_half n b k) in
    omega (arith, bit_xor_step a b, bit_xor_step b a, ih)

pub xor_comm : (a b : ℕ) → bit_xor a b ≡ bit_xor b a
xor_comm a b = xor_comm_below (a + b) a b (omega arith) (omega arith)
