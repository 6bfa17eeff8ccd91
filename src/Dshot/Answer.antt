-- ===== src/Dshot/Answer.antt =====
-- The receiver's reading of the GCR answer, and that it gets the value back (rm32/src/dshot.rs).
use rm32_private.Base.{
  ℕ, zero, suc, ◌+◌, ◌-◌, ◌*◌, ◌/◌, ◌%◌, ◌^◌, ◌≤◌, ◌<◌, ◌≡◌, refl, sym, ap, ◌∙◌, ◌==◌, ltb, ltb→lt,
  ==_iff, arith, if◌then◌else◌, bit_xor, bit_or, bit_and, or_shifted, and_mask, xor-lt, all_below,
  all_below_sound, List, [], ◌∷◌, get_or, set, length, length-set, get_or-set_self, Option, some,
  none,
}
use native.Mathlib.Nat.{div-add-mod, div-div-eq-div-mul, pow-suc}
use rm32_private.Base.Word.{u32}
use rm32_private.Dshot.{checksum, full_number, gcr_number, encode_gcr_frame, gcr_encode_table}
use rm32_private.Dshot.Gcr.{change, changes, stored}

-- The receiver's table: the nibble of a group of five bits. A group that is no code reads as 0 here,
-- and the checksum has to find it.
abbrev pub nibble_of : ℕ → ℕ
nibble_of code =
    get_or
      (0 ∷ 0 ∷ 0 ∷ 0 ∷ 0 ∷ 0 ∷ 0 ∷ 0 ∷ 0 ∷ 9 ∷ 10 ∷ 11 ∷ 0 ∷ 13 ∷ 14 ∷ 15 ∷ 0 ∷ 0 ∷ 2 ∷ 3 ∷ 0 ∷ 5
        ∷ 6 ∷ 7 ∷ 0 ∷ 0 ∷ 8 ∷ 1 ∷ 0 ∷ 4 ∷ 12 ∷ 0 ∷ [])
      code 0

abbrev code : ℕ → ℕ
code n = get_or gcr_encode_table n 0

code_small : (n : ℕ) → n < 16 → code n < 32
unfolding all_below
code_small n h = ltb→lt (code n) 32 (all_below_sound 16 (λ (k : ℕ). ltb (code k) 32) n refl h)

code_back : (n : ℕ) → n < 16 → nibble_of (code n) ≡ n
unfolding all_below
code_back n h =
    (==_iff (nibble_of (code n)) n).0
      (all_below_sound 16 (λ (k : ℕ). nibble_of (code k) == k) n refl h)

-- The number that the lowest `n` bits of the answer spell.
unfoldable pub read_bits : ℕ → ℕ → ℕ → List ℕ → ℕ
read_bits zero padding shift out = 0
read_bits (suc m) padding shift out =
    change padding shift out m * 2 ^ m + read_bits m padding shift out

one_bit_more : (a m : ℕ) → a % 2 ^ suc m ≡ (a / 2 ^ m % 2) * 2 ^ m + a % 2 ^ m
one_bit_more a m =
    let k = 2 ^ m in
    let d = a / k / 2 in
    let r = a / k % 2 in
    let split : a / k ≡ 2 * d + r = omega arith in
    let spread : k * (a / k) ≡ 2 * (k * d) + r * k = ap (λ (t : ℕ). k * t) split ∙ omega arith in
    let deep : a / (k * 2) ≡ d = sym (div-div-eq-div-mul a k 2) in
    let wide : k * 2 * (a / (k * 2)) ≡ 2 * (k * d) = ap (λ (t : ℕ). k * 2 * t) deep ∙ omega arith in
    let power : 2 ^ suc m ≡ k * 2 = omega (arith, pow-suc 2 m) in
    rw power (omega (arith, spread, wide, div-add-mod a k, div-add-mod a (k * 2)))

read_bits_lem :
    (number padding shift : ℕ) (out : List ℕ) (n : ℕ)
    → ((m : ℕ) → m < n → change padding shift out m ≡ number / 2 ^ m % 2)
    → read_bits n padding shift out ≡ number % 2 ^ n
unfolding read_bits
read_bits_lem number padding shift out zero h = omega arith
read_bits_lem number padding shift out (suc m) h =
    let ih = read_bits_lem number padding shift out m (λ j k. h j (omega arith)) in
    rw (h m (omega arith), ih) (sym (one_bit_more number m))

-- The four groups of five bits.
groups :
    (a b c d : ℕ)
    → b < 32
    → c < 32
    → d < 32
    → bit_or (bit_or (bit_or (a * 32768) (b * 1024)) (c * 32)) d ≡ ((a * 32 + b) * 32 + c) * 32 + d
groups a b c d hb hc hd =
    let first : bit_or (a * 32768) (b * 1024) ≡ (a * 32 + b) * 1024 =
      or_shifted 15 a (b * 1024) (omega arith) ∙ omega arith in
    let second : bit_or ((a * 32 + b) * 1024) (c * 32) ≡ ((a * 32 + b) * 32 + c) * 32 =
      or_shifted 10 (a * 32 + b) (c * 32) (omega arith) ∙ omega arith in
    rw (first, second) (or_shifted 5 ((a * 32 + b) * 32 + c) d hd)

-- The receiver: the four nibbles of the answer, whose exclusive or has to be 15.
unfoldable pub read_answer : ℕ → ℕ → List ℕ → Option ℕ
read_answer padding shift out =
    let number = read_bits 20 padding shift out in
    let a = nibble_of (number / 32768) in
    let b = nibble_of (number / 1024 % 32) in
    let c = nibble_of (number / 32 % 32) in
    let d = nibble_of (number % 32) in
    if bit_xor (bit_xor (bit_xor a b) c) d == 15 then some (a * 256 + b * 16 + c) else none

inverse_nibble : (y : ℕ) → y < 16 → bit_xor y (15 - y) ≡ 15
unfolding all_below
inverse_nibble y h =
    (==_iff (bit_xor y (15 - y)) 15).0
      (all_below_sound 16 (λ (k : ℕ). bit_xor k (15 - k) == 15) y refl h)

abbrev parity : ℕ → ℕ
parity value = bit_xor (bit_xor (value / 256) (value / 16 % 16)) (value % 16)

checksum_eq : (value : ℕ) → value < 4096 → checksum value ≡ 15 - parity value
unfolding checksum all_below
checksum_eq value h =
    (==_iff (checksum value) (15 - parity value)).0
      (all_below_sound 4096 (λ (k : ℕ). checksum k == 15 - parity k) value refl h)

parity_small : (value : ℕ) → value < 4096 → parity value < 16
parity_small value h =
    xor-lt 4 (bit_xor (value / 256) (value / 16 % 16)) (value % 16)
      (xor-lt 4 (value / 256) (value / 16 % 16) (omega arith) (omega arith)) (omega arith)

full_eq : (value : ℕ) → value < 4096 → full_number value ≡ value * 16 + (15 - parity value)
unfolding full_number
full_eq value h = rw (checksum_eq value h) (
    ap (λ (t : ℕ). bit_or t (15 - parity value)) (omega arith)
    ∙ or_shifted 4 value (15 - parity value) (omega arith))

-- The four nibbles that are coded.
module _ (value : ℕ) (value<4096 : value < 4096) where
  abbrev coded : ℕ
  coded =
      ((code (value / 256) * 32 + code (value / 16 % 16)) * 32 + code (value % 16)) * 32
      + code (15 - parity value)

  number_eq : gcr_number (full_number value) ≡ coded
  unfolding gcr_number
  number_eq =
      let full = value * 16 + (15 - parity value) in
      let lt = parity_small value value<4096 in
      let n3 : full / 4096 ≡ value / 256 = omega arith in
      let n2 : bit_and (full / 256) 15 ≡ value / 16 % 16 = and_mask 4 (full / 256) ∙ omega arith in
      let n1 : bit_and (full / 16) 15 ≡ value % 16 = and_mask 4 (full / 16) ∙ omega arith in
      let n0 : bit_and full 15 ≡ 15 - parity value = and_mask 4 full ∙ omega arith in
      rw (full_eq value value<4096, n3, n2, n1, n0)
        (groups (code (value / 256)) (code (value / 16 % 16)) (code (value % 16))
          (code (15 - parity value)) (code_small (value / 16 % 16) (omega arith))
          (code_small (value % 16) (omega arith)) (code_small (15 - parity value) (omega arith)))

  coded_small : coded < 1048576
  coded_small = omega (
    arith,
    code_small (value / 256) (omega arith),
    code_small (value / 16 % 16) (omega arith),
    code_small (value % 16) (omega arith),
    code_small (15 - parity value) (omega arith),
  )

module _ (value padding shift : ℕ) (out : List ℕ) (value<4096 : value < 4096)
    (shift<31 : shift < 31) (long : padding + 22 ≤ length out) where
  abbrev begun : List ℕ
  begun = set (set out padding 0) (1 + padding) (u32 (2 ^ shift))

  begun_level : get_or begun (padding + 21 - 20) 0 ≡ 1 * 2 ^ shift
  begun_level =
      ap (λ (j : ℕ). get_or begun j 0) (omega arith)
      ∙ get_or-set_self (set out padding 0) (1 + padding) (u32 (2 ^ shift)) 0
          (omega (arith, length-set out padding 0))
      ∙ ap u32 (omega arith)
      ∙ stored 1 shift (omega arith) shift<31

  begun_long : padding + 22 ≤ length begun
  begun_long = omega (
    arith,
    length-set out padding 0,
    length-set (set out padding 0) (1 + padding) (u32 (2 ^ shift)),
  )

  spelled :
      read_bits 20 padding shift (encode_gcr_frame value out padding shift) ≡ coded value value<4096
  unfolding encode_gcr_frame
  spelled =
      read_bits_lem (gcr_number (full_number value)) padding shift
        (encode_gcr_frame value out padding shift) 20
        (changes (gcr_number (full_number value)) padding shift shift<31 20 1 begun (omega arith)
          begun_long (omega arith) begun_level)
      ∙ rw (number_eq value value<4096) (omega (arith, coded_small value value<4096))

  -- What the receiver makes of a number whose groups are codes.
  abbrev received : ℕ → Option ℕ
  received number =
      let a = nibble_of (number / 32768) in
      let b = nibble_of (number / 1024 % 32) in
      let c = nibble_of (number / 32 % 32) in
      let d = nibble_of (number % 32) in
      if bit_xor (bit_xor (bit_xor a b) c) d == 15 then some (a * 256 + b * 16 + c) else none

  accepted : received (coded value value<4096) ≡ some value
  accepted =
      let c2 = code_small (value / 16 % 16) (omega arith) in
      let c1 = code_small (value % 16) (omega arith) in
      let c0 = code_small (15 - parity value) (omega arith) in
      let n = coded value value<4096 in
      let g3 : n / 32768 ≡ code (value / 256) = omega arith in
      let g2 : n / 1024 % 32 ≡ code (value / 16 % 16) = omega arith in
      let g1 : n / 32 % 32 ≡ code (value % 16) = omega arith in
      let g0 : n % 32 ≡ code (15 - parity value) = omega arith in
      let whole : value / 256 * 256 + value / 16 % 16 * 16 + value % 16 ≡ value = omega arith in
      rw
        (
          g3,
          g2,
          g1,
          g0,
          code_back (value / 256) (omega arith),
          code_back (value / 16 % 16) (omega arith),
          code_back (value % 16) (omega arith),
          code_back (15 - parity value) (omega arith),
          inverse_nibble (parity value) (parity_small value value<4096),
        )
        (ap some whole)

-- The receiver gets back every twelve-bit value that is encoded, whatever the buffer held before, the
-- padding and the shift, as long as the buffer has room for the answer and the level fits a word.
pub read_answer-encode_gcr_frame :
    (value padding shift : ℕ) (out : List ℕ)
    → value < 4096
    → shift < 31
    → padding + 22 ≤ length out
    → read_answer padding shift (encode_gcr_frame value out padding shift) ≡ some value
unfolding read_answer
read_answer-encode_gcr_frame value padding shift out h k l =
    ap (received value padding shift out h k l) (spelled value padding shift out h k l)
    ∙ accepted value padding shift out h k l
