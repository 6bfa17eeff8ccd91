-- ===== src/Drivers/Flash/DoubleWords.antt =====
-- What a flash of double words holds after it is programmed (rm32_stm32/src/mcu_g431/flash.rs, as
-- rm32_stm32/src/mcu_g071/flash.rs and rm32_stm32/src/mcu_l431/flash.rs).
use rm32_private.Base.{
  ℕ, zero, suc, ◌+◌, ◌*◌, ◌/◌, ◌%◌, ◌^◌, ◌≤◌, ◌<◌, ◌≡◌, ◌⊎◌, refl, ap, ◌∙◌, arith, or_shifted_right,
  List, [], ◌∷◌, get_or, take, drop, bit_or,
}
use rm32_private.Drivers.Flash.{word_of}
use rm32_private.Drivers.Flash.Device.{stored_word}
use rm32_private.Drivers.Flash.Programming.{IsBytes}

pub get_or-take : (n : ℕ) (xs : List ℕ) (i : ℕ) → i < n → get_or (take n xs) i 0 ≡ get_or xs i 0
get_or-take zero xs i h = absurd (omega arith)
get_or-take (suc n) [] i h = refl
get_or-take (suc n) (x ∷ xs) zero h = refl
get_or-take (suc n) (x ∷ xs) (suc i) h = get_or-take n xs i (omega arith)

pub get_or-drop : (n : ℕ) (xs : List ℕ) (i : ℕ) → get_or (drop n xs) i 0 ≡ get_or xs (n + i) 0
get_or-drop zero xs i = ap (λ k. get_or xs k 0) (omega arith)
get_or-drop (suc n) [] i = refl
get_or-drop (suc n) (x ∷ xs) i = get_or-drop n xs i ∙ ap (λ k. get_or (x ∷ xs) k 0) (shift n i)
  where
    shift : (n i : ℕ) → suc (n + i) ≡ suc n + i
    shift n i = omega arith

byte_at : (xs : List ℕ) (i : ℕ) → IsBytes xs → get_or xs i 0 < 256
byte_at [] i h = omega arith
byte_at (x ∷ xs) zero h = h.0
byte_at (x ∷ xs) (suc i) h = byte_at xs i h.1

pub drop-IsBytes : (n : ℕ) (xs : List ℕ) → IsBytes xs → IsBytes (drop n xs)
drop-IsBytes zero xs h = h
drop-IsBytes (suc n) [] h = h
drop-IsBytes (suc n) (x ∷ xs) h = drop-IsBytes n xs h.1

pub take-IsBytes : (n : ℕ) (xs : List ℕ) → IsBytes xs → IsBytes (take n xs)
take-IsBytes zero xs h = omega arith
take-IsBytes (suc n) [] h = h
take-IsBytes (suc n) (x ∷ xs) h = (h.0, take-IsBytes n xs h.1)

or_of : (k q r : ℕ) → r < 2 ^ k → bit_or r (q * 2 ^ k) ≡ q * 2 ^ k + r
or_of k q r h = or_shifted_right k q r h

word_of-sum :
    (xs : List ℕ)
    → IsBytes xs
    → word_of xs
      ≡ get_or xs 3 0 * 16777216 + (get_or xs 2 0 * 65536 + (get_or xs 1 0 * 256 + get_or xs 0 0))
unfolding word_of
word_of-sum xs h =
    let b0 = byte_at xs 0 h in
    let b1 = byte_at xs 1 h in
    let b2 = byte_at xs 2 h in
    let one = or_of 8 (get_or xs 1 0) (get_or xs 0 0) (omega arith) in
    let two = or_of 16 (get_or xs 2 0) (get_or xs 1 0 * 2 ^ 8 + get_or xs 0 0) (omega arith) in
    let three =
      or_of 24 (get_or xs 3 0) (get_or xs 2 0 * 2 ^ 16 + (get_or xs 1 0 * 2 ^ 8 + get_or xs 0 0))
        (omega arith) in
    rw (one, two, three) refl

-- Its four bytes.
word_bytes :
    (xs : List ℕ)
    → IsBytes xs
    → (word_of xs % 256 ≡ get_or xs 0 0)
      × (word_of xs / 256 % 256 ≡ get_or xs 1 0)
      × (word_of xs / 65536 % 256 ≡ get_or xs 2 0)
      × (word_of xs / 16777216 % 256 ≡ get_or xs 3 0)
word_bytes xs h =
    let s = word_of-sum xs h in
    let b0 = byte_at xs 0 h in
    let b1 = byte_at xs 1 h in
    let b2 = byte_at xs 2 h in
    let b3 = byte_at xs 3 h in (omega arith, omega arith, omega arith, omega arith)

-- A word that is stored at an address, byte by byte.
pub stored_word-at :
    (a : ℕ) (xs : List ℕ) (byte : ℕ → ℕ) (i : ℕ)
    → IsBytes xs
    → i < 4
    → stored_word a (word_of xs) byte (a + i) ≡ get_or xs i 0
stored_word-at a xs byte zero h lt = ground (arith, (word_bytes xs h).0)
stored_word-at a xs byte (suc zero) h lt = ground (arith, (word_bytes xs h).1)
stored_word-at a xs byte (suc (suc zero)) h lt = ground (arith, (word_bytes xs h).2)
stored_word-at a xs byte (suc (suc (suc zero))) h lt = ground (arith, (word_bytes xs h).3)
stored_word-at a xs byte (suc (suc (suc (suc i)))) h lt = absurd (omega arith)

pub stored_word-other :
    (a v : ℕ) (byte : ℕ → ℕ) (k : ℕ) → (k < a) ⊎ (a + 4 ≤ k) → stored_word a v byte k ≡ byte k
stored_word-other a v byte k h = ground arith
