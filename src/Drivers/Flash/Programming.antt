-- ===== src/Drivers/Flash/Programming.antt =====
-- What a flash of half-words holds after a write (rm32_stm32/src/flash.rs, rm32_stm32/src/mcu_f051/flash.rs).
use rm32_private.Base.{
  ℕ, ◌+◌, ◌*◌, ◌/◌, ◌%◌, ◌≤◌, ◌<◌, ◌≡◌, ◌≢◌, ◌⊎◌, inl, refl, ap, ◌∙◌, arith, or_shifted_right, Bool,
  true, false, List, [], ◌∷◌, ◌++◌, length, if◌then◌else◌,
}
use mathlib.Core.Path.{ap₂}
use rm32_private.Drivers.Flash.{
  FlashCall, half_of, program_halves, flash_read, set_cr, store_half, wait_bsy, clear_cr,
}
use rm32_private.Drivers.Flash.Device.{Device, stored, free, access, access_all}

-- Bytes.
abbrev pub IsBytes : List ℕ → Type 0
IsBytes [] = 0 ≤ 0
IsBytes (x ∷ xs) = (x < 256) × IsBytes xs

half_of-sum : (x y : ℕ) → x < 256 → half_of x y ≡ y * 256 + x
unfolding half_of
half_of-sum x y h = or_shifted_right 8 y x h

-- One programmed half-word.
abbrev halved : ℕ → ℕ → List FlashCall
halved a v = set_cr 1 ∷ store_half a v ∷ wait_bsy ∷ clear_cr 1 ∷ []

abbrev after_half : ℕ → ℕ → Device → Device
after_half a v d = record d { programming = false; byte = stored a v d.byte }

chosen_byte : (b : Bool) (m n : ℕ → ℕ) → b ≡ true → (if b then m else n) ≡ m
chosen_byte b m n h = rw h refl

is_free :
    (a : ℕ) (d : Device)
    → d.locked ≡ false
    → d.programming ≡ true
    → d.byte a ≡ 255
    → d.byte (a + 1) ≡ 255
    → free a d ≡ true
is_free a d l p x y = rw (l, p, x, y) refl

pub access_all-append :
    (cs ds : List FlashCall) (d : Device)
    → access_all (cs ++ ds) d ≡ access_all ds (access_all cs d)
unfolding access_all
access_all-append [] ds d = refl
access_all-append (c ∷ cs) ds d = access_all-append cs ds (access c d)

access_all-halved :
    (a v : ℕ) (d : Device)
    → d.locked ≡ false
    → d.byte a ≡ 255
    → d.byte (a + 1) ≡ 255
    → access_all (halved a v) d ≡ after_half a v d
unfolding access_all
access_all-halved a v d l x y =
    ap (λ b. record d { programming = false; byte = b })
      (chosen_byte (free a (record d { programming = true })) (stored a v d.byte) d.byte
        (is_free a (record d { programming = true }) l refl x y))

stored-other : (a v : ℕ) (byte : ℕ → ℕ) (k : ℕ) → k ≢ a → k ≢ a + 1 → stored a v byte k ≡ byte k
stored-other a v byte k p q = ground arith

stored-first : (a v : ℕ) (byte : ℕ → ℕ) → stored a v byte a ≡ v % 256
stored-first a v byte = ground arith

stored-second : (a v : ℕ) (byte : ℕ → ℕ) → stored a v byte (a + 1) ≡ v / 256
stored-second a v byte = ground arith

-- The bytes that a number of half-words takes.
abbrev pub padded : List ℕ → ℕ
padded bytes = 2 * ((length bytes + 1) / 2)

abbrev pub IsErased : ℕ → ℕ → Device → Type 0
IsErased a n d = (k : ℕ) → a ≤ k → k < a + n → d.byte k ≡ 255

-- The first half-word leaves the rest erased.
rest-IsErased :
    (a v x y : ℕ) (rest : List ℕ) (d : Device)
    → IsErased a (padded (x ∷ y ∷ rest)) d
    → IsErased (a + 2) (padded rest) (after_half a v d)
rest-IsErased a v x y rest d e k h i =
    stored-other a v d.byte k (λ p. omega arith) (λ p. omega arith)
    ∙ e k (omega arith) (omega arith)

first_half :
    (a v x y : ℕ) (rest : List ℕ) (d : Device)
    → d.locked ≡ false
    → IsErased a (padded (x ∷ y ∷ rest)) d
    → access_all (halved a v) d ≡ after_half a v d
first_half a v x y rest d l e =
    access_all-halved a v d l (e a (omega arith) (omega arith))
      (e (a + 1) (omega arith) (omega arith))

last_half :
    (a v x : ℕ) (d : Device)
    → d.locked ≡ false
    → IsErased a (padded (x ∷ [])) d
    → access_all (halved a v) d ≡ after_half a v d
last_half a v x d l e =
    access_all-halved a v d l (e a (omega arith) (omega arith))
      (e (a + 1) (omega arith) (omega arith))

-- Programming more bytes, after the first half-word.
abbrev pub programmed : ℕ → List ℕ → Device → Device
programmed a bytes d = access_all (program_halves a bytes) d

programmed-more :
    (a x y : ℕ) (rest : List ℕ) (d : Device)
    → d.locked ≡ false
    → IsErased a (padded (x ∷ y ∷ rest)) d
    → programmed a (x ∷ y ∷ rest) d ≡ programmed (a + 2) rest (after_half a (half_of x y) d)
unfolding program_halves
programmed-more a x y rest d l e =
    access_all-append (halved a (half_of x y)) (program_halves (a + 2) rest) d
    ∙ ap (access_all (program_halves (a + 2) rest)) (first_half a (half_of x y) x y rest d l e)

programmed-last :
    (a x : ℕ) (d : Device)
    → d.locked ≡ false
    → IsErased a (padded (x ∷ [])) d
    → programmed a (x ∷ []) d ≡ after_half a (half_of x 255) d
unfolding program_halves
programmed-last a x d l e = last_half a (half_of x 255) x d l e

pub programmed-locked :
    (bytes : List ℕ) (a : ℕ) (d : Device)
    → d.locked ≡ false
    → IsErased a (padded bytes) d
    → (programmed a bytes d).locked ≡ false
unfolding program_halves access_all
programmed-locked [] a d l e = l
programmed-locked (x ∷ []) a d l e = ap (λ (t : Device). t.locked) (programmed-last a x d l e) ∙ l
programmed-locked (x ∷ y ∷ rest) a d l e =
    ap (λ (t : Device). t.locked) (programmed-more a x y rest d l e)
    ∙ programmed-locked rest (a + 2) (after_half a (half_of x y) d) l
        (rest-IsErased a (half_of x y) x y rest d e)

pub programmed-outside :
    (bytes : List ℕ) (a : ℕ) (d : Device) (k : ℕ)
    → d.locked ≡ false
    → IsErased a (padded bytes) d
    → (k < a) ⊎ (a + padded bytes ≤ k)
    → (programmed a bytes d).byte k ≡ d.byte k
unfolding program_halves access_all
programmed-outside [] a d k l e o = refl
programmed-outside (x ∷ []) a d k l e o =
    ap (λ (t : Device). t.byte k) (programmed-last a x d l e)
    ∙ stored-other a (half_of x 255) d.byte k (λ p. ground arith) (λ p. ground arith)
programmed-outside (x ∷ y ∷ rest) a d k l e o =
    ap (λ (t : Device). t.byte k) (programmed-more a x y rest d l e)
    ∙ programmed-outside rest (a + 2) (after_half a (half_of x y) d) k l
        (rest-IsErased a (half_of x y) x y rest d e) (ground arith)
    ∙ stored-other a (half_of x y) d.byte k (λ p. ground arith) (λ p. ground arith)

cons_eq : (x y : ℕ) (xs ys : List ℕ) → x ≡ y → xs ≡ ys → (x ∷ xs) ≡ (y ∷ ys)
cons_eq x y xs ys p q = ap₂ (λ (a : ℕ) (b : List ℕ). a ∷ b) p q

two_more : (a : ℕ) → a + 1 + 1 ≡ a + 2
two_more a = omega arith

pub programmed-reads :
    (bytes : List ℕ) (a : ℕ) (d : Device)
    → IsBytes bytes
    → d.locked ≡ false
    → IsErased a (padded bytes) d
    → flash_read (programmed a bytes d).byte (length bytes) a ≡ bytes
unfolding flash_read
programmed-reads [] a d b l e = refl
programmed-reads (x ∷ []) a d b l e =
    let h = half_of x 255 in
    cons_eq _ x [] []
      (ap (λ (t : Device). t.byte a) (programmed-last a x d l e)
        ∙ stored-first a h d.byte
        ∙ omega (arith, half_of-sum x 255 b.0))
      refl
programmed-reads (x ∷ y ∷ rest) a d b l e =
    let h = half_of x y in
    let d1 = after_half a h d in
    let more = programmed-more a x y rest d l e in
    let rest_ok = rest-IsErased a h x y rest d e in
    cons_eq _ x _ (y ∷ rest)
      (ap (λ (t : Device). t.byte a) more
        ∙ programmed-outside rest (a + 2) d1 a l rest_ok (inl (omega arith))
        ∙ stored-first a h d.byte
        ∙ omega (arith, half_of-sum x y b.0))
      (cons_eq _ y _ rest
        (ap (λ (t : Device). t.byte (a + 1)) more
          ∙ programmed-outside rest (a + 2) d1 (a + 1) l rest_ok (inl (omega arith))
          ∙ stored-second a h d.byte
          ∙ omega (arith, half_of-sum x y b.0))
        (ap (flash_read (programmed a (x ∷ y ∷ rest) d).byte (length rest)) (two_more a)
          ∙ ap (λ (t : Device). flash_read t.byte (length rest) (a + 2)) more
          ∙ programmed-reads rest (a + 2) d1 (b.1.1) l rest_ok))
