-- ===== src/Drivers/Flash/DoubleWriting.antt =====
-- A whole write to a flash of double words (rm32_stm32/src/flash.rs, rm32_stm32/src/mcu_g431/flash.rs), from
-- the keys to the lock.
use rm32_private.Base.{
  ℕ, zero, suc, ◌+◌, ◌-◌, ◌*◌, ◌%◌, ◌≤◌, ◌<◌, ◌≡◌, ◌⊎◌, inl, inr, refl, ap, ◌∙◌, arith, Bool,
  Bool-cases, true, false, not, ◌&&◌, ◌==◌, ltb, List, [], ◌∷◌, get_or, take, drop, if◌then◌else◌,
}
use rm32_private.Drivers.Flash.{
  FlashCall, word_of, program_words, set_cr, store_word, wait_bsy, clear_cr,
}
use rm32_private.Drivers.Flash.Device.{
  Device, stored_word, all_erased, store_second, access, access_all,
}
use rm32_private.Drivers.Flash.Programming.{IsErased, IsBytes, access_all-append}
use rm32_private.Drivers.Flash.DoubleWords.{
  get_or-take, get_or-drop, drop-IsBytes, take-IsBytes, stored_word-at, stored_word-other,
}

if_true : (b : Bool) (x y : Device) → b ≡ true → (if b then x else y) ≡ x
if_true b x y h = rw h refl

if_false : (b : Bool) (x y : Device) → b ≡ false → (if b then x else y) ≡ y
if_false b x y h = rw h refl

both : (a b : Bool) → a ≡ true → b ≡ true → (a && b) ≡ true
both a b p q = rw (p, q) refl

all_erased-true : (n a : ℕ) (d : Device) → IsErased a n d → all_erased n a d.byte ≡ true
all_erased-true zero a d e = refl
all_erased-true (suc n) a d e =
    both (d.byte a == 255) (all_erased n (a + 1) d.byte)
      (ap (λ b. b == 255) (e a (omega arith) (omega arith)))
      (all_erased-true n (a + 1) d (λ k h i. e k (omega arith) (omega arith)))

-- One double word.
abbrev doubled : ℕ → ℕ → ℕ → List FlashCall
doubled a u v = set_cr 1 ∷ store_word a u ∷ store_word (a + 4) v ∷ wait_bsy ∷ clear_cr 1 ∷ []

abbrev after_double : ℕ → ℕ → ℕ → Device → Device
after_double a u v d = record d {
  programming = false;
  first_at = a;
  first = u;
  byte = stored_word (a + 4) v (stored_word a u d.byte);
}

can_program :
    (a : ℕ) (d : Device)
    → d.locked ≡ false
    → IsErased a 8 d
    → (not d.locked && true && (a + 4 == a + 4) && all_erased 8 a d.byte) ≡ true
can_program a d l e =
    let same : (a + 4 == a + 4) ≡ true = ground arith in rw (l, same, all_erased-true 8 a d e) refl

access_all-doubled :
    (a u v : ℕ) (d : Device)
    → a % 8 ≡ 0
    → d.locked ≡ false
    → IsErased a 8 d
    → access_all (doubled a u v) d ≡ after_double a u v d
unfolding access_all
access_all-doubled a u v d aligned l e =
    let d1 : Device = record d { programming = true } in
    let d2 : Device = record d1 { first_at = a; first = u } in
    let d3 : Device = record d2 { byte = stored_word (a + 4) v (stored_word a u d.byte) } in
    let start : (a % 8 == 0) ≡ true = ground arith in
    let middle : ((a + 4) % 8 == 0) ≡ false = ground arith in
    let one : access (store_word a u) d1 ≡ d2 =
      if_true (a % 8 == 0) d2 (store_second a u d1) start in
    let two : access (store_word (a + 4) v) d2 ≡ d3 =
      if_false ((a + 4) % 8 == 0) (record d2 { first_at = a + 4; first = v })
        (store_second (a + 4) v d2) middle
      ∙ if_true (not d.locked && true && (a + 4 == a + 4) && all_erased 8 a d.byte) d3 d2
          (can_program a d l e) in
    ap (λ (t : Device). record (access (store_word (a + 4) v) t) { programming = false }) one
    ∙ ap (λ (t : Device). record t { programming = false }) two

abbrev pub programmed : ℕ → ℕ → List ℕ → Device → Device
programmed n a bytes d = access_all (program_words n a bytes) d

abbrev first_word : List ℕ → ℕ
first_word bytes = word_of (take 4 bytes)

abbrev second_word : List ℕ → ℕ
second_word bytes = word_of (take 4 (drop 4 bytes))

abbrev after_first : ℕ → List ℕ → Device → Device
after_first a bytes d = after_double a (first_word bytes) (second_word bytes) d

shorter : (a m n : ℕ) (d : Device) → m ≤ n → IsErased a n d → IsErased a m d
shorter a m n d h e k i j = e k i (omega arith)

programmed-more :
    (n a : ℕ) (bytes : List ℕ) (d : Device)
    → a % 8 ≡ 0
    → d.locked ≡ false
    → IsErased a (8 * suc n) d
    → programmed (suc n) a bytes d ≡ programmed n (a + 8) (drop 8 bytes) (after_first a bytes d)
programmed-more n a bytes d aligned l e =
    access_all-append (doubled a (first_word bytes) (second_word bytes))
      (program_words n (a + 8) (drop 8 bytes)) d
    ∙ ap (access_all (program_words n (a + 8) (drop 8 bytes))) (
        access_all-doubled a (first_word bytes) (second_word bytes) d aligned l
          (shorter a 8 (8 * suc n) d (omega arith) e))

double-outside :
    (a u v k : ℕ) (d : Device) → (k < a) ⊎ (a + 8 ≤ k) → (after_double a u v d).byte k ≡ d.byte k
double-outside a u v k d o =
    stored_word-other (a + 4) v (stored_word a u d.byte) k (ground arith)
    ∙ stored_word-other a u d.byte k (ground arith)

rest-IsErased :
    (n a u v : ℕ) (d : Device)
    → IsErased a (8 * suc n) d
    → IsErased (a + 8) (8 * n) (after_double a u v d)
rest-IsErased n a u v d e k i j = double-outside a u v k d (inr i) ∙ e k (omega arith) (omega arith)

pub programmed-outside :
    (n a : ℕ) (bytes : List ℕ) (d : Device) (k : ℕ)
    → a % 8 ≡ 0
    → d.locked ≡ false
    → IsErased a (8 * n) d
    → (k < a) ⊎ (a + 8 * n ≤ k)
    → (programmed n a bytes d).byte k ≡ d.byte k
unfolding access_all
programmed-outside zero a bytes d k aligned l e o = refl
programmed-outside (suc n) a bytes d k aligned l e o =
    let u = first_word bytes in
    let v = second_word bytes in
    ap (λ (t : Device). t.byte k) (programmed-more n a bytes d aligned l e)
    ∙ programmed-outside n (a + 8) (drop 8 bytes) (after_double a u v d) k (omega arith) l
        (rest-IsErased n a u v d e) (ground arith)
    ∙ double-outside a u v k d (ground arith)

-- The eight bytes of the double word.
double-at :
    (a i : ℕ) (bytes : List ℕ) (d : Device)
    → IsBytes bytes
    → i < 8
    → (after_first a bytes d).byte (a + i) ≡ get_or bytes i 0
double-at a i bytes d b h =
    let low = stored_word a (first_word bytes) d.byte in
    elim (Bool-cases (ltb i 4)) [
      | inl lower ↦
          stored_word-other (a + 4) (second_word bytes) low (a + i) (inl (ground arith))
          ∙ stored_word-at a (take 4 bytes) d.byte i (take-IsBytes 4 bytes b) (ground arith)
          ∙ get_or-take 4 bytes i (ground arith)
      | inr upper ↦
          ap (stored_word (a + 4) (second_word bytes) low) (ground arith)
          ∙ stored_word-at (a + 4) (take 4 (drop 4 bytes)) low (i - 4)
              (take-IsBytes 4 (drop 4 bytes) (drop-IsBytes 4 bytes b)) (ground arith)
          ∙ get_or-take 4 (drop 4 bytes) (i - 4) (ground arith)
          ∙ get_or-drop 4 bytes (i - 4)
          ∙ ap (λ k. get_or bytes k 0) (ground arith)
    ]

pub programmed-at :
    (n a i : ℕ) (bytes : List ℕ) (d : Device)
    → a % 8 ≡ 0
    → d.locked ≡ false
    → IsErased a (8 * n) d
    → IsBytes bytes
    → i < 8 * n
    → (programmed n a bytes d).byte (a + i) ≡ get_or bytes i 0
programmed-at zero a i bytes d aligned l e b h = absurd (omega arith)
programmed-at (suc n) a i bytes d aligned l e b h =
    let d1 = after_first a bytes d in
    let erased = rest-IsErased n a (first_word bytes) (second_word bytes) d e in
    let more = ap (λ (t : Device). t.byte (a + i)) (programmed-more n a bytes d aligned l e) in
    elim (Bool-cases (ltb i 8)) [
      | inl here ↦
          more
          ∙ programmed-outside n (a + 8) (drop 8 bytes) d1 (a + i) (omega arith) l erased
              (inl (ground arith))
          ∙ double-at a i bytes d b (ground arith)
      | inr later ↦
          more
          ∙ ap (λ k. (programmed n (a + 8) (drop 8 bytes) d1).byte k) (ground arith)
          ∙ programmed-at n (a + 8) (i - 8) (drop 8 bytes) d1 (omega arith) l erased
              (drop-IsBytes 8 bytes b) (ground arith)
          ∙ get_or-drop 8 bytes (i - 8)
          ∙ ap (λ k. get_or bytes k 0) (ground arith)
    ]
