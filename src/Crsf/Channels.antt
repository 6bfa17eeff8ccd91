-- ===== src/Crsf/Channels.antt =====
-- The channels of a payload are its bits, eleven at a time (`unpack_channels`, rm32/src/crsf.rs).
use rm32_private.Base.{
  map, ℕ, zero, suc, ◌+◌, ◌*◌, ◌/◌, ◌%◌, ◌^◌, ◌≤◌, ◌<◌, ◌≡◌, refl, sym, ap, ◌∙◌, arith, List, [],
  ◌∷◌, get_or, drop, bit_or, or_shifted_right, and_mask,
}
use native.Mathlib.Nat.{div-div-eq-div-mul, zero-div, pow-suc}
use rm32_private.Crsf.{unpack_channels, shifted, low11, channel_to_throttle}

abbrev pub IsBytes : List ℕ → Type 0
IsBytes [] = Unit
IsBytes (x ∷ xs) = (x < 256) × IsBytes xs

-- The payload as one number, its first byte the lowest.
unfoldable pub little_endian : List ℕ → ℕ
little_endian [] = 0
little_endian (x ∷ xs) = x + 256 * little_endian xs

byte : (xs : List ℕ) (i : ℕ) → IsBytes xs → get_or xs i 0 < 256
byte [] i h = omega arith
byte (x ∷ xs) zero h = h.0
byte (x ∷ xs) (suc i) h = byte xs i h.1

-- The next three bytes and the rest.
three :
    (xs : List ℕ)
    → little_endian xs
      ≡ get_or xs 0 0
        + 256 * (get_or xs 1 0 + 256 * (get_or xs 2 0 + 256 * little_endian (drop 3 xs)))
unfolding little_endian
three [] = refl
three (x ∷ []) = refl
three (x ∷ (y ∷ [])) = refl
three (x ∷ (y ∷ (z ∷ xs))) = refl

cons_eq : {x y : ℕ} {xs ys : List ℕ} → x ≡ y → xs ≡ ys → x ∷ xs ≡ y ∷ ys
cons_eq h k = cc

low11-mod : (n : ℕ) → low11 n ≡ n % 2048
low11-mod n = and_mask 11 n

-- Two fields side by side, the upper one cut to the sixteen bits of the word.
side_by_side :
    (k q x y : ℕ) → x < 2 ^ k → y ≡ q * 2 ^ k → low11 (bit_or x y) ≡ (q * 2 ^ k + x) % 2048
side_by_side k q x y h e =
    ap (λ (t : ℕ). low11 (bit_or x t)) e
    ∙ ap low11 (or_shifted_right k q x h)
    ∙ low11-mod (q * 2 ^ k + x)

-- The eleven bits above a power of 2 of three bytes and what follows, and each way in which a channel
-- lies across the bytes.
abbrev window : ℕ → ℕ → ℕ → ℕ → ℕ → ℕ
window a b c r d = (a + 256 * (b + 256 * (c + 256 * r))) / d % 2048

module _ (a b c r : ℕ) (ha : a < 256) (hb : b < 256) (hc : c < 256) where
  at_0 : low11 (bit_or a (shifted b 256)) ≡ window a b c r 1
  at_0 = side_by_side 8 b a (shifted b 256) (omega arith) (omega arith) ∙ omega arith

  at_3 : low11 (bit_or (a / 8) (shifted b 32)) ≡ window a b c r 8
  at_3 = side_by_side 5 b (a / 8) (shifted b 32) (omega arith) (omega arith) ∙ omega arith

  at_1 : low11 (bit_or (a / 2) (shifted b 128)) ≡ window a b c r 2
  at_1 = side_by_side 7 b (a / 2) (shifted b 128) (omega arith) (omega arith) ∙ omega arith

  at_4 : low11 (bit_or (a / 16) (shifted b 16)) ≡ window a b c r 16
  at_4 = side_by_side 4 b (a / 16) (shifted b 16) (omega arith) (omega arith) ∙ omega arith

  at_2 : low11 (bit_or (a / 4) (shifted b 64)) ≡ window a b c r 4
  at_2 = side_by_side 6 b (a / 4) (shifted b 64) (omega arith) (omega arith) ∙ omega arith

  at_5 : low11 (bit_or (a / 32) (shifted b 8)) ≡ window a b c r 32
  at_5 = side_by_side 3 b (a / 32) (shifted b 8) (omega arith) (omega arith) ∙ omega arith

  at_6 : low11 (bit_or (bit_or (a / 64) (shifted b 4)) (shifted c 1024)) ≡ window a b c r 64
  at_6 =
      let low : bit_or (a / 64) (shifted b 4) ≡ b * 4 + a / 64 =
        ap (bit_or (a / 64)) {x = shifted b 4} {y = b * 4} (omega arith)
        ∙ or_shifted_right 2 b (a / 64) (omega arith) in
      ap (λ (t : ℕ). low11 (bit_or t (shifted c 1024))) low
      ∙ side_by_side 10 (c % 64) (b * 4 + a / 64) (shifted c 1024) (omega arith) (omega arith)
      ∙ omega arith

  at_7 : low11 (bit_or (bit_or (a / 128) (shifted b 2)) (shifted c 512)) ≡ window a b c r 128
  at_7 =
      let low : bit_or (a / 128) (shifted b 2) ≡ b * 2 + a / 128 =
        ap (bit_or (a / 128)) {x = shifted b 2} {y = b * 2} (omega arith)
        ∙ or_shifted_right 1 b (a / 128) (omega arith) in
      ap (λ (t : ℕ). low11 (bit_or t (shifted c 512))) low
      ∙ side_by_side 9 (c % 128) (b * 2 + a / 128) (shifted c 512) (omega arith) (omega arith)
      ∙ omega arith

-- Whole bytes are dropped by a division.
at_byte :
    (k : ℕ) (xs : List ℕ) → IsBytes xs → little_endian xs / 256 ^ k ≡ little_endian (drop k xs)
unfolding little_endian
at_byte zero xs h = omega arith
at_byte (suc k) [] h = zero-div (256 ^ suc k)
at_byte (suc k) (x ∷ xs) h =
    ap (λ (t : ℕ). (x + 256 * little_endian xs) / t) {x = 256 ^ suc k} {y = 256 * 256 ^ k}
      (pow-suc 256 k ∙ omega arith)
    ∙ sym (div-div-eq-div-mul (x + 256 * little_endian xs) 256 (256 ^ k))
    ∙ ap (λ (t : ℕ). t / 256 ^ k) {x = (x + 256 * little_endian xs) / 256} {y = little_endian xs}
        (omega arith)
    ∙ at_byte k xs h.1

get_or-drop : (k : ℕ) (xs : List ℕ) (i : ℕ) → get_or (drop k xs) i 0 ≡ get_or xs (k + i) 0
get_or-drop zero xs i = ap (λ (t : ℕ). get_or xs t 0) {x = i} {y = 0 + i} (omega arith)
get_or-drop (suc k) [] i = refl
get_or-drop (suc k) (x ∷ xs) i =
    get_or-drop k xs i
    ∙ ap (λ (t : ℕ). get_or (x ∷ xs) t 0) {x = suc (k + i)} {y = suc k + i} (omega arith)

-- The channel `i` as the eleven bits of the payload from bit `11 * i`.
unfoldable pub bits_of_channel : List ℕ → ℕ → ℕ
bits_of_channel payload i = little_endian payload / 2 ^ (11 * i) % 2048

-- Channel `i` starts at bit `s` of byte `k`.
module _ (payload : List ℕ) (h : IsBytes payload) where
  located :
      (k d i : ℕ)
      → 2 ^ (11 * i) ≡ 256 ^ k * d
      → bits_of_channel payload i
        ≡ window
            (get_or payload k 0)
            (get_or payload (k + 1) 0)
            (get_or payload (k + 2) 0)
            (little_endian (drop 3 (drop k payload)))
            d
  unfolding bits_of_channel
  located k d i e =
      ap (λ (t : ℕ). little_endian payload / t % 2048) e
      ∙ ap (λ (t : ℕ). t % 2048) (sym (div-div-eq-div-mul (little_endian payload) (256 ^ k) d))
      ∙ ap (λ (t : ℕ). t / d % 2048) (at_byte k payload h ∙ three (drop k payload))
      ∙ rw (
        get_or-drop k payload 0
            ∙ ap (λ (t : ℕ). get_or payload t 0) {x = k + 0} {y = k} (omega arith),
        get_or-drop k payload 1,
        get_or-drop k payload 2,
      )

  byte_at : (k : ℕ) → get_or payload k 0 < 256
  byte_at k = byte payload k h

-- Channel `i` of a payload is its eleven bits from bit `11 * i`, for all sixteen channels.
pub unpack_channels-bits_of_channel :
    (payload : List ℕ)
    → IsBytes payload
    → unpack_channels payload
      ≡ map
          (bits_of_channel payload)
          (0 ∷ 1 ∷ 2 ∷ 3 ∷ 4 ∷ 5 ∷ 6 ∷ 7 ∷ 8 ∷ 9 ∷ 10 ∷ 11 ∷ 12 ∷ 13 ∷ 14 ∷ 15 ∷ [])
unfolding unpack_channels
unpack_channels-bits_of_channel payload h =
    cons_eq
      (sym (
        located payload h 0 1 0 refl
        ∙ sym (
            at_0 (get_or payload 0 0) (get_or payload 1 0) (get_or payload 2 0)
              (little_endian (drop 3 (drop 0 payload))) (byte_at payload h 0) (byte_at payload h 1)
              (byte_at payload h 2))))
      (cons_eq
        (sym (
          located payload h 1 8 1 refl
          ∙ sym (
              at_3 (get_or payload 1 0) (get_or payload 2 0) (get_or payload 3 0)
                (little_endian (drop 3 (drop 1 payload))) (byte_at payload h 1)
                (byte_at payload h 2) (byte_at payload h 3))))
        (cons_eq
          (sym (
            located payload h 2 64 2 refl
            ∙ sym (
                at_6 (get_or payload 2 0) (get_or payload 3 0) (get_or payload 4 0)
                  (little_endian (drop 3 (drop 2 payload))) (byte_at payload h 2)
                  (byte_at payload h 3) (byte_at payload h 4))))
          (cons_eq
            (sym (
              located payload h 4 2 3 refl
              ∙ sym (
                  at_1 (get_or payload 4 0) (get_or payload 5 0) (get_or payload 6 0)
                    (little_endian (drop 3 (drop 4 payload))) (byte_at payload h 4)
                    (byte_at payload h 5) (byte_at payload h 6))))
            (cons_eq
              (sym (
                located payload h 5 16 4 refl
                ∙ sym (
                    at_4 (get_or payload 5 0) (get_or payload 6 0) (get_or payload 7 0)
                      (little_endian (drop 3 (drop 5 payload))) (byte_at payload h 5)
                      (byte_at payload h 6) (byte_at payload h 7))))
              (cons_eq
                (sym (
                  located payload h 6 128 5 refl
                  ∙ sym (
                      at_7 (get_or payload 6 0) (get_or payload 7 0) (get_or payload 8 0)
                        (little_endian (drop 3 (drop 6 payload))) (byte_at payload h 6)
                        (byte_at payload h 7) (byte_at payload h 8))))
                (cons_eq
                  (sym (
                    located payload h 8 4 6 refl
                    ∙ sym (
                        at_2 (get_or payload 8 0) (get_or payload 9 0) (get_or payload 10 0)
                          (little_endian (drop 3 (drop 8 payload))) (byte_at payload h 8)
                          (byte_at payload h 9) (byte_at payload h 10))))
                  (cons_eq
                    (sym (
                      located payload h 9 32 7 refl
                      ∙ sym (
                          at_5 (get_or payload 9 0) (get_or payload 10 0) (get_or payload 11 0)
                            (little_endian (drop 3 (drop 9 payload))) (byte_at payload h 9)
                            (byte_at payload h 10) (byte_at payload h 11))))
                    (cons_eq
                      (sym (
                        located payload h 11 1 8 refl
                        ∙ sym (
                            at_0 (get_or payload 11 0) (get_or payload 12 0) (get_or payload 13 0)
                              (little_endian (drop 3 (drop 11 payload))) (byte_at payload h 11)
                              (byte_at payload h 12) (byte_at payload h 13))))
                      (cons_eq
                        (sym (
                          located payload h 12 8 9 refl
                          ∙ sym (
                              at_3 (get_or payload 12 0) (get_or payload 13 0) (get_or payload 14 0)
                                (little_endian (drop 3 (drop 12 payload))) (byte_at payload h 12)
                                (byte_at payload h 13) (byte_at payload h 14))))
                        (cons_eq
                          (sym (
                            located payload h 13 64 10 refl
                            ∙ sym (
                                at_6 (get_or payload 13 0) (get_or payload 14 0)
                                  (get_or payload 15 0) (little_endian (drop 3 (drop 13 payload)))
                                  (byte_at payload h 13) (byte_at payload h 14)
                                  (byte_at payload h 15))))
                          (cons_eq
                            (sym (
                              located payload h 15 2 11 refl
                              ∙ sym (
                                  at_1 (get_or payload 15 0) (get_or payload 16 0)
                                    (get_or payload 17 0) (little_endian (drop 3 (drop 15 payload)))
                                    (byte_at payload h 15) (byte_at payload h 16)
                                    (byte_at payload h 17))))
                            (cons_eq
                              (sym (
                                located payload h 16 16 12 refl
                                ∙ sym (
                                    at_4 (get_or payload 16 0) (get_or payload 17 0)
                                      (get_or payload 18 0)
                                      (little_endian (drop 3 (drop 16 payload)))
                                      (byte_at payload h 16) (byte_at payload h 17)
                                      (byte_at payload h 18))))
                              (cons_eq
                                (sym (
                                  located payload h 17 128 13 refl
                                  ∙ sym (
                                      at_7 (get_or payload 17 0) (get_or payload 18 0)
                                        (get_or payload 19 0)
                                        (little_endian (drop 3 (drop 17 payload)))
                                        (byte_at payload h 17) (byte_at payload h 18)
                                        (byte_at payload h 19))))
                                (cons_eq
                                  (sym (
                                    located payload h 19 4 14 refl
                                    ∙ sym (
                                        at_2 (get_or payload 19 0) (get_or payload 20 0)
                                          (get_or payload 21 0)
                                          (little_endian (drop 3 (drop 19 payload)))
                                          (byte_at payload h 19) (byte_at payload h 20)
                                          (byte_at payload h 21))))
                                  (cons_eq
                                    (sym (
                                      located payload h 20 32 15 refl
                                      ∙ sym (
                                          at_5 (get_or payload 20 0) (get_or payload 21 0)
                                            (get_or payload 22 0)
                                            (little_endian (drop 3 (drop 20 payload)))
                                            (byte_at payload h 20) (byte_at payload h 21)
                                            (byte_at payload h 22))))
                                    (refl))))))))))))))))

-- The throttle of a channel never exceeds 2047, is 0 at 172 and 2047 at 1811, and never falls as the
-- channel rises.
pub channel_to_throttle_mono :
    (v w : ℕ)
    → v ≤ w
    → (channel_to_throttle v ≤ channel_to_throttle w)
      × (channel_to_throttle w ≤ 2047)
      × (channel_to_throttle 172 ≡ 0)
      × (channel_to_throttle 1811 ≡ 2047)
unfolding channel_to_throttle
channel_to_throttle_mono v w h = (ground arith, ground arith, refl, refl)
