-- ===== src/LedStrip/Waveform.antt =====
-- What the light reads from the levels of its pin.
use rm32_private.Base.{
  ℕ, zero, suc, ◌+◌, ◌*◌, ◌/◌, ◌%◌, ◌^◌, ◌<◌, ◌≡◌, refl, ap, ◌∙◌, arith, ltb, ◌==◌, List, [], ◌∷◌,
  ◌++◌, take, drop, if◌then◌else◌,
}
use mathlib.Core.List.{append_assoc}
use rm32_private.LedStrip.{
  PinCall, set_high, set_low, delay_ns, send_bit, send_bits, send_byte, send_rgb,
}

-- The light samples each pulse: a high level of more than half a microsecond is a one, and a low level
-- of 50 microseconds ends the transfer.
unfoldable pub read_bits : List PinCall → List ℕ
read_bits (set_high ∷ delay_ns high ∷ set_low ∷ delay_ns low ∷ rest) =
    (if ltb 500 high then 1 else 0) ∷ read_bits rest
read_bits _ = []

-- The value of bits, the first the highest.
abbrev pub value_of : ℕ → List ℕ → ℕ
value_of acc [] = acc
value_of acc (x ∷ xs) = value_of (acc * 2 + x) xs

abbrev bits_of : ℕ → ℕ → List ℕ
bits_of zero byte = []
bits_of (suc n) byte = (byte / 2 ^ n % 2) ∷ bits_of n byte

read_bits-send_bit :
    (bit : ℕ) (rest : List PinCall)
    → bit < 2
    → read_bits (send_bit (bit == 1) ++ rest) ≡ bit ∷ read_bits rest
unfolding read_bits send_bit
read_bits-send_bit zero rest h = refl
read_bits-send_bit (suc zero) rest h = refl
read_bits-send_bit (suc (suc n)) rest h = absurd (omega arith)

read_bits-send_bits :
    (n byte : ℕ) (rest : List PinCall)
    → read_bits (send_bits n byte ++ rest) ≡ bits_of n byte ++ read_bits rest
unfolding send_bits
read_bits-send_bits zero byte rest = refl
read_bits-send_bits (suc n) byte rest =
    ap read_bits (append_assoc (send_bit (byte / 2 ^ n % 2 == 1)) (send_bits n byte) rest)
    ∙ read_bits-send_bit (byte / 2 ^ n % 2) (send_bits n byte ++ rest) (omega arith)
    ∙ ap (λ t. (byte / 2 ^ n % 2) ∷ t) (read_bits-send_bits n byte rest)

read_bits-send_rgb :
    (r g b : ℕ) → read_bits (send_rgb r g b) ≡ bits_of 8 g ++ (bits_of 8 r ++ (bits_of 8 b ++ []))
unfolding send_rgb send_byte read_bits
read_bits-send_rgb r g b =
    let ending = set_low ∷ delay_ns 50000 ∷ [] in
    read_bits-send_bits 8 g (send_bits 8 r ++ (send_bits 8 b ++ ending))
    ∙ ap (λ t. bits_of 8 g ++ t)
        (read_bits-send_bits 8 r (send_bits 8 b ++ ending)
          ∙ ap (λ t. bits_of 8 r ++ t) (read_bits-send_bits 8 b ending))

whole_byte : (byte : ℕ) → byte < 256 → value_of 0 (bits_of 8 byte) ≡ byte
whole_byte byte h = omega arith

-- The three bytes that the light takes from the levels, in the order of its wire.
unfoldable pub read_color : List PinCall → ℕ × ℕ × ℕ
read_color calls =
    let bits = read_bits calls in
    (
      value_of 0 (take 8 bits),
      value_of 0 (take 8 (drop 8 bits)),
      value_of 0 (take 8 (drop 16 bits)),
    )

-- The light gets the green, the red and the blue byte of the color that is sent, in this order.
pub read_color-send_rgb :
    (r g b : ℕ) → r < 256 → g < 256 → b < 256 → read_color (send_rgb r g b) ≡ (g, r, b)
unfolding read_color
read_color-send_rgb r g b hr hg hb =
    rw (read_bits-send_rgb r g b) (λ i. (whole_byte g hg i, whole_byte r hr i, whole_byte b hb i))
