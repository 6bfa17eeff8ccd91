-- ===== src/LedStrip.antt =====
-- The status light (rm32/src/ws2812.rs): one WS2812, driven by timed levels of a pin.
pub mod Waveform
mod Examples
use rm32_private.Base.{ℕ, zero, suc, ◌/◌, ◌%◌, ◌^◌, Bool, ◌==◌, List, [], ◌∷◌, ◌++◌, if◌then◌else◌}

-- The calls of `WS2812Pin`.
pub data PinCall : Type 0 where
  set_high set_low : PinCall
  delay_ns : ℕ → PinCall

pub data LedStatus : Type 0 where
  boot armed_led error off : LedStatus

unfoldable pub rgb : LedStatus → ℕ × ℕ × ℕ
rgb boot = (125, 0, 0)
rgb armed_led = (0, 255, 0)
rgb error = (255, 0, 0)
rgb off = (0, 0, 0)

unfoldable pub send_bit : Bool → List PinCall
send_bit one =
    if one
    then set_high ∷ delay_ns 700 ∷ set_low ∷ delay_ns 600 ∷ []
    else set_high ∷ delay_ns 350 ∷ set_low ∷ delay_ns 800 ∷ []

-- The loop over `(0..8).rev()`: `n` bits are left, of which bit `n - 1` is sent next.
unfoldable pub send_bits : ℕ → ℕ → List PinCall
unfolding send_bit
send_bits zero byte = []
send_bits (suc n) byte = send_bit (byte / 2 ^ n % 2 == 1) ++ send_bits n byte

unfoldable pub send_byte : ℕ → List PinCall
unfolding send_bits
send_byte byte = send_bits 8 byte

unfoldable pub send_rgb : ℕ → ℕ → ℕ → List PinCall
unfolding send_byte
send_rgb r g b = send_byte g ++ (send_byte r ++ (send_byte b ++ (set_low ∷ delay_ns 50000 ∷ [])))

unfoldable pub send_status : LedStatus → List PinCall
unfolding send_rgb rgb
send_status status = let (r, g, b) = rgb status in send_rgb r g b
