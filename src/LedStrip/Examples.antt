-- ===== src/LedStrip/Examples.antt =====
-- Runs of the light.
use rm32_private.Base.{◌≡◌, refl, arith, [], ◌∷◌}
use rm32_private.LedStrip.{set_high, set_low, delay_ns, boot, send_bits, send_status, send_rgb}
use rm32_private.LedStrip.Waveform.{read_bits, read_color, read_color-send_rgb}

-- The dim red of the start.
boot_color : read_color (send_status boot) ≡ (0, 125, 0)
unfolding read_color read_bits send_status
boot_color = refl

last_bits :
    send_bits 2 1
    ≡ set_high
      ∷ delay_ns 350
      ∷ set_low
      ∷ delay_ns 800
      ∷ set_high
      ∷ delay_ns 700
      ∷ set_low
      ∷ delay_ns 600
      ∷ []
unfolding send_bits
last_bits = refl

read_color-send_rgb_example : read_color (send_rgb 255 0 85) ≡ (0, 255, 85)
read_color-send_rgb_example = read_color-send_rgb 255 0 85 (omega arith) (omega arith) (omega arith)
