-- ===== src/Dshot/Examples.antt =====
-- Runs of the DShot code.
use rm32_private.Base.{
  ℕ, zero, suc, ◌+◌, ◌-◌, ◌*◌, ◌/◌, ◌<◌, ◌≡◌, refl, true, false, ◌==◌, ==_iff, arith, if◌then◌else◌,
  all_below, all_below_sound, List, [], ◌∷◌, replicate, some,
}
use rm32_private.Dshot.{throttle_frame, pulse, decode_frame, encode_gcr_frame}
use rm32_private.Dshot.{erpm_to_12bit}
use rm32_private.Dshot.Erpm.{Represents, erpm_to_12bit-Represents}
use rm32_private.Dshot.Frame.{frame_bit, frame_of, frametime_of, decode_frame-frame_bit}
use rm32_private.Dshot.Answer.{read_answer, read_answer-encode_gcr_frame}

-- The edges of a frame: a pulse each 100 ticks, of 75 ticks for a one and of 37 for a zero.
capture : ℕ → ℕ → List ℕ
capture zero word = []
capture (suc n) word =
    let start = (15 - n) * 100 in
    start ∷ (start + (if frame_bit true word (15 - n) == 1 then 75 else 37)) ∷ capture n word

-- The throttle 1046 with a telemetry request.
abbrev request : ℕ
request = 2093

request_pulses :
    (i : ℕ)
    → i < 16
    → pulse (frametime_of (capture 16 request) / 32) (capture 16 request) i
      ≡ frame_bit true request i
unfolding capture pulse all_below
request_pulses i h =
    (==_iff (pulse (frametime_of (capture 16 request) / 32) (capture 16 request) i)
        (frame_bit true request i)).0
      (all_below_sound 16
        (λ (k : ℕ).
          pulse (frametime_of (capture 16 request) / 32) (capture 16 request) k
          == frame_bit true request k)
        i refl h)

in_time : (1400 < frametime_of (capture 16 request)) × (frametime_of (capture 16 request) < 1700)
unfolding capture
in_time = (omega arith, omega arith)

decode_frame-frame_bit_example : decode_frame (capture 16 request) 1400 1700 true ≡ frame_of 2093
decode_frame-frame_bit_example =
    decode_frame-frame_bit (capture 16 request) 1400 1700 true 2093 (omega arith) in_time.0
      in_time.1 request_pulses

says : frame_of request ≡ throttle_frame 1046 true
says = refl

read_answer-encode_gcr_frame_example :
    read_answer 7 6 (encode_gcr_frame 3000 (replicate 37 9) 7 6) ≡ some 3000
read_answer-encode_gcr_frame_example =
    read_answer-encode_gcr_frame 3000 7 6 (replicate 37 9) (omega arith) (omega arith) (omega arith)

erpm_to_12bit-Represents_example :
    Represents (erpm_to_12bit 10000 true) 10000
    × (erpm_to_12bit 10000 false ≡ erpm_to_12bit 65535 true)
erpm_to_12bit-Represents_example = erpm_to_12bit-Represents 10000 (omega arith)
