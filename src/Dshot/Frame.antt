-- ===== src/Dshot/Frame.antt =====
-- A received frame is the one that was sent (`decode_frame`, rm32/src/dshot.rs).
use rm32_private.Base.{
  ℕ, ◌+◌, ◌-◌, ◌*◌, ◌/◌, ◌%◌, ◌^◌, ◌<◌, ◌≡◌, refl, ◌∙◌, Bool, true, false, ◌==◌, ◌!=◌, ◌&&◌, ◌||◌,
  ltb, leb, arith, if◌then◌else◌, bit_xor, all_below, all_below_sound, List, get_or,
}
use rm32_private.Base.Word.{u16, sub_u32}
use rm32_private.Dshot.{
  DshotFrame, throttle_frame, command_frame, pulse, frame_crc, sent_crc, frame_value, decode_bits,
  decode_frame,
}

-- The sender's checksum of eleven bits of value and the telemetry bit, inverted for the
-- bidirectional protocol.
abbrev pub crc_of : Bool → ℕ → ℕ
crc_of bidirectional word =
    let crc = bit_xor (bit_xor (word % 16) (word / 16 % 16)) (word / 256) in
    if bidirectional then 15 - crc else crc

-- The sixteen bits of a frame in the order in which they are sent, the highest first.
abbrev pub frame_bit : Bool → ℕ → ℕ → ℕ
frame_bit bidirectional word i = (word * 16 + crc_of bidirectional word) / 2 ^ (15 - i) % 2

abbrev agrees : Bool → ℕ → Bool
agrees b word =
    (frame_crc (frame_bit b word) == sent_crc b (frame_bit b word))
    && (frame_value (frame_bit b word) == word / 2)
    && (frame_bit b word 11 == word % 2)

all_agree : (b : Bool) (word : ℕ) → word < 4096 → agrees b word ≡ true
unfolding all_below frame_crc sent_crc frame_value
all_agree true word h = all_below_sound 4096 (agrees true) word refl h
all_agree false word h = all_below_sound 4096 (agrees false) word refl h

-- What a frame says.
abbrev pub frame_of : ℕ → DshotFrame
frame_of word =
    let value = word / 2 in
    let telemetry = word % 2 == 1 in
    if ltb 47 value
    then throttle_frame value telemetry
    else if ltb 0 value
    then command_frame value telemetry
    else throttle_frame 0 telemetry

decoded_shape :
    (c s v d : ℕ) (t u : ℕ)
    → ((c == s) && (v == d) && (t == u)) ≡ true
    → (c ≡ s) × (v ≡ d) × (t ≡ u)
decoded_shape c s v d t u h = ground arith

same_crc : (c : ℕ) → (c != c) ≡ false
same_crc c = ground arith

decode_sent : (b : Bool) (word : ℕ) → word < 4096 → decode_bits b (frame_bit b word) ≡ frame_of word
unfolding decode_bits
decode_sent b word h =
    let p = frame_bit b word in
    let e =
      decoded_shape (frame_crc p) (sent_crc b p) (frame_value p) (word / 2) (p 11) (word % 2)
        (all_agree b word h) in
    rw (e.0, e.1, e.2) (simp (same_crc (sent_crc b p)))

-- Decoding looks at the sixteen pulses alone.
decode_cong :
    (b : Bool) (p q : ℕ → ℕ) → ((i : ℕ) → i < 16 → p i ≡ q i) → decode_bits b p ≡ decode_bits b q
unfolding decode_bits frame_crc sent_crc frame_value
decode_cong b p q h =
    rw
      (
        h 0 (omega arith),
        h 1 (omega arith),
        h 2 (omega arith),
        h 3 (omega arith),
        h 4 (omega arith),
        h 5 (omega arith),
        h 6 (omega arith),
        h 7 (omega arith),
        h 8 (omega arith),
        h 9 (omega arith),
        h 10 (omega arith),
        h 11 (omega arith),
        h 12 (omega arith),
        h 13 (omega arith),
        h 14 (omega arith),
        h 15 (omega arith),
      )
      refl

-- The time that a capture took.
abbrev pub frametime_of : List ℕ → ℕ
frametime_of dma = u16 (sub_u32 (get_or dma 31 0) (get_or dma 0 0))

in_window : (low high t : ℕ) → low < t → t < high → (leb t low || leb high t) ≡ false
in_window low high t h k = ground arith

-- A capture inside the window of times, whose pulses are those of the frame of eleven bits of value
-- and the telemetry bit, is decoded to that value and bit: a throttle above 47 and at 0, a command
-- from 1 to 47; in the plain protocol and with the inverted checksum of the bidirectional one.
pub decode_frame-frame_bit :
    (dma : List ℕ) (low high : ℕ) (bidirectional : Bool) (word : ℕ)
    → word < 4096
    → low < frametime_of dma
    → frametime_of dma < high
    → ((i : ℕ) → i < 16 → pulse (frametime_of dma / 32) dma i ≡ frame_bit bidirectional word i)
    → decode_frame dma low high bidirectional ≡ frame_of word
unfolding decode_frame
decode_frame-frame_bit dma low high b word small h k pulses =
    rw (in_window low high (frametime_of dma) h k) (
      decode_cong b (pulse (frametime_of dma / 32) dma) (frame_bit b word) pulses
      ∙ decode_sent b word small)
