-- ===== src/Crsf/Examples.antt =====
-- Runs of the CRSF receiver.
use rm32_private.Base.{
  ℕ, ◌≡◌, ◌≤◌, refl, arith, ltb, if◌then◌else◌, List, [], ◌∷◌, ◌++◌, map, replicate, length, Option,
  none, some,
}
use rm32_private.Crsf.{waiting, panics, crc8_dvb_s2, unpack_channels, channel_to_throttle}
use rm32_private.Crsf.Channels.{
  bits_of_channel, unpack_channels-bits_of_channel, channel_to_throttle_mono, IsBytes,
}
use rm32_private.Crsf.Frames.{Appends, frame, verdict, feed_all, feed_all-verdict, feed_all-panics}

-- A vector of 64 places.
abbrev push64 : List ℕ → ℕ → Option (List ℕ)
push64 v b = if ltb (length v) 64 then some (v ++ (b ∷ [])) else none

push64-Appends : Appends push64
push64-Appends v b h = ground arith

abbrev battery : List ℕ
battery = 1 ∷ 2 ∷ 3 ∷ []

abbrev sticks : List ℕ
sticks =
    224 ∷ 3 ∷ 31 ∷ 248 ∷ 192 ∷ 7 ∷ 62 ∷ 240 ∷ 129 ∷ 15 ∷ 124 ∷ 224 ∷ 3 ∷ 31 ∷ 248 ∷ 192 ∷ 7 ∷ 62
    ∷ 240 ∷ 129 ∷ 15 ∷ 124 ∷ []

sticks-IsBytes : IsBytes sticks
sticks-IsBytes = ground arith

centred : unpack_channels sticks ≡ replicate 16 992
unfolding unpack_channels
centred = refl

unpack_channels-bits_of_channel_example :
    unpack_channels sticks
    ≡ map
        (bits_of_channel sticks)
        (0 ∷ 1 ∷ 2 ∷ 3 ∷ 4 ∷ 5 ∷ 6 ∷ 7 ∷ 8 ∷ 9 ∷ 10 ∷ 11 ∷ 12 ∷ 13 ∷ 14 ∷ 15 ∷ [])
unpack_channels-bits_of_channel_example = unpack_channels-bits_of_channel sticks sticks-IsBytes

channel_to_throttle_mono_example :
    (channel_to_throttle 300 ≤ channel_to_throttle 992)
    × (channel_to_throttle 992 ≤ 2047)
    × (channel_to_throttle 172 ≡ 0)
    × (channel_to_throttle 1811 ≡ 2047)
channel_to_throttle_mono_example = channel_to_throttle_mono 300 992 (ground arith)

-- The check value of CRC-8/DVB-S2.
check_value : crc8_dvb_s2 (49 ∷ 50 ∷ 51 ∷ 52 ∷ 53 ∷ 54 ∷ 55 ∷ 56 ∷ 57 ∷ []) ≡ 188
unfolding crc8_dvb_s2
check_value = refl

feed_all-verdict_example :
    feed_all push64 [] (frame 8 battery 7)
    ≡ ((verdict 8 battery 7).0, replicate 6 waiting ++ ((verdict 8 battery 7).1 ∷ []))
feed_all-verdict_example = feed_all-verdict 8 battery 7 push64 push64-Appends (ground arith)

feed_all-panics_example :
    feed_all push64 [] (frame 22 battery (crc8_dvb_s2 (22 ∷ battery)))
    ≡ (frame 22 battery (crc8_dvb_s2 (22 ∷ battery)), replicate 6 waiting ++ (panics ∷ []))
feed_all-panics_example = feed_all-panics battery push64 push64-Appends (ground arith)
