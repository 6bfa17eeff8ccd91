-- ===== src/Sensors/Examples.antt =====
-- Runs of the filter, the conversions and the packets.
use rm32_private.Base.{
  ℕ, ◌+◌, ◌-◌, ◌*◌, ◌/◌, ◌^◌, ◌≤◌, ◌<◌, ◌≡◌, refl, arith, true, get_or, replicate,
}
use rm32_private.Base.Int.{pos, ◌≤ℤ◌, ◌+ℤ◌, ◌-ℤ◌, ◌*ℤ◌, ◌/ℤ◌}
use rm32_private.Base.Word.{u32_of, u16_of, i16, i32}
use rm32_private.Functions.{get_crc8}
use rm32_private.Sensors.{
  EwmaPow2, update, to_millivolts, to_milliamps, ntc_degrees, make_info_packet,
  below_cell_threshold, to_erpm_100, calc_temperature_pure, to_centivolts, to_centiamps,
}
use rm32_private.Sensors.Bits.{bits32, bits32-IsFixedPoint}
use rm32_private.Sensors.Smoothing.{repeated, repeated-settles, smoothed-dead_zone}
use rm32_private.Sensors.Conversions.{pin_millivolts, to_millivolts_lem, ntc_degrees_antitone}
use rm32_private.Sensors.Packets.{make_info_packet_lem}

abbrev at_rest : EwmaPow2 ℕ
at_rest = record { state = 0; initialized = true }

-- The first samples of a step to 800.
step_response : (update bits32 3 800 at_rest).1 ≡ 100
unfolding update u32_of i32 ◌+ℤ◌ ◌-ℤ◌
step_response = refl

repeated-settles_example :
    (repeated 3 2 131072 0 ≤ 2 * 65536) × (2 * 65536 - repeated 3 2 131072 0 < 2 ^ 3)
repeated-settles_example =
    repeated-settles 3 2 (ground arith) 131072 0 (ground arith) (ground arith)

smoothed-dead_zone_example : (repeated 3 800 100 52428793 ≡ 52428793) × (52428793 / 65536 ≡ 800 - 1)
smoothed-dead_zone_example =
    smoothed-dead_zone 3 800 (ground arith) 52428793 100 (ground arith) (ground arith)
      (ground arith)

to_millivolts_lem_example :
    (to_millivolts bits32 110 2048 ≡ pin_millivolts 2048 * 110 / 100)
    × (pin_millivolts 2048 ≤ 2048 * 3300 / 4095)
    × (2048 * 3300 / 4095 ≤ pin_millivolts 2048 + 1)
to_millivolts_lem_example =
    to_millivolts_lem bits32 110 2048 bits32-IsFixedPoint (ground arith) (ground arith)

ntc_degrees_antitone_example :
    (ntc_degrees 1000 ≤ℤ ntc_degrees 100)
    × (pos 0 ≤ℤ ntc_degrees 100)
    × (ntc_degrees 100 ≤ℤ pos 150)
ntc_degrees_antitone_example = ntc_degrees_antitone 100 1000 (ground arith)

make_info_packet_lem_example :
    (get_or (make_info_packet (replicate 192 170)) 47 0 ≡ get_or (replicate 192 170) 47 0)
    × (get_crc8 (make_info_packet (replicate 192 170)) ≡ 0)
make_info_packet_lem_example =
    make_info_packet_lem (replicate 192 170) 47 (ground arith) (ground arith)

conversions :
    (below_cell_threshold 3 3700 10000 ≡ true)
    × (to_erpm_100 6000 ≡ 100)
    × (to_centivolts 16800 ≡ 1680)
    × (to_centiamps (pos 5000) ≡ 500)
    × (to_milliamps (pos 0) 20 1000 ≡ pos 4000)
    × (calc_temperature_pure 1500 1000 2000 (pos 30) (pos 110) ≡ pos 70)
unfolding below_cell_threshold to_erpm_100 to_centivolts to_centiamps to_milliamps
    calc_temperature_pure u16_of ◌/ℤ◌ i16 i32 ◌-ℤ◌ ◌*ℤ◌ ◌+ℤ◌
conversions = (refl, refl, refl, refl, refl, refl)
