-- ===== src/Sounds/Tunes.antt =====
-- The tunes of rm32/src/sounds.rs.
use rm32_private.Base.{
  ℕ, zero, suc, ◌+◌, ◌*◌, ◌/◌, ◌!=◌, Option, some, List, [], ◌∷◌, ◌++◌, get_or, ◌>>=◌,
  if◌then◌else◌,
}
use rm32_private.Sounds.{
  Sounds, Call, reload_watchdog, disable_irq, enable_irq, play_note, silence, play_bluejay_tune,
}

-- A tune that keeps the interrupts away: they are disabled, and enabled after the silence.
abbrev pub guarded : Sounds → List Call → List Call
guarded s notes = disable_irq ∷ notes ++ (silence s ++ (enable_irq ∷ []))

abbrev pub startup_notes : Sounds → List Call
startup_notes s = play_note s 55 3 200 ++ (play_note s 40 5 200 ++ play_note s 25 6 200)

unfoldable pub play_startup : Sounds → List Call
play_startup s = guarded s (startup_notes s)

unfoldable pub play_startup_with_tune : Sounds → List ℕ → ℕ → Option (List Call)
unfolding play_bluejay_tune
play_startup_with_tune s tune cpu_mhz = do
  notes ←
      if get_or tune 0 0 != 255 then play_bluejay_tune s cpu_mhz tune else some (startup_notes s)
  some (guarded s notes)

unfoldable pub play_input : Sounds → List Call
play_input s = guarded s (play_note s 80 3 100 ++ (play_note s 70 3 100 ++ play_note s 40 3 100))

unfoldable pub play_input2 : Sounds → List Call
play_input2 s = guarded s (play_note s 60 1 75 ++ (play_note s 80 1 75 ++ play_note s 90 1 75))

unfoldable pub play_default : Sounds → List Call
play_default s = play_note s 50 2 150 ++ (play_note s 30 2 150 ++ silence s)

unfoldable pub play_changed : Sounds → List Call
play_changed s = play_note s 40 2 150 ++ (play_note s 80 2 150 ++ silence s)

-- The loop of the beacon: `i` is 119, 117, ..., 1, that is `2 * n + 1` with `n + 1` rounds left.
unfoldable pub beacon_notes : Sounds → ℕ → List Call
beacon_notes s zero = []
beacon_notes s (suc n) =
    let i = 2 * n + 1 in
    let rest = beacon_notes s n in reload_watchdog ∷ play_note s (10 + i / 2) (i / 20) 10 ++ rest

unfoldable pub play_beacon : Sounds → List Call
unfolding beacon_notes
play_beacon s = guarded s (beacon_notes s 60)

unfoldable pub play_brushed_startup : Sounds → List Call
play_brushed_startup s = guarded s (
    play_note s 40 1 300
    ++ (play_note s 30 2 300 ++ (play_note s 25 3 300 ++ play_note s 20 4 300)))

abbrev dusking_notes : Sounds → List Call
dusking_notes s =
    play_note s 60 2 200
    ++ (play_note s 55 2 150
        ++ (play_note s 50 2 150
            ++ (play_note s 45 2 100
                ++ (play_note s 50 2 100
                    ++ (play_note s 55 2 100 ++ (play_note s 25 2 200 ++ play_note s 55 2 150))))))

unfoldable pub play_dusking : Sounds → List Call
play_dusking s = dusking_notes s ++ silence s
