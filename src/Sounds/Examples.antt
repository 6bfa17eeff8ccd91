-- ===== src/Sounds/Examples.antt =====
-- Runs of the tunes.
use rm32_private.Base.{arith, true, ◌≡◌, ◌≢◌, refl, some, List, [], ◌∷◌, ◌++◌, replicate, ℕ}
use rm32_private.Sounds.{
  Sounds, Call, new, set_volume, auto_reload, prescaler, duty_all, com_step, delay_millis,
  reload_watchdog, play_bluejay_tune, tune_pairs, tune_pair, tune_note, tune_gap, scaled_volume,
  play_note,
}
use rm32_private.Sounds.Tunes.{beacon_notes, play_startup_with_tune}
use rm32_private.Sounds.Quiet.{Bridge, IsRestored, run, play_startup_with_tune-IsRestored}

abbrev speaker : Sounds
speaker = new 2999

abbrev tune : List ℕ
tune = 0 ∷ 0 ∷ 0 ∷ 250 ∷ 255 ∷ 3 ∷ 10 ∷ 100 ∷ 40 ∷ 0 ∷ replicate 118 0

abbrev driving : Bridge
driving = record {
  irq_enabled = true;
  phases_driven = true;
  reload = 1000;
  divider = 3;
  duty = 700;
}

-- A long note, a rest, and the end; a gap follows each pair.
bluejay :
    play_bluejay_tune speaker 64 tune
    ≡ some (
        com_step 3
        ∷ reload_watchdog
        ∷ duty_all 0
        ∷ delay_millis 50
        ∷ reload_watchdog
        ∷ prescaler 9
        ∷ auto_reload 18390
        ∷ duty_all 91
        ∷ delay_millis 691
        ∷ duty_all 0
        ∷ delay_millis 50
        ∷ reload_watchdog
        ∷ duty_all 0
        ∷ delay_millis 40
        ∷ duty_all 0
        ∷ delay_millis 50
        ∷ reload_watchdog
        ∷ [])
unfolding play_bluejay_tune tune_pairs tune_pair tune_note tune_gap scaled_volume
bluejay = refl

beacon_ends :
    beacon_notes speaker 2
    ≡ reload_watchdog ∷ play_note speaker 11 0 10 ++ (reload_watchdog ∷ play_note speaker 10 0 10)
unfolding beacon_notes play_note
beacon_ends = refl

loudest : set_volume 200 speaker ≡ record { volume = 33; tim1_autoreload = 2999 }
unfolding set_volume
loudest = refl

reload_on : speaker.tim1_autoreload ≢ 0
reload_on = λ e. omega arith

play_startup_with_tune-IsRestored_example :
    (calls : List Call) × (play_startup_with_tune speaker tune 64 ≡ some calls)
    × IsRestored speaker (run calls driving)
play_startup_with_tune-IsRestored_example =
    play_startup_with_tune-IsRestored speaker tune 64 driving reload_on
