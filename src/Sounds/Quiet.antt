-- ===== src/Sounds/Quiet.antt =====
-- How the tunes of rm32/src/sounds.rs leave the bridge: what each call does to the part of the hardware
-- that the tunes share with the motor.
use rm32_private.Base.{
  ℕ, zero, suc, ◌+◌, Bool, true, false, ◌&&◌, ◌==◌, ◌!=◌, some, List, [], ◌∷◌, ◌++◌, get_or, ◌≡◌,
  refl, ◌≢◌, if◌then◌else◌, IsSome, bind-IsSome, Bool-cases, ==_iff, inl, inr,
}
use rm32_private.Sounds.{
  Sounds, Call, auto_reload, prescaler, duty_all, com_step, delay_millis, all_off, reload_watchdog,
  disable_irq, enable_irq, silence, scaled_volume, tune_note, tune_pair, tune_pairs, tune_gap,
  play_bluejay_tune,
}
use rm32_private.Sounds.Tunes.{guarded, startup_notes, play_startup_with_tune}

pub record Bridge : Type 0 where
  pub irq_enabled : Bool
  pub phases_driven : Bool
  pub reload : ℕ
  pub divider : ℕ
  pub duty : ℕ

unfoldable pub act : Call → Bridge → Bridge
act (auto_reload n) b = record b { reload = n }
act (prescaler n) b = record b { divider = n }
act (duty_all n) b = record b { duty = n }
act (com_step n) b = record b { phases_driven = true }
act (delay_millis n) b = b
act all_off b = record b { phases_driven = false }
act reload_watchdog b = b
act disable_irq b = record b { irq_enabled = false }
act enable_irq b = record b { irq_enabled = true }

unfoldable pub run : List Call → Bridge → Bridge
unfolding act
run [] b = b
run (c ∷ cs) b = run cs (act c b)

-- The bridge as the motor control expects it.
abbrev pub IsRestored : Sounds → Bridge → Type 0
IsRestored s b =
    (b.irq_enabled ≡ true)
    × (b.phases_driven ≡ false)
    × (b.reload ≡ s.tim1_autoreload)
    × (b.divider ≡ 0)

run-append : (cs ds : List Call) (b : Bridge) → run (cs ++ ds) b ≡ run ds (run cs b)
unfolding run
run-append [] ds b = refl
run-append (c ∷ cs) ds b = run-append cs ds (act c b)

-- A guarded tune, whatever its notes, restores the bridge.
pub guarded-IsRestored :
    (s : Sounds) (notes : List Call) (b : Bridge) → IsRestored s (run (guarded s notes) b)
unfolding run act silence
guarded-IsRestored s notes b = rw run-append (refl, refl, refl, refl)

scaled_volume-IsSome : (s : Sounds) (n : ℕ) → s.tim1_autoreload ≢ 0 → IsSome (scaled_volume s n)
unfolding scaled_volume
scaled_volume-IsSome s n nonzero = elim (Bool-cases (s.tim1_autoreload == 0)) [
  | inl h ↦ absurd (nonzero ((==_iff s.tim1_autoreload 0).0 h))
  | inr h ↦ rw h (_, refl)
]

tune_note-IsSome :
    (s : Sounds) (cpu_mhz count t4 t3 : ℕ)
    → s.tim1_autoreload ≢ 0
    → IsSome (tune_note s cpu_mhz count t4 t3)
unfolding tune_note
tune_note-IsSome s cpu_mhz count t4 t3 nonzero =
    bind-IsSome _ _ (scaled_volume-IsSome s _ nonzero) (λ d. (_, refl))

tune_pair-IsSome :
    (s : Sounds) (cpu_mhz count t4 t3 : ℕ)
    → s.tim1_autoreload ≢ 0
    → IsSome (tune_pair s cpu_mhz count t4 t3)
unfolding tune_pair
tune_pair-IsSome s cpu_mhz count t4 t3 nonzero = elim (Bool-cases ((t4 == 255) && (t3 != 0))) [
  | inl h ↦ rw h (_, refl)
  | inr h ↦ elim (Bool-cases (t3 == 0)) [
    | inl k ↦ rw (h, k) (_, refl)
    | inr k ↦
        rw (h, k)
          (bind-IsSome _ _ (tune_note-IsSome s cpu_mhz count t4 t3 nonzero) (λ calls. (_, refl)))
  ]
]

tune_pairs-IsSome :
    (n : ℕ) (s : Sounds) (cpu_mhz : ℕ) (tune : List ℕ) (i count : ℕ)
    → s.tim1_autoreload ≢ 0
    → IsSome (tune_pairs n s cpu_mhz tune i count)
unfolding tune_pairs
tune_pairs-IsSome zero s cpu_mhz tune i count nonzero = (_, refl)
tune_pairs-IsSome (suc n) s cpu_mhz tune i count nonzero =
    elim (Bool-cases ((get_or tune i 0 == 0) && (get_or tune (i + 1) 0 == 0))) [
      | inl h ↦ rw h (_, refl)
      | inr h ↦ rw h (
          bind-IsSome _ _
            (tune_pair-IsSome s cpu_mhz count (get_or tune i 0) (get_or tune (i + 1) 0) nonzero)
            (λ r.
              bind-IsSome _ _ (tune_pairs-IsSome n s cpu_mhz tune (i + 2) r.1 nonzero)
                (λ rest. (reload_watchdog ∷ r.0 ++ (tune_gap tune ++ rest), refl))))
    ]

-- The notes of the startup tune.
startup_notes-IsSome :
    (s : Sounds) (tune : List ℕ) (cpu_mhz : ℕ)
    → s.tim1_autoreload ≢ 0
    → IsSome (
        if get_or tune 0 0 != 255 then play_bluejay_tune s cpu_mhz tune else some (startup_notes s))
unfolding play_bluejay_tune
startup_notes-IsSome s tune cpu_mhz nonzero = elim (Bool-cases (get_or tune 0 0 != 255)) [
  | inl h ↦ rw h (
      bind-IsSome _ _ (tune_pairs-IsSome 61 s cpu_mhz tune 4 0 nonzero)
        (λ calls. (com_step 3 ∷ calls, refl)))
  | inr h ↦ rw h (startup_notes s, refl)
]

-- With a timer period that is not zero, the startup tune plays to its end for every tune in the
-- settings and every clock, and leaves the bridge restored: the interrupts on, no phase driven, the
-- timer at its own period and undivided.
pub play_startup_with_tune-IsRestored :
    (s : Sounds) (tune : List ℕ) (cpu_mhz : ℕ) (b : Bridge)
    → s.tim1_autoreload ≢ 0
    → (calls : List Call) × (play_startup_with_tune s tune cpu_mhz ≡ some calls)
      × IsRestored s (run calls b)
unfolding play_startup_with_tune
play_startup_with_tune-IsRestored s tune cpu_mhz b nonzero =
    let (notes, e) = startup_notes-IsSome s tune cpu_mhz nonzero in
    (guarded s notes, rw e refl, guarded-IsRestored s notes b)
