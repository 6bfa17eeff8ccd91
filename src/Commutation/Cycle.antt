-- ===== src/Commutation/Cycle.antt =====
-- The order of the steps and the flags that go with a step (rm32/src/commutation.rs).
use rm32_private.Base.{
  ℕ, suc, zero, ◌+◌, ◌%◌, ◌≤◌, ◌≡◌, refl, Bool, true, false, not, List, ◌||◌, ◌==◌, arith,
  if◌then◌else◌,
}
use rm32_private.Commutation.{Commutation, advance, is_even}

abbrev pub IsStep : ℕ → Type 0
IsStep s = (1 ≤ s) × (s ≤ 6)

-- The next step round the cycle 1, 2, …, 6, in either direction.
abbrev pub next_step : Bool → ℕ → ℕ
next_step true s = s % 6 + 1
next_step false s = (s + 4) % 6 + 1

-- The last step before the cycle starts again.
abbrev pub last_step : Bool → ℕ
last_step true = 6
last_step false = 1

-- From a step in range, `advance` goes to the next step of the direction and stays in range; a
-- rising edge is expected on the odd steps forward and on the even steps backward; the desync check
-- is requested when the cycle wraps, and is never withdrawn; the direction and the recorded
-- intervals stay.
pub advance_lem :
    (c : Commutation)
    → IsStep c.step
    → ((advance c).step ≡ next_step c.forward c.step)
      × IsStep (advance c).step
      × ((advance c).rising
          ≡ (if c.forward then not (is_even (advance c).step) else is_even (advance c).step))
      × ((advance c).desync_check ≡ ((c.step == last_step c.forward) || c.desync_check))
      × ((advance c).forward ≡ c.forward)
      × ((advance c).intervals ≡ c.intervals)
unfolding advance
advance_lem c h = ground arith

abbrev pub turn : Commutation → Commutation
turn c = record c { forward = not c.forward }

-- Turning round and advancing goes back to the step before.
pub advance-turn : (c : Commutation) → IsStep c.step → (advance (turn (advance c))).step ≡ c.step
advance-turn c h = ground (arith, advance_lem c, advance_lem (turn (advance c)))

abbrev pub advance_times : ℕ → Commutation → Commutation
advance_times zero c = c
advance_times (suc n) c = advance (advance_times n c)

abbrev SixSteps : Commutation → Type 0
SixSteps c = ((advance_times 6 c).step ≡ c.step) × ((advance_times 6 c).desync_check ≡ true)

six_from :
    (f : Bool) (s : ℕ) (r d : Bool) (l : List ℕ)
    → IsStep s
    → SixSteps (record { step = s; forward = f; rising = r; desync_check = d; intervals = l })
unfolding advance
six_from true zero r d l h = absurd (omega arith)
six_from true (suc zero) r d l h = (refl, refl)
six_from true (suc (suc zero)) r d l h = (refl, refl)
six_from true (suc (suc (suc zero))) r d l h = (refl, refl)
six_from true (suc (suc (suc (suc zero)))) r d l h = (refl, refl)
six_from true (suc (suc (suc (suc (suc zero))))) r d l h = (refl, refl)
six_from true (suc (suc (suc (suc (suc (suc zero)))))) r d l h = (refl, refl)
six_from true (suc (suc (suc (suc (suc (suc (suc n))))))) r d l h = absurd (omega arith)
six_from false zero r d l h = absurd (omega arith)
six_from false (suc zero) r d l h = (refl, refl)
six_from false (suc (suc zero)) r d l h = (refl, refl)
six_from false (suc (suc (suc zero))) r d l h = (refl, refl)
six_from false (suc (suc (suc (suc zero)))) r d l h = (refl, refl)
six_from false (suc (suc (suc (suc (suc zero))))) r d l h = (refl, refl)
six_from false (suc (suc (suc (suc (suc (suc zero)))))) r d l h = (refl, refl)
six_from false (suc (suc (suc (suc (suc (suc (suc n))))))) r d l h = absurd (omega arith)

-- Six steps in one direction are a full electrical turn: the step is the same again, and the desync
-- check has been requested.
pub advance_six :
    (c : Commutation)
    → IsStep c.step
    → ((advance_times 6 c).step ≡ c.step) × ((advance_times 6 c).desync_check ≡ true)
advance_six c h = six_from c.forward c.step c.rising c.desync_check c.intervals h
