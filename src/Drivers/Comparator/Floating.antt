-- ===== src/Drivers/Comparator/Floating.antt =====
-- The comparator and the bridge together (rm32_stm32/src/comparator.rs, rm32_stm32/src/phase.rs).
use rm32_private.Base.{
  ℕ, ◌+◌, Bool, true, false, not, ◌&&◌, ◌≡◌, refl, [], ◌∷◌, ◌++◌, if◌then◌else◌,
}
use rm32_private.Commutation.Cycle.{IsStep}
use rm32_private.Drivers.Phase.{Leg, phase_a, phase_b, phase_c, com_step}
use rm32_private.Drivers.Phase.Crossing.{Bridge, may_conduct, leg_of, at_step, write_all, six_cases}
use rm32_private.Drivers.Comparator.{
  InmselMap, BemfComparator, set_inmsel, set_rising_edge, set_falling_edge, change_input,
  phase_input,
}

-- A leg floats when neither switch may conduct.
abbrev pub floats : Bridge → Leg → Bool
floats b leg = not (may_conduct (leg_of leg b).high) && not (may_conduct (leg_of leg b).low)

abbrev pub input_of : InmselMap → Leg → ℕ
input_of m phase_a = m.phase_a
input_of m phase_b = m.phase_b
input_of m phase_c = m.phase_c

-- The input that stands for the one floating leg of a bridge.
abbrev pub floating_input : Bridge → InmselMap → ℕ
floating_input b m =
    if floats b phase_a then m.phase_a else if floats b phase_b then m.phase_b else m.phase_c

abbrev count : Bool → ℕ
count b = if b then 1 else 0

abbrev pub floating_legs : Bridge → ℕ
floating_legs b = count (floats b phase_a) + count (floats b phase_b) + count (floats b phase_c)

abbrev Watched : Bool → InmselMap → ℕ → Type 0
Watched comp m s =
    (phase_input s m ≡ floating_input (at_step comp s) m) × (floating_legs (at_step comp s) ≡ 1)

watched : (comp : Bool) (m : InmselMap) (s : ℕ) → IsStep s → Watched comp m s
unfolding at_step write_all com_step
watched true m s h =
    six_cases (Watched true m) (refl, refl) (refl, refl) (refl, refl) (refl, refl) (refl, refl)
      (refl, refl) s h.0 h.1
watched false m s h =
    six_cases (Watched false m) (refl, refl) (refl, refl) (refl, refl) (refl, refl) (refl, refl)
      (refl, refl) s h.0 h.1

-- At every step one leg of the bridge floats, and it is its input that the comparator selects, with
-- the falling edge where the voltage of the leg rises, and the rising edge where it falls.
pub change_input-watches :
    (comp : Bool) (c : BemfComparator)
    → IsStep c.step
    → (floating_legs (at_step comp c.step) ≡ 1)
      × ((change_input c).calls
          ≡ c.calls
            ++ (set_inmsel (floating_input (at_step comp c.step) c.inmsel)
                ∷ (if c.rising then set_falling_edge else set_rising_edge)
                ∷ []))
unfolding change_input
change_input-watches comp c h = let w = watched comp c.inmsel c.step h in (w.1, rw (w.0) refl)
