-- ===== src/Drivers/Comparator/Triggers.antt =====
-- The edges that trigger the comparator's interrupt (rm32_stm32/src/mcu_f051/comparator.rs and
-- rm32_stm32/src/mcu_g431/comparator.rs).
use rm32_private.Base.{
  ℕ, ◌%◌, Bool, true, false, not, ◌==◌, ◌≡◌, refl, List, [], ◌∷◌, if◌then◌else◌,
}
use rm32_private.Drivers.Comparator.{
  CompCall, BemfComparator, Line, Lines, set_inmsel, set_rising_edge, set_falling_edge,
  change_input, phase_input, f051_line, g431_lines, active_line,
}

unfoldable pub line_after : List CompCall → Line → Line
unfolding f051_line
line_after [] l = l
line_after (c ∷ cs) l = line_after cs (f051_line c l)

unfoldable pub lines_after : List CompCall → Lines → Lines
unfolding g431_lines
lines_after [] l = l
lines_after (c ∷ cs) l = lines_after cs (g431_lines c l)

chosen-f051 :
    (rising : Bool) (phase : ℕ) (l : Line)
    → let t =
        line_after
          (set_inmsel phase ∷ (if rising then set_falling_edge else set_rising_edge) ∷ [])
          l in
      (t.on_falling ≡ rising) × (t.on_rising ≡ not rising)
unfolding line_after
chosen-f051 true phase l = (refl, refl)
chosen-f051 false phase l = (refl, refl)

lines_of :
    (rising second : Bool) (l : Lines)
    → let t =
        g431_lines
          (if rising then set_falling_edge else set_rising_edge)
          (record l { active_is_comp2 = second }) in
      ((active_line t).on_falling ≡ not rising) × ((active_line t).on_rising ≡ rising)
unfolding g431_lines
lines_of true true l = (refl, refl)
lines_of true false l = (refl, refl)
lines_of false true l = (refl, refl)
lines_of false false l = (refl, refl)

-- For the same step and direction the two chips wait for opposite edges of the comparator: with a
-- rising voltage the F051 is triggered by the falling edge alone, and the active line of the G431
-- by the rising edge alone, and the other way round.
pub change_input-triggers :
    (c : BemfComparator) (l : Line) (ls : Lines)
    → c.calls ≡ []
    → let calls = (change_input c).calls in
      ((line_after calls l).on_falling ≡ c.rising)
      × ((line_after calls l).on_rising ≡ not c.rising)
      × ((active_line (lines_after calls ls)).on_falling ≡ not c.rising)
      × ((active_line (lines_after calls ls)).on_rising ≡ c.rising)
unfolding change_input lines_after
change_input-triggers c l ls h =
    let phase = phase_input c.step c.inmsel in
    let one = chosen-f051 c.rising phase l in
    let two = lines_of c.rising (phase % 2 == 1) ls in rw h (one.0, one.1, two.0, two.1)
