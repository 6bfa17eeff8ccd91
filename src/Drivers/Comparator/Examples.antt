-- ===== src/Drivers/Comparator/Examples.antt =====
-- Runs of the comparator.
use rm32_private.Base.{◌≡◌, refl, arith, true, false, [], ◌∷◌}
use rm32_private.Drivers.Phase.Crossing.{at_step}
use rm32_private.Drivers.Comparator.{
  InmselMap, BemfComparator, Line, Lines, new, set_step, set_inmsel, set_rising_edge, change_input,
  enable_interrupts, mask_interrupts, active_line,
}
use rm32_private.Drivers.Comparator.Floating.{floating_legs, floating_input, change_input-watches}
use rm32_private.Drivers.Comparator.Triggers.{line_after, lines_after, change_input-triggers}

-- The selections of the F051.
abbrev f051_inputs : InmselMap
f051_inputs = record { phase_a = 0x51; phase_b = 0x41; phase_c = 0x61 }

abbrev watching : BemfComparator
watching = record { step = 5; rising = false; inmsel = f051_inputs; calls = [] }

reached : set_step 5 false (new f051_inputs) ≡ watching
unfolding set_step
reached = refl

change_input-watches_example :
    (floating_legs (at_step false 5) ≡ 1)
    × ((change_input watching).calls
        ≡ set_inmsel (floating_input (at_step false 5) f051_inputs) ∷ set_rising_edge ∷ [])
change_input-watches_example = change_input-watches false watching (omega arith, omega arith)

abbrev quiet : Line
quiet = record { on_rising = false; on_falling = false; unmasked = false; pending = false }

abbrev quiet_lines : Lines
quiet_lines = record { active_is_comp2 = true; line_21 = quiet; line_22 = quiet }

change_input-triggers_example :
    let calls = (change_input watching).calls in
    ((line_after calls quiet).on_falling ≡ false)
    × ((line_after calls quiet).on_rising ≡ true)
    × ((active_line (lines_after calls quiet_lines)).on_falling ≡ true)
    × ((active_line (lines_after calls quiet_lines)).on_rising ≡ false)
change_input-triggers_example = change_input-triggers watching quiet quiet_lines refl

masked : (line_after (mask_interrupts (enable_interrupts watching)).calls quiet).unmasked ≡ false
unfolding line_after mask_interrupts enable_interrupts
masked = refl
