-- ===== src/Drivers/Comparator.antt =====
-- The comparator that watches the floating phase (rm32_stm32/src/comparator.rs over the traits of
-- comp_hal.rs), and the trigger lines that rm32_stm32/src/mcu_f051/comparator.rs and
-- rm32_stm32/src/mcu_g431/comparator.rs make of its calls.
pub mod Floating
pub mod Triggers
mod Examples
use rm32_private.Base.{ℕ, ◌%◌, Bool, true, false, ◌||◌, ◌==◌, List, [], ◌∷◌, ◌++◌, if◌then◌else◌}

pub record InmselMap : Type 0 where
  pub phase_a : ℕ
  pub phase_b : ℕ
  pub phase_c : ℕ

-- The calls of `CompOps` and `ExtiOps`.
pub data CompCall : Type 0 where
  set_inmsel : ℕ → CompCall
  set_rising_edge set_falling_edge enable_interrupt mask_and_clear : CompCall

pub record BemfComparator : Type 0 where
  pub step : ℕ
  pub rising : Bool
  pub inmsel : InmselMap
  pub calls : List CompCall

abbrev pub new : InmselMap → BemfComparator
new inmsel = record { step = 1; rising = true; inmsel = inmsel; calls = [] }

unfoldable pub set_step : ℕ → Bool → BemfComparator → BemfComparator
set_step step rising c = record c { step = step; rising = rising }

abbrev pub phase_input : ℕ → InmselMap → ℕ
phase_input step inmsel =
    if (step == 1) || (step == 4)
    then inmsel.phase_c
    else if (step == 2) || (step == 5)
    then inmsel.phase_a
    else if (step == 3) || (step == 6)
    then inmsel.phase_b
    else inmsel.phase_c

unfoldable pub change_input : BemfComparator → BemfComparator
change_input c = record c {
  calls =
      c.calls
      ++ (set_inmsel (phase_input c.step c.inmsel)
          ∷ (if c.rising then set_falling_edge else set_rising_edge)
          ∷ []);
}

unfoldable pub enable_interrupts : BemfComparator → BemfComparator
enable_interrupts c = record c { calls = c.calls ++ (enable_interrupt ∷ []) }

unfoldable pub mask_interrupts : BemfComparator → BemfComparator
mask_interrupts c = record c { calls = c.calls ++ (mask_and_clear ∷ []) }

-- A line of the interrupt controller: the edges that trigger it, and whether it is let through.
pub record Line : Type 0 where
  pub on_rising : Bool
  pub on_falling : Bool
  pub unmasked : Bool
  pub pending : Bool

-- The F051 has one comparator and its line.
unfoldable pub f051_line : CompCall → Line → Line
f051_line (set_inmsel phase) l = l
f051_line set_rising_edge l = record l { on_rising = true; on_falling = false }
f051_line set_falling_edge l = record l { on_rising = false; on_falling = true }
f051_line enable_interrupt l = record l { unmasked = true }
f051_line mask_and_clear l = record l { unmasked = false; pending = false }

-- The G431 has two, and the lowest bit of the selection says which is active.
pub record Lines : Type 0 where
  pub active_is_comp2 : Bool
  pub line_21 : Line
  pub line_22 : Line

abbrev pub active_line : Lines → Line
active_line l = if l.active_is_comp2 then l.line_22 else l.line_21

abbrev on_active : (Line → Line) → Lines → Lines
on_active f l =
    if l.active_is_comp2
    then record l { line_22 = f l.line_22 }
    else record l { line_21 = f l.line_21 }

abbrev on_both : (Line → Line) → Lines → Lines
on_both f l = record l { line_21 = f l.line_21; line_22 = f l.line_22 }

abbrev not_rising : Line → Line
not_rising l = record l { on_rising = false }

abbrev not_falling : Line → Line
not_falling l = record l { on_falling = false }

unfoldable pub g431_lines : CompCall → Lines → Lines
g431_lines (set_inmsel phase) l = record l { active_is_comp2 = phase % 2 == 1 }
g431_lines set_rising_edge l =
    on_active (λ t. record t { on_falling = true }) (on_both not_rising l)
g431_lines set_falling_edge l =
    on_both not_falling (on_active (λ t. record t { on_rising = true }) l)
g431_lines enable_interrupt l = on_active (λ t. record t { unmasked = true }) l
g431_lines mask_and_clear l = on_both (λ t. record t { unmasked = false; pending = false }) l
