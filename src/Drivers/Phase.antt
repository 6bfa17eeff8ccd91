-- ===== src/Drivers/Phase.antt =====
-- The three half bridges (rm32_stm32/src/phase.rs, gpio_pin.rs, emergency.rs). A call of the driver is
-- the list of its writes to the pins, in their order, so that the states between two writes are seen.
pub mod Crossing
pub mod Release
mod Examples
use rm32_private.Base.{
  ℕ, Bool, true, false, not, ◌&&◌, ◌||◌, ◌==◌, List, [], ◌∷◌, ◌++◌, if◌then◌else◌,
}

pub data Leg : Type 0 where
  phase_a phase_b phase_c : Leg

pub data Side : Type 0 where
  high_side low_side : Side

-- `GpioPin::set_mode`, `set_high` and `set_low`, and the same for the pulse pin.
pub data Write : Type 0 where
  set_mode : Leg → Side → ℕ → Write
  set_high set_low : Leg → Side → Write
  set_pulse_mode : ℕ → Write
  set_pulse_low toggle : Write

abbrev pub mode_output : ℕ
mode_output = 1

abbrev pub mode_alternate : ℕ
mode_alternate = 2

pub record PhaseDriver : Type 0 where
  pub comp_pwm : Bool
  pub bridge_enable : Bool
  pub pulse : Bool

abbrev pub new : Bool → PhaseDriver
new comp_pwm = record { comp_pwm = comp_pwm; bridge_enable = false; pulse = false }

abbrev pub new_bridge : Bool → PhaseDriver
new_bridge comp_pwm = record { comp_pwm = comp_pwm; bridge_enable = true; pulse = false }

unfoldable pub enable_pulse_output : PhaseDriver → PhaseDriver × List Write
enable_pulse_output d = (record d { pulse = true }, set_pulse_mode mode_output ∷ set_pulse_low ∷ [])

unfoldable pub phase_pwm : PhaseDriver → Leg → List Write
phase_pwm d leg =
    (if d.bridge_enable
      then (if d.comp_pwm
          then set_mode leg low_side mode_output ∷ set_high leg low_side ∷ []
          else [])
      else if not d.comp_pwm
      then set_mode leg low_side mode_output ∷ set_low leg low_side ∷ []
      else set_mode leg low_side mode_alternate ∷ [])
    ++ (set_mode leg high_side mode_alternate ∷ [])

unfoldable pub phase_low : Leg → List Write
phase_low leg =
    set_mode leg low_side mode_output
    ∷ set_high leg low_side
    ∷ set_mode leg high_side mode_output
    ∷ set_low leg high_side
    ∷ []

unfoldable pub phase_float : Leg → List Write
phase_float leg =
    set_mode leg low_side mode_output
    ∷ set_low leg low_side
    ∷ set_mode leg high_side mode_output
    ∷ set_low leg high_side
    ∷ []

abbrev pub drive : PhaseDriver → Leg → Leg → Leg → List Write
drive d floating low driven = phase_float floating ++ (phase_low low ++ phase_pwm d driven)

unfoldable pub com_step : PhaseDriver → ℕ → List Write
unfolding phase_float phase_low phase_pwm
com_step d step =
    if step == 1
    then drive d phase_c phase_b phase_a
    else if step == 2
    then drive d phase_a phase_b phase_c
    else if step == 3
    then drive d phase_b phase_a phase_c
    else if step == 4
    then drive d phase_c phase_a phase_b
    else if step == 5
    then drive d phase_a phase_c phase_b
    else if step == 6
    then drive d phase_b phase_c phase_a
    else []

unfoldable pub all_off : List Write
unfolding phase_float
all_off = phase_float phase_a ++ (phase_float phase_b ++ phase_float phase_c)

unfoldable pub full_brake : List Write
unfolding phase_low
full_brake = phase_low phase_a ++ (phase_low phase_b ++ phase_low phase_c)

unfoldable pub all_pwm : PhaseDriver → List Write
unfolding phase_pwm
all_pwm d = phase_pwm d phase_a ++ (phase_pwm d phase_b ++ phase_pwm d phase_c)

abbrev off_high : Leg → List Write
off_high leg = set_mode leg high_side mode_output ∷ set_low leg high_side ∷ []

abbrev alternate_low : Leg → List Write
alternate_low leg = set_mode leg low_side mode_alternate ∷ []

unfoldable pub proportional_brake : PhaseDriver → List Write
proportional_brake d =
    if d.bridge_enable
    then []
    else off_high phase_a
      ++ (off_high phase_b
          ++ (off_high phase_c
              ++ (alternate_low phase_a ++ (alternate_low phase_b ++ alternate_low phase_c))))

unfoldable pub pulse_toggle : PhaseDriver → ℕ → List Write
pulse_toggle d step = if d.pulse && ((step == 1) || (step == 4)) then toggle ∷ [] else []

-- `emergency_off` resets the levels of the six pins by two writes of the ports, here pin by pin.
unfoldable pub emergency_off : List Write
emergency_off =
    set_low phase_c low_side
    ∷ set_low phase_c high_side
    ∷ set_low phase_b high_side
    ∷ set_low phase_a high_side
    ∷ set_low phase_b low_side
    ∷ set_low phase_a low_side
    ∷ []
