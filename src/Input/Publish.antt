-- ===== src/Input/Publish.antt =====
-- What the input pipeline publishes (rm32/src/control/input.rs).
use rm32_private.Base.{◌≡◌, refl, Bool, true, false, arith, if◌then◌else◌}
use rm32_private.Config.{EepromConfig}
use rm32_private.Input.{
  World, process_input, apply_sine_start, apply_brake, latch_fault, mapped, is_stuck,
}

-- The shared cells hold what the input state holds.
abbrev pub Published : World → Type 0
Published w =
    ((w.shared).adjusted_input ≡ (w.state).input)
    × ((w.shared).prop_brake_active ≡ (w.state).prop_brake)

sine_start_publishes :
    (config : EepromConfig) (w : World)
    → ((apply_sine_start config w).shared).adjusted_input
      ≡ ((apply_sine_start config w).state).input
unfolding apply_sine_start
sine_start_publishes config w = ground arith

brake_publishes :
    (config : EepromConfig) (w : World)
    → ((w.shared).adjusted_input ≡ (w.state).input)
    → Published (apply_brake config w)
unfolding apply_brake
brake_publishes config w h = (h, refl)

if_Published : (b : Bool) (w v : World) → Published w → Published v → Published (if b then w else v)
if_Published true w v p q = p
if_Published false w v p q = q

-- On every path, the early return of the stuck-rotor fault included, the throttle and the brake that
-- the interrupts read are the ones that the main loop keeps.
pub process_input-Published :
    (config : EepromConfig) (w : World) → Published (process_input config w)
unfolding process_input latch_fault
process_input-Published config w =
    if_Published (is_stuck config w.protection) (latch_fault (mapped config w))
      (apply_brake config (apply_sine_start config (mapped config w))) (refl, refl)
      (brake_publishes config (apply_sine_start config (mapped config w))
        (sine_start_publishes config (mapped config w)))
