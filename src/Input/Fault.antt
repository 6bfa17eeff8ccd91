-- ===== src/Input/Fault.antt =====
-- The stuck-rotor fault and the plain throttle path (rm32/src/control/input.rs).
use rm32_private.Base.{
  ℕ, ◌<◌, ◌≡◌, ap, ◌∙◌, Bool, true, false, not, ◌&&◌, ◌||◌, ◌!=◌, ◌==◌, ltb, leb, arith,
  if◌then◌else◌, List, [], ◌∷◌,
}
use rm32_private.Config.{
  EepromConfig, use_sine_start, sine_mode_changeover_throttle_level, brake_on_stop, comp_pwm,
}
use rm32_private.Shared.{SharedState, is_armed, is_stepper_sine}
use rm32_private.InputMapping.{is_rc_car, unidirectional, sine_start_map}
use rm32_private.Input.{
  World, InputState, ProtectionState, process_input, latch_fault, apply_sine_start, apply_brake,
  mapped, is_stuck, map_input,
}

-- The outputs that a stuck rotor forces.
abbrev pub Stopped : World → Type 0
Stopped w =
    ((w.shared).adjusted_input ≡ 0)
    × ((w.shared).prop_brake_active ≡ false)
    × ((w.state).input ≡ 0)
    × ((w.protection).bemf_timeout_happened ≡ 102)

process_input_stuck :
    (config : EepromConfig) (w : World)
    → is_stuck config w.protection ≡ true
    → process_input config w ≡ latch_fault (mapped config w)
unfolding process_input latch_fault
process_input_stuck config w h =
    ap {B = World}
      (λ (b : Bool).
        if b
        then latch_fault (mapped config w)
        else apply_brake config (apply_sine_start config (mapped config w)))
      h

pub stuck_stops :
    (config : EepromConfig) (w : World)
    → is_stuck config w.protection ≡ true
    → Stopped (process_input config w)
unfolding latch_fault
stuck_stops config w h =
    let p = process_input_stuck config w h in
    (
      ap (λ (v : World). (v.shared).adjusted_input) p,
      ap (λ (v : World). (v.shared).prop_brake_active) p,
      ap (λ (v : World). (v.state).input) p,
      ap (λ (v : World). (v.protection).bemf_timeout_happened) p,
    )

pub stuck_timeout :
    (config : EepromConfig) (w : World)
    → is_stuck config w.protection ≡ true
    → ((process_input config w).protection).bemf_timeout ≡ (w.protection).bemf_timeout
unfolding latch_fault
stuck_timeout config w h =
    ap (λ (v : World). (v.protection).bemf_timeout) (process_input_stuck config w h)

still_stuck :
    (config : EepromConfig) (p q : ProtectionState)
    → is_stuck config p ≡ true
    → p.bemf_timeout < 102
    → q.bemf_timeout_happened ≡ 102
    → q.bemf_timeout ≡ p.bemf_timeout
    → is_stuck config q ≡ true
still_stuck config p q h lt e f = ground arith

lt_of_eq : {a b : ℕ} → a ≡ b → b < 102 → a < 102
lt_of_eq e h = omega arith

-- Calls of the pipeline, with the receiver writing a new throttle before each.
unfoldable pub receive : EepromConfig → List ℕ → World → World
receive config [] w = w
receive config (n ∷ ns) w =
    receive config ns
      (process_input config (record w { shared = record (w.shared) { newinput = n } }))

stuck_again :
    (config : EepromConfig) (w : World)
    → is_stuck config w.protection ≡ true
    → (w.protection).bemf_timeout < 102
    → is_stuck config (process_input config w).protection ≡ true
stuck_again config w h lt =
    let stop = stuck_stops config w h in
    still_stuck config w.protection (process_input config w).protection h lt stop.3
      (stuck_timeout config w h)

-- The stuck-rotor fault latches: with a timeout below 102, once the pipeline has seen the fault it
-- gives no throttle and no brake after any number of further calls, whatever throttles the receiver
-- writes in between, and the timeout counter stays at 102.
pub receive-Stopped :
    (config : EepromConfig) (n : ℕ) (ns : List ℕ) (w : World)
    → is_stuck config w.protection ≡ true
    → (w.protection).bemf_timeout < 102
    → Stopped (receive config (n ∷ ns) w)
unfolding receive
receive-Stopped config n [] w h lt = stuck_stops config _ h
receive-Stopped config n (m ∷ ns) w h lt =
    let v = record w { shared = record (w.shared) { newinput = n } } in
    receive-Stopped config m ns (process_input config v) (stuck_again config v h lt)
      (lt_of_eq (stuck_timeout config v h) lt)

process_input_calm :
    (config : EepromConfig) (w : World)
    → is_stuck config w.protection ≡ false
    → process_input config w ≡ apply_brake config (apply_sine_start config (mapped config w))
unfolding process_input
process_input_calm config w h =
    ap {B = World}
      (λ (b : Bool).
        if b
        then latch_fault (mapped config w)
        else apply_brake config (apply_sine_start config (mapped config w)))
      h

brake_shape :
    (n : ℕ) (a b c d old : Bool)
    → (if a && b && ltb n 47 && c && d then true else if leb 47 n then false else old)
      ≡ (ltb n 47 && ((a && b && c && d) || old))
brake_shape n a b c d old = ground arith

module _ (config : EepromConfig) (s : SharedState) (p : ProtectionState) (st : InputState) where
  abbrev uni : World
  uni = record { shared = s; protection = p; state = record st { input_mode = unidirectional } }

  abbrev stops : Bool
  stops =
      is_armed s && not (is_stepper_sine s) && (brake_on_stop config == 1) && (comp_pwm config != 0)

  -- What the first three parts give.
  abbrev passed : World
  passed = record {
    shared = record s { adjusted_input = s.newinput };
    protection = p;
    state = record st { input = s.newinput; input_mode = unidirectional };
  }

  abbrev started : ℕ
  started = sine_start_map s.newinput (sine_mode_changeover_throttle_level config)

  no_sine : use_sine_start config ≡ 0 → ((use_sine_start config != 0) && ltb 47 s.newinput) ≡ false
  no_sine plain = ground arith

  straight : use_sine_start config ≡ 0 → apply_sine_start config (mapped config uni) ≡ passed
  unfolding apply_sine_start map_input
  straight plain =
      ap {B = World}
        (λ (b : Bool).
          if b
          then record passed {
            shared = record s { adjusted_input = started };
            state = record st { input = started; input_mode = unidirectional };
          }
          else passed)
        (no_sine plain)

  braked :
      ((apply_brake config passed).state).prop_brake
      ≡ (ltb s.newinput 47 && (stops || st.prop_brake))
  unfolding apply_brake is_rc_car is_armed is_stepper_sine
  braked =
      brake_shape s.newinput (is_armed s) (not (is_stepper_sine s)) (brake_on_stop config == 1)
        (comp_pwm config != 0) st.prop_brake

-- In the unidirectional mode without sine start and without the fault, the throttle is the received
-- one, and the brake is on exactly if the throttle is below 47 and either the armed motor is told to
-- brake on stop, with complementary PWM and outside the sine mode, or the brake was on before.
pub process_input-passthrough :
    (config : EepromConfig) (s : SharedState) (p : ProtectionState) (st : InputState)
    → is_stuck config p ≡ false
    → use_sine_start config ≡ 0
    → let w = process_input config (record {
      shared = s;
      protection = p;
      state = record st { input_mode = unidirectional };
    }) in
      let stop =
        is_armed s
        && not (is_stepper_sine s)
        && (brake_on_stop config == 1)
        && (comp_pwm config != 0) in
      ((w.shared).adjusted_input ≡ s.newinput)
      × ((w.state).prop_brake ≡ (ltb s.newinput 47 && (stop || st.prop_brake)))
unfolding apply_brake
process_input-passthrough config s p st calm plain =
    let e =
      process_input_calm config (uni config s p st) calm
      ∙ ap (apply_brake config) (straight config s p st plain) in
    (
      ap (λ (v : World). (v.shared).adjusted_input) e,
      ap (λ (v : World). (v.state).prop_brake) e ∙ braked config s p st,
    )
