-- ===== src/Input.antt =====
-- The input pipeline of the main loop (rm32/src/control/input.rs), with `ProtectionState`
-- (rm32/src/control/state.rs). The function reads and writes the shared state, the protection state
-- and its own state; here it takes and returns them.
pub mod Publish
pub mod Fault
pub mod Untouched
mod Examples
use rm32_private.Base.{
  ℕ, ◌+◌, ◌-◌, ◌*◌, Bool, true, false, not, ◌&&◌, ◌||◌, ◌!=◌, ◌==◌, ltb, leb, Option, some, none,
  if◌then◌else◌,
}
use rm32_private.Base.Word.{u16}
use rm32_private.Config.{
  EepromConfig, dir_reversed, stuck_rotor_protection, use_sine_start,
  sine_mode_changeover_throttle_level, brake_on_stop, comp_pwm,
}
use rm32_private.Shared.{SharedState, set_old_routine, is_armed, is_stepper_sine}
use rm32_private.InputMapping.{
  InputMode, ReverseMode, unidirectional, bidir_dshot, bidir_servo, speed_gated, rc_car, is_rc_car,
  from_config, BidirResult, dshot_bidir, dshot_rc_car, servo_bidir, servo_rc_car, sine_start_map,
}

pub record ProtectionState : Type 0 where
  pub bemf_timeout_happened : ℕ
  pub bemf_timeout : ℕ
  pub low_voltage_count : ℕ
  pub low_voltage_cutoff : Bool

abbrev pub default_protection : ProtectionState
default_protection = record {
  bemf_timeout_happened = 0;
  bemf_timeout = 10;
  low_voltage_count = 0;
  low_voltage_cutoff = false;
}

pub record InputState : Type 0 where
  pub prop_brake : Bool
  pub return_to_center : Bool
  pub reverse_speed_threshold : ℕ
  pub input : ℕ
  pub input_mode : InputMode

abbrev pub new : InputState
new = record {
  prop_brake = false;
  return_to_center = false;
  reverse_speed_threshold = 1500;
  input = 0;
  input_mode = unidirectional;
}

pub record World : Type 0 where
  pub shared : SharedState
  pub protection : ProtectionState
  pub state : InputState

-- Whether the stick is back in the centre: around 1000 for a servo, at most 47 for DShot.
abbrev in_center : ℕ → Option ℕ → Bool
in_center newinput none = leb newinput 47
in_center newinput (some dead_band) =
    let db2 = u16 (dead_band * 2) in leb (1000 - db2) newinput && leb newinput (u16 (1000 + db2))

unfoldable pub apply_rc_car_result : BidirResult → ℕ → Option ℕ → InputState → InputState
apply_rc_car_result r newinput dead_band st =
    let centered = if r.reverse then false else st.return_to_center in
    let braking = if r.prop_brake then true else st.prop_brake in
    if in_center newinput dead_band && braking
    then record st { prop_brake = false; return_to_center = true }
    else record st { prop_brake = braking; return_to_center = centered }

-- What a speed-gated reversal changes in the shared state.
abbrev gated_shared : BidirResult → SharedState → SharedState
gated_shared r s =
    let s' = record s { adjusted_input = r.adjusted } in
    if r.reverse
    then set_old_routine true (record s' { forward = not s'.forward; zero_crosses = 0 })
    else s'

abbrev handshake_shared : BidirResult → SharedState → SharedState
handshake_shared r s =
    let s' = record s { adjusted_input = r.adjusted } in
    if r.reverse then record s' { forward = not s'.forward } else s'

-- The first part: the mapping for the mode.
unfoldable pub map_input :
    EepromConfig → InputMode → SharedState → InputState → SharedState × InputState
unfolding apply_rc_car_result
map_input config unidirectional s st = (record s { adjusted_input = s.newinput }, st)
map_input config (bidir_dshot speed_gated) s st =
    let r =
      dshot_bidir s.newinput s.forward (dir_reversed config != 0) s.commutation_interval
        s.duty_cycle (is_stepper_sine s) st.reverse_speed_threshold in
    (gated_shared r s, st)
map_input config (bidir_dshot rc_car) s st =
    let r =
      dshot_rc_car s.newinput s.forward (dir_reversed config != 0) st.prop_brake
        st.return_to_center in
    (handshake_shared r s, apply_rc_car_result r s.newinput none st)
map_input config (bidir_servo speed_gated dead_band) s st =
    let r =
      servo_bidir s.newinput s.forward (dir_reversed config != 0) s.commutation_interval
        s.duty_cycle (is_stepper_sine s) st.reverse_speed_threshold dead_band in
    (gated_shared r s, st)
map_input config (bidir_servo rc_car dead_band) s st =
    let r =
      servo_rc_car s.newinput s.forward (dir_reversed config != 0) st.prop_brake st.return_to_center
        dead_band in
    (handshake_shared r s, apply_rc_car_result r s.newinput (some dead_band) st)

abbrev pub is_stuck : EepromConfig → ProtectionState → Bool
is_stuck config p =
    ltb p.bemf_timeout p.bemf_timeout_happened && (stuck_rotor_protection config != 0)

-- The second part: the latch of the stuck-rotor fault, which returns early.
latch_fault : World → World
latch_fault w = record {
  shared = record (w.shared) { adjusted_input = 0; prop_brake_active = false };
  protection = record (w.protection) { bemf_timeout_happened = 102 };
  state = record (w.state) { input = 0; prop_brake = false };
}

-- The third part: the sine start curve, published and kept locally.
apply_sine_start : EepromConfig → World → World
apply_sine_start config w =
    let adjusted = (w.shared).adjusted_input in
    if (use_sine_start config != 0) && ltb 47 adjusted
    then (let mapped = sine_start_map adjusted (sine_mode_changeover_throttle_level config) in
        record w {
          shared = record (w.shared) { adjusted_input = mapped };
          state = record (w.state) { input = mapped };
        })
    else record w { state = record (w.state) { input = adjusted } }

-- The fourth part: brake on stop, outside the RC-car modes, and its publication.
apply_brake : EepromConfig → World → World
apply_brake config w =
    let s = w.shared in
    let st = w.state in
    let stop =
      is_armed s
      && not (is_stepper_sine s)
      && ltb st.input 47
      && (brake_on_stop config == 1)
      && (comp_pwm config != 0) in
    let braking =
      if is_rc_car st.input_mode
      then st.prop_brake
      else if stop
      then true
      else if leb 47 st.input
      then false
      else st.prop_brake in
    record w {
      shared = record s { prop_brake_active = braking };
      state = record st { prop_brake = braking };
    }

-- The state after the first part.
abbrev pub mapped : EepromConfig → World → World
mapped config w =
    let r = map_input config (w.state).input_mode w.shared w.state in
    record w { shared = r.0; state = r.1 }

unfoldable pub process_input : EepromConfig → World → World
unfolding latch_fault apply_sine_start apply_brake
process_input config w =
    if is_stuck config w.protection
    then latch_fault (mapped config w)
    else apply_brake config (apply_sine_start config (mapped config w))

-- `SystemTick::tick_input` (rm32/src/system.rs): the mode is derived anew each time.
unfoldable pub tick_input : EepromConfig → World → World
tick_input config w =
    process_input config
      (record w { state = record (w.state) { input_mode = from_config config (w.shared).dshot } })
