-- ===== src/Shared/Modes.antt =====
-- The mode setters of the shared state, and the counters and signed words
-- (rm32/src/shared_state.rs).
use rm32_private.Base.{
  Bool-cases, inl, inr, ◌∙◌, ap, min, ◌+◌, ◌≤◌, ◌≡◌, refl, Bool, true, ◌&&◌, List, [], ◌∷◌, arith,
}
use rm32_private.Base.Int.{ℤ}
use rm32_private.Base.Word.{i32, i16, u16_of, u32_of, i32_id, i16_id, FitsI32, FitsI16}
use rm32_private.MotorMode
use rm32_private.MotorMode.{
  MotorMode, MotorEvent, disarmed, armed, stepper_sine, old_routine, running, to_u8, from_u8,
}
use rm32_private.MotorMode.Traces.{run}
use rm32_private.Shared.{
  SharedState, mode, set_motor_mode, mode_eq, transition, set_armed, set_running, set_old_routine,
  set_stepper_sine, is_armed, is_running, is_old_routine, is_stepper_sine, e_com_time,
  set_e_com_time, actual_current, set_actual_current, degrees_celsius, set_degrees_celsius,
  increment_zero_crosses, increment_signal_timeout,
}

reads_back : (m : MotorMode) → from_u8 (to_u8 m) ≡ m
unfolding from_u8 to_u8
reads_back m = ground arith

pub mode-set_motor_mode : (m : MotorMode) (s : SharedState) → mode (set_motor_mode m s) ≡ m
unfolding mode set_motor_mode
mode-set_motor_mode m s = reads_back m

pub mode_eq-true : (a b : MotorMode) → mode_eq a b ≡ true → a ≡ b
unfolding mode_eq to_u8
mode_eq-true a b h = ground arith

-- The compare-and-swap on the stored byte acts on the mode as the mode machine does.
pub mode-transition :
    (e : MotorEvent) (s : SharedState) → mode (transition e s) ≡ MotorMode.transition (mode s) e
unfolding transition
mode-transition e s = ground (
  arith,
  mode-set_motor_mode (MotorMode.transition (mode s) e) s,
  mode_eq-true (MotorMode.transition (mode s) e) (mode s),
)

module _ (v : Bool) (s : SharedState) where
  by_armed : is_armed (set_armed v s) ≡ v
  unfolding set_armed is_armed MotorMode.is_armed MotorMode.to_u8 from_u8
  by_armed = ground arith

  by_running : is_running (set_running v s) ≡ v
  unfolding set_running is_running MotorMode.is_running MotorMode.to_u8 from_u8
  by_running = ground arith

  by_sine : is_stepper_sine (set_stepper_sine v s) ≡ v
  unfolding set_stepper_sine is_stepper_sine MotorMode.is_stepper_sine MotorMode.to_u8 from_u8
  by_sine = ground arith

  by_polling : is_old_routine (set_old_routine v s) ≡ (v && is_running s)
  unfolding set_old_routine is_old_routine is_running MotorMode.is_old_routine MotorMode.is_running
      MotorMode.to_u8 from_u8
  by_polling = ground arith

  keeps_running : is_running (set_old_routine v s) ≡ is_running s
  unfolding set_old_routine is_old_routine is_running MotorMode.is_old_routine MotorMode.is_running
      MotorMode.to_u8 from_u8
  keeps_running = ground arith

  keeps_armed : is_armed (set_old_routine v s) ≡ is_armed s
  unfolding set_old_routine is_armed is_old_routine is_running MotorMode.is_armed
      MotorMode.is_old_routine MotorMode.is_running MotorMode.to_u8 from_u8
  keeps_armed = ground arith

-- Each setter makes its own test true or false as asked, except that asking for polling has an
-- effect on a running motor alone; `set_old_routine` neither arms nor starts, and neither stops nor
-- disarms.
pub setters_lem :
    (v : Bool) (s : SharedState)
    → (is_armed (set_armed v s) ≡ v)
      × (is_running (set_running v s) ≡ v)
      × (is_stepper_sine (set_stepper_sine v s) ≡ v)
      × (is_old_routine (set_old_routine v s) ≡ (v && is_running s))
      × (is_running (set_old_routine v s) ≡ is_running s)
      × (is_armed (set_old_routine v s) ≡ is_armed s)
setters_lem v s =
    (by_armed v s, by_running v s, by_sine v s, by_polling v s, keeps_running v s, keeps_armed v s)

pub only_mode :
    (e : MotorEvent) (s : SharedState)
    → transition e s ≡ record s { motor_mode = (transition e s).motor_mode }
unfolding transition
only_mode e s = elim (Bool-cases (mode_eq (MotorMode.transition (mode s) e) (mode s))) [
  | inl same ↦ rw same
  | inr other ↦ rw other
]

-- A sequence of compare-and-swaps, in the order in which they take effect.
pub transitions : List MotorEvent → SharedState → SharedState
transitions [] s = s
transitions (e ∷ es) s = transitions es (transition e s)

-- However the two contexts interleave their transitions, the mode is that of the mode machine on the
-- merged sequence, and no other cell changes.
pub mode-transitions :
    (es : List MotorEvent) (s : SharedState)
    → (mode (transitions es s) ≡ run (mode s) es)
      × (transitions es s ≡ record s { motor_mode = (transitions es s).motor_mode })
unfolding transitions run
mode-transitions [] s = (refl, refl)
mode-transitions (e ∷ es) s =
    let (m, frame) = mode-transitions es (transition e s) in
    (
      m ∙ ap (λ n. run n es) (mode-transition e s),
      frame
          ∙ ap {B = SharedState}
              (λ (t : SharedState). record t {
                motor_mode = (transitions es (transition e s)).motor_mode;
              })
              (only_mode e s),
    )

-- A signed value that fits its word is read back as it was written.
pub signed_cells :
    (v w t : ℤ) (s : SharedState)
    → FitsI32 v
    → FitsI16 w
    → FitsI16 t
    → (e_com_time (set_e_com_time v s) ≡ v)
      × (actual_current (set_actual_current w s) ≡ w)
      × (degrees_celsius (set_degrees_celsius t s) ≡ t)
unfolding e_com_time set_e_com_time actual_current set_actual_current degrees_celsius
    set_degrees_celsius i32 i16 u16_of u32_of
signed_cells v w t s h i j = (i32_id v h, i16_id w i, i16_id t j)

-- The counters stop at their limits instead of wrapping, and count up below them.
pub counters_lem :
    (s : SharedState)
    → s.zero_crosses ≤ 10000
    → s.signal_timeout ≤ 65535
    → ((increment_zero_crosses s).zero_crosses ≡ min (s.zero_crosses + 1) 10000)
      × ((increment_signal_timeout s).signal_timeout ≡ min (s.signal_timeout + 1) 65535)
unfolding increment_zero_crosses increment_signal_timeout
counters_lem s h i = ground arith
