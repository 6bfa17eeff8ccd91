-- ===== src/Shared/Race.antt =====
-- Why the setters of the shared state are compare-and-swap loops: the default of the trait
-- `MotorState` (rm32/src/shared_comm.rs) loads the mode, computes, and stores, and another context
-- may act between its accesses.
use rm32_private.Base.{
  Bool, false, Bool-cases, inl, inr, refl, ap, ◌≡◌, ◌≢◌, not, if◌then◌else◌, arith, List, ◌∷◌, ◌++◌,
  ◌∙◌,
}
use rm32_private.MotorMode
use rm32_private.MotorMode.{MotorMode, MotorEvent, disarmed, disarm}
use rm32_private.MotorMode.Traces.{NeverArms, run-disarm}
use rm32_private.Shared.{SharedState, mode, mode_eq, set_motor_mode, transition}
use rm32_private.Shared.Modes.{
  mode_eq-true, mode-transition, transitions, mode-set_motor_mode, mode-transitions,
}

-- The trait's `transition` in its three accesses: the first load, the second load, and the store, which
-- there is only if the second load differs from the new mode. `first` and `second` are what the other
-- context does between them.
unfoldable pub default_transition :
    MotorEvent
    → (SharedState → SharedState)
    → (SharedState → SharedState)
    → SharedState
    → SharedState
default_transition event first second s =
    let n = MotorMode.transition (mode s) event in
    let seen_again = first s in
    let before_store = second seen_again in
    if not (mode_eq n (mode seen_again)) then set_motor_mode n before_store else before_store

stored_late :
    (n : MotorMode) (s t : SharedState)
    → mode (if not (mode_eq n (mode s)) then set_motor_mode n t else t)
      ≡ (if mode_eq n (mode s) then mode t else n)
stored_late n s t = elim (Bool-cases (mode_eq n (mode s))) [
  | inl h ↦ rw h refl
  | inr h ↦ rw h (mode-set_motor_mode n t)
]

always : (m : MotorMode) → MotorMode.transition m disarm ≡ disarmed
unfolding MotorMode.transition
always m = ground arith

disarmed_now : (s : SharedState) → mode (transition disarm s) ≡ disarmed
disarmed_now s = mode-transition disarm s ∙ always (mode s)

not_disarmed : (n : MotorMode) → n ≢ disarmed → mode_eq n disarmed ≡ false
not_disarmed n h = elim (Bool-cases (mode_eq n disarmed)) [
  | inl e ↦ absurd (h (mode_eq-true n disarmed e))
  | inr e ↦ e
]

-- Where the pending event leads to an armed mode, a disarm of the other context between the two loads of
-- the trait's default is overwritten by that mode, whatever else happens before the store. A disarm
-- between the second load and the store is overwritten too, whatever happened between the loads,
-- unless the second load finds the new mode there already, so that there is no store.
pub default_transition-loses_disarm :
    (e : MotorEvent) (other : SharedState → SharedState) (s : SharedState)
    → MotorMode.transition (mode s) e ≢ disarmed
    → let n = MotorMode.transition (mode s) e in
      (mode (default_transition e (transition disarm) other s) ≡ n)
      × (mode (default_transition e other (transition disarm) s)
          ≡ (if mode_eq n (mode (other s)) then disarmed else n))
unfolding default_transition
default_transition-loses_disarm e other s h =
    let n = MotorMode.transition (mode s) e in
    (
      stored_late n (transition disarm s) (other (transition disarm s))
          ∙ ap (λ (b : Bool). if b then mode (other (transition disarm s)) else n)
              (ap (mode_eq n) (disarmed_now s) ∙ not_disarmed n h),
      stored_late n (other s) (transition disarm (other s))
          ∙ ap (λ (m : MotorMode). if mode_eq n (mode (other s)) then m else n)
              (disarmed_now (other s)),
    )

-- With compare-and-swaps no interleaving loses it: once a disarm has taken effect the mode stays
-- disarmed until an arm event takes effect.
pub transitions-disarm :
    (before after : List MotorEvent) (s : SharedState)
    → NeverArms after
    → mode (transitions (before ++ (disarm ∷ after)) s) ≡ disarmed
transitions-disarm before after s h =
    (mode-transitions (before ++ (disarm ∷ after)) s).0 ∙ run-disarm (mode s) before after h
