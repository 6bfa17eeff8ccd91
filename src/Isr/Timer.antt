-- ===== src/Isr/Timer.antt =====
-- The commutation timer and the comparator (rm32/src/control/isr_logic.rs).
use rm32_private.Base.{
  ◌≡◌, refl, ap, ◌∙◌, Bool, Bool-cases, true, false, not, ◌&&◌, leb, arith, if◌then◌else◌, [], ◌∷◌,
  ◌++◌, inl, inr,
}
use mathlib.Core.List.{append_assoc}
use rm32_private.MotorMode
use rm32_private.MotorMode.{MotorMode, old_routine, running, bemf_locked}
use rm32_private.Shared.{SharedState, mode, is_old_routine, increment_zero_crosses, set_e_com_time}
use rm32_private.Shared.Modes.{mode-transition, only_mode}
use rm32_private.Bemf.{reset_after_commutation}
use rm32_private.Commutation.{Commutation, advance, record_interval}
use rm32_private.Commutation.Cycle.{next_step, IsStep, advance_lem}
use rm32_private.Isr.{
  Context, disable_interrupt, com_step, pulse_toggle, set_step, change_input, enable_interrupts,
  send, commutate, retime, lock, commutation_timer_expired,
}

locks :
    (m : MotorMode)
    → MotorMode.is_old_routine m ≡ true
    → MotorMode.transition m bemf_locked ≡ running
unfolding MotorMode.is_old_routine MotorMode.transition
locks m h = ground arith

-- What ends the polling.
abbrev steady : SharedState → Bool
steady s = is_old_routine s && leb 20 s.zero_crosses && leb s.commutation_interval 2000

first_of : (a b c : Bool) → (a && b && c) ≡ true → a ≡ true
first_of a b c h = ground arith

lock_lem :
    (s : SharedState)
    → (mode (lock s) ≡ (if steady s then running else mode s))
      × ((lock s).zero_crosses ≡ s.zero_crosses)
      × ((lock s).commutation_interval ≡ s.commutation_interval)
unfolding lock is_old_routine
lock_lem s = elim (Bool-cases (steady s)) [
  | inl h ↦ rw h (
    mode-transition bemf_locked s
        ∙ locks (mode s) (
            first_of (is_old_routine s) (leb 20 s.zero_crosses) (leb s.commutation_interval 2000)
              h),
    ap (λ (t : SharedState). t.zero_crosses) (only_mode bemf_locked s),
    ap (λ (t : SharedState). t.commutation_interval) (only_mode bemf_locked s),
  )
  | inr h ↦ rw h (refl, refl, refl)
]

counted_mode : (s : SharedState) → (increment_zero_crosses s).motor_mode ≡ s.motor_mode
unfolding increment_zero_crosses
counted_mode s = ground arith

retime_lem :
    (c : Context)
    → (((retime c).shared).motor_mode ≡ (c.shared).motor_mode)
      × ((retime c).sent ≡ c.sent)
      × ((retime c).commutation ≡ c.commutation)
unfolding retime
retime_lem c = elim (Bool-cases (not (is_old_routine c.shared))) [
  | inl h ↦ rw h (refl, refl, refl)
  | inr h ↦ rw h (refl, refl, refl)
]

mode_cong : (s t : SharedState) → s.motor_mode ≡ t.motor_mode → mode s ≡ mode t
unfolding mode
mode_cong s t h = ap MotorMode.from_u8 h

steady_cong :
    (s t u : SharedState)
    → mode s ≡ mode t
    → u.zero_crosses ≡ s.zero_crosses
    → u.commutation_interval ≡ s.commutation_interval
    → steady s ≡ (is_old_routine t && leb 20 u.zero_crosses && leb u.commutation_interval 2000)
unfolding is_old_routine
steady_cong s t u h i j = rw (h, i, j)

-- When the commutation timer expires, the motor takes the next step of its direction: the phases and
-- the comparator are set to that one step, between the disabling of the timer's interrupt and the
-- enabling of the comparator's. Both counters of the detection and its found flag are cleared. Polling ends, in favour
-- of interrupt-driven running, exactly if the motor was polling and after the step has counted at
-- least 20 zero crosses and an interval of at most 2000; otherwise the mode stays.
pub commutation_timer_expired_lem :
    (c : Context)
    → IsStep (c.commutation).step
    → let c' = commutation_timer_expired c in
      let n = next_step (c.commutation).forward (c.commutation).step in
      ((c'.commutation).step ≡ n)
      × (c'.sent
          ≡ c.sent
            ++ (disable_interrupt
                ∷ com_step n
                ∷ pulse_toggle n
                ∷ set_step n (c'.commutation).rising
                ∷ change_input
                ∷ enable_interrupts
                ∷ []))
      × ((c'.bemf).counter ≡ 0)
      × ((c'.bemf).bad_count ≡ 0)
      × ((c'.bemf).zc_found ≡ false)
      × (mode c'.shared ≡ (
          if is_old_routine c.shared
            && leb 20 (c'.shared).zero_crosses
            && leb (c'.shared).commutation_interval 2000
          then running
          else mode c.shared))
unfolding commutation_timer_expired commutate record_interval set_e_com_time reset_after_commutation
    mode
commutation_timer_expired_lem c h =
    let a = advance_lem c.commutation h in
    let m = advance c.commutation in
    let x =
      send
        (disable_interrupt
          ∷ com_step m.step
          ∷ pulse_toggle m.step
          ∷ set_step m.step m.rising
          ∷ change_input
          ∷ [])
        (commutate c) in
    let r = retime_lem x in
    let s = increment_zero_crosses (retime x).shared in
    let l = lock_lem s in
    let same = counted_mode (retime x).shared ∙ r.0 in
    (
      ap (λ (k : Commutation). k.step) r.2 ∙ a.0,
      rw (r.1, r.2, a.0) (append_assoc c.sent _ _),
      refl,
      refl,
      refl,
      l.0
          ∙ rw (
            steady_cong s c.shared (lock s) (mode_cong s c.shared same) l.1 l.2,
            mode_cong s c.shared same,
          ),
    )
