-- ===== src/MotorMode/Traces.antt =====
-- What holds of the mode after any sequence of events (rm32/src/motor_mode.rs).
use rm32_private.Base.{◌≡◌, ◌≢◌, refl, sym, ap, ◌⊎◌, inl, inr, List, [], ◌∷◌, ◌++◌, arith}
use mathlib.Core.List.{Memᴰ}
use rm32_private.MotorMode.{
  MotorMode, MotorEvent, disarmed, old_routine, running, arm, disarm, start_motor, bemf_locked,
  transition,
}

-- The mode after a sequence of events.
unfoldable pub run : MotorMode → List MotorEvent → MotorMode
run m [] = m
run m (e ∷ es) = run (transition m e) es

-- No event of the sequence arms the motor.
abbrev pub NeverArms : List MotorEvent → Type 0
NeverArms [] = Unit
NeverArms (e ∷ es) = (e ≢ arm) × NeverArms es

stays_disarmed : (e : MotorEvent) → e ≢ arm → transition disarmed e ≡ disarmed
unfolding transition
stays_disarmed e h = ground arith

run-disarmed : (es : List MotorEvent) → NeverArms es → run disarmed es ≡ disarmed
unfolding run
run-disarmed [] h = refl
run-disarmed (e ∷ es) h = ground (arith, stays_disarmed e, run-disarmed es)

disarms : (m : MotorMode) → transition m disarm ≡ disarmed
unfolding transition
disarms m = ground arith

-- After a disarm event the motor is disarmed, whatever came before, and it stays so until an arm
-- event.
pub run-disarm :
    (m : MotorMode) (before after : List MotorEvent)
    → NeverArms after
    → run m (before ++ (disarm ∷ after)) ≡ disarmed
unfolding run
run-disarm m [] after h = ground (arith, disarms m, run-disarmed after)
run-disarm m (e ∷ before) after h = run-disarm (transition m e) before after h

arms_or_stays : (e : MotorEvent) → (e ≡ arm) ⊎ (transition disarmed e ≡ disarmed)
unfolding transition
arms_or_stays e = ground arith

needs_arm : (es : List MotorEvent) → run disarmed es ≢ disarmed → Memᴰ arm es
unfolding run
needs_arm [] h = absurd (h refl)
needs_arm (e ∷ es) h = elim (arms_or_stays e) [
  | inl p ↦ Memᴰ.head (sym p)
  | inr q ↦ Memᴰ.tail (needs_arm es (rw q at h))
]

locks_or_not :
    (m : MotorMode) (e : MotorEvent)
    → m ≢ running
    → (e ≡ bemf_locked) × (m ≡ old_routine) ⊎ (transition m e ≢ running)
unfolding transition
locks_or_not m e h = grind arith

-- How a sequence of events got to interrupt-driven running: a lock while polling, after an arm.
pub record Locked (es : List MotorEvent) : Type 0 where
  pub before : List MotorEvent
  pub after : List MotorEvent
  pub split : es ≡ before ++ (bemf_locked ∷ after)
  pub polling : run disarmed before ≡ old_routine
  pub armed_before : Memᴰ arm before

last_lock :
    (m : MotorMode) (es : List MotorEvent)
    → m ≢ running
    → run m es ≡ running
    → (before after : List MotorEvent) × (es ≡ before ++ (bemf_locked ∷ after))
      × (run m before ≡ old_routine)
unfolding run
last_lock m [] h r = absurd (h r)
last_lock m (e ∷ es) h r = elim (locks_or_not m e h) [
  | inl p ↦ ([], es, cc p.0, p.1)
  | inr q ↦
      let (before, after, eq, at) = last_lock (transition m e) es q r in
      (e ∷ before, after, ap (λ l. e ∷ l) eq, at)
]

-- From power-up the motor runs interrupt-driven only after a lock event that found it polling,
-- and before that lock an arm event was given.
pub run-running : (es : List MotorEvent) → run disarmed es ≡ running → Locked es
run-running es h =
    let (b, a, eq, at) = last_lock disarmed es (λ e. cc e) h in
    record {
      before = b;
      after = a;
      split = eq;
      polling = at;
      armed_before = needs_arm b (λ e. cc (e, at));
    }

-- From every mode the events disarm, arm, start and lock lead to interrupt-driven running.
pub run-restart : (m : MotorMode) → run m (disarm ∷ arm ∷ start_motor ∷ bemf_locked ∷ []) ≡ running
unfolding run transition
run-restart m = ground arith
