-- ===== src/Sine/Steps.antt =====
-- Runs of steps: the changeover to the commutated motor, and the gimbal's way to its angle
-- (`sine_step` and `gimbal_step`, rm32/src/sine.rs).
use rm32_private.Base.{
  ℕ, zero, suc, ◌+◌, ◌-◌, ◌*◌, ◌%◌, ◌<◌, ◌≡◌, ◌≢◌, refl, sym, ap, ◌∙◌, arith, inl, inr, Bool,
  Bool-cases, true, false, ◌&&◌, ltb, if◌then◌else◌,
}
use rm32_private.Base.Int.{ℤ, pos}
use rm32_private.Sine.{
  PhasePositions, SineStepResult, changeover, idle, advance, step_result, sine_step,
}
use rm32_private.Sine.Phases.{positions, stride, turned, turned-positions, advance-positions}

both_true : (a b : Bool) → a && b ≡ true → b ≡ true
both_true a b h = ground arith

not_idle : (i s : ℕ) → idle ≢ changeover i s
not_idle i s h = cc

few : (forward : Bool) (n : ℕ) → (if forward then (n % 360 + 359) % 360 else 359 - n % 360) < 360
few forward n = ground arith

comes_home :
    (forward : Bool) (n : ℕ)
    → (n
          + (if forward then (n % 360 + 359) % 360 else 359 - n % 360) * stride forward
          + stride forward)
        % 360
      ≡ 0
comes_home true n = omega arith
comes_home false n = omega arith

module _ (input : ℕ) (armed forward : Bool) (poles target : ℕ) (gate : ℤ) (arr power : ℕ) where
  abbrev step : PhasePositions → PhasePositions × SineStepResult × (ℕ × ℕ × ℕ)
  step p = sine_step input armed forward poles target gate arr power p

  idle_or_active :
      (p : PhasePositions)
      → ltb 47 input && armed ≡ true
      → ((step p).0 ≡ advance forward p)
        × ((step p).1 ≡ step_result input poles target (advance forward p).a)
  unfolding sine_step
  idle_or_active p h = rw h (refl, refl)

  stands :
      (p : PhasePositions) → ltb 47 input && armed ≡ false → ((step p).0 ≡ p) × ((step p).1 ≡ idle)
  unfolding sine_step
  stands p h = rw h (refl, refl)

  over :
      (a : ℤ) (i s : ℕ)
      → step_result input poles target a ≡ changeover i s
      → (200 < input) × (a ≡ pos 0) × (i ≡ 9000) × (s ≡ target)
  unfolding step_result
  over a i s h = ground arith

  reached : 200 < input → step_result input poles target (pos 0) ≡ changeover 9000 target
  unfolding step_result
  reached h = ground arith

  -- The positions after a number of steps.
  unfoldable pub after_steps : ℕ → PhasePositions → PhasePositions
  after_steps zero p = p
  after_steps (suc k) p = after_steps k (step p).0

  after_steps-turned :
      ltb 47 input && armed ≡ true
      → (k : ℕ) (p : PhasePositions) → after_steps k p ≡ turned forward k p
  unfolding after_steps turned
  after_steps-turned h zero p = refl
  after_steps-turned h (suc k) p =
      ap (after_steps k) ((idle_or_active p h).0) ∙ after_steps-turned h k (advance forward p)

  -- A step hands over to the commutated motor only where it is armed, the throttle is above 200 and
  -- the first phase has come to 0, and hands over the interval 9000 and the step it was given.
  pub sine_step-changeover :
      (p : PhasePositions) (interval s : ℕ)
      → (step p).1 ≡ changeover interval s
      → (armed ≡ true) × (200 < input) × (((step p).0).a ≡ pos 0) × (interval ≡ 9000) × (s ≡ target)
  sine_step-changeover p interval s h = elim (Bool-cases (ltb 47 input && armed)) [
    | inl active ↦
        let (moved, result) = idle_or_active p active in
        let (fast, home, i, j) = over (advance forward p).a interval s (sym result ∙ h) in
        (
          both_true (ltb 47 input) armed active,
          fast,
          ap (λ (q : PhasePositions). q.a) moved ∙ home,
          i,
          j,
        )
    | inr still ↦ absurd (not_idle interval s (sym ((stands p still).1) ∙ h))
  ]

  -- The number of steps before the one that comes to 0.
  abbrev pub steps_before : ℕ → ℕ
  steps_before n = if forward then (n % 360 + 359) % 360 else 359 - n % 360

  -- An armed motor with a throttle above 200 gets to the changeover from any angle and in either
  -- direction: fewer than 360 steps come before the one that changes over, which is thus the 360th at the
  -- latest.
  pub sine_step-reaches :
      (n : ℕ)
      → armed ≡ true
      → 200 < input
      → (steps_before n < 360)
        × ((step (after_steps (steps_before n) (positions n))).1 ≡ changeover 9000 target)
  sine_step-reaches n a h =
      let k = steps_before n in
      let active : ltb 47 input && armed ≡ true = ground arith in
      let at = after_steps-turned active k (positions n) ∙ turned-positions forward k n in
      let (moved, result) = idle_or_active (positions (n + k * stride forward)) active in
      let home : (advance forward (positions (n + k * stride forward))).a ≡ pos 0 =
        ap (λ (q : PhasePositions). q.a) (advance-positions forward (n + k * stride forward))
        ∙ ap pos (comes_home forward n) in
      (
        few forward n,
        ap (λ (q : PhasePositions). (step q).1) at
            ∙ result
            ∙ ap (step_result input poles target) home
            ∙ reached h,
      )
