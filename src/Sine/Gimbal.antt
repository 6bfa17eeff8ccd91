-- ===== src/Sine/Gimbal.antt =====
-- The gimbal's way to the angle of the stick (`gimbal_step`, rm32/src/sine.rs).
use rm32_private.Base.{
  ℕ, zero, suc, ◌+◌, ◌-◌, ◌≤◌, ◌<◌, ◌≡◌, refl, sym, ap, ◌∙◌, arith, inl, inr, Bool-cases, ltb,
  if◌then◌else◌,
}
use rm32_private.Base.Int.{ℤ, pos, negsuc, ◌+ℤ◌, ◌-ℤ◌, ◌≤ℤ◌, pos_part}
use rm32_private.Base.Word.{i16, i16_id}
use rm32_private.Functions.{map}
use rm32_private.Functions.Interpolate.{map_increasing}
use rm32_private.Sine.{PhasePositions, gimbal_step, desired_angle}

in_range :
    (z : ℤ) (hi : ℕ)
    → pos 0 ≤ℤ z
    → z ≤ℤ pos hi
    → hi < 32768
    → (i16 z ≡ pos (pos_part z)) × (pos_part z ≤ hi)
in_range (pos n) hi h i j = (i16_id (pos n) (omega arith, omega arith), omega arith)
in_range (negsuc n) hi h i j = absurd (omega arith)

-- The angle that the stick asks for is 0 to 360 degrees.
pub desired_angle-range :
    (input : ℕ)
    → (desired_angle input ≡ pos (pos_part (desired_angle input)))
      × (pos_part (desired_angle input) ≤ 360)
unfolding desired_angle
desired_angle-range input = elim (Bool-cases (ltb 1000 input)) [
  | inl far ↦
      let (a, b, c, d, e) =
        map_increasing input input 1000 2000 180 360 (omega arith) (omega arith) (omega arith)
          (omega arith) (omega arith) in
      let (same, bound) =
        in_range (map (pos input) (pos 1000) (pos 2000) (pos 180) (pos 360)) 360 (omega arith) c
          (omega arith) in
      rw far (rw same (refl, bound))
  | inr near ↦
      let (a, b, c, d, e) =
        map_increasing input input 0 1000 0 180 (omega arith) (omega arith) (omega arith)
          (omega arith) (omega arith) in
      let (same, bound) =
        in_range (map (pos input) (pos 0) (pos 1000) (pos 0) (pos 180)) 360 a (omega arith)
          (omega arith) in
      rw near (rw same (refl, bound))
]

-- One degree towards `d`.
abbrev pub nearer : ℕ → ℕ → ℕ
nearer d n = if ltb d n then n - 1 else if ltb n d then n + 1 else n

moved :
    (d n : ℕ)
    → n ≤ 360
    → (if ltb (d + 0) (n + 0)
        then i16 (pos n -ℤ pos 1)
        else if ltb (n + 0) (d + 0)
        then i16 (pos n +ℤ pos 1)
        else pos n)
      ≡ pos (nearer d n)
unfolding i16 ◌-ℤ◌ ◌+ℤ◌
moved d n h = ground arith

module _ (input : ℕ) (gate : ℤ) (arr : ℕ) where
  gimbal_step-angle :
      (p : PhasePositions) (n : ℕ)
      → n ≤ 360
      → (gimbal_step input gate arr p (pos n)).1 ≡ pos (nearer (pos_part (desired_angle input)) n)
  unfolding gimbal_step
  gimbal_step-angle p n h =
      let (same, bound) = desired_angle-range input in
      rw same (moved (pos_part (desired_angle input)) n h)

  -- The positions and the angle after a number of steps.
  unfoldable pub gimbal_steps : ℕ → PhasePositions × ℤ → PhasePositions × ℤ
  gimbal_steps zero g = g
  gimbal_steps (suc k) g = let r = gimbal_step input gate arr g.0 g.1 in gimbal_steps k (r.0, r.1)

  -- From an angle of 0 to 360, after as many steps as the distance or more the angle is the one the
  -- stick asks for.
  pub gimbal_steps-arrive :
      (k : ℕ) (p : PhasePositions) (n : ℕ)
      → n ≤ 360
      → (n - pos_part (desired_angle input)) + (pos_part (desired_angle input) - n) ≤ k
      → (gimbal_steps k (p, pos n)).1 ≡ desired_angle input
  unfolding gimbal_steps
  gimbal_steps-arrive zero p n h i =
      let (same, bound) = desired_angle-range input in ap pos (omega arith) ∙ sym same
  gimbal_steps-arrive (suc k) p n h i =
      let (same, bound) = desired_angle-range input in
      let r = gimbal_step input gate arr p (pos n) in
      ap (λ z. (gimbal_steps k (r.0, z)).1) (gimbal_step-angle p n h)
      ∙ gimbal_steps-arrive k r.0 (nearer (pos_part (desired_angle input)) n) (ground arith)
          (ground arith)
