-- ===== src/Sine/Phases.antt =====
-- The phases as a rotation (`PhasePositions::advance`, rm32/src/sine.rs).
use rm32_private.Base.{
  not, ℕ, zero, suc, ◌+◌, ◌*◌, ◌%◌, ◌≡◌, refl, ap, ◌∙◌, arith, Bool, true, false, if◌then◌else◌,
}
use native.Mathlib.Nat.{suc-mul}
use rm32_private.Base.Int.{pos, ◌+ℤ◌, ◌-ℤ◌}
use rm32_private.Base.Word.{i16}
use rm32_private.Sine.{PhasePositions, advance_angle, advance}

-- The three phases at the angle `n`, a third of a turn apart.
abbrev pub positions : ℕ → PhasePositions
positions n = record { a = pos (n % 360); b = pos ((n + 120) % 360); c = pos ((n + 240) % 360) }

-- A step back is 359 steps ahead.
abbrev pub stride : Bool → ℕ
stride forward = if forward then 359 else 1

angle_lem :
    (forward : Bool) (n : ℕ)
    → advance_angle forward (pos (n % 360)) ≡ pos ((n + stride forward) % 360)
unfolding advance_angle i16 ◌+ℤ◌ ◌-ℤ◌
angle_lem true n = ground arith
angle_lem false n = ground arith

pub advance-positions :
    (forward : Bool) (n : ℕ) → advance forward (positions n) ≡ positions (n + stride forward)
unfolding advance
advance-positions forward n =
    let later = λ (k : ℕ).
      angle_lem forward (n + k)
      ∙ ap pos {x = (n + k + stride forward) % 360} {y = (n + stride forward + k) % 360} (
          ap (λ (m : ℕ). m % 360) {x = n + k + stride forward} {y = n + stride forward + k}
            (omega arith)) in
    rw (angle_lem forward n, later 120, later 240) refl

regroup : (n k s : ℕ) → n + s + k * s ≡ n + suc k * s
regroup n k s = omega (arith, suc-mul k s)

-- Steps in one direction, one after the other.
unfoldable pub turned : Bool → ℕ → PhasePositions → PhasePositions
turned forward zero p = p
turned forward (suc k) p = turned forward k (advance forward p)

-- From the angle `n`, a number of steps leads to the angle `n` plus or minus that number, modulo a
-- turn, with the phases still a third of a turn apart.
pub turned-positions :
    (forward : Bool) (k n : ℕ) → turned forward k (positions n) ≡ positions (n + k * stride forward)
unfolding turned
turned-positions forward zero n = ap positions (omega arith)
turned-positions forward (suc k) n =
    ap (turned forward k) (advance-positions forward n)
    ∙ turned-positions forward k (n + stride forward)
    ∙ ap positions (regroup n k (stride forward))

same_angle : (m n : ℕ) → m % 360 ≡ n % 360 → positions m ≡ positions n
same_angle m n h =
    rw
      (
        h,
        ap (λ t. t) {x = (m + 120) % 360} {y = (n + 120) % 360} (omega arith),
        ap (λ t. t) {x = (m + 240) % 360} {y = (n + 240) % 360} (omega arith),
      )
      refl

there_and_back :
    (forward : Bool) (n : ℕ) → (n + stride forward + stride (not forward)) % 360 ≡ n % 360
there_and_back true n = omega arith
there_and_back false n = omega arith

whole_turn : (forward : Bool) (n : ℕ) → (n + 360 * stride forward) % 360 ≡ n % 360
whole_turn forward n = omega arith

-- A step back undoes a step ahead, and a whole turn in either direction comes back to where it began.
pub advance-inverse :
    (forward : Bool) (n : ℕ)
    → (advance (not forward) (advance forward (positions n)) ≡ positions n)
      × (turned forward 360 (positions n) ≡ positions n)
advance-inverse forward n = (
  ap (advance (not forward)) (advance-positions forward n)
      ∙ advance-positions (not forward) (n + stride forward)
      ∙ same_angle (n + stride forward + stride (not forward)) n (there_and_back forward n),
  turned-positions forward 360 n ∙ same_angle (n + 360 * stride forward) n (whole_turn forward n),
)
