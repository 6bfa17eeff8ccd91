-- ===== src/Transfer/Detection.antt =====
-- Which protocol an even pulse train is taken for (`detect_input`, rm32/src/signal.rs).
use rm32_private.Base.{
  ℕ, zero, suc, ◌+◌, ◌*◌, ◌/◌, ◌≤◌, ◌<◌, ◌≡◌, refl, ap, ◌∙◌, arith, ltb, leb, ◌&&◌, if◌then◌else◌,
  List, [], ◌∷◌, take, drop, get_or,
}
use native.Mathlib.Nat.{suc-mul}
use rm32_private.Base.Word.{u16, u32, sub_u32}
use rm32_private.Transfer.{
  SignalType, no_signal, dshot600, dshot300, servo_pwm, scan, classify, detect_input,
}

-- Edge times at equal distances, on a counter of 32 bits.
unfoldable pub spaced : ℕ → ℕ → ℕ → List ℕ
spaced zero start step = []
spaced (suc n) start step = start ∷ spaced n (u32 (start + step)) step

-- What a sample at the distance `diff` changes.
abbrev shorter : ℕ → ℕ → ℕ
shorter smallest diff = if ltb 0 diff && ltb (u16 diff) smallest then u16 diff else smallest

abbrev longer : ℕ → ℕ → ℕ
longer total diff = if ltb 0 diff then u32 (total + diff) else total

scan-cons :
    (smallest total last sample : ℕ) (samples : List ℕ)
    → scan smallest total last (sample ∷ samples)
      ≡ scan
          (shorter smallest (sub_u32 sample last))
          (longer total (sub_u32 sample last))
          sample
          samples
unfolding scan
scan-cons smallest total last sample samples = refl

scan-nil : (smallest total last : ℕ) → scan smallest total last [] ≡ (smallest, total)
unfolding scan
scan-nil smallest total last = refl

distance :
    (last step : ℕ) → last < 4294967296 → step < 20000 → sub_u32 (u32 (last + step)) last ≡ step
distance last step h i = omega arith

-- One more sample at the distance `step`.
scan-sample :
    (smallest total last step : ℕ) (samples : List ℕ)
    → 0 < step
    → step < 20000
    → last < 4294967296
    → total + step < 4294967296
    → step ≤ smallest
    → scan smallest total last (u32 (last + step) ∷ samples)
      ≡ scan step (total + step) (u32 (last + step)) samples
scan-sample smallest total last step samples h i j k l =
    let d = distance last step j i in
    let low : shorter smallest step ≡ step = ground arith in
    let sum : longer total step ≡ total + step = ground arith in
    let next = u32 (last + step) in
    scan-cons smallest total last next samples
    ∙ ap (λ diff. scan (shorter smallest diff) (longer total diff) next samples) d
    ∙ ap (λ x. scan x (longer total step) next samples) low
    ∙ ap (λ x. scan step x next samples) sum

scan-spaced :
    (n total last step : ℕ)
    → 0 < step
    → step < 20000
    → last < 4294967296
    → total + n * step < 4294967296
    → scan step total last (spaced n (u32 (last + step)) step) ≡ (step, total + n * step)
unfolding spaced
scan-spaced zero total last step h i j k =
    scan-nil step total last ∙ ap (λ (t : ℕ). (step, t)) (omega arith)
scan-spaced (suc n) total last step h i j k =
    let grown = suc-mul n step in
    scan-sample step total last step (spaced n (u32 (u32 (last + step) + step)) step) h i j
      (omega arith) (omega arith)
    ∙ scan-spaced n (total + step) (u32 (last + step)) step h i (omega arith) (omega arith)
    ∙ ap (λ (t : ℕ). (step, t)) (omega (arith, grown))

window :
    (start step : ℕ)
    → ◌≡◌ {A = ℕ × List ℕ}
        (get_or (spaced 32 start step) 0 0, take 30 (drop 1 (spaced 32 start step)))
        (start, u32 (start + step) ∷ spaced 29 (u32 (u32 (start + step) + step)) step)
unfolding spaced
window start step = refl

-- The protocol of an even pulse train by its distance.
abbrev pub protocol_of : ℕ → SignalType
protocol_of step =
    if ltb step 4
    then dshot600
    else if leb step 8
    then dshot300
    else if ltb 200 step
    then servo_pwm
    else no_signal

classify_lem :
    (step : ℕ)
    → 0 < step
    → step < 20000
    → classify step ((step + 29 * step) / 32) ≡ protocol_of step
unfolding classify
classify_lem step i j = ground arith

-- A capture of 32 edges at one distance below 20000 is taken for DShot600 below 4 ticks, for DShot300
-- up to 8, for servo pulses above 200, and for nothing in between, also where the counter wraps.
pub detect_input-spaced :
    (start step : ℕ)
    → start < 4294967296
    → 0 < step
    → step < 20000
    → detect_input (spaced 32 start step) ≡ protocol_of step
unfolding detect_input
detect_input-spaced start step h i j =
    let first =
      scan-sample 20000 0 start step (spaced 29 (u32 (u32 (start + step) + step)) step) i j h
        (omega arith) (omega arith) in
    let rest = scan-spaced 29 step (u32 (start + step)) step i j (omega arith) (omega arith) in
    let samples = spaced 29 (u32 (u32 (start + step) + step)) step in
    let zero_total =
      ap (λ x. scan step x (u32 (start + step)) samples) {x = 0 + step} {y = step} (omega arith) in
    ap (λ xs. classify (scan 20000 0 xs.0 xs.1).0 ((scan 20000 0 xs.0 xs.1).1 / 32))
      (window start step)
    ∙ ap (λ (p : ℕ × ℕ). classify p.0 (p.1 / 32)) (first ∙ zero_total ∙ rest)
    ∙ classify_lem step i j
