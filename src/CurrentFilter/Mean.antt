-- ===== src/CurrentFilter/Mean.antt =====
-- The running total is the sum of the window (rm32/src/current.rs).
use rm32_private.Base.{
  ℕ, ◌+◌, ◌/◌, ◌≤◌, ◌<◌, ◌≡◌, refl, ap, ◌∙◌, arith, length, get_or, set, sum, length-set, sum-set,
  IsU16s, sum_bound, set-IsU16s, if◌then◌else◌, leb,
}
use rm32_private.Base.Word.{u16, u32, sub_u32}
use rm32_private.CurrentFilter.{CurrentFilter, update}

-- Fifty words, the place of the next one, and their sum.
pub record IsValid (f : CurrentFilter) : Type 0 where
  pub fifty : length f.readings ≡ 50
  pub words : IsU16s f.readings
  pub place : f.index < 50
  pub summed : f.total ≡ sum f.readings

exchanged :
    (total old raw new : ℕ)
    → new + old ≡ total + raw
    → total ≤ 3276750
    → new ≤ 3276750
    → raw < 65536
    → u32 (sub_u32 total old + raw) ≡ new
exchanged total old raw new e h k r = omega arith

next_place : (i : ℕ) → i < 50 → (if leb 50 (i + 1) then 0 else i + 1) < 50
next_place i h = ground arith

-- A reading replaces the oldest of the fifty, and the result is the mean of the fifty readings that
-- the window then holds: the running total never drifts from their sum, and nothing overflows.
pub update-IsValid :
    (f : CurrentFilter) (raw : ℕ)
    → IsValid f
    → raw < 65536
    → let r = update raw f in
      IsValid r.0 × (r.0.readings ≡ set f.readings f.index raw) × (r.1 ≡ sum (r.0.readings) / 50)
unfolding update
update-IsValid f raw v h =
    let window = set f.readings f.index raw in
    let old = get_or f.readings f.index 0 in
    let swap = sum-set f.readings f.index raw (omega (arith, v.fifty, v.place)) in
    let words = set-IsU16s f.readings f.index raw h v.words in
    let long = length-set f.readings f.index raw ∙ v.fifty in
    let before : f.total ≤ 3276750 =
      omega (arith, sum_bound f.readings v.words, v.fifty, v.summed) in
    let after : sum window ≤ 3276750 = omega (arith, sum_bound window words, long) in
    let total =
      exchanged f.total old raw (sum window) (omega (arith, swap, v.summed)) before after h in
    (
      record { fifty = long; words = words; place = next_place f.index v.place; summed = total },
      refl,
      ap (λ (t : ℕ). u16 (t / 50)) total ∙ omega (arith, after),
    )
