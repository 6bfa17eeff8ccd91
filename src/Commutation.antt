-- ===== src/Commutation.antt =====
-- The six commutation steps (rm32/src/commutation.rs).
pub mod Cycle
pub mod Interval
mod Examples
use rm32_private.Base.{
  ℕ, ◌+◌, ◌-◌, ◌/◌, ◌%◌, Bool, true, false, not, List, [], ◌∷◌, ltb, ◌==◌, set, sum, if◌then◌else◌,
}
use rm32_private.Base.Int.{ℤ, pos}
use rm32_private.Base.Word.{u8, sub_u8, u32, signed}

pub record Commutation : Type 0 where
  pub step : ℕ
  pub forward : Bool
  pub rising : Bool
  pub desync_check : Bool
  pub intervals : List ℕ

abbrev pub new : Commutation
new = record {
  step = 1;
  forward = true;
  rising = true;
  desync_check = false;
  intervals = 0 ∷ 0 ∷ 0 ∷ 0 ∷ 0 ∷ 0 ∷ [];
}

-- The index `step - 1` is in range for a step from 1 to 6; a step out of range panics in the source
-- and writes nothing here.
unfoldable pub record_interval : ℕ → Commutation → Commutation × ℤ
unfolding sum
record_interval interval c =
    let c' = record c { intervals = set c.intervals (sub_u8 c.step 1) interval } in
    (c', signed 4294967296 (u32 (u32 (sum c'.intervals) + 4) / 2))

-- `v.is_multiple_of(2)`.
abbrev pub is_even : ℕ → Bool
is_even v = v % 2 == 0

advance_forward : Commutation → Commutation
advance_forward c =
    let step = u8 (c.step + 1) in
    let wrap = ltb 6 step in
    let step' = if wrap then 1 else step in
    record c {
      step = step';
      desync_check = if wrap then true else c.desync_check;
      rising = not (is_even step');
    }

advance_backward : Commutation → Commutation
advance_backward c =
    let step = sub_u8 c.step 1 in
    let wrap = ltb step 1 in
    let step' = if wrap then 6 else step in
    record c {
      step = step';
      desync_check = if wrap then true else c.desync_check;
      rising = is_even step';
    }

-- One commutation step; the source also returns the new step, which is the field.
unfoldable pub advance : Commutation → Commutation
unfolding advance_forward advance_backward
advance c = if c.forward then advance_forward c else advance_backward c
