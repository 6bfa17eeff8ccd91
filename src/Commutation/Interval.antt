-- ===== src/Commutation/Interval.antt =====
-- The recorded intervals and the electrical period (rm32/src/commutation.rs).
use rm32_private.Base.{
  ℕ, ◌+◌, ◌-◌, ◌/◌, ◌≤◌, ◌<◌, ◌∙◌, ◌==◌, if◌then◌else◌, ◌≡◌, length, get_or, set, sum, length-set,
  get_or-set_self, get_or-set_ne, sum-set, arith, IsU16s, sum_bound, set-IsU16s,
}
use rm32_private.Base.Int.{pos, pos_part}
use rm32_private.Base.Word.{sub_u8}
use rm32_private.Commutation.{Commutation, record_interval}
use rm32_private.Commutation.Cycle.{IsStep}

-- Six intervals of 16 bits are kept, and the step is one of the six.
pub record IsValid (c : Commutation) : Type 0 where
  pub step_valid : IsStep c.step
  pub six : length c.intervals ≡ 6
  pub words : IsU16s c.intervals

-- Recording a 16-bit interval keeps the six slots, their words and the step in range.
pub record_interval-IsValid :
    (c : Commutation) (interval : ℕ)
    → IsValid c
    → interval < 65536
    → IsValid (record_interval interval c).0
unfolding record_interval
record_interval-IsValid c v valid h = record {
  step_valid = valid.step_valid;
  six = length-set c.intervals _ v ∙ valid.six;
  words = set-IsU16s c.intervals _ v h valid.words;
}

slot : (s : ℕ) → IsStep s → sub_u8 s 1 ≡ s - 1
slot s h = omega arith

-- Recording puts the interval into the slot of the step and leaves the other slots alone. The
-- period returned is half the rounded sum of the six slots: the old sum with the slot replaced. It
-- does not overflow.
pub record_interval_lem :
    (c : Commutation) (interval i : ℕ)
    → IsValid c
    → interval < 65536
    → let (c', period) = record_interval interval c in
      (get_or c'.intervals i 0 ≡ (if i == c.step - 1 then interval else get_or c.intervals i 0))
      × (period ≡ pos ((sum c.intervals + interval - get_or c.intervals (c.step - 1) 0 + 4) / 2))
      × (pos_part period ≤ 196607)
unfolding record_interval
record_interval_lem c v i valid h =
    let k : ℕ = c.step - 1 in
    let total = sum-set c.intervals k v (omega arith) in
    let bound = sum_bound (set c.intervals k v) (set-IsU16s c.intervals k v h valid.words) in
    let len = length-set c.intervals k v in
    rw (slot c.step valid.step_valid) (
      ground (arith, get_or-set_self c.intervals k v 0, get_or-set_ne c.intervals k i v 0),
      ground arith,
      ground arith,
    )
