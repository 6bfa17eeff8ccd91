-- ===== src/Bemf/Detect.antt =====
-- When a run of comparator samples is taken for a zero cross (rm32/src/control/state.rs).
use rm32_private.Base.{
  ℕ, suc, ◌+◌, ◌≤◌, ◌<◌, ◌≡◌, ◌∙◌, Bool, true, false, ◌<=>◌, ltb, List, [], ◌∷◌, arith,
  if◌then◌else◌,
}
use rm32_private.Bemf.{BemfState, update, zero_cross_detected, reset_for_step}

-- The samples of a poll, oldest first, for one expected edge.
pub updates : List Bool → Bool → BemfState → BemfState
updates [] rising b = b
updates (level ∷ levels) rising b = updates levels rising (update level rising b)

-- How many samples do not show the expected edge: the comparator is low for a rising one.
abbrev pub wrong : Bool → List Bool → ℕ
wrong rising [] = 0
wrong rising (level ∷ levels) =
    let rest = wrong rising levels in if level <=> rising then suc rest else rest

abbrev pub right : Bool → List Bool → ℕ
right rising [] = 0
right rising (level ∷ levels) =
    let rest = right rising levels in if level <=> rising then rest else suc rest

-- Samples change the two counters alone.
record SameSetup (b c : BemfState) : Type 0 where
  found : c.zc_found ≡ b.zc_found
  up : c.min_counts_up ≡ b.min_counts_up
  down : c.min_counts_down ≡ b.min_counts_down
  threshold : c.bad_count_threshold ≡ b.bad_count_threshold

update-SameSetup : (level rising : Bool) (b : BemfState) → SameSetup b (update level rising b)
unfolding update
update-SameSetup level rising b = ground arith

updates-SameSetup :
    (levels : List Bool) (rising : Bool) (b : BemfState) → SameSetup b (updates levels rising b)
unfolding updates
updates-SameSetup [] rising b = ground arith
updates-SameSetup (level ∷ levels) rising b =
    let first = update-SameSetup level rising b in
    let rest = updates-SameSetup levels rising (update level rising b) in
    record {
      found = rest.found ∙ first.found;
      up = rest.up ∙ first.up;
      down = rest.down ∙ first.down;
      threshold = rest.threshold ∙ first.threshold;
    }

-- One sample: a right one counts up, a wrong one counts beside and, past the threshold, clears.
update_lem :
    (level rising : Bool) (b : BemfState)
    → b.bad_count < 255
    → b.counter < 255
    → ((update level rising b).counter ≡ (
        if level <=> rising
        then (if ltb b.bad_count_threshold (b.bad_count + 1) then 0 else b.counter)
        else b.counter + 1))
      × ((update level rising b).bad_count
          ≡ (if level <=> rising then b.bad_count + 1 else b.bad_count))
unfolding update
update_lem level rising b h k = ground arith

updates_tolerant :
    (levels : List Bool) (rising : Bool) (b : BemfState)
    → b.bad_count_threshold < 255
    → b.bad_count + wrong rising levels ≤ b.bad_count_threshold
    → b.counter + right rising levels < 255
    → ((updates levels rising b).counter ≡ b.counter + right rising levels)
      × ((updates levels rising b).bad_count ≡ b.bad_count + wrong rising levels)
unfolding updates
updates_tolerant [] rising b h k l = omega arith
updates_tolerant (level ∷ levels) rising b h k l =
    let setup = update-SameSetup level rising b in
    ground (
      arith,
      setup.threshold,
      update_lem level rising b,
      updates_tolerant levels rising (update level rising b),
    )

-- After the reset for a step, a run of samples with no more wrong ones than the threshold is taken
-- for a zero cross exactly when its right samples outnumber the minimum for the edge; the wrong
-- samples do not count against it.
pub zero_cross_detected-updates :
    (levels : List Bool) (rising : Bool) (b : BemfState)
    → b.bad_count_threshold < 255
    → wrong rising levels ≤ b.bad_count_threshold
    → right rising levels < 255
    → zero_cross_detected rising (updates levels rising (reset_for_step b))
      ≡ ltb (if rising then b.min_counts_up else b.min_counts_down) (right rising levels)
unfolding zero_cross_detected reset_for_step
zero_cross_detected-updates levels rising b h k l =
    let start = record b { counter = 0; bad_count = 0; zc_found = false } in
    let same = updates-SameSetup levels rising start in
    let (count, bad) = updates_tolerant levels rising start h (omega arith) (omega arith) in
    ground (arith, same.found, same.up, same.down, count)

-- One wrong sample more than the threshold, wherever it falls after the good ones, discards the
-- count: the run starts over.
pub update_discards :
    (level rising : Bool) (b : BemfState)
    → (level <=> rising) ≡ true
    → b.bad_count_threshold < 255
    → b.bad_count ≡ b.bad_count_threshold
    → b.counter < 255
    → ((update level rising b).counter ≡ 0)
      × (zero_cross_detected rising (update level rising b) ≡ false)
unfolding zero_cross_detected
update_discards level rising b e h k l = ground (arith, update_lem level rising b)
