-- ===== src/Bemf.antt =====
-- Zero-cross detection on the back-EMF (`BemfState`, rm32/src/control/state.rs).
pub mod Detect
pub mod Timing
mod Examples
use rm32_private.Base.{ℕ, ◌+◌, ◌-◌, ◌*◌, ◌/◌, Bool, true, false, not, ◌&&◌, ltb, if◌then◌else◌}
use rm32_private.Base.Word.{u8, u16, u32, sub_u16}

pub record BemfState : Type 0 where
  pub counter : ℕ
  pub zc_found : Bool
  pub min_counts_up : ℕ
  pub min_counts_down : ℕ
  pub bad_count : ℕ
  pub bad_count_threshold : ℕ
  pub filter_level : ℕ
  pub wait_time : ℕ
  pub last_zc_time : ℕ
  pub this_zc_time : ℕ
  pub temp_advance : ℕ

abbrev pub default : BemfState
default = record {
  counter = 0;
  zc_found = false;
  min_counts_up = 2;
  min_counts_down = 2;
  bad_count = 0;
  bad_count_threshold = 2;
  filter_level = 5;
  wait_time = 0;
  last_zc_time = 0;
  this_zc_time = 0;
  temp_advance = 0;
}

unfoldable pub sync_config : ℕ → ℕ → ℕ → BemfState → BemfState
sync_config filter_level auto_advance min_counts b = record b {
  filter_level = filter_level;
  temp_advance = if ltb 0 auto_advance then auto_advance else b.temp_advance;
  min_counts_up = min_counts;
  min_counts_down = min_counts;
}

unfoldable pub reset_for_step : BemfState → BemfState
reset_for_step b = record b { counter = 0; bad_count = 0; zc_found = false }

unfoldable pub reset_after_commutation : BemfState → BemfState
reset_after_commutation b = record b { counter = 0; bad_count = 0; zc_found = false }

unfoldable pub zero_cross_detected : Bool → BemfState → Bool
zero_cross_detected rising b =
    not b.zc_found && ltb (if rising then b.min_counts_up else b.min_counts_down) b.counter

-- The state after, and the new commutation interval.
unfoldable pub record_zero_cross : ℕ → ℕ → BemfState → BemfState × ℕ
record_zero_cross interval_count commutation_interval b =
    let new_ci = u32 (interval_count + u32 (3 * commutation_interval)) / 4 in
    let advance = u32 (b.temp_advance * new_ci) / 64 in
    (
      record b {
        zc_found = true;
        last_zc_time = b.this_zc_time;
        this_zc_time = interval_count;
        wait_time = sub_u16 (u16 (new_ci / 2)) (u16 advance);
      },
      new_ci,
    )

unfoldable pub update_timing_from_timer : ℕ → BemfState → BemfState × ℕ
update_timing_from_timer commutation_interval b =
    let zc_avg = u32 (b.last_zc_time + b.this_zc_time) / 2 in
    let new_ci = u32 (commutation_interval + zc_avg) / 2 in
    let advance = u32 (new_ci * b.temp_advance) / 64 in
    (record b { wait_time = sub_u16 (u16 (new_ci / 2)) (u16 advance) }, new_ci)

unfoldable pub record_zc_timing : ℕ → BemfState → BemfState
record_zc_timing interval_count b = record b {
  last_zc_time = b.this_zc_time;
  this_zc_time = interval_count;
}

unfoldable pub com_timer_delay : BemfState → ℕ
com_timer_delay b = u16 (b.wait_time + 1)

count_good : BemfState → BemfState
count_good b = record b { counter = u8 (b.counter + 1) }

count_bad : BemfState → BemfState
count_bad b =
    let bad = u8 (b.bad_count + 1) in
    record b { bad_count = bad; counter = if ltb b.bad_count_threshold bad then 0 else b.counter }

-- One comparator sample: a sample is good if it shows the level that the edge leads to.
unfoldable pub update : Bool → Bool → BemfState → BemfState
unfolding count_good count_bad
update comp_level rising b =
    let current_state = not comp_level in
    if rising
    then (if current_state then count_good b else count_bad b)
    else if not current_state
    then count_good b
    else count_bad b
