-- ===== src/Bemf/Timing.antt =====
-- The commutation interval and the delay to the next step (rm32/src/control/state.rs).
use rm32_private.Base.{ℕ, ◌+◌, ◌-◌, ◌*◌, ◌/◌, ◌≤◌, ◌<◌, ◌≡◌, refl, true, min, max, arith}
use rm32_private.Base.Word.{u32}
use rm32_private.Bemf.{BemfState, record_zero_cross, update_timing_from_timer, com_timer_delay}

advance_bound : (t n : ℕ) → t ≤ 32 → t * n ≤ 32 * n
advance_bound t n h = grind arith

-- A zero cross is recorded with the weighted mean of the old interval and the measured time, which
-- lies between the two; the delay is half the new interval, less the advance, and the timer is set
-- one tick later. The previous time is kept. Nothing wraps for an advance of at most 32 and
-- intervals of 16 bits.
pub record_zero_cross_lem :
    (count ci : ℕ) (b : BemfState)
    → count < 65536
    → ci < 65536
    → b.temp_advance ≤ 32
    → let (b', new_ci) = record_zero_cross count ci b in
      (new_ci ≡ (count + 3 * ci) / 4)
      × (min count ci ≤ new_ci)
      × (new_ci ≤ max count ci)
      × (b'.wait_time ≡ new_ci / 2 - b.temp_advance * new_ci / 64)
      × (com_timer_delay b' ≡ b'.wait_time + 1)
      × (com_timer_delay b' ≤ new_ci / 2 + 1)
      × (b'.zc_found ≡ true)
      × (b'.last_zc_time ≡ b.this_zc_time)
      × (b'.this_zc_time ≡ count)
unfolding record_zero_cross com_timer_delay
record_zero_cross_lem count ci b h k l =
    let new_ci : ℕ = (count + 3 * ci) / 4 in
    let eq : u32 (count + u32 (3 * ci)) / 4 ≡ new_ci = omega arith in
    let cap = advance_bound b.temp_advance new_ci l in
    rw eq (refl, omega arith, omega arith, omega arith, omega arith, omega arith, refl, refl, refl)

-- In interrupt-driven running the new interval is the mean of the old one and of the last two
-- measured times, and lies between the old interval and the larger and smaller of these.
pub update_timing_from_timer_lem :
    (ci : ℕ) (b : BemfState)
    → ci < 65536
    → b.last_zc_time < 65536
    → b.this_zc_time < 65536
    → b.temp_advance ≤ 32
    → let (b', new_ci) = update_timing_from_timer ci b in
      let mean = (b.last_zc_time + b.this_zc_time) / 2 in
      (new_ci ≡ (ci + mean) / 2)
      × (min ci mean ≤ new_ci)
      × (new_ci ≤ max ci mean)
      × (b'.wait_time ≡ new_ci / 2 - new_ci * b.temp_advance / 64)
      × (com_timer_delay b' ≡ b'.wait_time + 1)
unfolding update_timing_from_timer com_timer_delay
update_timing_from_timer_lem ci b h k l m =
    let mean : ℕ = (b.last_zc_time + b.this_zc_time) / 2 in
    let new_ci : ℕ = (ci + mean) / 2 in
    let eq : u32 (ci + u32 (b.last_zc_time + b.this_zc_time) / 2) / 2 ≡ new_ci = omega arith in
    let cap = advance_bound b.temp_advance new_ci m in
    rw eq (refl, omega arith, omega arith, omega arith, omega arith)
