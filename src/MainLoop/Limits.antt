-- ===== src/MainLoop/Limits.antt =====
-- The limits that the iteration publishes to the interrupts.
use rm32_private.Base.{
  ap, ◌==◌, ◌!=◌, ◌⊎◌, Bool, max, ℕ, ◌+◌, ◌-◌, ◌*◌, ◌/◌, ◌≤◌, ◌<◌, ◌≡◌, arith, inl, inr, Bool-cases,
  true, false, ltb, if◌then◌else◌,
}
use rm32_private.Base.Int.{◌/ℤ◌, ◌-ℤ◌, ℤ, pos, negsuc, ◌≤ℤ◌, clamp_ℤ, ltb_ℤ}
use rm32_private.Base.Word.{u8_of, u16_of, signed}
use rm32_private.Functions.{map}
use rm32_private.Functions.Interpolate.{map_increasing, map_decreasing}
use rm32_private.Config.{variable_pwm, motor_poles, temperature_limit, bi_direction}
use rm32_private.Shared.{SharedState, e_com_time}
use rm32_private.Sensors.{FixedPoint}
use native.Mathlib.Nat.{mul-le-mul_right}
use rm32_private.MainLoop.{
  World, MainState, Adc, variable_pwm_mode1, variable_pwm_mode2, erpm_ceiling, temperature_ceiling,
  duty_ceiling,
}
use rm32_private.MainLoop.Publish.{filter_for, advance_for, pwm_reload, published}
use rm32_private.MainLoop.Publish.{publish, blink}
use rm32_private.MainLoop.Frames.{settled-constants}
use rm32_private.MainLoop.Tick.{tick, settled}

clamped_word :
    (lo hi : ℕ) (z : ℤ)
    → lo ≤ hi
    → hi < 65536
    → (lo ≤ u16_of (clamp_ℤ (pos lo) (pos hi) z)) × (u16_of (clamp_ℤ (pos lo) (pos hi) z) ≤ hi)
unfolding u16_of
clamped_word lo hi (pos n) h i = (ground arith, ground arith)
clamped_word lo hi (negsuc n) h i = (ground arith, ground arith)

capped :
    (b : Bool) (z : ℤ)
    → (1 ≤ (if b then u16_of (clamp_ℤ (pos 1) (pos 2000) z) else 2000))
      × ((if b then u16_of (clamp_ℤ (pos 1) (pos 2000) z) else 2000) ≤ 2000)
capped true z = clamped_word 1 2000 z (omega arith) (omega arith)
capped false z = (omega arith, omega arith)

erpm_ceiling-bounds :
    (time : ℤ) (motor_kv motor_poles : ℕ)
    → (1 ≤ erpm_ceiling time motor_kv motor_poles) × (erpm_ceiling time motor_kv motor_poles ≤ 2000)
unfolding erpm_ceiling
erpm_ceiling-bounds time motor_kv motor_poles = capped _ (
    map (if ltb_ℤ (pos 0) time then pos 600000 /ℤ time /ℤ pos 10 else pos 0)
      (pos (motor_kv * max motor_poles 2 / 3200)) (pos (motor_kv * max motor_poles 2 / 384))
      (pos 600) (pos 2000))

temperature_ceiling-bounds :
    (degrees : ℤ) (limit : ℕ)
    → (1 ≤ temperature_ceiling degrees limit) × (temperature_ceiling degrees limit ≤ 2000)
unfolding temperature_ceiling
temperature_ceiling-bounds degrees limit =
    capped _ (map degrees (pos limit -ℤ pos 10) (pos (limit + 10)) (pos 1000) (pos 1))

-- The duty ceiling is 1 to 2000.
pub duty_ceiling-bounds :
    (time : ℤ) (motor_kv motor_poles : ℕ) (degrees : ℤ) (limit : ℕ)
    → (1 ≤ duty_ceiling time motor_kv motor_poles degrees limit)
      × (duty_ceiling time motor_kv motor_poles degrees limit ≤ 2000)
unfolding duty_ceiling
duty_ceiling-bounds time motor_kv motor_poles degrees limit =
    let (a, b) = erpm_ceiling-bounds time motor_kv motor_poles in
    let (c, d) = temperature_ceiling-bounds degrees limit in (omega arith, omega arith)

clamped_word_mono :
    (z w : ℤ)
    → z ≤ℤ w
    → u16_of (clamp_ℤ (pos 1) (pos 2000) z) ≤ u16_of (clamp_ℤ (pos 1) (pos 2000) w)
unfolding u16_of
clamped_word_mono (pos n) (pos k) h = ground arith
clamped_word_mono (pos n) (negsuc k) h = ground arith
clamped_word_mono (negsuc n) (pos k) h = ground arith
clamped_word_mono (negsuc n) (negsuc k) h = ground arith

ten_below : (limit : ℕ) → 10 ≤ limit → pos limit -ℤ pos 10 ≡ pos (limit - 10)
unfolding ◌-ℤ◌
ten_below limit h = ground arith

-- The hotter the motor, the lower the ceiling.
pub temperature_ceiling_anti :
    (d e limit : ℕ)
    → 10 ≤ limit
    → limit < 256
    → d ≤ e
    → temperature_ceiling (pos e) limit ≤ temperature_ceiling (pos d) limit
unfolding temperature_ceiling
temperature_ceiling_anti d e limit h i k =
    let (low, order, high) =
      map_decreasing d e (limit - 10) (limit + 10) 1000 1 (omega arith) (omega arith) (omega arith)
        (omega arith) k in
    let words =
      clamped_word_mono (map (pos e) (pos (limit - 10)) (pos (limit + 10)) (pos 1000) (pos 1))
        (map (pos d) (pos (limit - 10)) (pos (limit + 10)) (pos 1000) (pos 1)) order in
    let (least, most) =
      clamped_word 1 2000 (map (pos e) (pos (limit - 10)) (pos (limit + 10)) (pos 1000) (pos 1))
        (omega arith) (omega arith) in
    rw (ten_below limit h) (ground arith)

below_range :
    (lo hi n : ℕ)
    → lo ≤ hi
    → clamp_ℤ (pos lo) (pos hi) (negsuc n) ≡ clamp_ℤ (pos lo) (pos hi) (pos 0)
below_range lo hi n h = ground arith

byte_between :
    (lo hi : ℕ) (z : ℤ) → hi < 256 → pos lo ≤ℤ z → z ≤ℤ pos hi → (lo ≤ u8_of z) × (u8_of z ≤ hi)
unfolding u8_of
byte_between lo hi (pos n) h i j = (omega arith, omega arith)
byte_between lo hi (negsuc n) h i j = absurd (omega arith)

negative :
    (n : ℕ)
    → map (negsuc n) (pos 100) (pos 500) (pos 3) (pos 12)
      ≡ map (pos 0) (pos 100) (pos 500) (pos 3) (pos 12)
unfolding map
negative n = rw (below_range 100 500 n (omega arith))

filter_of_pos :
    (n : ℕ)
    → (3 ≤ u8_of (map (pos n) (pos 100) (pos 500) (pos 3) (pos 12)))
      × (u8_of (map (pos n) (pos 100) (pos 500) (pos 3) (pos 12)) ≤ 12)
filter_of_pos n =
    let (a, b, c, d, e) =
      map_increasing n n 100 500 3 12 (omega arith) (omega arith) (omega arith) (omega arith)
        (omega arith) in
    byte_between 3 12 (map (pos n) (pos 100) (pos 500) (pos 3) (pos 12)) (omega arith) a c

filter_of :
    (z : ℤ)
    → (3 ≤ u8_of (map z (pos 100) (pos 500) (pos 3) (pos 12)))
      × (u8_of (map z (pos 100) (pos 500) (pos 3) (pos 12)) ≤ 12)
filter_of (pos n) = filter_of_pos n
filter_of (negsuc n) = rw (negative n) (filter_of_pos 0)

filter_for-bounds :
    (zc interval average : ℕ)
    → (2 ≤ filter_for zc interval average) × (filter_for zc interval average ≤ 12)
unfolding filter_for
filter_for-bounds zc interval average =
    let (a, b) = filter_of (signed 4294967296 average) in ground arith

advance_for-bounds : (duty : ℕ) → (13 ≤ advance_for duty) × (advance_for duty ≤ 23)
unfolding advance_for
advance_for-bounds duty =
    let (a, b, c, d, e) =
      map_increasing duty duty 100 2000 13 23 (omega arith) (omega arith) (omega arith)
        (omega arith) (omega arith) in
    byte_between 13 23 (map (pos duty) (pos 100) (pos 2000) (pos 13) (pos 23)) (omega arith) a c

variable_pwm_mode1-bounds :
    (interval arr : ℕ)
    → arr < 65536
    → (arr / 2 ≤ variable_pwm_mode1 interval arr) × (variable_pwm_mode1 interval arr ≤ arr)
unfolding variable_pwm_mode1
variable_pwm_mode1-bounds interval arr h =
    clamped_word (arr / 2) arr
      (map (signed 4294967296 interval) (pos 96) (pos 200) (pos (arr / 2)) (pos arr)) (omega arith)
      h

variable_pwm_mode2-bounds :
    (interval mhz : ℕ)
    → mhz < 256
    → (100 * (mhz / 9) ≤ variable_pwm_mode2 interval mhz)
      × (variable_pwm_mode2 interval mhz ≤ 250 * (mhz / 9))
unfolding variable_pwm_mode2
variable_pwm_mode2-bounds interval mhz h = ground (
  arith,
  mul-le-mul_right {m = 100} {n = interval} (mhz / 9),
  mul-le-mul_right {m = interval} {n = 250} (mhz / 9),
)

pwm_reload-bounds :
    {U : Type 0} (m : MainState U) (s : SharedState)
    → m.timer1_max_arr < 65536
    → m.cpu_mhz < 256
    → ((m.timer1_max_arr / 2 ≤ pwm_reload m s) × (pwm_reload m s ≤ m.timer1_max_arr))
      ⊎ ((100 * (m.cpu_mhz / 9) ≤ pwm_reload m s) × (pwm_reload m s ≤ 250 * (m.cpu_mhz / 9)))
unfolding pwm_reload
pwm_reload-bounds m s h i = elim (Bool-cases (variable_pwm m.config == 1)) [
  | inl one ↦ rw one (inl (variable_pwm_mode1-bounds s.commutation_interval m.timer1_max_arr h))
  | inr other ↦ elim (Bool-cases (variable_pwm m.config == 2)) [
    | inl two ↦
        rw (other, two) (inr (variable_pwm_mode2-bounds ((m.timing).average_interval) m.cpu_mhz i))
    | inr none ↦ rw (other, none) (inl (omega arith, omega arith))
  ]
]

counts-bounds :
    (b c : Bool)
    → (2 ≤ (if b then (if c then 3 else 4) else 2)) × ((if b then (if c then 3 else 4) else 2) ≤ 4)
counts-bounds b c = ground arith

-- What one iteration publishes, whatever the state: a duty ceiling of 1 to 2000, a filter level of 2
-- to 12, 2 to 4 counts, and a reload value that is the configured one, or at least half of it and
-- at most all of it, or 100 to 250 ninths of the clock in MHz.
pub tick-limits :
    {U : Type 0} (fixed : FixedPoint U) (adc : Adc) (w : World U)
    → (w.main).timer1_max_arr < 65536
    → (w.main).cpu_mhz < 256
    → let s = (tick fixed adc w).shared in
      (1 ≤ s.duty_maximum)
      × (s.duty_maximum ≤ 2000)
      × (2 ≤ s.filter_level)
      × (s.filter_level ≤ 12)
      × (2 ≤ s.min_bemf_counts)
      × (s.min_bemf_counts ≤ 4)
      × ((((w.main).timer1_max_arr / 2 ≤ s.tim1_arr) × (s.tim1_arr ≤ (w.main).timer1_max_arr))
          ⊎ ((100 * ((w.main).cpu_mhz / 9) ≤ s.tim1_arr)
              × (s.tim1_arr ≤ 250 * ((w.main).cpu_mhz / 9))))
unfolding tick publish published blink
tick-limits fixed adc w h i =
    let end = settled fixed adc w in
    let same = settled-constants fixed adc w in
    let arr = ap (λ t. t.1) same in
    let mhz = ap (λ t. t.2) same in
    let (d1, d2) =
      duty_ceiling-bounds (e_com_time w.shared) (end.main).motor_kv
        (motor_poles ((end.main).config)) ((end.main).measurements).degrees_celsius
        (temperature_limit ((end.main).config)) in
    let (f1, f2) =
      filter_for-bounds (w.shared).zero_crosses (end.shared).commutation_interval
        (((end.main).timing).average_interval) in
    let (c1, c2) =
      counts-bounds (ltb (w.shared).zero_crosses 5) (bi_direction ((end.main).config) != 0) in
    let reload = pwm_reload-bounds end.main end.shared (omega arith) (omega arith) in
    (
      d1,
      d2,
      f1,
      f2,
      c1,
      c2,
      elim reload [
        | inl p ↦ inl (omega (arith, p, arr), omega (arith, p, arr))
        | inr p ↦ inr (omega (arith, p, mhz), omega (arith, p, mhz))
      ],
    )
