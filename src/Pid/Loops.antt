-- ===== src/Pid/Loops.antt =====
-- The outputs of the three control loops stay in their ranges (rm32/src/control/state.rs).
use rm32_private.Base.{
  ℕ, ◌/◌, ◌≤◌, ◌<◌, ◌≡◌, refl, Bool, true, false, ◌&&◌, some, none, arith, Bool-cases, inl, inr,
  ◌⊎◌,
}
use rm32_private.Base.Int.{ℤ, pos, negsuc, ◌+ℤ◌, ◌-ℤ◌, ◌/ℤ◌, clamp_ℤ, pos_part, neg_part}
use rm32_private.Base.Word.{i16, i32, u16_of}
use rm32_private.Pid.{PidState, gain, calculate, tick_stall, tick_current_limit, tick_speed_control}

-- What clamping to natural bounds and dividing by the scale gives, as an unsigned word.
scaled :
    (top : ℕ) (v : ℤ)
    → top < 655360000
    → u16_of (clamp_ℤ (pos 0) (pos top) v /ℤ pos 10000) ≤ top / 10000
unfolding u16_of ◌/ℤ◌
scaled top (pos n) h = ground arith
scaled top (negsuc n) h = ground arith

clamped :
    (top : ℕ) (v : ℤ)
    → (pos_part (clamp_ℤ (pos 0) (pos top) v) ≤ top) × (neg_part (clamp_ℤ (pos 0) (pos top) v) ≡ 0)
clamped top (pos n) = ground arith
clamped top (negsuc n) = ground arith

between :
    (lo : ℕ) (v : ℤ)
    → lo ≤ 2000
    → (lo ≤ u16_of (clamp_ℤ (pos lo) (pos 2000) v))
      × (u16_of (clamp_ℤ (pos lo) (pos 2000) v) ≤ 2000)
unfolding u16_of
between lo (pos n) h = ground arith
between lo (negsuc n) h = ground arith

-- The stall boost is at most 150, and its accumulator stays between 0 and 150 times the scale.
pub tick_stall_bounds :
    (interval : ℤ) (s : PidState)
    → let (t, boost) = tick_stall interval s in
      (boost ≤ 150) × (pos_part t.stall_adjust ≤ 1500000) × (neg_part t.stall_adjust ≡ 0)
unfolding tick_stall
tick_stall_bounds interval s =
    let v =
      i32
        (s.stall_adjust +ℤ (calculate interval (pos s.stall_protect_target_interval) s.stall).1) in
    (scaled 1500000 v (omega arith), (clamped 1500000 v).0, (clamped 1500000 v).1)

-- The duty ceiling lies between the minimum duty and 2000; without current limiting, or at
-- standstill, there is no limit, and the next limit starts from 2000 again.
pub tick_current_limit_bounds :
    (actual target : ℤ) (min_duty : ℕ) (running : Bool) (s : PidState)
    → min_duty ≤ 2000
    → let (t, ceiling) = tick_current_limit actual target (pos min_duty) running s in
      (min_duty ≤ ceiling)
      × (ceiling ≤ 2000)
      × ((s.use_current_limit && running ≡ true)
          ⊎ ((ceiling ≡ 2000) × (t.current_limit_adjust ≡ pos 2000) × (t.current ≡ s.current)))
unfolding tick_current_limit
tick_current_limit_bounds actual target m running s h =
    elim (Bool-cases (s.use_current_limit && running)) [
      | inl active ↦ rw active (
          let v =
            i16 (
              s.current_limit_adjust -ℤ i16 ((calculate actual target s.current).1 /ℤ pos 10000)) in
          ((between m v h).0, (between m v h).1, inl refl))
      | inr idle ↦ rw idle (h, omega arith, inr (refl, refl, refl))
    ]

-- The speed control overrides the throttle, with at most 2047, exactly when it is switched on and
-- the motor runs; otherwise nothing changes.
pub tick_speed_control_bounds :
    (period : ℤ) (zc : ℕ) (running : Bool) (s : PidState)
    → let (t, over) = tick_speed_control period zc running s in
      ((s.use_speed_control && running ≡ true) × ((v : ℕ) × (over ≡ some v) × (v ≤ 2047)))
      ⊎ ((s.use_speed_control && running ≡ false) × (over ≡ none) × (t ≡ s))
unfolding tick_speed_control
tick_speed_control_bounds period zc false s = elim (Bool-cases s.use_speed_control) [
  | inl e ↦ rw e (inr (refl, refl, refl))
  | inr e ↦ rw e (inr (refl, refl, refl))
]
tick_speed_control_bounds period zc true s =
    let v = i32 (s.input_override +ℤ (calculate period (gain s.target_e_com_time) s.speed).1) in
    elim (Bool-cases s.use_speed_control) [
      | inl e ↦ rw e (inl (refl, (_, refl, scaled 20470000 v (omega arith))))
      | inr e ↦ rw e (inr (refl, refl, refl))
    ]
