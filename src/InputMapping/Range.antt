-- ===== src/InputMapping/Range.antt =====
-- The range of the throttle that the DShot mappings give (rm32/src/input_mapping.rs).
use rm32_private.Base.{
  ℕ, ◌≤◌, ◌<◌, ◌≡◌, Bool, ◌⊎◌, true, false, not, ltb, arith, ◌<=>◌, if◌then◌else◌,
}
use rm32_private.InputMapping.{
  BidirResult, dshot_bidir, dshot_rc_car, can_reverse, dshot_gated, handshake, idle, dshot_scale,
}

-- Zero, or what a half of the stick gives.
abbrev pub InRange : BidirResult → Type 0
InRange r = (r.adjusted ≡ 0) ⊎ ((45 < r.adjusted) × (r.adjusted < 2045))

module _ (up low w w' able braking : Bool) (x y : ℕ) where
  gated_range :
      (45 < x) × (x < 2045) ⊎ (up ≡ false)
      → (45 < y) × (y < 2045) ⊎ (up ≡ true) ⊎ (low ≡ false)
      → InRange (if up then dshot_gated w able x else if low then dshot_gated w' able y else idle)
  gated_range = ground arith

  handshake_range :
      (45 < x) × (x < 2045) ⊎ (up ≡ false)
      → (45 < y) × (y < 2045) ⊎ (up ≡ true) ⊎ (low ≡ false)
      → InRange (
          if up
          then handshake w braking able x
          else if low
          then handshake w' braking able y
          else idle)
  handshake_range = ground arith

module _ (n : ℕ) (n≤2047 : n ≤ 2047) where
  high_scale : (45 < dshot_scale 1048 n) × (dshot_scale 1048 n < 2045) ⊎ (ltb 1047 n ≡ false)
  high_scale = ground arith

  low_scale :
      (45 < dshot_scale 48 n) × (dshot_scale 48 n < 2045) ⊎ (ltb 1047 n ≡ true) ⊎ (ltb 47 n ≡ false)
  low_scale = ground arith

-- For an 11-bit DShot value both mappings give no throttle, or one from 46 to 2044: the smallest is one below the first
-- that starts the motor, the largest inside the scale of the duty cycle.
pub dshot-InRange :
    (newinput : ℕ)
    → newinput ≤ 2047
    → (forward dir_reversed : Bool) (ci duty : ℕ) (sine : Bool) (threshold : ℕ)
      (braking centered : Bool)
    → InRange (dshot_bidir newinput forward dir_reversed ci duty sine threshold)
      × InRange (dshot_rc_car newinput forward dir_reversed braking centered)
unfolding dshot_bidir dshot_rc_car
dshot-InRange n h f dr ci duty sine th b c = (
  gated_range (ltb 1047 n) (ltb 47 n) (f <=> not dr) (f <=> dr) (can_reverse ci duty sine th) b
      (dshot_scale 1048 n) (dshot_scale 48 n) (high_scale n h) (low_scale n h),
  handshake_range (ltb 1047 n) (ltb 47 n) (f <=> not dr) (f <=> dr) c b (dshot_scale 1048 n)
      (dshot_scale 48 n) (high_scale n h) (low_scale n h),
)
