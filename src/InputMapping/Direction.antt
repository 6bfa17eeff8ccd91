-- ===== src/InputMapping/Direction.antt =====
-- The motor is only driven the way that the stick asks for (rm32/src/input_mapping.rs).
use rm32_private.Base.{
  ℕ, ◌+◌, ◌-◌, ◌*◌, ◌≡◌, Bool, ◌⊎◌, true, false, not, ltb, arith, ◌<=>◌, if◌then◌else◌,
}
use rm32_private.Base.Word.{u16}
use rm32_private.InputMapping.{
  BidirResult, dshot_bidir, dshot_rc_car, servo_bidir, servo_rc_car, can_reverse, dshot_gated,
  servo_gated, handshake, idle, dshot_scale, servo_forward, servo_backward,
}

-- The direction after the mapping's own reversal.
abbrev pub direction : Bool → BidirResult → Bool
direction forward r = if r.reverse then not forward else forward

-- The direction that the half of the stick asks for.
abbrev pub asked : Bool → Bool → Bool
asked upper dir_reversed = if upper then not dir_reversed else dir_reversed

-- A throttle is given only in the asked direction, and a reversal only where it is allowed.
abbrev pub Drives : Bool → Bool → Bool → BidirResult → Type 0
Drives forward want allowed r =
    ((r.adjusted ≡ 0) ⊎ (direction forward r ≡ want)) × ((r.reverse ≡ false) ⊎ (allowed ≡ true))

-- A brake comes without a throttle and without a reversal.
abbrev pub Braked : BidirResult → Type 0
Braked r = (r.prop_brake ≡ false) ⊎ ((r.adjusted ≡ 0) × (r.reverse ≡ false))

-- The four shapes, over the outcomes of the tests and any throttle values.
module _ (up low f dr allowed : Bool) (x y : ℕ) where
  gated-Drives : Drives f (asked up dr) allowed (
      if up
      then dshot_gated (f <=> not dr) allowed x
      else if low
      then dshot_gated (f <=> dr) allowed y
      else idle)
  gated-Drives = ground arith

  servo_shape : Drives f (asked up dr) allowed (
      if up
      then servo_gated (f <=> not dr) allowed x
      else if low
      then servo_gated (f <=> dr) allowed y
      else idle)
  servo_shape = ground arith

  no_brake_gated :
      (if up
        then dshot_gated (f <=> not dr) allowed x
        else if low
        then dshot_gated (f <=> dr) allowed y
        else idle).prop_brake
      ≡ false
  no_brake_gated = ground arith

  no_brake_servo :
      (if up
        then servo_gated (f <=> not dr) allowed x
        else if low
        then servo_gated (f <=> dr) allowed y
        else idle).prop_brake
      ≡ false
  no_brake_servo = ground arith

  brake_shape :
      (braking : Bool)
      → Braked (
          if up
          then handshake (f <=> not dr) braking allowed x
          else if low
          then handshake (f <=> dr) braking allowed y
          else idle)
  brake_shape braking = ground arith

  handshake_shape :
      (braking : Bool)
      → Drives f (asked up dr) allowed (
          if up
          then handshake (f <=> not dr) braking allowed x
          else if low
          then handshake (f <=> dr) braking allowed y
          else idle)
  handshake_shape braking = ground arith

module _ (n : ℕ) (f dr : Bool) (ci duty : ℕ) (sine : Bool) (th : ℕ) where
  dshot-Drives :
      Drives f
        (asked (ltb 1047 n) dr)
        (can_reverse ci duty sine th)
        (dshot_bidir n f dr ci duty sine th)
  unfolding dshot_bidir
  dshot-Drives =
      gated-Drives (ltb 1047 n) (ltb 47 n) f dr (can_reverse ci duty sine th) (dshot_scale 1048 n)
        (dshot_scale 48 n)

module _ (n : ℕ) (f dr : Bool) (ci duty : ℕ) (sine : Bool) (th db : ℕ) where
  servo-Drives :
      Drives f
        (asked (ltb (u16 (1000 + u16 (db * 2))) n) dr)
        (can_reverse ci duty sine th)
        (servo_bidir n f dr ci duty sine th db)
  unfolding servo_bidir
  servo-Drives =
      servo_shape (ltb (u16 (1000 + u16 (db * 2))) n) (ltb n (1000 - u16 (db * 2))) f dr
        (can_reverse ci duty sine th) (servo_forward (u16 (db * 2)) n)
        (servo_backward (u16 (db * 2)) n)

  dshot_no_brake : (dshot_bidir n f dr ci duty sine th).prop_brake ≡ false
  unfolding dshot_bidir
  dshot_no_brake =
      no_brake_gated (ltb 1047 n) (ltb 47 n) f dr (can_reverse ci duty sine th) (dshot_scale 1048 n)
        (dshot_scale 48 n)

  servo_no_brake : (servo_bidir n f dr ci duty sine th db).prop_brake ≡ false
  unfolding servo_bidir
  servo_no_brake =
      no_brake_servo (ltb (u16 (1000 + u16 (db * 2))) n) (ltb n (1000 - u16 (db * 2))) f dr
        (can_reverse ci duty sine th) (servo_forward (u16 (db * 2)) n)
        (servo_backward (u16 (db * 2)) n)

-- The speed-gated mappings, from DShot and from a servo: whatever the stick, a throttle that is not
-- zero comes with the direction that the stick's half asks for, the direction is flipped only while
-- the motor is slow enough (or in sine mode), and the propeller brake is never set.
pub speed_gated-Drives :
    (newinput : ℕ) (forward dir_reversed : Bool) (ci duty : ℕ) (sine : Bool) (threshold db : ℕ)
    → let able = can_reverse ci duty sine threshold in
      let d = dshot_bidir newinput forward dir_reversed ci duty sine threshold in
      let v = servo_bidir newinput forward dir_reversed ci duty sine threshold db in
      Drives forward (asked (ltb 1047 newinput) dir_reversed) able d
      × Drives forward (asked (ltb (u16 (1000 + u16 (db * 2))) newinput) dir_reversed) able v
      × (d.prop_brake ≡ false)
      × (v.prop_brake ≡ false)
speed_gated-Drives n f dr ci duty sine th db = (
  dshot-Drives n f dr ci duty sine th,
  servo-Drives n f dr ci duty sine th db,
  dshot_no_brake n f dr ci duty sine th db,
  servo_no_brake n f dr ci duty sine th db,
)

module _ (n : ℕ) (f dr b c : Bool) (db : ℕ) where
  rc_dshot :
      Drives f (asked (ltb 1047 n) dr) c (dshot_rc_car n f dr b c)
      × Braked (dshot_rc_car n f dr b c)
  unfolding dshot_rc_car
  rc_dshot = (
    handshake_shape (ltb 1047 n) (ltb 47 n) f dr c (dshot_scale 1048 n) (dshot_scale 48 n) b,
    brake_shape (ltb 1047 n) (ltb 47 n) f dr c (dshot_scale 1048 n) (dshot_scale 48 n) b,
  )

  rc_servo :
      Drives f (asked (ltb (u16 (1000 + u16 (db * 2))) n) dr) c (servo_rc_car n f dr b c db)
      × Braked (servo_rc_car n f dr b c db)
  unfolding servo_rc_car
  rc_servo =
      let up = ltb (u16 (1000 + u16 (db * 2))) n in
      let low = ltb n (1000 - u16 (db * 2)) in
      let x = servo_forward (u16 (db * 2)) n in
      let y = servo_backward (u16 (db * 2)) n in
      (handshake_shape up low f dr c x y b, brake_shape up low f dr c x y b)

-- The brake-and-reverse mappings: a throttle that is not zero comes with the asked direction, the
-- direction is flipped only after the stick has returned to the centre, and neither throttle nor a
-- flip comes with the brake.
pub rc_car-Drives :
    (newinput : ℕ) (forward dir_reversed braking centered : Bool) (db : ℕ)
    → let d = dshot_rc_car newinput forward dir_reversed braking centered in
      let v = servo_rc_car newinput forward dir_reversed braking centered db in
      Drives forward (asked (ltb 1047 newinput) dir_reversed) centered d
      × Drives forward (asked (ltb (u16 (1000 + u16 (db * 2))) newinput) dir_reversed) centered v
      × Braked d
      × Braked v
rc_car-Drives n f dr b c db = (
  (rc_dshot n f dr b c db).0,
  (rc_servo n f dr b c db).0,
  (rc_dshot n f dr b c db).1,
  (rc_servo n f dr b c db).1,
)
