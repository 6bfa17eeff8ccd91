-- ===== src/Sine.antt =====
-- The sine-wave start and the gimbal (rm32/src/sine.rs).
pub mod Phases
pub mod Drive
pub mod Steps
pub mod Gimbal
mod Examples
use rm32_private.Base.{
  ℕ, ◌+◌, ◌*◌, ◌/◌, Bool, true, false, ◌&&◌, ltb, ◌==◌, if◌then◌else◌, max, List, [], ◌∷◌, get_or,
}
use rm32_private.Base.Int.{ℤ, pos, ◌+ℤ◌, ◌-ℤ◌, ◌*ℤ◌, ◌/ℤ◌, ltb_ℤ, eq_ℤ, max_ℤ, pos_part}
use rm32_private.Base.Word.{u16_of, i16, i32}
use rm32_private.Functions.{map}

-- `PWM_SIN`.
abbrev pub pwm_sin : List ℕ
pwm_sin =
    180 ∷ 183 ∷ 186 ∷ 189 ∷ 193 ∷ 196 ∷ 199 ∷ 202 ∷ 205 ∷ 208 ∷ 211 ∷ 214 ∷ 217 ∷ 220 ∷ 224 ∷ 227
    ∷ 230 ∷ 233 ∷ 236 ∷ 239 ∷ 242 ∷ 245 ∷ 247 ∷ 250 ∷ 253 ∷ 256 ∷ 259 ∷ 262 ∷ 265 ∷ 267 ∷ 270 ∷ 273
    ∷ 275 ∷ 278 ∷ 281 ∷ 283 ∷ 286 ∷ 288 ∷ 291 ∷ 293 ∷ 296 ∷ 298 ∷ 300 ∷ 303 ∷ 305 ∷ 307 ∷ 309 ∷ 312
    ∷ 314 ∷ 316 ∷ 318 ∷ 320 ∷ 322 ∷ 324 ∷ 326 ∷ 327 ∷ 329 ∷ 331 ∷ 333 ∷ 334 ∷ 336 ∷ 337 ∷ 339 ∷ 340
    ∷ 342 ∷ 343 ∷ 344 ∷ 346 ∷ 347 ∷ 348 ∷ 349 ∷ 350 ∷ 351 ∷ 352 ∷ 353 ∷ 354 ∷ 355 ∷ 355 ∷ 356 ∷ 357
    ∷ 357 ∷ 358 ∷ 358 ∷ 359 ∷ 359 ∷ 359 ∷ 360 ∷ 360 ∷ 360 ∷ 360 ∷ 360 ∷ 360 ∷ 360 ∷ 360 ∷ 360 ∷ 359
    ∷ 359 ∷ 359 ∷ 358 ∷ 358 ∷ 357 ∷ 357 ∷ 356 ∷ 355 ∷ 355 ∷ 354 ∷ 353 ∷ 352 ∷ 351 ∷ 350 ∷ 349 ∷ 348
    ∷ 347 ∷ 346 ∷ 344 ∷ 343 ∷ 342 ∷ 340 ∷ 339 ∷ 337 ∷ 336 ∷ 334 ∷ 333 ∷ 331 ∷ 329 ∷ 327 ∷ 326 ∷ 324
    ∷ 322 ∷ 320 ∷ 318 ∷ 316 ∷ 314 ∷ 312 ∷ 309 ∷ 307 ∷ 305 ∷ 303 ∷ 300 ∷ 298 ∷ 296 ∷ 293 ∷ 291 ∷ 288
    ∷ 286 ∷ 283 ∷ 281 ∷ 278 ∷ 275 ∷ 273 ∷ 270 ∷ 267 ∷ 265 ∷ 262 ∷ 259 ∷ 256 ∷ 253 ∷ 250 ∷ 247 ∷ 245
    ∷ 242 ∷ 239 ∷ 236 ∷ 233 ∷ 230 ∷ 227 ∷ 224 ∷ 220 ∷ 217 ∷ 214 ∷ 211 ∷ 208 ∷ 205 ∷ 202 ∷ 199 ∷ 196
    ∷ 193 ∷ 189 ∷ 186 ∷ 183 ∷ 180 ∷ 177 ∷ 174 ∷ 171 ∷ 167 ∷ 164 ∷ 161 ∷ 158 ∷ 155 ∷ 152 ∷ 149 ∷ 146
    ∷ 143 ∷ 140 ∷ 136 ∷ 133 ∷ 130 ∷ 127 ∷ 124 ∷ 121 ∷ 118 ∷ 115 ∷ 113 ∷ 110 ∷ 107 ∷ 104 ∷ 101 ∷ 98
    ∷ 95 ∷ 93 ∷ 90 ∷ 87 ∷ 85 ∷ 82 ∷ 79 ∷ 77 ∷ 74 ∷ 72 ∷ 69 ∷ 67 ∷ 64 ∷ 62 ∷ 60 ∷ 57 ∷ 55 ∷ 53 ∷ 51
    ∷ 48 ∷ 46 ∷ 44 ∷ 42 ∷ 40 ∷ 38 ∷ 36 ∷ 34 ∷ 33 ∷ 31 ∷ 29 ∷ 27 ∷ 26 ∷ 24 ∷ 23 ∷ 21 ∷ 20 ∷ 18 ∷ 17
    ∷ 16 ∷ 14 ∷ 13 ∷ 12 ∷ 11 ∷ 10 ∷ 9 ∷ 8 ∷ 7 ∷ 6 ∷ 5 ∷ 5 ∷ 4 ∷ 3 ∷ 3 ∷ 2 ∷ 2 ∷ 1 ∷ 1 ∷ 1 ∷ 0 ∷ 0
    ∷ 0 ∷ 0 ∷ 0 ∷ 0 ∷ 0 ∷ 0 ∷ 0 ∷ 1 ∷ 1 ∷ 1 ∷ 2 ∷ 2 ∷ 3 ∷ 3 ∷ 4 ∷ 5 ∷ 5 ∷ 6 ∷ 7 ∷ 8 ∷ 9 ∷ 10 ∷ 11
    ∷ 12 ∷ 13 ∷ 14 ∷ 16 ∷ 17 ∷ 18 ∷ 20 ∷ 21 ∷ 23 ∷ 24 ∷ 26 ∷ 27 ∷ 29 ∷ 31 ∷ 33 ∷ 34 ∷ 36 ∷ 38 ∷ 40
    ∷ 42 ∷ 44 ∷ 46 ∷ 48 ∷ 51 ∷ 53 ∷ 55 ∷ 57 ∷ 60 ∷ 62 ∷ 64 ∷ 67 ∷ 69 ∷ 72 ∷ 74 ∷ 77 ∷ 79 ∷ 82 ∷ 85
    ∷ 87 ∷ 90 ∷ 93 ∷ 95 ∷ 98 ∷ 101 ∷ 104 ∷ 107 ∷ 110 ∷ 113 ∷ 115 ∷ 118 ∷ 121 ∷ 124 ∷ 127 ∷ 130 ∷ 133
    ∷ 136 ∷ 140 ∷ 143 ∷ 146 ∷ 149 ∷ 152 ∷ 155 ∷ 158 ∷ 161 ∷ 164 ∷ 167 ∷ 171 ∷ 174 ∷ 177 ∷ []

-- The angles of the three phases.
pub record PhasePositions : Type 0 where
  pub a : ℤ
  pub b : ℤ
  pub c : ℤ

abbrev pub new : PhasePositions
new = record { a = pos 0; b = pos 120; c = pos 240 }

unfoldable pub advance_angle : Bool → ℤ → ℤ
advance_angle forward angle =
    if forward
    then (let down = i16 (angle -ℤ pos 1) in if ltb_ℤ down (pos 0) then pos 359 else down)
    else (let up = i16 (angle +ℤ pos 1) in if ltb_ℤ (pos 359) up then pos 0 else up)

unfoldable pub advance : Bool → PhasePositions → PhasePositions
advance forward p = record {
  a = advance_angle forward p.a;
  b = advance_angle forward p.b;
  c = advance_angle forward p.c;
}

-- The compare value for an amplitude.
unfoldable pub scaled_duty : ℤ → ℕ → ℕ → ℕ → ℕ
scaled_duty gate_drive_offset timer1_max_arr power amplitude =
    let level = i32 (pos amplitude +ℤ gate_drive_offset) in
    let duty = i32 (level *ℤ pos timer1_max_arr) /ℤ pos 2000 in
    u16_of (max_ℤ (pos 0) (i32 (duty *ℤ pos power) /ℤ pos 10))

-- The compare value of one phase. An angle outside the table, where the source panics, reads 0 here;
-- the angles stay in the table.
unfoldable pub phase_duty : ℤ → ℕ → ℕ → Bool → ℤ → ℕ
phase_duty gate_drive_offset timer1_max_arr sine_mode_power gimbal_mode angle =
    let power = if gimbal_mode then 10 else max sine_mode_power 1 in
    let divider = if gimbal_mode then 1 else 2 in
    scaled_duty gate_drive_offset timer1_max_arr power
      (2 * get_or pwm_sin (pos_part angle) 0 / divider)

unfoldable pub sine_drive : PhasePositions → ℤ → ℕ → ℕ → Bool → ℕ × ℕ × ℕ
sine_drive p gate_drive_offset timer1_max_arr sine_mode_power gimbal_mode =
    let duty = phase_duty gate_drive_offset timer1_max_arr sine_mode_power gimbal_mode in
    (duty p.a, duty p.b, duty p.c)

pub data SineStepResult : Type 0 where
  continue : ℕ → SineStepResult
  changeover : ℕ → ℕ → SineStepResult
  idle : SineStepResult

-- The delay of a step at low throttle.
unfoldable pub slow_delay : ℕ → ℕ → ℕ
slow_delay input motor_poles =
    let poles = if motor_poles == 0 then 14 else motor_poles in
    u16_of (map (pos input) (pos 48) (pos 120) (pos (7000 / poles)) (pos (810 / poles)))

-- What a step at the angle `a` of the first phase reports.
unfoldable pub step_result : ℕ → ℕ → ℕ → ℤ → SineStepResult
unfolding slow_delay
step_result input motor_poles changeover_step a =
    if ltb input 137
    then continue (slow_delay input motor_poles)
    else if ltb 200 input && eq_ℤ a (pos 0)
    then changeover 9000 changeover_step
    else continue (if ltb 200 input then 80 else 120)

unfoldable pub sine_step :
    ℕ
    → Bool
    → Bool
    → ℕ
    → ℕ
    → ℤ
    → ℕ
    → ℕ
    → PhasePositions
    → PhasePositions × SineStepResult × (ℕ × ℕ × ℕ)
unfolding step_result
sine_step input armed forward motor_poles changeover_step gate_drive_offset timer1_max_arr
      sine_mode_power p =
    let drive =
      λ (q : PhasePositions). sine_drive q gate_drive_offset timer1_max_arr sine_mode_power false in
    if ltb 47 input && armed
    then (let q = advance forward p in
        (q, step_result input motor_poles changeover_step q.a, drive q))
    else (p, idle, drive p)

unfoldable pub desired_angle : ℕ → ℤ
desired_angle input =
    if ltb 1000 input
    then i16 (map (pos input) (pos 1000) (pos 2000) (pos 180) (pos 360))
    else i16 (map (pos input) (pos 0) (pos 1000) (pos 0) (pos 180))

-- One step towards the desired angle: the positions, the angle, and the call's result.
unfoldable pub gimbal_step : ℕ → ℤ → ℕ → PhasePositions → ℤ → PhasePositions × ℤ × (ℕ × (ℕ × ℕ × ℕ))
gimbal_step input gate_drive_offset timer1_max_arr p current_angle =
    let desired = desired_angle input in
    let q =
      if ltb_ℤ desired current_angle
      then advance true p
      else if ltb_ℤ current_angle desired
      then advance false p
      else p in
    let angle =
      if ltb_ℤ desired current_angle
      then i16 (current_angle -ℤ pos 1)
      else if ltb_ℤ current_angle desired
      then i16 (current_angle +ℤ pos 1)
      else current_angle in
    (q, angle, (300, sine_drive q gate_drive_offset timer1_max_arr 10 true))
