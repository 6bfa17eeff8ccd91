-- ===== src/Pid.antt =====
-- The integer PID controller (rm32/src/pid.rs) and the three loops of `PidState`
-- (rm32/src/control/state.rs). All arithmetic is in `i32`, which wraps.
pub mod Bounds
pub mod Loops
mod Examples
use rm32_private.Base.{
  ℕ, ◌-◌, ◌%◌, Bool, true, false, ◌&&◌, ◌||◌, not, ltb, Option, none, some, if◌then◌else◌,
}
use rm32_private.Base.Int.{ℤ, pos, negsuc, ◌+ℤ◌, ◌-ℤ◌, ◌*ℤ◌, ◌/ℤ◌, ltb_ℤ, negate, clamp_ℤ}
use rm32_private.Base.Word.{i16, i32, u16_of, signed}

pub record Pid : Type 0 where
  pub error : ℤ
  pub kp : ℕ
  pub ki : ℕ
  pub kd : ℕ
  pub integral : ℤ
  pub derivative : ℤ
  pub last_error : ℤ
  pub pid_output : ℤ
  pub integral_limit : ℤ
  pub output_limit : ℤ

unfoldable pub new : ℕ → ℕ → ℕ → ℤ → ℤ → Pid
new kp ki kd integral_limit output_limit = record {
  error = pos 0;
  kp = kp;
  ki = ki;
  kd = kd;
  integral = pos 0;
  derivative = pos 0;
  last_error = pos 0;
  pid_output = pos 0;
  integral_limit = integral_limit;
  output_limit = output_limit;
}

-- `gain as i32`.
abbrev pub gain : ℕ → ℤ
gain k = signed 4294967296 k

-- The two `if`s of a limit: first from above, then from below.
unfoldable pub limited : ℤ → ℤ → ℤ
limited limit v =
    let top = if ltb_ℤ limit v then limit else v in
    if ltb_ℤ top (i32 (negate limit)) then i32 (negate limit) else top

unfoldable pub calculate : ℤ → ℤ → Pid → Pid × ℤ
calculate actual target p =
    let error = i32 (actual -ℤ target) in
    let integral = limited p.integral_limit (i32 (p.integral +ℤ i32 (error *ℤ gain p.ki))) in
    let derivative = i32 (gain p.kd *ℤ i32 (error -ℤ p.last_error)) in
    let output =
      limited p.output_limit (i32 (i32 (i32 (error *ℤ gain p.kp) +ℤ integral) +ℤ derivative)) in
    (
      record p {
        error = error;
        integral = integral;
        derivative = derivative;
        last_error = error;
        pid_output = output;
      },
      output,
    )

unfoldable pub clear_integral : Pid → Pid
clear_integral p = record p { integral = pos 0 }

unfoldable pub reset : Pid → Pid
reset p = record p {
  error = pos 0;
  integral = pos 0;
  derivative = pos 0;
  last_error = pos 0;
  pid_output = pos 0;
}

unfoldable pub set_gains : ℕ → ℕ → ℕ → Pid → Pid
unfolding reset
set_gains kp ki kd p = reset (record p { kp = kp; ki = ki; kd = kd })

pub record PidState : Type 0 where
  pub current : Pid
  pub speed : Pid
  pub stall : Pid
  pub use_current_limit : Bool
  pub current_limit_adjust : ℤ
  pub stall_adjust : ℤ
  pub stall_protect_target_interval : ℕ
  pub use_speed_control : Bool
  pub input_override : ℤ
  pub target_e_com_time : ℕ

unfoldable pub with_stall_target : ℕ → PidState
unfolding new
with_stall_target interval = record {
  current = new 400 0 1000 (pos 20000) (pos 100000);
  speed = new 10 0 100 (pos 10000) (pos 50000);
  stall = new 1 0 50 (pos 10000) (pos 50000);
  use_current_limit = false;
  current_limit_adjust = pos 2000;
  stall_adjust = pos 0;
  stall_protect_target_interval = interval;
  use_speed_control = false;
  input_override = pos 0;
  target_e_com_time = 0;
}

unfoldable pub set_current_gains : ℕ → ℕ → ℕ → PidState → PidState
unfolding set_gains
set_current_gains kp ki kd s = record s { current = set_gains kp ki kd s.current }

-- The stall boost, 0 to 150.
unfoldable pub tick_stall : ℤ → PidState → PidState × ℕ
tick_stall commutation_interval s =
    let (stall, out) =
      calculate commutation_interval (pos s.stall_protect_target_interval) s.stall in
    let adjust = clamp_ℤ (pos 0) (pos 1500000) (i32 (s.stall_adjust +ℤ out)) in
    (record s { stall = stall; stall_adjust = adjust }, u16_of (adjust /ℤ pos 10000))

-- The duty ceiling of the current limit. `clamp` panics in the source if `min_duty` passes 2000.
unfoldable pub tick_current_limit : ℤ → ℤ → ℤ → Bool → PidState → PidState × ℕ
tick_current_limit actual_current target min_duty running s =
    if s.use_current_limit && running
    then (let (current, out) = calculate actual_current target s.current in
        let adjust =
          clamp_ℤ min_duty (pos 2000) (i16 (s.current_limit_adjust -ℤ i16 (out /ℤ pos 10000))) in
        (record s { current = current; current_limit_adjust = adjust }, u16_of adjust))
    else (record s { current_limit_adjust = pos 2000 }, 2000)

-- The throttle override of the speed control, where that is active.
unfoldable pub tick_speed_control : ℤ → ℕ → Bool → PidState → PidState × Option ℕ
unfolding clear_integral
tick_speed_control e_com_time zero_crosses running s =
    if not s.use_speed_control || not running
    then (s, none)
    else let (speed, out) = calculate e_com_time (gain s.target_e_com_time) s.speed in
      let over = clamp_ℤ (pos 0) (pos 20470000) (i32 (s.input_override +ℤ out)) in
      (
        record s {
          speed = if ltb zero_crosses 100 then clear_integral speed else speed;
          input_override = over;
        },
        some (u16_of (over /ℤ pos 10000)),
      )
