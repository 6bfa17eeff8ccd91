-- ===== src/DshotCommands.antt =====
-- The DShot command processor (rm32/src/dshot_commands.rs).
pub mod Repeat
pub mod Programming
mod Examples
use rm32_private.Base.{
  ℕ, zero, suc, ◌+◌, Bool, true, false, not, ◌&&◌, ◌||◌, ◌==◌, ◌!=◌, ltb, leb, if◌then◌else◌,
  Option, some, none,
}
use rm32_private.Base.Word.{u8}
use rm32_private.Config.{EepromConfig, write_byte, dir_reversed}

pub record CommandProcessor : Type 0 where
  pub command_count : ℕ
  pub last_command : ℕ
  pub programming_mode : ℕ
  pub position : ℕ
  pub new_byte : ℕ
  pub extended_telemetry : Bool
  pub send_edt_init : Bool
  pub send_edt_deinit : Bool

abbrev pub default : CommandProcessor
default = record {
  command_count = 0;
  last_command = 0;
  programming_mode = 0;
  position = 0;
  new_byte = 0;
  extended_telemetry = false;
  send_edt_init = false;
  send_edt_deinit = false;
}

pub data CommandResult : Type 0 where
  no_result : CommandResult
  play_tone : ℕ → CommandResult
  send_esc_info save_settings : CommandResult
  programming_commit : ℕ → ℕ → CommandResult

-- The processor with the variables that a command changes.
pub record Env : Type 0 where
  pub processor : CommandProcessor
  pub config : EepromConfig
  pub forward : Bool
  pub edt_armed : Bool

unfoldable pub take_edt_init : CommandProcessor → CommandProcessor × Bool
take_edt_init p = (record p { send_edt_init = false }, p.send_edt_init)

unfoldable pub take_edt_deinit : CommandProcessor → CommandProcessor × Bool
take_edt_deinit p = (record p { send_edt_deinit = false }, p.send_edt_deinit)

-- The effect of a command that is due: the `match` of `process`.
unfoldable pub execute : ℕ → Bool → Env → Env × CommandResult
execute cmd edt_arm_enable e =
    if leb 1 cmd && leb cmd 5
    then (e, play_tone (u8 cmd))
    else if cmd == 6
    then (e, send_esc_info)
    else if cmd == 7
    then (record e { config = write_byte 17 0 e.config; forward = true }, no_result)
    else if cmd == 8
    then (record e { config = write_byte 17 1 e.config; forward = false }, no_result)
    else if cmd == 9
    then (record e { config = write_byte 18 0 e.config }, no_result)
    else if cmd == 10
    then (record e { config = write_byte 18 1 e.config }, no_result)
    else if cmd == 12
    then (e, save_settings)
    else if cmd == 13
    then (
      record e {
        processor = record (e.processor) { extended_telemetry = true; send_edt_init = true };
        edt_armed = edt_arm_enable || e.edt_armed;
      },
      no_result,
    )
    else if cmd == 14
    then (
      record e {
        processor = record (e.processor) { extended_telemetry = false; send_edt_deinit = true };
      },
      no_result,
    )
    else if cmd == 20
    then (record e { forward = dir_reversed e.config == 0 }, no_result)
    else if cmd == 21
    then (record e { forward = dir_reversed e.config != 0 }, no_result)
    else if cmd == 36
    then (record e { processor = record (e.processor) { programming_mode = 1 } }, no_result)
    else (e, no_result)

abbrev put : CommandProcessor → Env → Env
put p e = record e { processor = p }

-- The counting of repetitions; `cmd` is a 16-bit word, `last_command` a byte.
unfoldable pub counted : ℕ → CommandProcessor → CommandProcessor
counted cmd p =
    let p1 =
      if cmd != p.last_command then record p { last_command = u8 cmd; command_count = 0 } else p in
    let p2 = if leb cmd 5 then record p1 { command_count = 6 } else p1 in
    record p2 { command_count = u8 (p2.command_count + 1) }

-- The counter starts again, and the command takes effect.
unfoldable pub fire : ℕ → Bool → Env → CommandProcessor → Env × CommandResult
unfolding execute
fire cmd edt_arm_enable e p =
    let r = execute cmd edt_arm_enable (put (record p { command_count = 0 }) e) in
    (put (record (r.0.processor) { last_command = u8 cmd }) r.0, r.1)

unfoldable pub after_count : ℕ → Bool → Env → CommandProcessor → Env × CommandResult
unfolding fire
after_count cmd edt_arm_enable e p =
    if ltb p.command_count 6 then (put p e, no_result) else fire cmd edt_arm_enable e p

unfoldable pub process : ℕ → Bool → Bool → Bool → Env → Env × CommandResult
unfolding after_count counted
process cmd armed running edt_arm_enable e =
    if not armed || running
    then (e, no_result)
    else after_count cmd edt_arm_enable e (counted cmd e.processor)

-- A frame in programming mode: the position, the byte, and the commit by the value 37.
unfoldable pub process_programming :
    ℕ → CommandProcessor → EepromConfig → CommandProcessor × EepromConfig × Option CommandResult
process_programming value p config =
    if p.programming_mode == 1
    then (record p { position = value; programming_mode = 2 }, config, none)
    else if p.programming_mode == 2
    then (record p { new_byte = u8 value; programming_mode = 3 }, config, none)
    else if p.programming_mode == 3
    then (if value == 37
        then (
          record p { programming_mode = 0 },
          (if ltb p.position 192 then write_byte p.position p.new_byte config else config),
          some (programming_commit p.position p.new_byte),
        )
        else (p, config, none))
    else (p, config, none)

unfoldable pub in_programming_mode : CommandProcessor → Bool
in_programming_mode p = ltb 0 p.programming_mode
