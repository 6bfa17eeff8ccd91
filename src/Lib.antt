-- ===== src/Lib.antt =====
-- The RM32 motor controller: its control core (crate rm32 under rm32/src) and the firmware that runs
-- it on a microcontroller (crate rm32_stm32 under rm32_stm32/src).
--
-- The program drives a brushless motor. Interrupts receive the throttle (DShot frames or servo
-- pulses), watch the back-EMF, and set the duty cycle 20000 times a second; a main loop maps the
-- throttle, runs the slow control loops and the protections. The two contexts share one structure of
-- atomic cells. Each file models one part of it:
--
--   MotorMode      rm32/src/motor_mode.rs: modes, events, `transition`, the stored byte. Graph has the
--                  diagram of the documentation as a relation, Traces runs of events.
--   Shared         rm32/src/shared_state.rs: the cells as a record, one function per atomic access or
--                  compare-and-swap loop. Modes and Race say what interleavings of them do, and what
--                  the default methods of rm32/src/shared_comm.rs do in three accesses.
--   Commutation    rm32/src/commutation.rs: the six steps and the intervals.
--   Functions      rm32/src/functions.rs: `map`, `get_abs_dif`, CRC-8.
--   Pid            rm32/src/pid.rs and `PidState` of rm32/src/control/state.rs.
--   Duty, Bemf     `DutyState` and `BemfState` of rm32/src/control/state.rs.
--   Config         rm32/src/config.rs: the settings as their 192 bytes, the migration, the derived
--                  motor configuration.
--   InputMapping   rm32/src/input_mapping.rs: throttle mapping of the bidirectional modes.
--   Input          rm32/src/control/input.rs, with `ProtectionState` and the input half of
--                  rm32/src/system.rs.
--   Isr            rm32/src/control/isr_logic.rs: the 20 kHz tick, the polling, the commutation timer
--                  and the comparator handler. They use Duty, Bemf, Commutation and Shared.
--   Dshot          rm32/src/dshot.rs: frames from edge times, and the GCR-coded answer.
--   DshotCommands  rm32/src/dshot_commands.rs: repetition and programming of settings.
--   Edt            rm32/src/edt.rs: the schedule of extended telemetry.
--   Servo          rm32/src/servo.rs: the throttle from servo pulses, and its calibration.
--   CurrentFilter  rm32/src/current.rs: the moving average of the current.
--   Sensors        rm32/src/filter.rs, units.rs, ntc.rs and telemetry.rs: the smoothing filter, the
--                  conversions and the telemetry packets.
--   MainLoop       rm32/src/main_state.rs and rm32/src/system.rs: the iteration of the main loop.
--                  Protection, Measure and Publish have its parts, Tick puts them together. It uses
--                  Shared, Input, Pid, CurrentFilter and Sensors.
--   Sine           rm32/src/sine.rs: the sine-wave start and the gimbal.
--   Sounds         rm32/src/sounds.rs: the tunes as lists of hardware calls.
--   Crsf           rm32/src/crsf.rs: the serial receiver.
--   Transfer       rm32/src/signal.rs and rm32/src/transfer.rs: protocol detection and the dispatch of
--                  a capture. It uses Dshot and Servo.
--   Brushed        rm32/src/brushed.rs and rm32/src/fixed_mode.rs.
--   LedStrip       rm32/src/ws2812.rs: the levels of the light's wire.
--   Drivers        Phase: rm32_stm32/src/phase.rs, gpio_pin.rs and emergency.rs, calls as lists of pin
--                  writes, and the bridge that follows them. Capture: capture_generic.rs beside them.
--                  Flash: flash.rs and the two strategies of programming, and a flash that follows
--                  both. Comparator: comparator.rs, and its interrupt lines on two of the chips.
--   Firmware       rm32_stm32/src/isr_handlers.rs and isr.rs: the interrupt handlers over their state, the
--                  shared cells and the components above. System has runs of all handlers, of
--                  captured edges and of the parts of the main loop, Globals the two cells of the
--                  state, Boot and Body the start and the loop of rm32_stm32/src/bin/main.rs, Settings
--                  a save and the next start.
--   Base           Boolean tests, lists, bits, integers and machine words for all of these.
--
-- Numbers are natural numbers with the wrap-around of their width written out (`u16`, `u32`, ...);
-- signed words are integers that `i32` and `i16` bring into range. Arithmetic wraps, as it does in a
-- release build. Where the source panics (an index out of range, `clamp` with crossed limits) the
-- model keeps the state, and a comment says so. A mutable reference is an argument and a result. The
-- hardware traits of rm32/src/hal.rs are external: a handler takes what the hardware answers, and
-- gives the list of the commands that it sends. Loops are recursion on the number of rounds that the
-- source writes down, so no fuel is needed.
--
-- Not modelled: the registers of the peripherals and their set-up under rm32_stm32 (the timers, the
-- converter, the serial port), whose calls are the hardware commands here; the constants of the chips
-- and boards, which are parameters. A poll of the flash's busy flag is one call. The test harness and
-- the copy of the shared state for tests are test code, and the build scripts write the memory layout.
-- The crates `fixed` and `heapless` are parameters: a number format and a `push` with the laws that
-- their documentation states, which Sensors/Bits and Crsf/Examples instantiate.
mod Base
pub mod MotorMode
pub mod Shared
pub mod Commutation
pub mod Functions
pub mod Pid
pub mod Duty
pub mod Bemf
pub mod Config
pub mod InputMapping
pub mod Input
pub mod Isr
pub mod Dshot
pub mod Edt
pub mod DshotCommands
pub mod Servo
pub mod CurrentFilter
pub mod Crsf
pub mod Sensors
pub mod MainLoop
pub mod Sine
pub mod Sounds
pub mod Transfer
pub mod Brushed
pub mod Drivers
pub mod LedStrip
pub mod Firmware
