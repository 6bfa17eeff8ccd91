-- ===== src/Firmware/Examples.antt =====
-- Runs of the firmware.
use rm32_private.Base.{
  replicate, ℕ, ◌≡◌, ◌⊎◌, refl, arith, true, false, ◌==◌, List, [], ◌∷◌, Option, some, none,
  if◌then◌else◌,
}
use rm32_private.Base.Int.{pos}
use rm32_private.Config.{EepromConfig, zeroed, write_byte}
use rm32_private.Shared
use rm32_private.Shared.{SharedState}
use rm32_private.Input
use rm32_private.Sine
use rm32_private.Drivers.Phase
use rm32_private.Sensors.Bits.{bits32}
use rm32_private.MainLoop
use rm32_private.MainLoop.{Adc}
use rm32_private.Firmware.{IsrState, handle_exti_frame}
use rm32_private.Firmware.System.{
  System, here, then_step, edges, exti_frame, main_loop, saving, iteration, by_interrupt, by_main,
  captured, view, run_main,
}
use rm32_private.Firmware.Silence.{Run-silent}
use rm32_private.Firmware.Gated.{handle_exti_frame-gated}
use rm32_private.Firmware.Globals.{Globals, interrupted}
use rm32_private.Firmware.Boot.{
  Board, Chip, Machine, flash_write, initial_isr_state, tim1_autoreload, eeprom_address_of,
}
use rm32_private.Firmware.Boot.{boot}
use rm32_private.Base.{zero, suc}
use rm32_private.Drivers.Flash.Device.{Device}
use rm32_private.Drivers.Flash.Programming.{IsBytes}
use rm32_private.Drivers.Flash.Stored.{double_words}
use rm32_private.Firmware.Settings.{flashed, boot-save}
use rm32_private.Firmware.Body.{save, round}
use rm32_private.Firmware.Lost.{save-stale}
use rm32_private.Firmware.Still.{count_moves, round-still}

abbrev chip : Chip
chip = record {
  cpu_frequency_mhz = 64;
  eeprom_start = 0x0800F800;
  wdg_prescaler = 0;
  wdg_reload = 4095;
}

abbrev board : Board
board = record {
  measuring = record {
    board_voltage_divider = 110;
    board_millivolt_per_amp = 20;
    board_current_offset = pos 0;
    board_use_ntc = false;
    stall_protect_interval = 6500;
  };
  dead_time = 45;
  kv_divider = 1;
  startup_boost = false;
  voltage_based_ramp = false;
  has_led = true;
  bridge_enable = false;
  pulse_output = false;
}

reload_24khz : tim1_autoreload chip ≡ 2665
unfolding tim1_autoreload
reload_24khz = refl

-- A bootloader that names 128 kilobytes.
signed : ℕ → ℕ
signed a = if a == 0xFE0 then 0x5925E3DA else if a == 0xFE4 then 0x4EB863D9 else 0

page_of_128k : eeprom_address_of signed (λ a. 0x2B) 0x0800F800 ≡ 0x0801F800
unfolding eeprom_address_of signed
page_of_128k = refl

-- A machine whose settings are to be saved, and an interrupt that reverses the motor.
abbrev settings : EepromConfig
settings = write_byte 1 3 zeroed

abbrev machine : Machine ℕ
machine = record {
  globals = record {
    isr_state = some (record (initial_isr_state board) { config = settings });
    isr_local = none;
  };
  shared = record Shared.new { save_settings_flag = true };
  main = MainLoop.new bits32 board.measuring 2665 64;
  eeprom_address = 0x0800F800;
  phase = Phase.new false;
  positions = Sine.new;
  input_state = Input.new;
  sent = [];
}

abbrev adc : Adc
adc = record {
  raw_voltage = 1200;
  raw_current = 10;
  raw_temperature = 900;
  calc_temperature = λ raw. pos 30;
}

-- A start after which edges are captured, a frame is processed, and the main loop saves and runs its
-- iteration.
abbrev started : System ℕ
started = record {
  interrupt = record { state = initial_isr_state board; shared = machine.shared; sent = [] };
  machine = machine;
}

abbrev arrived : System ℕ
arrived = by_interrupt (captured (5 ∷ 10 ∷ 15 ∷ []) started.interrupt) started

abbrev processed : System ℕ
processed = by_interrupt (handle_exti_frame true arrived.interrupt) arrived

abbrev saved : System ℕ
saved = by_main (save (view processed)) processed

abbrev iterated : System ℕ
iterated = by_main (run_main bits32 adc (view saved)) saved

abbrev no_vector : List ℕ → ℕ → Option (List ℕ)
no_vector v b = none

Run-silent_example :
    (((iterated.interrupt).shared).dshot_telemetry ≡ false)
    × ((((iterated.interrupt).state).input).out_put ≡ (((started.interrupt).state).input).out_put)
    × ((((iterated.interrupt).state).input).gcr_buf ≡ (((started.interrupt).state).input).gcr_buf)
    × ((((iterated.interrupt).state).input).calls ≡ (((started.interrupt).state).input).calls)
Run-silent_example = Run-silent bits32 board chip no_vector 7 {s = started} {t = iterated} refl (
    then_step
      (then_step
        (then_step (then_step here (edges started (5 ∷ 10 ∷ 15 ∷ []))) (exti_frame arrived true))
        (main_loop processed (save (view processed)) (saving (view processed))))
      (main_loop saved (run_main bits32 adc (view saved)) (iteration (view saved) adc)))

handle_exti_frame-gated_example :
    let m = started.interrupt in
    ((((handle_exti_frame true m).shared).newinput ≡ (m.shared).newinput)
      ⊎ (((handle_exti_frame true m).shared).newinput ≡ 0))
    × ((((handle_exti_frame true m).state).edt_armed ≡ false)
        ⊎ (((m.state).cmd).extended_telemetry ≡ true))
unfolding initial_isr_state
handle_exti_frame-gated_example = handle_exti_frame-gated true started.interrupt refl refl

abbrev reversed : IsrState → IsrState
reversed st = record st { config = write_byte 17 1 st.config }

abbrev moved : Globals
moved = record {
  isr_state = none;
  isr_local = some (reversed (record (initial_isr_state board) { config = settings }));
}

save-stale_example :
    let later = save (record machine { globals = moved }) in
    ((save machine).sent ≡ flash_write 0x0800F800 (settings.bytes) ∷ [])
    × (((save machine).main).config ≡ settings)
    × (((save machine).shared).save_settings_flag ≡ false)
    × (later.sent ≡ flash_write 0x0800F800 (((machine.main).config).bytes) ∷ [])
    × ((later.main).config ≡ (machine.main).config)
    × ((later.shared).save_settings_flag ≡ false)
    × (later.globals ≡ moved)
unfolding interrupted
save-stale_example =
    save-stale machine (record (initial_isr_state board) { config = settings }) reversed moved refl
      refl refl refl

abbrev taken : Machine ℕ
taken = record machine {
  globals = moved;
  shared = record Shared.new { motor_mode = 3; newinput = 300 };
}

round-still_example :
    (count_moves (round bits32 board chip adc taken).sent ≡ count_moves taken.sent)
    × ((round bits32 board chip adc taken).globals ≡ taken.globals)
round-still_example = round-still bits32 board chip adc taken refl

-- The constants above are those of the G071, whose flash takes double words. A locked flash, written
-- before, and a machine that keeps its settings in its last page.
abbrev full : Device
full = record {
  locked = true;
  half_open = false;
  programming = false;
  erasing = false;
  address = 0;
  page = 0;
  first_at = 0;
  first = 0;
  byte = λ a. 17;
}

abbrev unsigned : ℕ → ℕ
unsigned a = 0

zero-IsBytes : (n : ℕ) → IsBytes (replicate n 0)
zero-IsBytes zero = omega arith
zero-IsBytes (suc n) = (omega arith, zero-IsBytes n)

boot-save_example :
    let m' =
      boot bits32 board chip unsigned (flashed double_words false (save machine).sent full).byte in
    ((m'.main).config ≡ settings)
    × (((save machine).main).config ≡ settings)
    × (m'.eeprom_address ≡ 0x0800F800)
unfolding eeprom_address_of flashed
boot-save_example =
    boot-save bits32 board chip unsigned double_words false full machine refl refl
      (refl, omega arith, omega arith) (omega arith) (omega arith, (omega arith, zero-IsBytes 190))
      refl refl
