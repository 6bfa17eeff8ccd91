-- ===== src/MainLoop/Examples.antt =====
-- Runs of the main loop.
use rm32_private.Base.{ℕ, ◌*◌, ◌/◌, ◌≤◌, ◌≡◌, ◌≢◌, ◌⊎◌, refl, arith, true, false, []}
use rm32_private.Base.Int.{pos, ◌-ℤ◌, ◌/ℤ◌}
use rm32_private.Base.Word.{u32_of, i32}
use rm32_private.Functions.{get_abs_dif}
use rm32_private.Config.{
  EepromConfig, zeroed, write_byte, low_voltage_cut_off, stuck_rotor_protection,
}
use rm32_private.MotorMode.{disarmed, running}
use rm32_private.Shared.{SharedState, mode}
use rm32_private.Shared
use rm32_private.Input.{InputState}
use rm32_private.Input
use rm32_private.Sensors.Bits.{bits32}
use rm32_private.MainLoop.{World, BoardConfig, Adc, new, temperature_ceiling, duty_ceiling}
use rm32_private.MainLoop.Protection.{
  check_voltage, voltage_count, is_desync, clears_timeouts, stick_released,
}
use rm32_private.MainLoop.Tick.{tick, tick_input}
use rm32_private.MainLoop.Limits.{tick-limits, temperature_ceiling_anti, duty_ceiling-bounds}
use rm32_private.MainLoop.Safety.{eases, tick-eases}
use rm32_private.MainLoop.Cutoff.{tick-signal_lost, tick-low_voltage, check_voltage-wraps}
use rm32_private.MainLoop.Desync.{compared, tick-desync}
use rm32_private.MainLoop.Fault.{here, next, main, IsFaulted, fault_holds}

abbrev board : BoardConfig
board = record {
  board_voltage_divider = 110;
  board_millivolt_per_amp = 20;
  board_current_offset = pos 0;
  board_use_ntc = false;
  stall_protect_interval = 6500;
}

abbrev adc : Adc
adc = record {
  raw_voltage = 1200;
  raw_current = 10;
  raw_temperature = 900;
  calc_temperature = λ raw. pos 30;
}

abbrev flying : SharedState
flying = record Shared.new {
  motor_mode = 4;
  newinput = 1000;
  adjusted_input = 1000;
  zero_crosses = 50;
  signal_timeout = 10001;
  e_com_time_bits = 600;
}

abbrev configured : EepromConfig
configured = write_byte 22 1 (write_byte 36 1 zeroed)

abbrev craft : World ℕ
craft = record {
  shared = flying;
  main = record (new bits32 board 1999 48) {
    config = configured;
    desync_check = true;
    cell_count = 4;
  };
  calls = [];
}

tick-limits_example :
    let s = (tick bits32 adc craft).shared in
    (1 ≤ s.duty_maximum)
    × (s.duty_maximum ≤ 2000)
    × (2 ≤ s.filter_level)
    × (s.filter_level ≤ 12)
    × (2 ≤ s.min_bemf_counts)
    × (s.min_bemf_counts ≤ 4)
    × (((1999 / 2 ≤ s.tim1_arr) × (s.tim1_arr ≤ 1999))
        ⊎ ((100 * (48 / 9) ≤ s.tim1_arr) × (s.tim1_arr ≤ 250 * (48 / 9))))
unfolding new
tick-limits_example = tick-limits bits32 adc craft (ground arith) (ground arith)

temperature_ceiling_anti_example :
    temperature_ceiling (pos 120) 100 ≤ temperature_ceiling (pos 105) 100
temperature_ceiling_anti_example =
    temperature_ceiling_anti 105 120 100 (ground arith) (ground arith) (ground arith)

duty_ceiling-bounds_example :
    (1 ≤ duty_ceiling (pos 600) 2000 14 (pos 120) 100)
    × (duty_ceiling (pos 600) 2000 14 (pos 120) 100 ≤ 2000)
duty_ceiling-bounds_example = duty_ceiling-bounds (pos 600) 2000 14 (pos 120) 100

tick-eases_example : eases (mode craft.shared) (mode (tick bits32 adc craft).shared) ≡ true
tick-eases_example = tick-eases bits32 adc craft

tick-signal_lost_example : mode (tick bits32 adc craft).shared ≡ disarmed
tick-signal_lost_example = tick-signal_lost bits32 adc craft (ground arith)

cutoff_on : low_voltage_cut_off configured ≢ 0
cutoff_on h = ground arith

-- A battery of 12 volts under a threshold of 13.2, after 20000 low readings and after 65535.
abbrev drained : ℕ → World ℕ
drained n = record craft {
  main = record (craft.main) {
    measurements = record ((craft.main).measurements) { battery_voltage = 1200 };
    low_cell_volt_cutoff = 330;
    protection = record Input.default_protection {
      low_voltage_count = n;
      low_voltage_cutoff = true;
    };
  };
}

low_reading : voltage_count (drained 20000).main ≡ 20001
unfolding voltage_count
low_reading = refl

tick-low_voltage_example :
    (mode (tick bits32 adc (drained 20000)).shared ≡ disarmed)
    × ((((tick bits32 adc (drained 20000)).main).protection).low_voltage_count
        ≡ voltage_count (drained 20000).main)
    × ((((tick bits32 adc (drained 20000)).main).protection).low_voltage_cutoff ≡ true)
tick-low_voltage_example =
    tick-low_voltage bits32 adc (drained 20000) cutoff_on (omega (arith, low_reading))

check_voltage-wraps_example :
    (((check_voltage (drained 65535)).main).protection
      ≡ record ((drained 65535).main).protection { low_voltage_count = 0 })
    × ((check_voltage (drained 65535)).shared ≡ flying)
check_voltage-wraps_example = check_voltage-wraps (drained 65535) cutoff_on refl refl (ground arith)

unsteady : is_desync (compared craft) ≡ true
unfolding is_desync new u32_of Shared.e_com_time get_abs_dif i32 ◌-ℤ◌ ◌/ℤ◌
unsteady = refl

tick-desync_example : mode (tick bits32 adc craft).shared ≢ running
tick-desync_example = tick-desync bits32 adc craft refl (ground arith) unsteady

-- The same motor with its fault latched.
abbrev jammed : World ℕ
jammed = record craft {
  main = record (craft.main) {
    protection = record Input.default_protection { bemf_timeout_happened = 102 };
  };
}

driven : clears_timeouts configured flying 50 1000 ≡ false
unfolding clears_timeouts stick_released
driven = refl

protected : stuck_rotor_protection configured ≢ 0
protected h = ground arith

fault_holds_example :
    IsFaulted (tick bits32 adc jammed)
    × ((((tick_input Input.new (tick bits32 adc jammed)).0).shared).adjusted_input ≡ 0)
fault_holds_example =
    fault_holds bits32 (jammed, Input.new) (tick bits32 adc jammed, Input.new)
      (next here (main jammed Input.new adc driven)) (refl, (ground arith), protected)
