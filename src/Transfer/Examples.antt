-- ===== src/Transfer/Examples.antt =====
-- Runs of the transfer.
use rm32_private.Base.{◌≡◌, refl, true, false, []}
use rm32_private.Transfer.{
  TransferState, Inputs, new, process, dispatch, average_frames, watch_stick, enter_calibration,
}
use rm32_private.Transfer.Calibration.{IsSteady, process-enters}
use rm32_private.Functions.{get_abs_dif}
use rm32_private.Base.Int.{◌-ℤ◌}
use rm32_private.Base.Word.{i32}

abbrev high_stick : Inputs
high_stick = record {
  input_set = true;
  dshot_mode = false;
  servo_mode = true;
  dshot_telemetry = false;
  armed = false;
  input_pin_high = true;
  adjusted_input = 2000;
  current_newinput = 2000;
  bidirectional = false;
  disable_stick_cal = false;
  frametime_low = 0;
  frametime_high = 0;
}

abbrev patient : TransferState
patient = record new { enter_calibration_count = 50; last_input = 1990 }

enters : ((((process high_stick [] 9 patient).0).state).servo).calibration_required ≡ true
unfolding process dispatch average_frames watch_stick enter_calibration get_abs_dif i32 ◌-ℤ◌
enters = refl

process-enters_example : (true ≡ true) × (false ≡ false) × IsSteady high_stick patient
process-enters_example = process-enters high_stick [] 9 patient refl enters
