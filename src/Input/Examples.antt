-- ===== src/Input/Examples.antt =====
-- Runs of the input pipeline.
use rm32_private.Base.{replicate, set}
use rm32_private.Config.{EepromConfig}
use rm32_private.Shared.{SharedState, is_armed, is_stepper_sine}
use rm32_private.Input.{
  World, ProtectionState, InputState, default_protection, process_input, is_stuck,
}
use rm32_private.Input.Publish.{Published, process_input-Published}

-- All settings 0 but stuck-rotor protection (22), brake on stop (28) and complementary PWM (20).
abbrev settings : EepromConfig
settings = record { bytes = set (set (set (replicate 192 0) 20 1) 22 1) 28 1 }

abbrev idle_world : World
idle_world = record {
  shared = rm32_private.Shared.new;
  protection = default_protection;
  state = rm32_private.Input.new;
}

abbrev stuck_world : World
stuck_world = record idle_world {
  protection = record default_protection { bemf_timeout_happened = 11 };
}

process_input-Published_example : Published (process_input settings idle_world)
process_input-Published_example = process_input-Published settings idle_world

abbrev armed_idle : SharedState
armed_idle = record rm32_private.Shared.new { motor_mode = 1; newinput = 20 }
