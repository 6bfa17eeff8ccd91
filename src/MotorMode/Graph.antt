-- ===== src/MotorMode/Graph.antt =====
-- The diagram of the mode machine as a relation, and the byte encoding (rm32/src/motor_mode.rs).
use rm32_private.Base.{ℕ, ◌<◌, ◌≡◌, refl, ◌↔◌, ◌⊎◌, arith}
use mathlib.Core.Logic.{◌≢◌}
use rm32_private.MotorMode.{
  MotorMode, MotorEvent, disarmed, armed, stepper_sine, old_routine, running, arm, disarm,
  start_motor, stop_motor, enter_sine, exit_sine, bemf_locked, desync_fallback, to_u8, from_u8,
  transition,
}

-- The edges that the documentation of `MotorEvent` names, each with its event.
pub data Edge : MotorMode → MotorEvent → MotorMode → Type 0 where
  edge_arm : Edge disarmed arm armed
  edge_disarm : {m : MotorMode} → Edge m disarm disarmed
  edge_start : Edge armed start_motor old_routine
  edge_stop_polling : Edge old_routine stop_motor armed
  edge_stop_running : Edge running stop_motor armed
  edge_enter_sine : Edge armed enter_sine stepper_sine
  edge_exit_sine : Edge stepper_sine exit_sine old_routine
  edge_locked : Edge old_routine bemf_locked running
  edge_desync : Edge running desync_fallback old_routine

ruleset edges = (
  edge_arm, edge_disarm, edge_start, edge_stop_polling, edge_stop_running, edge_enter_sine,
  edge_exit_sine, edge_locked, edge_desync,
)

-- An edge of the diagram is what `transition` computes.
pub Edge-transition : {m n : MotorMode} {e : MotorEvent} → Edge m e n → transition m e ≡ n
unfolding transition
Edge-transition edge_arm = refl
Edge-transition (edge_disarm {m = disarmed}) = refl
Edge-transition (edge_disarm {m = armed}) = refl
Edge-transition (edge_disarm {m = stepper_sine}) = refl
Edge-transition (edge_disarm {m = old_routine}) = refl
Edge-transition (edge_disarm {m = running}) = refl
Edge-transition edge_start = refl
Edge-transition edge_stop_polling = refl
Edge-transition edge_stop_running = refl
Edge-transition edge_enter_sine = refl
Edge-transition edge_exit_sine = refl
Edge-transition edge_locked = refl
Edge-transition edge_desync = refl

taken : (m n : MotorMode) (e : MotorEvent) → n ≢ m → transition m e ≡ n → Edge m e n
unfolding transition
taken m n e changed h = grind (arith, edges)

-- A mode changes to another exactly along the edges of the diagram.
pub transition-iff-Edge :
    (m n : MotorMode) (e : MotorEvent) → n ≢ m → (transition m e ≡ n) ↔ Edge m e n
transition-iff-Edge m n e changed = (λ h. taken m n e changed h, λ d. Edge-transition d)

-- A byte reads as a mode exactly if the mode is stored as that byte, or the byte is no mode's and
-- the mode is disarmed.
pub from_u8_iff :
    (b : ℕ) (m : MotorMode) → (from_u8 b ≡ m) ↔ ((b ≡ to_u8 m) ⊎ ((4 < b) × (m ≡ disarmed)))
unfolding from_u8 to_u8
from_u8_iff b m = (λ h. ground arith, λ h. ground arith)
