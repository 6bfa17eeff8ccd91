-- ===== src/MotorMode/Examples.antt =====
-- Runs of the mode machine.
use rm32_private.Base.{◌≡◌, refl, ◌↔◌, [], ◌∷◌}
use rm32_private.MotorMode.{
  disarmed, armed, old_routine, running, arm, start_motor, stop_motor, bemf_locked, desync_fallback,
  transition,
}
use rm32_private.MotorMode.Graph.{Edge, transition-iff-Edge}
use rm32_private.MotorMode.Traces.{run}

transition-iff-Edge_example :
    (transition armed start_motor ≡ old_routine) ↔ Edge armed start_motor old_routine
transition-iff-Edge_example = transition-iff-Edge armed old_routine start_motor (λ e. cc)

lifecycle : run disarmed (arm ∷ start_motor ∷ bemf_locked ∷ []) ≡ running
unfolding run transition
lifecycle = refl

falls_back : run running (desync_fallback ∷ stop_motor ∷ []) ≡ armed
unfolding run transition
falls_back = refl
