-- ===== src/Gateway/Supervisor/Examples.antt =====
-- Runs of the supervisor's machine (services/gateway/supervisor.rs), with a threshold of two.
use lam.Prelude.{◌≡◌, refl, ◌↔◌, ◌≤◌, suc, List, [], ◌∷◌}
use lam.Errors.{ok}
use lam.Gateway.Supervisor.{
  GatewaySupervisorObservation, GatewaySupervisorMachine, identity_healthy, identity_unavailable,
  authenticated_identity_mismatch, start_preflight_passed, recover_verified_process, start_gateway,
  healthy, stopped, new_machine, observe, run,
}
use lam.Gateway.Supervisor.History.{failures_after, recover_needs_failures}
use lam.Gateway.Supervisor.Transitions.{observe-healthy_iff, observe-start_iff}

abbrev fresh : GatewaySupervisorMachine
fresh = record {
  state = stopped;
  consecutive_failures = 0;
  recovery_threshold = 2;
  last_transition_reason = "initialized";
}

abbrev flaky : List GatewaySupervisorObservation
flaky = identity_unavailable ∷ identity_healthy ∷ identity_unavailable ∷ []

fresh_made : new_machine 2 ≡ ok fresh
unfolding new_machine
fresh_made = refl

mismatch_recovers :
    (observe (run fresh flaky) authenticated_identity_mismatch).1 ≡ recover_verified_process
unfolding run
mismatch_recovers = refl

recover_needs_failures_example :
    (authenticated_identity_mismatch ≡ authenticated_identity_mismatch)
    × (2 ≤ suc (failures_after 0 flaky))
    × (2 ≤ 2)
recover_needs_failures_example =
    recover_needs_failures 2 fresh flaky authenticated_identity_mismatch fresh_made
      mismatch_recovers

observe-healthy_iff_example :
    ((observe fresh identity_healthy).0.state ≡ healthy) ↔ (identity_healthy ≡ identity_healthy)
observe-healthy_iff_example = observe-healthy_iff fresh identity_healthy

observe-start_iff_example :
    ((observe fresh start_preflight_passed).1 ≡ start_gateway)
    ↔ (start_preflight_passed ≡ start_preflight_passed)
observe-start_iff_example = observe-start_iff fresh start_preflight_passed
