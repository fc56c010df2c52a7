-- ===== src/Gateway/Supervisor/Transitions.antt =====
-- Where the supervisor can be, by its last observation (services/gateway/supervisor.rs).
use lam.Prelude.{◌≡◌, ◌↔◌, arith}
use lam.Gateway.Supervisor.{
  GatewaySupervisorObservation, GatewaySupervisorMachine, identity_healthy, start_preflight_passed,
  start_gateway, healthy, observe,
}

-- The gateway counts as healthy exactly after it has proved its identity.
pub observe-healthy_iff :
    (m : GatewaySupervisorMachine) (o : GatewaySupervisorObservation)
    → ((observe m o).0.state ≡ healthy) ↔ (o ≡ identity_healthy)
unfolding observe
observe-healthy_iff m identity_healthy = ground arith
observe-healthy_iff m o = ground arith

-- A start is asked for exactly after the checks before it have passed.
pub observe-start_iff :
    (m : GatewaySupervisorMachine) (o : GatewaySupervisorObservation)
    → ((observe m o).1 ≡ start_gateway) ↔ (o ≡ start_preflight_passed)
unfolding observe
observe-start_iff m identity_healthy = ground arith
observe-start_iff m o = ground arith
