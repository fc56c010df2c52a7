-- ===== src/Gateway/Claim/Examples.antt =====
-- A claim of process 42 on the state, reconciled on a host with free ports
-- (services/gateway/supervisor.rs).
use lam.Prelude.{ℕ, String, ◌≡◌, refl, Bool, true, false, Option, none, some, List, [], arith}
use lam.Errors.{Result, ok}
use lam.Store.{StoreSnapshot}
use lam.Store.Memory.{memory}
use lam.Store.Interface.{VersionedStore}
use lam.Gateway.Supervisor.{
  GatewaySupervisorMachine, GatewaySupervisorObservation, clear_stale_claim,
  process_identity_mismatch, healthy, observe, saturating_suc,
}
use lam.Gateway.Recovery.{
  GatewayProcessIdentity, GatewayProcessControl, GatewayIdentityProbeResult, inspect_gateway_claim,
}
use lam.Gateway.State.{GatewayRuntimeState, release_process}
use lam.Gateway.Claim.{
  GatewayReconcileContext, GatewayReconcileOutcome, Signals, ready_to_start,
  reconcile_gateway_claim, clear_claim, clear_claim_and_validate_start,
  validate_gateway_start_preflight,
}
use lam.Gateway.Claim.Safety.{
  IsStartable, reconcile-IsStartable, response, supervised_response, orphan_unsignalled,
}

abbrev store : VersionedStore (StoreSnapshot GatewayRuntimeState) GatewayRuntimeState
store = memory

abbrev any_time : String → Bool
any_time s = true

abbrev digest : ℕ → ℕ → ℕ → List String → String
digest revision from to ids = "d"

abbrev snapshot : ℕ → Option ℕ → StoreSnapshot GatewayRuntimeState
snapshot revision owner = record {
  schema_version = 1;
  revision = revision;
  value = record {
    state_schema = 1;
    install_id = "install";
    instance_id = "instance";
    stable_port = 50_000;
    process_id = owner;
    component_version = "1.0.0";
    control_protocol_version = 1;
    binding_schema = 1;
    restart_count = 0;
    last_control_nonce = 0;
    updated_at = "now";
  };
  exists = true;
}

-- a gateway whose parent has ended
abbrev orphan : GatewayProcessIdentity
orphan = record { executable = "/opt/lam/gateway"; uid = 501; parent_pid = 1 }

abbrev control : GatewayProcessControl
control = record { inspect = λ pid. ok (some orphan); terminate = λ pid timeout. ok true }

abbrev context : GatewayReconcileContext
context = record {
  control = control;
  expected_executable = "/opt/lam/gateway";
  expected_uid = 501;
  host = record { port_free = λ port. true; control_live = false };
  now = "now";
  termination_timeout = 5;
}

abbrev machine : GatewaySupervisorMachine
machine = record {
  state = healthy;
  consecutive_failures = 1;
  recovery_threshold = 2;
  last_transition_reason = "identity_unavailable";
}

reserves :
    (reconcile_gateway_claim store any_time digest clear_stale_claim process_identity_mismatch
      (snapshot 3 (some 42))
      context
      (snapshot 3 (some 42), [])).0
    ≡ ok (ready_to_start (snapshot 4 none))
unfolding reconcile_gateway_claim clear_claim_and_validate_start clear_claim release_process
    validate_gateway_start_preflight memory
reserves = refl

reconcile-IsStartable_example :
    IsStartable store any_time digest
      (snapshot 3 (some 42))
      context
      (snapshot 3 (some 42))
      []
      (reconcile_gateway_claim store any_time digest clear_stale_claim process_identity_mismatch
        (snapshot 3 (some 42))
        context
        (snapshot 3 (some 42), [])).1.0
      (snapshot 4 none)
reconcile-IsStartable_example =
    reconcile-IsStartable store any_time digest (snapshot 3 (some 42)) context
      (snapshot 3 (some 42)) [] clear_stale_claim process_identity_mismatch (snapshot 4 none)
      reserves

supervised_response_example :
    reconcile_gateway_claim store any_time digest
      (observe machine (
        inspect_gateway_claim control.inspect
          (ok GatewayIdentityProbeResult.healthy)
          (some 42)
          "/opt/lam/gateway"
          501)).1
      (inspect_gateway_claim control.inspect
        (ok GatewayIdentityProbeResult.healthy)
        (some 42)
        "/opt/lam/gateway"
        501)
      (snapshot 3 (some 42))
      context
      (snapshot 3 (some 42), [])
    ≡ response store any_time digest
        (inspect_gateway_claim control.inspect
          (ok GatewayIdentityProbeResult.healthy)
          (some 42)
          "/opt/lam/gateway"
          501)
        2
        2
        (snapshot 3 (some 42))
        context
        (snapshot 3 (some 42), [])
unfolding saturating_suc
supervised_response_example =
    supervised_response store any_time digest machine control.inspect
      (ok GatewayIdentityProbeResult.healthy) (snapshot 3 (some 42)) context
      (snapshot 3 (some 42), [])

abbrev orphan_observed : GatewaySupervisorObservation
orphan_observed =
    inspect_gateway_claim control.inspect (ok GatewayIdentityProbeResult.healthy) (some 42)
      "/opt/lam/gateway" 501

abbrev orphan_handled :
    Result GatewayReconcileOutcome × (StoreSnapshot GatewayRuntimeState × Signals)
orphan_handled =
    reconcile_gateway_claim store any_time digest (observe machine orphan_observed).1
      orphan_observed (snapshot 3 (some 42)) context (snapshot 3 (some 42), [])

abbrev orphan_cleared : Result GatewayReconcileOutcome × StoreSnapshot GatewayRuntimeState
orphan_cleared =
    clear_claim_and_validate_start store any_time digest context.host context.now
      (snapshot 3 (some 42)) (snapshot 3 (some 42))

orphan_unsignalled_example :
    (orphan_handled.1.1 ≡ [])
    × (orphan_handled.0 ≡ orphan_cleared.0)
    × (orphan_handled.1.0 ≡ orphan_cleared.1)
orphan_unsignalled_example =
    orphan_unsignalled store any_time digest machine (ok GatewayIdentityProbeResult.healthy)
      (snapshot 3 (some 42)) context (snapshot 3 (some 42)) [] 42 orphan refl refl (omega arith)
