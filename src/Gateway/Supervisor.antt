-- ===== src/Gateway/Supervisor.antt =====
-- `GatewaySupervisorMachine` of services/gateway/supervisor.rs: what each observation of the gateway
-- does to the supervisor's state, and the action that it asks for.
pub mod History
pub mod Transitions
mod Examples
use lam.Prelude.{
  ℕ, suc, ◌+◌, ◌-◌, ◌^◌, String, Bool, true, false, ltb, leb, ◌==◌, nat_eq, if◌then◌else◌, min,
  List, [], ◌∷◌,
}
use lam.Errors.{Result, ok, err, error, gateway_supervisor_policy_invalid}

pub data GatewaySupervisorState : Type 0 where
  healthy suspect degraded recovering stopped starting : GatewaySupervisorState

pub data GatewaySupervisorObservation : Type 0 where
  identity_healthy identity_unavailable authenticated_identity_mismatch :
      GatewaySupervisorObservation
  process_missing process_identity_mismatch recovery_completed : GatewaySupervisorObservation
  start_preflight_passed start_preflight_blocked : GatewaySupervisorObservation
  start_completed start_failed : GatewaySupervisorObservation

pub data GatewaySupervisorAction : Type 0 where
  hold clear_stale_claim recover_verified_process validate_start start_gateway :
      GatewaySupervisorAction

-- `GatewaySupervisorObservation::reason`
unfoldable pub reason : GatewaySupervisorObservation → String
reason identity_healthy = "identity_healthy"
reason identity_unavailable = "identity_unavailable"
reason authenticated_identity_mismatch = "authenticated_identity_mismatch"
reason process_missing = "process_missing"
reason process_identity_mismatch = "process_identity_mismatch"
reason recovery_completed = "recovery_completed"
reason start_preflight_passed = "start_preflight_passed"
reason start_preflight_blocked = "start_preflight_blocked"
reason start_completed = "start_completed"
reason start_failed = "start_failed"

pub record GatewaySupervisorMachine : Type 0 where
  pub state : GatewaySupervisorState
  pub consecutive_failures : ℕ
  pub recovery_threshold : ℕ
  pub last_transition_reason : String

abbrev pub u32_max : ℕ
u32_max = 2 ^ 32 - 1

-- `saturating_add(1)` on a u32
unfoldable pub saturating_suc : ℕ → ℕ
saturating_suc n = if leb u32_max n then u32_max else suc n

-- `GatewaySupervisorMachine::new`
unfoldable pub new_machine : ℕ → Result GatewaySupervisorMachine
new_machine recovery_threshold =
    if ltb recovery_threshold 2
    then err (error gateway_supervisor_policy_invalid)
    else ok (record {
      state = stopped;
      consecutive_failures = 0;
      recovery_threshold = recovery_threshold;
      last_transition_reason = "initialized";
    })

-- the state after a failure that asks for no recovery
unfoldable pub failing : ℕ → GatewaySupervisorState
failing failures = if failures == 1 then suspect else degraded

abbrev Outcome : Type 0
Outcome = GatewaySupervisorMachine × GatewaySupervisorAction

abbrev reset_to : GatewaySupervisorState → GatewaySupervisorMachine → GatewaySupervisorMachine
reset_to state m = record m { state = state; consecutive_failures = 0 }

-- the arm for `AuthenticatedIdentityMismatch`, with the failures counted
unfoldable pub on_mismatch :
    ℕ → GatewaySupervisorMachine → GatewaySupervisorMachine × GatewaySupervisorAction
unfolding failing
on_mismatch failures m =
    if leb m.recovery_threshold failures
    then (
      record m { state = recovering; consecutive_failures = failures },
      recover_verified_process,
    )
    else (record m { state = failing failures; consecutive_failures = failures }, hold)

-- the `match` of `observe`
unfoldable pub dispatch :
    GatewaySupervisorObservation
    → GatewaySupervisorMachine
    → GatewaySupervisorMachine × GatewaySupervisorAction
unfolding saturating_suc failing on_mismatch
dispatch identity_healthy m = (reset_to healthy m, hold)
dispatch identity_unavailable m =
    let failures = saturating_suc m.consecutive_failures in
    (record m { state = failing failures; consecutive_failures = failures }, hold)
dispatch authenticated_identity_mismatch m = on_mismatch (saturating_suc m.consecutive_failures) m
dispatch process_missing m = (reset_to stopped m, validate_start)
dispatch process_identity_mismatch m = (reset_to stopped m, clear_stale_claim)
dispatch recovery_completed m = (reset_to stopped m, validate_start)
dispatch start_preflight_passed m = (record m { state = starting }, start_gateway)
dispatch start_preflight_blocked m = (record m { state = stopped }, hold)
dispatch start_failed m = (record m { state = stopped }, hold)
dispatch start_completed m = (record m { state = starting }, hold)

unfoldable pub observe :
    GatewaySupervisorMachine
    → GatewaySupervisorObservation
    → GatewaySupervisorMachine × GatewaySupervisorAction
unfolding dispatch reason
observe m observation =
    dispatch observation (record m { last_transition_reason = reason observation })

-- the machine after a list of observations, the first one first
unfoldable pub run :
    GatewaySupervisorMachine → List GatewaySupervisorObservation → GatewaySupervisorMachine
unfolding observe
run m [] = m
run m (o ∷ os) = run (observe m o).0 os
