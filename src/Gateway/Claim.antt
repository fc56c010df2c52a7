-- ===== src/Gateway/Claim.antt =====
-- `reconcile_gateway_claim` of services/gateway/supervisor.rs: what the supervisor does about a
-- claim on the runtime state, once the machine has asked for an action.
pub mod Safety
mod Examples
use lam.Prelude.{
  ℕ, String, Bool, true, false, not, ◌&&◌, ◌==◌, nat_eq, if◌then◌else◌, Option, none, some, is_some,
  List,
}
use lam.Errors.{
  Result, ok, err, error, guard, ok_or, ◌>>=◌ as ◌>>=ᵣ◌, ◌>>◌ as ◌>>ᵣ◌, store_revision_conflict,
  gateway_start_state_claimed, gateway_start_port_occupied, gateway_start_control_occupied,
  gateway_process_ownership_mismatch, gateway_supervisor_transition_invalid,
}
use lam.Exec.{Exec, lift, reading, ◌>>=◌, ◌>>◌}
use lam.Store.{StoreSnapshot}
use lam.Store.Interface.{VersionedStore}
use lam.Gateway.Supervisor.{
  GatewaySupervisorObservation, GatewaySupervisorAction, clear_stale_claim,
  recover_verified_process, validate_start, process_missing, process_identity_mismatch,
  authenticated_identity_mismatch,
}
use lam.Gateway.Recovery.{GatewayProcessControl, Signals, recover_verified_gateway_process}
use lam.Gateway.State.{GatewayRuntimeState, release_process}

-- What the start would find: whether a port can be bound, and whether the control socket answers.
pub record Host : Type 0 where
  pub port_free : ℕ → Bool
  pub control_live : Bool

-- the reservation's listener stands for the port that was free
pub data GatewayReconcileOutcome : Type 0 where
  hold : GatewayReconcileOutcome
  ready_to_start : StoreSnapshot GatewayRuntimeState → GatewayReconcileOutcome

-- `GatewayReconcileContext`
pub record GatewayReconcileContext : Type 0 where
  pub control : GatewayProcessControl
  pub expected_executable : String
  pub expected_uid : ℕ
  pub host : Host
  pub now : String
  pub termination_timeout : ℕ

module _ {A S S' : Type 0} where
  -- a step on the store, and a step on the processes
  abbrev pub on_store : Exec S A → Exec (S × S') A
  on_store m (s, t) = ((m s).0, ((m s).1, t))

  abbrev pub on_signals : Exec S' A → Exec (S × S') A
  on_signals m (s, t) = ((m t).0, (s, (m t).1))

module _ {S : Type 0} (store : VersionedStore S GatewayRuntimeState) (is_rfc3339 : String → Bool)
    (digest : ℕ → ℕ → ℕ → List String → String) where
  unfoldable pub validate_gateway_start_preflight :
      Host → ℕ → S → Result (StoreSnapshot GatewayRuntimeState)
  validate_gateway_start_preflight host expected s = store.load s >>=ᵣ λ snapshot.
      guard (snapshot.revision == expected) (error store_revision_conflict)
      >>ᵣ (guard (not (is_some snapshot.value.process_id)) (error gateway_start_state_claimed)
          >>ᵣ (guard (host.port_free snapshot.value.stable_port) (error gateway_start_port_occupied)
              >>ᵣ (guard (not host.control_live) (error gateway_start_control_occupied)
                  >>ᵣ ok snapshot)))

  -- `clear_stale_gateway_claim`, if a process is claimed
  unfoldable pub clear_claim :
      String → StoreSnapshot GatewayRuntimeState → Exec S (StoreSnapshot GatewayRuntimeState)
  clear_claim now snapshot = elim snapshot.value.process_id [
    | none ↦ lift (ok snapshot)
    | some pid ↦ release_process store is_rfc3339 digest snapshot.revision pid now
  ]

  unfoldable pub clear_claim_and_validate_start :
      Host → String → StoreSnapshot GatewayRuntimeState → Exec S GatewayReconcileOutcome
  unfolding clear_claim validate_gateway_start_preflight
  clear_claim_and_validate_start host now snapshot = do
    current ← clear_claim now snapshot
    reservation ← reading (validate_gateway_start_preflight host current.revision)
    lift (ok (ready_to_start reservation))

  -- the arm for `RecoverVerifiedProcess`
  unfoldable pub recover_and_start :
      GatewayReconcileContext
      → StoreSnapshot GatewayRuntimeState
      → Exec (S × Signals) GatewayReconcileOutcome
  unfolding clear_claim_and_validate_start
  recover_and_start context snapshot = do
    pid ← lift (ok_or snapshot.value.process_id (error gateway_process_ownership_mismatch))
    on_signals (
        recover_verified_gateway_process context.control pid context.expected_executable
          context.expected_uid context.termination_timeout)
    on_store (clear_claim_and_validate_start context.host context.now snapshot)

  unfoldable pub reconcile_gateway_claim :
      GatewaySupervisorAction
      → GatewaySupervisorObservation
      → StoreSnapshot GatewayRuntimeState
      → GatewayReconcileContext
      → Exec (S × Signals) GatewayReconcileOutcome
  unfolding recover_and_start
  reconcile_gateway_claim GatewaySupervisorAction.hold observation snapshot context =
      lift (ok GatewayReconcileOutcome.hold)
  reconcile_gateway_claim clear_stale_claim process_identity_mismatch snapshot context =
      on_store (clear_claim_and_validate_start context.host context.now snapshot)
  reconcile_gateway_claim validate_start process_missing snapshot context =
      on_store (clear_claim_and_validate_start context.host context.now snapshot)
  reconcile_gateway_claim recover_verified_process authenticated_identity_mismatch snapshot
        context =
      recover_and_start context snapshot
  reconcile_gateway_claim _ _ snapshot context =
      lift (err (error gateway_supervisor_transition_invalid))
