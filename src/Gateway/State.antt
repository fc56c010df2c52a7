-- ===== src/Gateway/State.antt =====
-- `GatewayStateRepository` of services/gateway/sidecar.rs: which process owns the gateway's runtime
-- state, and the port that it keeps. chrono's parser, new UUIDs and SHA-256 come from outside.
pub mod Ownership
mod Examples
use lam.Prelude.{
  ℕ, String, Bool, true, false, not, ◌&&◌, ◌||◌, ◌==◌, nat_eq, string_eq, leb, if◌then◌else◌,
  Option, none, some, is_some, List, [], ◌∷◌,
}
use lam.Prelude.Keyed.{sort}
use lam.Errors.{
  Result, ok, err, error, guard, gateway_process_id_invalid, gateway_already_running,
  gateway_process_ownership_mismatch, gateway_state_not_initialized, gateway_port_unchanged,
  gateway_port_plan_stale, gateway_port_invalid, gateway_upgrade_required,
  gateway_state_timestamp_invalid, store_revision_conflict, AppError,
}
use lam.Errors.{◌>>=◌ as ◌>>=ᵣ◌, ◌>>◌ as ◌>>ᵣ◌}
use lam.Exec.{Exec, lift, reading, ◌>>=◌, ◌>>◌}
use lam.Store.{StoreSnapshot}
use lam.Store.Interface.{VersionedStore}

pub record GatewayRuntimeState : Type 0 where
  pub state_schema : ℕ
  pub install_id : String
  pub instance_id : String
  pub stable_port : ℕ
  pub process_id : Option ℕ
  pub component_version : String
  pub control_protocol_version : ℕ
  pub binding_schema : ℕ
  pub restart_count : ℕ
  pub last_control_nonce : ℕ
  pub updated_at : String

pub record GatewayPortChangePlan : Type 0 where
  pub expected_state_revision : ℕ
  pub old_port : ℕ
  pub new_port : ℕ
  pub profile_ids : List String
  pub fingerprint : String

unfoldable pub validate_port : ℕ → Result (Unit {0})
validate_port port = guard (leb 49152 port && leb port 65535) (error gateway_port_invalid)

unfoldable pub ensure_compatible : GatewayRuntimeState → String → ℕ → ℕ → Result (Unit {0})
ensure_compatible state component_version control_protocol_version binding_schema =
    guard
      (state.component_version == component_version
        && state.control_protocol_version == control_protocol_version
        && state.binding_schema == binding_schema)
      (error gateway_upgrade_required)

-- `Vec::dedup`: of equal neighbours the first stays.
unfoldable pub dedup : List String → List String
dedup [] = []
dedup (x ∷ []) = x ∷ []
dedup (x ∷ (y ∷ ys)) = let rest = dedup (y ∷ ys) in if x == y then rest else x ∷ rest

-- `current.value.process_id == Some(pid)`
unfoldable pub is_owner : Option ℕ → ℕ → Bool
is_owner none pid = false
is_owner (some owner) pid = owner == pid

abbrev text_itself : String → String
text_itself s = s

-- `is_rfc3339` is `DateTime::parse_from_rfc3339`; `digest` is the SHA-256 of the plan's tuple.
module _ {S : Type 0} (store : VersionedStore S GatewayRuntimeState) (is_rfc3339 : String → Bool)
    (digest : ℕ → ℕ → ℕ → List String → String) where
  abbrev pub Snapshot : Type 0
  Snapshot = StoreSnapshot GatewayRuntimeState

  unfoldable pub validate_timestamp : String → Result (Unit {0})
  validate_timestamp value = guard (is_rfc3339 value) (error gateway_state_timestamp_invalid)

  unfoldable pub port_plan_fingerprint : GatewayPortChangePlan → String
  port_plan_fingerprint plan =
      digest plan.expected_state_revision plan.old_port plan.new_port plan.profile_ids

  unfoldable pub initialize : ℕ → ℕ → String → ℕ → ℕ → String → String → String → Exec S Snapshot
  unfolding validate_timestamp validate_port ensure_compatible
  initialize expected port component_version control_version binding_schema now install_id
        instance_id =
      do
        lift (validate_timestamp now)
        lift (validate_port port)
        current ← reading store.load
        (if current.exists
            then lift (
                ensure_compatible current.value component_version control_version binding_schema
                >>ᵣ ok current)
            else (lift (guard (current.revision == expected) (error store_revision_conflict))
                >> store.swap expected (record {
                  state_schema = 1;
                  install_id = install_id;
                  instance_id = instance_id;
                  stable_port = port;
                  process_id = none;
                  component_version = component_version;
                  control_protocol_version = control_version;
                  binding_schema = binding_schema;
                  restart_count = 0;
                  last_control_nonce = 0;
                  updated_at = now;
                })))

  -- the value that `claim_process` stores
  unfoldable pub claimed : ℕ → Bool → String → String → GatewayRuntimeState → GatewayRuntimeState
  claimed pid stale_confirmed now new_instance value = record value {
    instance_id = if stale_confirmed then new_instance else value.instance_id;
    process_id = some pid;
    updated_at = now;
  }

  unfoldable pub claim_process : ℕ → ℕ → Bool → String → String → Exec S Snapshot
  unfolding validate_timestamp
  claim_process expected pid stale_confirmed now new_instance = do
    lift (validate_timestamp now)
    lift (guard (not (pid == 0)) (error gateway_process_id_invalid))
    current ← reading store.load
    lift (guard (current.revision == expected) (error store_revision_conflict))
    lift (
        guard (not (is_some current.value.process_id) || stale_confirmed)
          (error gateway_already_running))
    store.swap expected (claimed pid stale_confirmed now new_instance current.value)

  -- the value that `release_process` stores
  abbrev pub released : String → GatewayRuntimeState → GatewayRuntimeState
  released now value = record value { process_id = none; updated_at = now }

  unfoldable pub release_process : ℕ → ℕ → String → Exec S Snapshot
  unfolding validate_timestamp is_owner
  release_process expected pid now = do
    lift (validate_timestamp now)
    current ← reading store.load
    lift (guard (current.revision == expected) (error store_revision_conflict))
    lift (guard (is_owner current.value.process_id pid) (error gateway_process_ownership_mismatch))
    store.swap expected (released now current.value)

  -- the plan with its fingerprint
  unfoldable pub sealed : GatewayPortChangePlan → GatewayPortChangePlan
  unfolding port_plan_fingerprint
  sealed plan = record plan { fingerprint = port_plan_fingerprint plan }

  unfoldable pub plan_port_change : ℕ → List String → S → Result GatewayPortChangePlan
  unfolding validate_port sealed dedup
  plan_port_change new_port profile_ids s =
      validate_port new_port
      >>ᵣ (store.load s >>=ᵣ λ current.
          guard current.exists (error gateway_state_not_initialized)
          >>ᵣ (guard (not (new_port == current.value.stable_port)) (error gateway_port_unchanged)
              >>ᵣ ok (
                  sealed (record {
                    expected_state_revision = current.revision;
                    old_port = current.value.stable_port;
                    new_port = new_port;
                    profile_ids = dedup (sort text_itself profile_ids);
                    fingerprint = "";
                  }))))

  abbrev pub ported : ℕ → String → GatewayRuntimeState → GatewayRuntimeState
  ported port now value = record value { stable_port = port; updated_at = now }

  unfoldable pub commit_port_change : ℕ → GatewayPortChangePlan → String → String → Exec S Snapshot
  unfolding validate_timestamp port_plan_fingerprint
  commit_port_change expected plan fingerprint now = do
    lift (validate_timestamp now)
    lift (
        guard (plan.fingerprint == fingerprint && port_plan_fingerprint plan == fingerprint)
          (error gateway_port_plan_stale))
    current ← reading store.load
    lift (
        guard
          (current.revision == expected
            && plan.expected_state_revision == expected
            && current.value.stable_port == plan.old_port)
          (error gateway_port_plan_stale))
    store.swap expected (ported plan.new_port now current.value)
