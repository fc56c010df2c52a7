-- ===== src/Gateway/Recovery.antt =====
-- `recover_verified_gateway_process` of services/gateway/recovery.rs, and the check of a claim by
-- services/gateway/supervisor.rs. The processes of the system are behind `GatewayProcessControl`.
pub mod Laws
mod Examples
use lam.Prelude.{
  ℕ, String, Bool, true, false, not, ◌||◌, ◌&&◌, ◌==◌, nat_eq, string_eq, leb, if◌then◌else◌,
  Option, none, some, List, [], ◌∷◌,
}
use lam.Errors.{
  Result, ok, err, error, guard, gateway_process_owner_mismatch,
  gateway_process_executable_mismatch, gateway_process_termination_timeout,
}
use lam.Exec.{Exec, lift, ◌>>=◌, ◌>>◌}
use lam.Gateway.Supervisor.{
  GatewaySupervisorObservation, identity_healthy, identity_unavailable,
  authenticated_identity_mismatch, process_missing, process_identity_mismatch,
}

pub record GatewayProcessIdentity : Type 0 where
  pub executable : String
  pub uid : ℕ
  pub parent_pid : ℕ

pub data RecoveryOutcome : Type 0 where
  not_running terminated : RecoveryOutcome

-- The trait's two methods, by the process's number; what `terminate` returns, given the timeout.
pub record GatewayProcessControl : Type 0 where
  pub inspect : ℕ → Result (Option GatewayProcessIdentity)
  pub terminate : ℕ → ℕ → Result Bool

-- the processes that a signal was sent to, the last one first
abbrev pub Signals : Type 0
Signals = List ℕ

unfoldable pub terminate_process : GatewayProcessControl → ℕ → ℕ → Exec Signals Bool
terminate_process control pid timeout signals = (control.terminate pid timeout, pid ∷ signals)

unfoldable pub recover_verified_gateway_process :
    GatewayProcessControl → ℕ → String → ℕ → ℕ → Exec Signals RecoveryOutcome
unfolding terminate_process
recover_verified_gateway_process control pid expected_executable expected_uid timeout = do
  found ← lift (control.inspect pid)
  elim found [
    | none ↦ lift (ok not_running)
    | some identity ↦ do
      lift (guard (identity.uid == expected_uid) (error gateway_process_owner_mismatch))
      lift (
          guard (identity.executable == expected_executable)
            (error gateway_process_executable_mismatch))
      stopped ← terminate_process control pid timeout
      lift (guard stopped (error gateway_process_termination_timeout))
      lift (ok terminated)
  ]

pub data GatewayIdentityProbeResult : Type 0 where
  healthy authenticated_mismatch unavailable : GatewayIdentityProbeResult

-- `unwrap_or(Unavailable)` and the last `match` of `inspect_gateway_claim`
unfoldable pub of_probe : Result GatewayIdentityProbeResult → GatewaySupervisorObservation
of_probe (err e) = identity_unavailable
of_probe (ok healthy) = identity_healthy
of_probe (ok authenticated_mismatch) = authenticated_identity_mismatch
of_probe (ok unavailable) = identity_unavailable

-- another user's process, another program, or one whose parent is launchd
unfoldable pub is_foreign : String → ℕ → GatewayProcessIdentity → Bool
is_foreign expected_executable expected_uid identity =
    not (identity.uid == expected_uid)
    || not (identity.executable == expected_executable)
    || leb identity.parent_pid 1

-- `inspect_gateway_claim`, of the process id in the state; the probe's answer comes from outside.
unfoldable pub inspect_gateway_claim :
    (ℕ → Result (Option GatewayProcessIdentity))
    → Result GatewayIdentityProbeResult
    → Option ℕ
    → String
    → ℕ
    → GatewaySupervisorObservation
unfolding of_probe is_foreign
inspect_gateway_claim inspect probe process_id expected_executable expected_uid = elim process_id [
  | none ↦ process_missing
  | some pid ↦ elim (inspect pid) [
    | err e ↦ identity_unavailable
    | ok found ↦ elim found [
      | none ↦ process_missing
      | some identity ↦
          if is_foreign expected_executable expected_uid identity
          then process_identity_mismatch
          else of_probe probe
    ]
  ]
]

unfoldable pub inspect_without_gateway_probe :
    (ℕ → Result (Option GatewayProcessIdentity))
    → Option ℕ
    → String
    → ℕ
    → GatewaySupervisorObservation
unfolding is_foreign
inspect_without_gateway_probe inspect process_id expected_executable expected_uid =
    elim process_id [
      | none ↦ process_missing
      | some pid ↦ elim (inspect pid) [
        | err e ↦ identity_unavailable
        | ok found ↦ elim found [
          | none ↦ process_missing
          | some identity ↦
              if is_foreign expected_executable expected_uid identity
              then process_identity_mismatch
              else identity_unavailable
        ]
      ]
    ]
