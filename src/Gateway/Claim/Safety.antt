-- ===== src/Gateway/Claim/Safety.antt =====
-- What reconciling a claim can and cannot do (services/gateway/supervisor.rs).
use lam.Prelude.{
  ℕ, ◌≤◌, String, ◌≡◌, refl, sym, ◌⊎◌, inl, inr, Bool, true, false, Option, none, some, List, arith,
  nat_eq, string_eq, leb, if◌then◌else◌, Bool-cases, subst,
}
use lam.Errors.{Result, ok, err}
use lam.Store.{StoreSnapshot}
use lam.Store.Interface.{VersionedStore}
use lam.Gateway.Supervisor.{
  GatewaySupervisorObservation, GatewaySupervisorAction, GatewaySupervisorMachine,
  clear_stale_claim, recover_verified_process, validate_start, process_missing,
  process_identity_mismatch, authenticated_identity_mismatch, identity_healthy,
  identity_unavailable, observe, saturating_suc,
}
use lam.Gateway.Recovery.{
  GatewayProcessIdentity, Signals, GatewayIdentityProbeResult, inspect_gateway_claim, is_foreign,
  of_probe,
}
use lam.Gateway.State.{GatewayRuntimeState}
use lam.Gateway.Claim.{
  GatewayReconcileOutcome, ready_to_start, GatewayReconcileContext, on_store,
  validate_gateway_start_preflight, clear_claim_and_validate_start, recover_and_start,
  reconcile_gateway_claim,
}

-- the observations that an inspection makes
data IsInspected : GatewaySupervisorObservation → Type 0 where
  healthy : IsInspected identity_healthy
  unavailable : IsInspected identity_unavailable
  mismatch : IsInspected authenticated_identity_mismatch
  missing : IsInspected process_missing
  foreign : IsInspected process_identity_mismatch

inspected :
    (inspect : ℕ → Result (Option GatewayProcessIdentity))
    (probe : Result GatewayIdentityProbeResult) (pid : Option ℕ) (executable : String) (uid : ℕ)
    → IsInspected (inspect_gateway_claim inspect probe pid executable uid)
unfolding inspect_gateway_claim
inspected inspect probe none executable uid = missing
inspected inspect probe (some pid) executable uid = go (inspect pid) refl
  where
    probed : (r : Result GatewayIdentityProbeResult) → IsInspected (of_probe r)
    probed (err e) = unavailable
    probed (ok GatewayIdentityProbeResult.healthy) = healthy
    probed (ok GatewayIdentityProbeResult.authenticated_mismatch) = mismatch
    probed (ok GatewayIdentityProbeResult.unavailable) = unavailable

    go :
        (r : Result (Option GatewayProcessIdentity))
        → inspect pid ≡ r
        → IsInspected (inspect_gateway_claim inspect probe (some pid) executable uid)
    go (err e) p = rw (p, inspect_gateway_claim) unavailable
    go (ok none) p = rw (p, inspect_gateway_claim) missing
    go (ok (some identity)) p = elim (Bool-cases (is_foreign executable uid identity)) [
      | inl f ↦ rw (p, f, inspect_gateway_claim) foreign
      | inr f ↦ rw (p, f, inspect_gateway_claim) (probed probe)
    ]

module _ {S : Type 0} (store : VersionedStore S GatewayRuntimeState) (is_rfc3339 : String → Bool)
    (digest : ℕ → ℕ → ℕ → List String → String) where
  module _ (snapshot : StoreSnapshot GatewayRuntimeState) (context : GatewayReconcileContext)
      (s : S) (signals : Signals) where
    abbrev reconciled :
        GatewaySupervisorAction
        → GatewaySupervisorObservation
        → Result GatewayReconcileOutcome × (S × Signals)
    reconciled action observation =
        reconcile_gateway_claim store is_rfc3339 digest action observation snapshot context
          (s, signals)

    -- No process is signalled unless the machine asked for a recovery on an authenticated mismatch.
    pub reconcile_signals :
        (action : GatewaySupervisorAction) (observation : GatewaySupervisorObservation)
        → ((reconciled action observation).1.1 ≡ signals)
          ⊎ ((action ≡ recover_verified_process) × (observation ≡ authenticated_identity_mismatch))
    unfolding reconcile_gateway_claim
    reconcile_signals GatewaySupervisorAction.hold observation = inl refl
    reconcile_signals clear_stale_claim process_identity_mismatch = inl refl
    reconcile_signals validate_start process_missing = inl refl
    reconcile_signals recover_verified_process authenticated_identity_mismatch = inr (refl, refl)
    reconcile_signals _ _ = inl refl

    preflight-ready :
        (expected : ℕ) (s' : S) (snap : StoreSnapshot GatewayRuntimeState)
        → validate_gateway_start_preflight store is_rfc3339 digest context.host expected s'
          ≡ ok snap
        → (store.load s' ≡ ok snap)
          × (snap.value.process_id ≡ none)
          × (context.host.port_free snap.value.stable_port ≡ true)
          × (context.host.control_live ≡ false)
    unfolding validate_gateway_start_preflight
    preflight-ready expected s' snap h = (ground arith, ground arith, ground arith, ground arith)

    abbrev cleared : S → Result GatewayReconcileOutcome × S
    cleared =
        clear_claim_and_validate_start store is_rfc3339 digest context.host context.now snapshot

    -- nobody owns the state that `snap` was read from, and a gateway could start on its port
    pub record IsStartable (s' : S) (snap : StoreSnapshot GatewayRuntimeState) : Type 0 where
      pub stored : store.load s' ≡ ok snap
      pub unowned : snap.value.process_id ≡ none
      pub port_free : context.host.port_free snap.value.stable_port ≡ true
      pub control_free : context.host.control_live ≡ false

    cleared-IsStartable :
        (s' : S) (snap : StoreSnapshot GatewayRuntimeState)
        → (cleared s').0 ≡ ok (ready_to_start snap)
        → IsStartable (cleared s').1 snap
    unfolding clear_claim_and_validate_start
    cleared-IsStartable s' snap h = record {
      stored = ground arith;
      unowned = ground arith;
      port_free = ground arith;
      control_free = ground arith;
    }

    recovered-IsStartable :
        (snap : StoreSnapshot GatewayRuntimeState)
        → (recover_and_start store is_rfc3339 digest context snapshot (s, signals)).0
          ≡ ok (ready_to_start snap)
        → IsStartable
            (recover_and_start store is_rfc3339 digest context snapshot (s, signals)).1.0
            snap
    unfolding recover_and_start
    recovered-IsStartable snap h =
        let done : (cleared s).0 ≡ ok (ready_to_start snap) = ground arith in
        let same : (recover_and_start store is_rfc3339 digest context snapshot (s, signals)).1.0
            ≡ (cleared s).1 =
          ground arith in
        subst (λ t. IsStartable t snap) (sym same) (cleared-IsStartable s snap done)

    -- A start is only reserved on a state that is stored as nobody's, with its port and its control
    -- socket free.
    pub reconcile-IsStartable :
        (action : GatewaySupervisorAction) (observation : GatewaySupervisorObservation)
        (snap : StoreSnapshot GatewayRuntimeState)
        → (reconciled action observation).0 ≡ ok (ready_to_start snap)
        → IsStartable (reconciled action observation).1.0 snap
    unfolding reconcile_gateway_claim
    reconcile-IsStartable GatewaySupervisorAction.hold observation snap h = cc
    reconcile-IsStartable clear_stale_claim process_identity_mismatch snap h =
        cleared-IsStartable s snap h
    reconcile-IsStartable validate_start process_missing snap h = cleared-IsStartable s snap h
    reconcile-IsStartable recover_verified_process authenticated_identity_mismatch snap h =
        recovered-IsStartable snap h
    reconcile-IsStartable _ _ snap h = cc

  -- What is done about each observation of a claim, by the failures counted with it.
  abbrev pub response :
      GatewaySupervisorObservation
      → ℕ
      → ℕ
      → StoreSnapshot GatewayRuntimeState
      → GatewayReconcileContext
      → S × Signals
      → Result GatewayReconcileOutcome × (S × Signals)
  response process_missing failures threshold snapshot context =
      on_store
        (clear_claim_and_validate_start store is_rfc3339 digest context.host context.now snapshot)
  response process_identity_mismatch failures threshold snapshot context =
      on_store
        (clear_claim_and_validate_start store is_rfc3339 digest context.host context.now snapshot)
  response authenticated_identity_mismatch failures threshold snapshot context = λ state.
      if leb threshold failures
      then recover_and_start store is_rfc3339 digest context snapshot state
      else (ok GatewayReconcileOutcome.hold, state)
  response _ failures threshold snapshot context = λ state. (ok GatewayReconcileOutcome.hold, state)

  -- The machine and the reconciliation fit together: whatever a claim is observed as, the action
  -- that the machine asks for is carried out, and never refused as not fitting its observation.
  pub supervised_response :
      (m : GatewaySupervisorMachine) (inspect : ℕ → Result (Option GatewayProcessIdentity))
      (probe : Result GatewayIdentityProbeResult) (snapshot : StoreSnapshot GatewayRuntimeState)
      (context : GatewayReconcileContext) (state : S × Signals)
      → let o =
          inspect_gateway_claim inspect probe snapshot.value.process_id context.expected_executable
            context.expected_uid in
        reconcile_gateway_claim store is_rfc3339 digest (observe m o).1 o snapshot context state
        ≡ response o
            (saturating_suc m.consecutive_failures)
            m.recovery_threshold
            snapshot
            context
            state
  unfolding observe reconcile_gateway_claim
  supervised_response m inspect probe snapshot context state = answered _ (
      inspected inspect probe snapshot.value.process_id context.expected_executable
        context.expected_uid)
    where
      answered :
          (o : GatewaySupervisorObservation)
          → IsInspected o
          → reconcile_gateway_claim store is_rfc3339 digest (observe m o).1 o snapshot context state
            ≡ response o
                (saturating_suc m.consecutive_failures)
                m.recovery_threshold
                snapshot
                context
                state
      answered _ healthy = refl
      answered _ unavailable = refl
      answered _ missing = refl
      answered _ foreign = refl
      answered _ mismatch =
          elim (Bool-cases (leb m.recovery_threshold (saturating_suc m.consecutive_failures))) [
            | inl f ↦ rw f
            | inr f ↦ rw f
          ]

  orphan_mismatch :
      (context : GatewayReconcileContext) (probe : Result GatewayIdentityProbeResult)
      (claim : Option ℕ) (pid : ℕ) (i : GatewayProcessIdentity)
      → claim ≡ some pid
      → context.control.inspect pid ≡ ok (some i)
      → i.parent_pid ≤ 1
      → inspect_gateway_claim context.control.inspect probe claim context.expected_executable
          context.expected_uid
        ≡ process_identity_mismatch
  unfolding inspect_gateway_claim is_foreign
  orphan_mismatch context probe claim pid i claimed found orphaned = ground arith

  -- A claimed process whose parent is process 1 or 0, whoever's it is and whatever the probe would answer,
  -- is treated like one that is gone: when it is inspected, the machine observes it and what it asks
  -- for is carried out, then no signal is sent to any process, and what is done is to clear the claim
  -- and to look whether a gateway can start.
  pub orphan_unsignalled :
      (m : GatewaySupervisorMachine) (probe : Result GatewayIdentityProbeResult)
      (snapshot : StoreSnapshot GatewayRuntimeState) (context : GatewayReconcileContext) (s : S)
      (signals : Signals) (pid : ℕ) (i : GatewayProcessIdentity)
      → snapshot.value.process_id ≡ some pid
      → context.control.inspect pid ≡ ok (some i)
      → i.parent_pid ≤ 1
      → let o =
          inspect_gateway_claim context.control.inspect probe snapshot.value.process_id
            context.expected_executable context.expected_uid in
        let carried_out =
          reconcile_gateway_claim store is_rfc3339 digest
            (observe m o).1
            o
            snapshot
            context
            (s, signals) in
        (carried_out.1.1 ≡ signals)
        × (carried_out.0 ≡ (cleared snapshot context s signals s).0)
        × (carried_out.1.0 ≡ (cleared snapshot context s signals s).1)
  unfolding observe reconcile_gateway_claim
  orphan_unsignalled m probe snapshot context s signals pid i claimed found orphaned =
      rw (orphan_mismatch context probe snapshot.value.process_id pid i claimed found orphaned)
        (refl, refl, refl)
