-- ===== src/Gateway/State/Ownership.antt =====
-- At most one process owns the gateway's state (services/gateway/sidecar.rs).
use lam.Prelude.{
  ℕ, String, ◌≡◌, ◌≢◌, sym, ap, ◌⊎◌, Bool, true, false, none, some, List, arith, nat_eq, string_eq,
  eq_refl, ≡→==, eq_iff,
}
use lam.Errors.{Result, ok, err, error, gateway_port_plan_stale}
use lam.Store.{StoreSnapshot}
use lam.Store.Interface.{VersionedStore}
use lam.Gateway.State.{
  GatewayRuntimeState, GatewayPortChangePlan, claimed, released, claim_process, release_process,
  plan_port_change, commit_port_change, ported, port_plan_fingerprint,
}

module _ {S : Type 0} (store : VersionedStore S GatewayRuntimeState) (is_rfc3339 : String → Bool)
    (digest : ℕ → ℕ → ℕ → List String → String) where
  abbrev claim : ℕ → ℕ → Bool → String → String → S → Result (StoreSnapshot GatewayRuntimeState) × S
  claim = claim_process store is_rfc3339 digest

  abbrev release : ℕ → ℕ → String → S → Result (StoreSnapshot GatewayRuntimeState) × S
  release = release_process store is_rfc3339 digest

  module _ (s : S) (cur : StoreSnapshot GatewayRuntimeState) (read : store.load s ≡ ok cur) where
    claim-swap :
        (e pid : ℕ) (stale : Bool) (now id : String) (snap : StoreSnapshot GatewayRuntimeState)
        → (claim e pid stale now id s).0 ≡ ok snap
        → (claim e pid stale now id s
            ≡ store.swap e (claimed store is_rfc3339 digest pid stale now id cur.value) s)
          × ((cur.value.process_id ≡ none) ⊎ (stale ≡ true))
          × (pid ≢ 0)
    unfolding claim_process
    claim-swap e pid stale now id snap h = (ground arith, ground arith, ground arith)

    -- A successful claim was made of a state without an owner, or of one whose owner was confirmed
    -- to be gone; after it the stored owner is the claiming process, which is not process 0.
    pub claim-owner :
        (e pid : ℕ) (stale : Bool) (now id : String) (snap : StoreSnapshot GatewayRuntimeState)
        → (claim e pid stale now id s).0 ≡ ok snap
        → ((cur.value.process_id ≡ none) ⊎ (stale ≡ true))
          × (pid ≢ 0)
          × (store.load (claim e pid stale now id s).1 ≡ ok snap)
          × (snap.value.process_id ≡ some pid)
    unfolding claimed
    claim-owner e pid stale now id snap h =
        let (same, allowed, nonzero) = claim-swap e pid stale now id snap h in
        let swapped = rw same at h in
        let v = claimed store is_rfc3339 digest pid stale now id cur.value in
        (
          allowed,
          nonzero,
          rw same (store.load-swap e v s snap swapped),
          ap (λ x. x.process_id) (store.swap_value e v s snap swapped).0,
        )

    -- A state that a process owns takes no other claim, unless the owner is confirmed to be gone.
    pub owned_refuses :
        (owner : ℕ) (e pid : ℕ) (now id : String)
        → cur.value.process_id ≡ some owner
        → (snap : StoreSnapshot GatewayRuntimeState) → (claim e pid false now id s).0 ≢ ok snap
    owned_refuses owner e pid now id owned snap h =
        ground (arith, (claim-swap e pid false now id snap h).1)

    release-swap :
        (e pid : ℕ) (now : String) (snap : StoreSnapshot GatewayRuntimeState)
        → (release e pid now s).0 ≡ ok snap
        → (release e pid now s ≡ store.swap e (released store is_rfc3339 digest now cur.value) s)
          × (cur.value.process_id ≡ some pid)
    unfolding release_process
    release-swap e pid now snap h = (ground arith, ground arith)

    -- A successful release was made of a state that the process owns; after it the stored state has no
    -- owner.
    pub release-owner :
        (e pid : ℕ) (now : String) (snap : StoreSnapshot GatewayRuntimeState)
        → (release e pid now s).0 ≡ ok snap
        → (cur.value.process_id ≡ some pid)
          × (store.load (release e pid now s).1 ≡ ok snap)
          × (snap.value.process_id ≡ none)
    release-owner e pid now snap h =
        let (same, owned) = release-swap e pid now snap h in
        let swapped = rw same at h in
        let v = released store is_rfc3339 digest now cur.value in
        (
          owned,
          rw same (store.load-swap e v s snap swapped),
          ap (λ x. x.process_id) (store.swap_value e v s snap swapped).0,
        )

    plan-fields :
        (port : ℕ) (ids : List String) (plan : GatewayPortChangePlan)
        → plan_port_change store is_rfc3339 digest port ids s ≡ ok plan
        → (plan.expected_state_revision ≡ cur.revision)
          × (plan.old_port ≡ cur.value.stable_port)
          × (plan.new_port ≡ port)
          × (port_plan_fingerprint store is_rfc3339 digest plan ≡ plan.fingerprint)
    unfolding plan_port_change port_plan_fingerprint
    plan-fields port ids plan h = (ground arith, ground arith, ground arith, ground arith)

    -- A port change that was planned can be committed at a valid time, with the plan's own fingerprint,
    -- while the state is as it was: what is committed is a swap to the new port.
    pub commit-plan :
        (port : ℕ) (ids : List String) (plan : GatewayPortChangePlan) (now : String)
        → is_rfc3339 now ≡ true
        → plan_port_change store is_rfc3339 digest port ids s ≡ ok plan
        → commit_port_change store is_rfc3339 digest cur.revision plan plan.fingerprint now s
          ≡ store.swap cur.revision (ported store is_rfc3339 digest port now cur.value) s
    unfolding commit_port_change
    commit-plan port ids plan now valid planned =
        let (at_revision, from_port, to_port, printed) = plan-fields port ids plan planned in
        rw (
          valid,
          eq_refl plan.fingerprint,
          ≡→== printed,
          read,
          eq_refl cur.revision,
          ≡→== at_revision,
          ≡→== (sym from_port),
          to_port,
        )

    -- At a valid time, a plan whose own fingerprint, or the digest of whose contents, is another than
    -- the fingerprint presented is refused, and nothing is written.
    pub commit_tampered :
        (e : ℕ) (plan : GatewayPortChangePlan) (fingerprint now : String)
        → is_rfc3339 now ≡ true
        → (plan.fingerprint ≢ fingerprint)
          ⊎ (port_plan_fingerprint store is_rfc3339 digest plan ≢ fingerprint)
        → commit_port_change store is_rfc3339 digest e plan fingerprint now s
          ≡ (err (error gateway_port_plan_stale), s)
    unfolding commit_port_change
    commit_tampered e plan fingerprint now valid other = ground (
      arith,
      eq_iff plan.fingerprint fingerprint,
      eq_iff (port_plan_fingerprint store is_rfc3339 digest plan) fingerprint,
    )
