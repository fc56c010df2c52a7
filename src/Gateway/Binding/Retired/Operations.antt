-- ===== src/Gateway/Binding/Retired/Operations.antt =====
-- No operation on the gateway's bindings takes a revocation back (services/gateway/binding.rs).
use lam.Prelude.{
  ℕ, String, true, not, ◌&&◌, ◌||◌, ◌==◌, string_eq, nat_eq, none, some, List, ◌≡◌, ◌≢◌, arith,
  is_some, subst, find,
}
use lam.Prelude.Keyed.{has, get, update}
use lam.Errors.{
  error, guard, ok_or, gateway_binding_not_found, gateway_binding_id_conflict,
  gateway_operation_id_invalid, gateway_binding_id_invalid, gateway_auth_profile_mismatch,
  gateway_binding_revoked,
}
use lam.Exec.{lift, ◌>>=◌, ◌>>◌}
use lam.Exec.Triple.{bind-Triple}
use lam.Store.{StoreSnapshot}
use lam.Provider.{ProviderProfileV2}
use lam.Keychain.Service.{with_secret}
use lam.Gateway.Binding.{
  GatewayBinding, GatewayBindingCollection, GatewayTokenRequest, GatewayBindingProvision,
  validate_request, id_of, next_generation, last_generation,
}
use lam.Gateway.Binding.Stores.{
  GatewayBindingService, Random, valid_operation_id, is_prepared_for, revoked_by, revoked_once,
  on_secrets,
}
use lam.Gateway.Binding.Service.{Step, add_binding, revoke_or_mark, provision, rotate, revoke}
use lam.Gateway.Binding.Service.Prepared.{
  prepared_before, prepare_candidate, prepare_candidate_locked, revoke_locked, token_for_helper,
}
use lam.Gateway.Binding.Retired.{
  IsRetired, update-IsRetired, revoked_by-IsSettling, revoked_once-IsSettling,
}
use lam.Gateway.Binding.Retired.Steps.{
  Settled, Keeping, done-Keeping, lift-Keeping, loaded-Keeping, check-Keeping, guard-Keeping,
  swap-Keeping, add_binding-Keeping, revoke_or_mark-Keeping, revoke_or_mark_locked-Keeping,
  if-Keeping, answer-Keeping,
}

module _ {S K : Type 0} (service : GatewayBindingService S K) (id : String) where
  pub provision-Keeping :
      (e : ℕ) (request : GatewayTokenRequest) (random : Random)
      → random.uuid ≢ id
      → Keeping service id (provision service e request random)
  unfolding provision
  provision-Keeping e request random differ = check-Keeping service id _ _ (
      loaded-Keeping service id _ λ snap r. check-Keeping service id _ _ (
        check-Keeping service id _ _ (
          lift-Keeping service id
            (next_generation (last_generation request.profile_id snap.value.bindings)) _
            λ generation.
              add_binding-Keeping service id e snap.value.bindings request none random.uuid
                generation random.bytes differ r)))

  pub rotate-Keeping :
      (e : ℕ) (j : String) (provider : ProviderProfileV2) (revision : ℕ) (model now : String)
      (random : Random)
      → random.uuid ≢ id
      → Keeping service id (rotate service e j provider revision model now random)
  unfolding rotate
  rotate-Keeping e j provider revision model now random differ = check-Keeping service id _ _ (
      check-Keeping service id _ _ (
        loaded-Keeping service id _ λ snap r. check-Keeping service id _ _ (
          lift-Keeping service id
            (ok_or (get id_of j snap.value.bindings) (error gateway_binding_not_found)) _
            λ old. check-Keeping service id _ _ (
              lift-Keeping service id (next_generation old.generation) _ λ generation.
                bind-Triple (Settled service id)
                  (add_binding service e (update id_of j (revoked_by now) snap.value.bindings)
                    (again old provider revision model now) none random.uuid generation
                    random.bytes)
                  _ (λ a. Unit {0}) (λ b. Unit {0})
                  (add_binding-Keeping service id e
                    (update id_of j (revoked_by now) snap.value.bindings)
                    (again old provider revision model now) none random.uuid generation random.bytes
                    differ
                    (update-IsRetired id j (revoked_by now) snap.value.bindings
                      (revoked_by-IsSettling now) r))
                  λ added _.
                    bind-Triple (Settled service id)
                      (revoke_or_mark service added.store_revision old.binding_id
                        old.credential_reference)
                      _ (λ a. Unit {0}) (λ b. Unit {0})
                      (revoke_or_mark-Keeping service id added.store_revision old.binding_id
                        old.credential_reference)
                      λ outcome _. done-Keeping service id _))))
    where
      again : GatewayBinding → ProviderProfileV2 → ℕ → String → String → GatewayTokenRequest
      again old provider revision model now = record {
        profile_id = old.profile_id;
        provider = provider;
        provider_revision = revision;
        selected_model = model;
        expires_at = old.expires_at;
        now = now;
      }

  pub revoke-Keeping : (e : ℕ) (j now : String) → Keeping service id (revoke service e j now)
  unfolding revoke
  revoke-Keeping e j now = check-Keeping service id _ _ (
      loaded-Keeping service id _ λ snap r. check-Keeping service id _ _ (
        lift-Keeping service id
          (ok_or (get id_of j snap.value.bindings) (error gateway_binding_not_found)) _
          λ b. if-Keeping service id (is_some b.revoked_at) _ _ (done-Keeping service id _) (
            swap-Keeping service id e (update id_of j (revoked_by now) snap.value.bindings) _
              (update-IsRetired id j (revoked_by now) snap.value.bindings
                (revoked_by-IsSettling now) r)
              λ committed.
                bind-Triple (Settled service id)
                  (revoke_or_mark service committed.revision j b.credential_reference) _
                  (λ a. Unit {0}) (λ b. Unit {0})
                  (revoke_or_mark-Keeping service id committed.revision j b.credential_reference)
                  λ outcome _. done-Keeping service id _)))

  pub revoke_locked-Keeping : (j now : String) → Keeping service id (revoke_locked service j now)
  unfolding revoke_locked
  revoke_locked-Keeping j now = loaded-Keeping service id _ λ snap r.
      lift-Keeping service id
        (ok_or (get id_of j snap.value.bindings) (error gateway_binding_not_found)) _
        λ b.
          if-Keeping service id (is_some b.revoked_at && not b.revocation_pending) _ _
            (done-Keeping service id _)
            (swap-Keeping service id snap.revision
              (update id_of j (revoked_once now) snap.value.bindings) _
              (update-IsRetired id j (revoked_once now) snap.value.bindings
                (revoked_once-IsSettling now) r)
              λ committed.
                revoke_or_mark_locked-Keeping service id committed.revision j
                  b.credential_reference)

  pub prepare_candidate-Keeping :
      (e : ℕ) (operation : String) (request : GatewayTokenRequest) (random : Random)
      → random.uuid ≢ id
      → Keeping service id (prepare_candidate service e operation request random)
  unfolding prepare_candidate
  prepare_candidate-Keeping e operation request random differ = check-Keeping service id _ _ (
      check-Keeping service id _ _ (
        loaded-Keeping service id _ λ snap r.
          answer-Keeping service id (find (is_prepared_for operation) snap.value.bindings) _ _ (
            check-Keeping service id _ _ (
              lift-Keeping service id
                (next_generation (last_generation request.profile_id snap.value.bindings)) _
                λ generation.
                  add_binding-Keeping service id e snap.value.bindings request (some operation)
                    random.uuid generation random.bytes differ r))))

  -- A planned id is not taken where it is stored, and a retired id is.
  planned_differs :
      (planned : String) (c : GatewayBindingCollection)
      → IsRetired id c
      → not (has id_of planned c.bindings) ≡ true
      → planned ≢ id
  planned_differs planned c r free same =
      let free' : not (has id_of id c.bindings) ≡ true =
        subst (λ x. not (has id_of x c.bindings) ≡ true) same free in
      ground arith

  pub prepare_candidate_locked-Keeping :
      (operation planned : String) (request : GatewayTokenRequest) (bytes : List ℕ)
      → Keeping service id (prepare_candidate_locked service operation planned request bytes)
  unfolding prepare_candidate_locked
  prepare_candidate_locked-Keeping operation planned request bytes =
      check-Keeping service id (validate_request service.crates request) _ (
        check-Keeping service id
          (guard (valid_operation_id operation) (error gateway_operation_id_invalid)) _
          (check-Keeping service id
            (guard (service.crates.is_uuid planned) (error gateway_binding_id_invalid)) _
            (loaded-Keeping service id _ λ snap r.
              answer-Keeping service id (find (is_prepared_for operation) snap.value.bindings)
                (prepared_before service request snap.revision)
                (lift (next_generation (last_generation request.profile_id snap.value.bindings))
                  >>= added snap)
                (lift-Keeping service id
                  (next_generation (last_generation request.profile_id snap.value.bindings))
                  (added snap)
                  λ generation.
                    guard-Keeping service id (not (has id_of planned snap.value.bindings))
                      (error gateway_binding_id_conflict) (unguarded snap generation)
                      λ free.
                        add_binding-Keeping service id snap.revision snap.value.bindings request
                          (some operation) planned generation bytes
                          (planned_differs planned snap.value r free) r))))
    where
      unguarded : StoreSnapshot GatewayBindingCollection → ℕ → Step service GatewayBindingProvision
      unguarded snap generation =
          add_binding service snap.revision snap.value.bindings request (some operation) planned
            generation bytes

      added : StoreSnapshot GatewayBindingCollection → ℕ → Step service GatewayBindingProvision
      added snap generation =
          lift (
            guard (not (has id_of planned snap.value.bindings)) (error gateway_binding_id_conflict))
          >> unguarded snap generation

  pub token_for_helper-Keeping :
      (profile j : String) → Keeping service id (token_for_helper service profile j)
  unfolding token_for_helper
  token_for_helper-Keeping profile j = loaded-Keeping service id _ λ snap r.
      lift-Keeping service id
        (ok_or (get id_of j snap.value.bindings) (error gateway_binding_not_found)) _
        λ b.
          check-Keeping service id
            (guard (b.profile_id == profile) (error gateway_auth_profile_mismatch)) _
            (check-Keeping service id
              (guard (not (is_some b.revoked_at || b.revocation_pending))
                (error gateway_binding_revoked))
              (on_secrets
                (with_secret service.backend service.plaintext service.io b.credential_reference))
              λ s kept. (kept, λ a h. tt))
