-- ===== src/Gateway/Binding/Service/Prepared.antt =====
-- services/gateway/binding.rs: the operations of a planned attachment, which hold the lock already, and the
-- token of the helper. A sequence of calls is any operation after any other.
use lam.Prelude.{
  ℕ, String, not, ◌&&◌, ◌||◌, ◌==◌, string_eq, nat_eq, Option, none, some, List, [], ◌∷◌, find,
  is_some, if◌then◌else◌,
}
use lam.Prelude.Keyed.{has, get, update}
use lam.Errors.{
  Result, ok, err, error, guard, ok_or, store_revision_conflict, gateway_operation_id_invalid,
  gateway_operation_conflict, gateway_auth_profile_mismatch, gateway_binding_not_found,
  gateway_binding_revoked, gateway_binding_id_invalid, gateway_binding_id_conflict,
}
use lam.Exec.{lift, ◌>>=◌, ◌>>◌}
use lam.Provider.{ProviderProfileV2}
use lam.Keychain.{KeychainCredentialReference}
use lam.Keychain.Service.{with_secret}
use lam.Gateway.Binding.{
  GatewayBinding, GatewayTokenRequest, GatewayBindingProvision, id_of, last_generation,
  next_generation, validate_request,
}
use lam.Gateway.Binding.Stores.{
  GatewayBindingService, Random, pending, revoked_once, valid_operation_id, is_prepared_for,
  GatewayStores, on_secrets, answer_or, after_secret,
}
use lam.Gateway.Binding.Service.{
  Step, loaded, swap, revoke_secret, add_binding, provision, rotate, revoke,
}

module _ {S K : Type 0} (service : GatewayBindingService S K) where
  -- the answer to an operation that was prepared before
  unfoldable pub prepared_before :
      GatewayTokenRequest → ℕ → GatewayBinding → Result GatewayBindingProvision
  prepared_before request revision existing =
      if existing.profile_id == request.profile_id
        && existing.provider_id == request.provider.id
        && existing.selected_model == request.selected_model
      then ok (record {
        binding_id = existing.binding_id;
        credential_reference = existing.credential_reference;
        generation = existing.generation;
        store_revision = revision;
      })
      else err (error gateway_operation_conflict)

  unfoldable pub prepare_candidate :
      ℕ → String → GatewayTokenRequest → Random → Step service GatewayBindingProvision
  unfolding prepared_before
  prepare_candidate expected operation_id request random = do
    lift (validate_request service.crates request)
    lift (guard (valid_operation_id operation_id) (error gateway_operation_id_invalid))
    snapshot ← loaded service
    answer_or (find (is_prepared_for operation_id) snapshot.value.bindings)
        (prepared_before request snapshot.revision)
        (lift (guard (snapshot.revision == expected) (error store_revision_conflict))
          >> (lift (next_generation (last_generation request.profile_id snapshot.value.bindings))
              >>= λ generation.
                  add_binding service expected snapshot.value.bindings request (some operation_id)
                    random.uuid generation random.bytes))

  unfoldable pub prepare_candidate_locked :
      String → String → GatewayTokenRequest → List ℕ → Step service GatewayBindingProvision
  unfolding prepared_before
  prepare_candidate_locked operation_id planned_binding_id request bytes = do
    lift (validate_request service.crates request)
    lift (guard (valid_operation_id operation_id) (error gateway_operation_id_invalid))
    lift (guard (service.crates.is_uuid planned_binding_id) (error gateway_binding_id_invalid))
    snapshot ← loaded service
    answer_or (find (is_prepared_for operation_id) snapshot.value.bindings)
        (prepared_before request snapshot.revision)
        (lift (next_generation (last_generation request.profile_id snapshot.value.bindings))
          >>= λ generation.
              lift (
                guard (not (has id_of planned_binding_id snapshot.value.bindings))
                  (error gateway_binding_id_conflict))
              >> add_binding service snapshot.revision snapshot.value.bindings request
                  (some operation_id) planned_binding_id generation bytes)

  -- under the lock the bindings are as they were written
  unfoldable pub revoke_or_mark_locked :
      ℕ → String → KeychainCredentialReference → Step service (Unit {0})
  revoke_or_mark_locked revision binding_id reference s =
      let r = revoke_secret service reference s in
      after_secret (ok tt)
        (loaded service >>= λ snapshot.
          lift
            (guard (has id_of binding_id snapshot.value.bindings) (error gateway_binding_not_found))
          >> (swap service revision (update id_of binding_id pending snapshot.value.bindings)
              >>= λ committed. lift (ok tt)))
        r.0 r.1

  unfoldable pub revoke_locked : String → String → Step service (Unit {0})
  unfolding revoke_or_mark_locked
  revoke_locked binding_id now = do
    snapshot ← loaded service
    binding ←
        lift
          (ok_or (get id_of binding_id snapshot.value.bindings) (error gateway_binding_not_found))
    if is_some binding.revoked_at && not binding.revocation_pending
        then lift (ok tt)
        else (swap service snapshot.revision
              (update id_of binding_id (revoked_once now) snapshot.value.bindings)
            >>= λ committed.
                revoke_or_mark_locked committed.revision binding_id binding.credential_reference)

  -- reads, and writes only where the credentials' service copies a secret
  unfoldable pub token_for_helper : String → String → Step service String
  token_for_helper profile_id binding_id = do
    snapshot ← loaded service
    binding ←
        lift
          (ok_or (get id_of binding_id snapshot.value.bindings) (error gateway_binding_not_found))
    lift (guard (binding.profile_id == profile_id) (error gateway_auth_profile_mismatch))
    lift (
        guard (not (is_some binding.revoked_at || binding.revocation_pending))
          (error gateway_binding_revoked))
    on_secrets
        (with_secret service.backend service.plaintext service.io binding.credential_reference)

  -- an operation, with what the random source gives it
  pub data GatewayCall : Type 0 where
    provision_call : ℕ → GatewayTokenRequest → Random → GatewayCall
    rotate_call : ℕ → String → ProviderProfileV2 → ℕ → String → String → Random → GatewayCall
    revoke_call : ℕ → String → String → GatewayCall
    prepare_call : ℕ → String → GatewayTokenRequest → Random → GatewayCall
    prepare_locked_call : String → String → GatewayTokenRequest → List ℕ → GatewayCall
    revoke_locked_call : String → String → GatewayCall
    helper_call : String → String → GatewayCall

  -- the state after an operation, whether it succeeds or fails
  unfoldable pub call : GatewayCall → GatewayStores S K → GatewayStores S K
  call (provision_call e request random) s = (provision service e request random s).1
  call (rotate_call e id provider revision model now random) s =
      (rotate service e id provider revision model now random s).1
  call (revoke_call e id now) s = (revoke service e id now s).1
  call (prepare_call e operation request random) s =
      (prepare_candidate e operation request random s).1
  call (prepare_locked_call operation planned request bytes) s =
      (prepare_candidate_locked operation planned request bytes s).1
  call (revoke_locked_call id now) s = (revoke_locked id now s).1
  call (helper_call profile id) s = (token_for_helper profile id s).1

  unfoldable pub calls : List GatewayCall → GatewayStores S K → GatewayStores S K
  calls [] s = s
  calls (c ∷ cs) s = calls cs (call c s)

  -- the random id that an operation gives a new binding, where it makes one
  abbrev pub new_id : GatewayCall → Option String
  new_id (provision_call e request random) = some random.uuid
  new_id (rotate_call e id provider revision model now random) = some random.uuid
  new_id (prepare_call e operation request random) = some random.uuid
  new_id _ = none
