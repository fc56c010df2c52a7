-- ===== src/Gateway/Binding/Service.antt =====
-- `GatewayBindingService` of services/gateway/binding.rs: the operations that write the bindings and the
-- tokens, over a versioned store and the credentials' service. `Prepared` has those of a planned
-- attachment and the helper.
pub mod Prepared
use lam.Prelude.{
  ℕ, String, Bool, true, false, not, ◌&&◌, ◌||◌, ◌==◌, string_eq, nat_eq, ltb, Option, none, some,
  List, [], ◌∷◌, ◌++◌, any, find, is_some, if◌then◌else◌, sort_by,
}
use Prim.Native.Nat.{Ordering}
use Prim.Native.Nat as Nat
use Prim.Native.String.{len, compare}
use lam.Prelude.Keyed.{not_after, has, get, update}
use lam.Prelude.Text.{is_empty, any_char, is_control}
use lam.Errors.{
  Result, ok, err, error, guard, ok_or, store_revision_conflict, gateway_binding_profile_exists,
  gateway_operation_id_invalid, gateway_operation_conflict, gateway_auth_profile_mismatch,
  gateway_binding_not_found, gateway_binding_revoked, gateway_binding_id_invalid,
  gateway_binding_id_conflict,
}
use lam.Exec.{Exec, lift, reading, ◌>>=◌, ◌>>◌}
use lam.Store.{StoreSnapshot}
use lam.Store.Interface.{VersionedStore}
use lam.Provider.{ProviderProfileV2}
use lam.Keychain.{KeychainCredentialReference, SecretIo}
use lam.Keychain.Service.{KeychainBackend, Secrets, write_exact, with_secret}
use lam.Keychain.Service as Credentials
use lam.Gateway.Binding.{
  GatewayBinding, GatewayBindingCollection, GatewayTokenRequest, GatewayBindingProvision,
  GatewayRevocationOutcome, Crates, id_of, last_generation, next_generation, validate_request,
  validate_timestamp, validate_selected_model, generate_token, token_hash_of,
}
use lam.Gateway.Binding.Stores.{
  sort_bindings, with_bindings, Random, make_binding, revoked_by, pending, GatewayStores,
  on_bindings, on_secrets, after_secret, GatewayBindingService,
}

module _ {S K : Type 0} (service : GatewayBindingService S K) where
  abbrev pub Step : Type 0 → Type 0
  Step A = Exec (GatewayStores S K) A

  abbrev pub loaded : Step (StoreSnapshot GatewayBindingCollection)
  loaded = on_bindings (reading service.store.load)

  abbrev pub swap : ℕ → List GatewayBinding → Step (StoreSnapshot GatewayBindingCollection)
  swap expected bindings = on_bindings (service.store.swap expected (with_bindings bindings))

  abbrev pub revoke_secret : KeychainCredentialReference → Step (Unit {0})
  revoke_secret reference =
      on_secrets (Credentials.revoke service.backend service.plaintext service.io reference)

  -- a swap whose new secret is taken back where it fails
  unfoldable pub swap_or_revoke :
      ℕ
      → List GatewayBinding
      → KeychainCredentialReference
      → Step (StoreSnapshot GatewayBindingCollection)
  swap_or_revoke expected bindings reference s =
      let r = swap expected bindings s in
      elim r.0 [
        | ok committed ↦ (ok committed, r.1)
        | err e ↦ (err e, (revoke_secret reference r.1).1)
      ]

  -- the end of the operations that make a token: `earlier` are the bindings that stay
  unfoldable pub add_binding :
      ℕ
      → List GatewayBinding
      → GatewayTokenRequest
      → Option String
      → String
      → ℕ
      → List ℕ
      → Step GatewayBindingProvision
  unfolding make_binding swap_or_revoke
  add_binding expected earlier request prepared binding_id generation bytes = do
    (token, reference) ← lift (generate_token service.crates binding_id generation bytes)
    on_secrets (write_exact service.backend service.plaintext service.io reference token)
    committed ←
        swap_or_revoke expected
          (sort_bindings (
            earlier
            ++ make_binding request prepared binding_id generation
                (token_hash_of service.crates token) reference
              ∷ []))
          reference
    lift (
        ok (record {
          binding_id = binding_id;
          credential_reference = reference;
          generation = generation;
          store_revision = committed.revision;
        }))

  unfoldable pub provision : ℕ → GatewayTokenRequest → Random → Step GatewayBindingProvision
  provision expected request random = do
    lift (validate_request service.crates request)
    snapshot ← loaded
    lift (
        guard
          (not (
            any (λ b. b.profile_id == request.profile_id && not (is_some b.revoked_at))
              snapshot.value.bindings))
          (error gateway_binding_profile_exists))
    lift (guard (snapshot.revision == expected) (error store_revision_conflict))
    generation ← lift (next_generation (last_generation request.profile_id snapshot.value.bindings))
    add_binding expected snapshot.value.bindings request none random.uuid generation random.bytes

  unfoldable pub mark_revocation_pending : ℕ → String → Step ℕ
  mark_revocation_pending expected binding_id = do
    snapshot ← loaded
    lift (guard (snapshot.revision == expected) (error store_revision_conflict))
    lift (guard (has id_of binding_id snapshot.value.bindings) (error gateway_binding_not_found))
    committed ← swap expected (update id_of binding_id pending snapshot.value.bindings)
    lift (ok committed.revision)

  -- the revocation of a secret whose binding is revoked at this revision: the store's next revision,
  -- and whether the secret is still there
  unfoldable pub revoke_or_mark : ℕ → String → KeychainCredentialReference → Step (ℕ × Bool)
  revoke_or_mark revision binding_id reference s =
      let r = revoke_secret reference s in
      after_secret (ok (revision, false))
        (mark_revocation_pending revision binding_id >>= λ marked. lift (ok (marked, true))) r.0 r.1

  unfoldable pub rotate :
      ℕ → String → ProviderProfileV2 → ℕ → String → String → Random → Step GatewayBindingProvision
  unfolding add_binding revoke_or_mark
  rotate expected binding_id provider provider_revision selected_model now random = do
    lift (validate_timestamp service.crates now)
    lift (validate_selected_model provider selected_model)
    snapshot ← loaded
    lift (guard (snapshot.revision == expected) (error store_revision_conflict))
    old ←
        lift
          (ok_or (get id_of binding_id snapshot.value.bindings) (error gateway_binding_not_found))
    lift (guard (not (is_some old.revoked_at)) (error gateway_binding_revoked))
    generation ← lift (next_generation old.generation)
    added ←
        add_binding expected (update id_of binding_id (revoked_by now) snapshot.value.bindings)
          (record {
            profile_id = old.profile_id;
            provider = provider;
            provider_revision = provider_revision;
            selected_model = selected_model;
            expires_at = old.expires_at;
            now = now;
          })
          none random.uuid generation random.bytes
    (final_revision, is_pending) ←
        revoke_or_mark added.store_revision old.binding_id old.credential_reference
    lift (ok (record added { store_revision = final_revision }))

  unfoldable pub revoke : ℕ → String → String → Step GatewayRevocationOutcome
  unfolding revoke_or_mark
  revoke expected binding_id now = do
    lift (validate_timestamp service.crates now)
    snapshot ← loaded
    lift (guard (snapshot.revision == expected) (error store_revision_conflict))
    binding ←
        lift
          (ok_or (get id_of binding_id snapshot.value.bindings) (error gateway_binding_not_found))
    if is_some binding.revoked_at
        then lift (
            ok (record {
              store_revision = snapshot.revision;
              revocation_pending = binding.revocation_pending;
            }))
        else (swap expected (update id_of binding_id (revoked_by now) snapshot.value.bindings)
            >>= λ committed.
                revoke_or_mark committed.revision binding_id binding.credential_reference
                >>= λ outcome.
                    lift
                      (ok (record { store_revision = outcome.0; revocation_pending = outcome.1 })))
