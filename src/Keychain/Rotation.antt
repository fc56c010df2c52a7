-- ===== src/Keychain/Rotation.antt =====
-- `rotate_provider` of services/provider_keychain.rs: a provider's secret is replaced under a new reference,
-- in the secrets first, then in the provider's record, and the old secret is deleted last.
pub mod Rotated
use lam.Prelude.{
  ℕ, ◌+◌, ◌^◌, String, Bool, true, false, not, ◌==◌, nat_eq, ltb, Option, none, some, if◌then◌else◌,
}
use lam.Prelude.Keyed.{get}
use lam.Errors.{
  Result, ok, err, error, guard, ok_or, provider_not_found, provider_auth_route_unsupported,
  store_revision_conflict, provider_credential_conflict, keychain_version_overflow,
  keychain_compensation_failed,
}
use lam.Errors as Results
use lam.Exec.{Exec, lift, reading, ◌>>=◌, ◌>>◌}
use lam.Store.{StoreSnapshot}
use lam.Store.Interface.{VersionedStore}
use lam.Provider.{CredentialSource, ProviderCollection}
use lam.Provider.Build.{Url}
use lam.Provider.Repository.{provider_id_of, source_of, same_source, replace_credential_source}
use lam.Keychain.{
  KeychainCredentialReference, SecretIo, to_credential_source, reference_of, new_reference,
}
use lam.Keychain.Service.{KeychainBackend, Secrets, not_blank, write_exact, revoke}

pub record ProviderCredentialSnapshot : Type 0 where
  pub store_revision : ℕ
  pub source : CredentialSource

pub record CredentialRotationOutcome : Type 0 where
  pub reference : KeychainCredentialReference
  pub provider_store_revision : ℕ
  pub cleanup_pending : Bool

-- the providers' store and the secrets
pub record RotationStores (S K : Type 0) : Type 0 where
  pub providers : S
  pub secrets : Secrets K

-- the version after that of a Keychain reference, or the first
unfoldable pub next_version : Result KeychainCredentialReference → Result ℕ
next_version (err e) = ok 1
next_version (ok reference) =
    Results.◌>>◌ (guard (ltb (reference.version + 1) (2 ^ 64)) (error keychain_version_overflow))
      (ok (reference.version + 1))

module _ {S K : Type 0} where
  abbrev pub on_providers : {A : Type 0} → Exec S A → Exec (RotationStores S K) A
  on_providers m s = let r = m s.providers in (r.0, record s { providers = r.1 })

  abbrev pub on_secrets : {A : Type 0} → Exec (Secrets K) A → Exec (RotationStores S K) A
  on_secrets m s = let r = m s.secrets in (r.0, record s { secrets = r.1 })

module _ (header_name : String → Option String) (parse_url : String → Option Url)
    (is_rfc3339 : String → Bool) {S K : Type 0} (store : VersionedStore S ProviderCollection)
    (backend : KeychainBackend K) (plaintext : Bool) (io : SecretIo) where
  unfoldable pub credential_snapshot : String → S → Result ProviderCredentialSnapshot
  credential_snapshot provider_id s = Results.◌>>=◌ (store.load s) λ snapshot.
      Results.◌>>=◌
        (ok_or (get provider_id_of provider_id snapshot.value.providers) (error provider_not_found))
        λ p.
          Results.◌>>=◌ (ok_or (source_of p.upstream_auth) (error provider_auth_route_unsupported))
            λ source. ok (record { store_revision = snapshot.revision; source = source })

  -- the swap of the reference, whose new secret is taken back where it fails
  unfoldable pub swap_or_compensate :
      ℕ
      → String
      → CredentialSource
      → KeychainCredentialReference
      → String
      → Exec (RotationStores S K) ℕ
  swap_or_compensate expected provider_id expected_source reference now s =
      let r =
        on_providers
          (replace_credential_source header_name parse_url is_rfc3339 store expected provider_id
            expected_source (to_credential_source reference) now)
          s in
      elim r.0 [
        | ok snapshot ↦ (ok snapshot.revision, r.1)
        | err e ↦
            let undone = on_secrets (revoke backend plaintext io reference) r.1 in
            elim undone.0 [
              | ok done ↦ (err e, undone.1)
              | err _ ↦ (err (error keychain_compensation_failed), undone.1)
            ]
      ]

  -- whether the old secret could not be deleted
  unfoldable pub clean_up : Result KeychainCredentialReference → Exec (RotationStores S K) Bool
  clean_up (err e) s = (ok false, s)
  clean_up (ok old) s =
      let r = on_secrets (revoke backend plaintext io old) s in
      (elim r.0 [ ok done ↦ ok false | err e ↦ ok true ], r.1)

  -- `credential_id` is the new UUID
  unfoldable pub rotate_provider :
      ℕ
      → String
      → CredentialSource
      → String
      → String
      → String
      → Exec (RotationStores S K) CredentialRotationOutcome
  unfolding next_version clean_up
  rotate_provider expected provider_id expected_source secret now credential_id = do
    lift (not_blank backend plaintext io secret)
    snapshot ← on_providers (reading (credential_snapshot provider_id))
    lift (guard (snapshot.store_revision == expected) (error store_revision_conflict))
    lift (guard (same_source snapshot.source expected_source) (error provider_credential_conflict))
    version ← lift (next_version (reference_of expected_source))
    reference ← lift (new_reference credential_id version)
    on_secrets (write_exact backend plaintext io reference secret)
    revision ← swap_or_compensate expected provider_id expected_source reference now
    cleanup_pending ← clean_up (reference_of expected_source)
    lift (
        ok (record {
          reference = reference;
          provider_store_revision = revision;
          cleanup_pending = cleanup_pending;
        }))
