-- ===== src/Provider/Repository.antt =====
-- `ProviderRepository` of services/provider_v2.rs, over any versioned store.
pub mod Invariant
pub mod Effects
pub mod Examples
use lam.Prelude.{
  ℕ, String, Bool, true, false, not, ◌&&◌, ◌==◌, nat_eq, string_eq, Option, none, some, List, [],
  ◌∷◌, ◌++◌, if◌then◌else◌, length,
}
use lam.Prelude.Keyed.{has, get, sort, without, update}
use lam.Errors.{
  Result, ok, err, error, guard, ok_or, provider_already_exists, provider_not_found,
  provider_credential_conflict, provider_auth_route_unsupported, provider_timestamp_invalid,
}
use lam.Exec.{Exec, lift, reading, ◌>>=◌, ◌>>◌}
use lam.Store.{StoreSnapshot}
use lam.Store.Interface.{VersionedStore}
use lam.Provider.{
  CredentialSource, env, keychain, auth_command, codex_profile, no_source, UpstreamAuth, bearer,
  header, no_auth, ProviderProfileV2, ProviderCollection,
}
use lam.Provider.Credentials.{validate_upstream_auth}
use lam.Provider.Build.{ProviderInput, Url, build_provider}

abbrev pub provider_id_of : ProviderProfileV2 → String
provider_id_of p = p.id

-- `sort_providers`
abbrev pub sort_providers : List ProviderProfileV2 → List ProviderProfileV2
sort_providers = sort provider_id_of

abbrev pub with_providers : List ProviderProfileV2 → ProviderCollection
with_providers providers = record { providers = providers }

-- the derived equality of `CredentialSource`
unfoldable pub same_source : CredentialSource → CredentialSource → Bool
same_source (env a) (env b) = a == b
same_source (keychain service account version) (keychain service' account' version') =
    service == service' && account == account' && version == version'
same_source (auth_command a) (auth_command b) = a == b
same_source (codex_profile a) (codex_profile b) = a == b
same_source no_source no_source = true
same_source _ _ = false

abbrev pub source_of : UpstreamAuth → Option CredentialSource
source_of (bearer source) = some source
source_of (header name source) = some source
source_of no_auth = none

-- `*source = replacement`
abbrev pub with_source : CredentialSource → UpstreamAuth → UpstreamAuth
with_source replacement (bearer _) = bearer replacement
with_source replacement (header name _) = header name replacement
with_source replacement no_auth = no_auth

-- what `replace_credential_source` assigns
abbrev pub with_credential : CredentialSource → String → ProviderProfileV2 → ProviderProfileV2
with_credential replacement now p = record p {
  upstream_auth = with_source replacement p.upstream_auth;
  updated_at = now;
}

-- `*current = replacement`, with the time of creation kept
abbrev pub replaced_by : ProviderProfileV2 → ProviderProfileV2 → ProviderProfileV2
replaced_by replacement current = record replacement { created_at = current.created_at }

module _ (header_name : String → Option String) (parse_url : String → Option Url)
    (is_rfc3339 : String → Bool) {S : Type 0} (store : VersionedStore S ProviderCollection) where
  abbrev pub Snapshot : Type 0
  Snapshot = StoreSnapshot ProviderCollection

  unfoldable pub create : ℕ → ProviderInput → String → Exec S Snapshot
  create expected input now = do
    provider ← lift (build_provider header_name parse_url is_rfc3339 input now)
    snapshot ← reading store.load
    lift (
        guard (not (has provider_id_of provider.id snapshot.value.providers))
          (error provider_already_exists))
    store.swap expected
        (with_providers (sort_providers (snapshot.value.providers ++ provider ∷ [])))

  unfoldable pub update_provider : ℕ → ProviderInput → String → Exec S Snapshot
  update_provider expected input now = do
    replacement ← lift (build_provider header_name parse_url is_rfc3339 input now)
    snapshot ← reading store.load
    lift (
        guard (has provider_id_of replacement.id snapshot.value.providers)
          (error provider_not_found))
    store.swap expected (
        with_providers (
          sort_providers (
            update provider_id_of replacement.id (replaced_by replacement)
              snapshot.value.providers)))

  unfoldable pub delete : ℕ → String → Exec S Snapshot
  delete expected provider_id = do
    snapshot ← reading store.load
    let remaining = without provider_id_of provider_id snapshot.value.providers
    lift (
        guard (not (length remaining == length snapshot.value.providers))
          (error provider_not_found))
    store.swap expected (with_providers remaining)

  unfoldable pub replace_credential_source :
      ℕ → String → CredentialSource → CredentialSource → String → Exec S Snapshot
  replace_credential_source expected provider_id expected_source replacement now = do
    lift (guard (is_rfc3339 now) (error provider_timestamp_invalid))
    snapshot ← reading store.load
    provider ←
        lift (
          ok_or (get provider_id_of provider_id snapshot.value.providers)
            (error provider_not_found))
    source ← lift (ok_or (source_of provider.upstream_auth) (error provider_auth_route_unsupported))
    lift (guard (same_source source expected_source) (error provider_credential_conflict))
    lift (validate_upstream_auth header_name (with_source replacement provider.upstream_auth))
    store.swap expected (
        with_providers (
          update provider_id_of provider_id (with_credential replacement now)
            snapshot.value.providers))

  -- a call of the repository
  pub data ProviderCall : Type 0 where
    create_call update_call : ℕ → ProviderInput → String → ProviderCall
    delete_call : ℕ → String → ProviderCall
    replace_call : ℕ → String → CredentialSource → CredentialSource → String → ProviderCall

  unfoldable pub call : ProviderCall → Exec S Snapshot
  call (create_call expected input now) = create expected input now
  call (update_call expected input now) = update_provider expected input now
  call (delete_call expected id) = delete expected id
  call (replace_call expected id old new now) = replace_credential_source expected id old new now

  -- the state after calls, whether they succeed or fail
  unfoldable pub calls : List ProviderCall → S → S
  calls [] s = s
  calls (c ∷ cs) s = calls cs (call c s).1
