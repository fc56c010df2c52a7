-- ===== src/Provider/Repository/Effects.antt =====
-- What replacing a credential changes (services/provider_v2.rs).
use lam.Prelude.{
  ℕ, String, Bool, Option, none, some, ◌≡◌, refl, ap, arith, ◌==◌, string_eq, if◌then◌else◌, ◌∙◌,
}
use lam.Prelude.Keyed.{get, update, get-replace}
use lam.Errors.{ok}
use lam.Store.{StoreSnapshot}
use lam.Store.Interface.{VersionedStore}
use lam.Provider.{CredentialSource, ProviderProfileV2, ProviderCollection}
use lam.Provider.Credentials.{validate_upstream_auth}
use lam.Provider.Build.{Url}
use lam.Provider.Repository.{
  provider_id_of, with_providers, with_credential, with_source, replace_credential_source,
}

module _ (header_name : String → Option String) (parse_url : String → Option Url)
    (is_rfc3339 : String → Bool) {S : Type 0} (store : VersionedStore S ProviderCollection) where
  -- One provider of `before` got another source, which is valid, and `snap` is as before else.
  pub record IsReplaced (id : String) (new : CredentialSource) (now : String)
      (before snap : StoreSnapshot ProviderCollection) : Type 0 where
    pub provider : ProviderProfileV2
    pub found : get provider_id_of id before.value.providers ≡ some provider
    pub valid : validate_upstream_auth header_name (with_source new provider.upstream_auth) ≡ ok tt
    pub after :
        (j : String)
        → get provider_id_of j snap.value.providers ≡ (
            if id == j
            then some (with_credential new now provider)
            else get provider_id_of j before.value.providers)

  module _ (e : ℕ) (id : String) (old new : CredentialSource) (now : String) (s : S)
      (before snap : StoreSnapshot ProviderCollection) (read : store.load s ≡ ok before)
      (h : (replace_credential_source header_name parse_url is_rfc3339 store e id old new now s).0
        ≡ ok snap) where
    abbrev change : ProviderProfileV2 → ProviderProfileV2
    change = with_credential new now

    found-IsReplaced :
        (p : ProviderProfileV2)
        → get provider_id_of id before.value.providers ≡ some p
        → IsReplaced id new now before snap
    unfolding replace_credential_source
    found-IsReplaced p g =
        let swapped : (store.swap e
              (with_providers (update provider_id_of id change before.value.providers)) s).0
            ≡ ok snap =
          ground arith in
        let value =
          store.swap_value e
            (with_providers (update provider_id_of id change before.value.providers)) s snap
            swapped in
        record {
          provider = p;
          found = g;
          valid = ground arith;
          after = λ j.
              ap (λ c. get provider_id_of j c.providers) value.0
              ∙ get-replace provider_id_of id j change before.value.providers p (λ y k. k) g;
        }

    -- Replacing a credential that succeeds changes the source of that provider, to one that is valid, and
    -- leaves the other providers as they were.
    pub replace-IsReplaced : IsReplaced id new now before snap
    unfolding replace_credential_source
    replace-IsReplaced = go (get provider_id_of id before.value.providers) refl
      where
        go :
            (g : Option ProviderProfileV2)
            → get provider_id_of id before.value.providers ≡ g
            → IsReplaced id new now before snap
        go (some p) g = found-IsReplaced p g
        go none g = absurd (ground arith)

    -- and the next load gives it
    pub load-replace :
        store.load
          (replace_credential_source header_name parse_url is_rfc3339 store e id old new now s).1
        ≡ ok snap
    unfolding replace_credential_source
    load-replace = go (get provider_id_of id before.value.providers) refl
      where
        go :
            (g : Option ProviderProfileV2)
            → get provider_id_of id before.value.providers ≡ g
            → store.load
                (replace_credential_source header_name parse_url is_rfc3339 store e id old new now
                  s).1
              ≡ ok snap
        go (some p) g =
            let swapped : (store.swap e
                  (with_providers (update provider_id_of id change before.value.providers)) s).0
                ≡ ok snap =
              ground arith in
            ground (
              arith,
              store.load-swap e
                  (with_providers (update provider_id_of id change before.value.providers)) s snap
                  swapped,
            )
        go none g = absurd (ground arith)
