-- ===== src/Provider/Repository/Invariant.antt =====
-- Stored providers are well-formed and their ids distinct, whatever is called (services/provider_v2.rs).
use lam.Prelude.{
  ℕ, String, Bool, Option, none, some, ◌&&◌, List, [], ◌∷◌, ◌++◌, ◌≡◌, refl, false, inl, inr, arith,
  All, Bool-cases, length, ◌==◌, nat_eq,
}
use lam.Prelude.Keyed.{
  has, get, without, update, IsUnique, IsUnique-sort, IsUnique-push, IsUnique-without,
  IsUnique-replace,
}
use lam.Prelude.Keyed.Every.{All-sort, All-push, All-without, All-update}
use lam.Errors.{Result, ok, err}
use lam.Store.{StoreSnapshot}
use lam.Store.Interface.{VersionedStore}
use lam.Store.Kept.{Keeps, IsUpdate, update-Keeps}
use lam.Provider.{CredentialSource, ProviderProfileV2, ProviderCollection}
use lam.Provider.Credentials.{validate_upstream_auth}
use lam.Provider.Build.{ProviderInput, Url, build_provider}
use lam.Provider.Build.WellFormed.{IsWellFormed, build_provider-IsWellFormed}
use lam.Provider.Repository.{
  provider_id_of, with_providers, sort_providers, with_source, source_of, same_source,
  with_credential, replaced_by, create, update_provider, delete, replace_credential_source,
  ProviderCall, create_call, update_call, delete_call, replace_call, call, calls,
}

module _ (header_name : String → Option String) where
  -- distinct ids, and each provider as `build_provider` makes them
  pub record IsSound (c : ProviderCollection) : Type 0 where
    pub unique : IsUnique provider_id_of c.providers
    pub each : All (IsWellFormed header_name) c.providers

module _ (header_name : String → Option String) (parse_url : String → Option Url)
    (is_rfc3339 : String → Bool) {S : Type 0} (store : VersionedStore S ProviderCollection) where
  push-IsSound :
      (p : ProviderProfileV2) (c : ProviderCollection)
      → has provider_id_of p.id c.providers ≡ false
      → IsWellFormed header_name p
      → IsSound header_name c
      → IsSound header_name (with_providers (sort_providers (c.providers ++ p ∷ [])))
  push-IsSound p c free w s = record {
    unique =
        IsUnique-sort provider_id_of (c.providers ++ p ∷ [])
          (IsUnique-push provider_id_of c.providers p free s.unique);
    each =
        All-sort provider_id_of (IsWellFormed header_name) (c.providers ++ p ∷ [])
          (All-push provider_id_of (IsWellFormed header_name) c.providers p w s.each);
  }

  replaced_by-IsWellFormed :
      (p q : ProviderProfileV2)
      → IsWellFormed header_name p
      → IsWellFormed header_name (replaced_by p q)
  replaced_by-IsWellFormed p q w = record {
    id_text = w.id_text;
    id_free = w.id_free;
    name_text = w.name_text;
    models_unique = w.models_unique;
    default_listed = w.default_listed;
    adapter_ok = w.adapter_ok;
    auth_ok = w.auth_ok;
    direct_ok = w.direct_ok;
  }

  with_credential-IsWellFormed :
      (new : CredentialSource) (now : String) (p : ProviderProfileV2)
      → validate_upstream_auth header_name (with_source new p.upstream_auth) ≡ ok tt
      → IsWellFormed header_name p
      → IsWellFormed header_name (with_credential new now p)
  with_credential-IsWellFormed new now p v w = record {
    id_text = w.id_text;
    id_free = w.id_free;
    name_text = w.name_text;
    models_unique = w.models_unique;
    default_listed = w.default_listed;
    adapter_ok = w.adapter_ok;
    auth_ok = v;
    direct_ok = w.direct_ok;
  }

  sorted-IsSound :
      (p : ProviderProfileV2) (c : ProviderCollection)
      → IsWellFormed header_name p
      → IsSound header_name c
      → IsSound header_name
          (with_providers (sort_providers (update provider_id_of p.id (replaced_by p) c.providers)))
  sorted-IsSound p c w s =
      let changed = update provider_id_of p.id (replaced_by p) c.providers in
      record {
        unique = IsUnique-sort provider_id_of changed (
            IsUnique-replace provider_id_of p.id (replaced_by p) c.providers (λ y k. refl)
              s.unique);
        each = All-sort provider_id_of (IsWellFormed header_name) changed (
            All-update provider_id_of (IsWellFormed header_name) p.id (replaced_by p) c.providers
              (λ q g v. replaced_by-IsWellFormed p q w) s.each);
      }

  update-IsSound :
      (id : String) (new : CredentialSource) (now : String) (p : ProviderProfileV2)
      (c : ProviderCollection)
      → get provider_id_of id c.providers ≡ some p
      → validate_upstream_auth header_name (with_source new p.upstream_auth) ≡ ok tt
      → IsSound header_name c
      → IsSound header_name
          (with_providers (update provider_id_of id (with_credential new now) c.providers))
  update-IsSound id new now p c g v s = record {
    unique =
        IsUnique-replace provider_id_of id (with_credential new now) c.providers (λ y k. k)
          s.unique;
    each =
        All-update provider_id_of (IsWellFormed header_name) id (with_credential new now)
          c.providers
          (λ q found w. with_credential-IsWellFormed new now q (ground (arith, g, v, found)) w)
          s.each;
  }

  -- the provider has a credential, which is the expected one
  source_matches : CredentialSource → ProviderProfileV2 → Bool
  source_matches expected p = elim (source_of p.upstream_auth) [
    | none ↦ false
    | some held ↦ same_source held expected
  ]

  module _ (s : S) where
    abbrev IsSoundUpdate : S → Type 0
    IsSoundUpdate s' = IsUpdate store (IsSound header_name) s s'

    create-IsUpdate :
        (e : ℕ) (input : ProviderInput) (now : String)
        → IsSoundUpdate (create header_name parse_url is_rfc3339 store e input now s).1
    unfolding create
    create-IsUpdate e input now =
        go (build_provider header_name parse_url is_rfc3339 input now) refl (store.load s) refl
      where
        go :
            (b : Result ProviderProfileV2)
            → build_provider header_name parse_url is_rfc3339 input now ≡ b
            → (l : Result (StoreSnapshot ProviderCollection)) → store.load s ≡ l
            → IsSoundUpdate (create header_name parse_url is_rfc3339 store e input now s).1
        go (err _) b l read = inl (ground arith)
        go (ok p) b (err _) read = inl (ground arith)
        go (ok p) b (ok cur) read =
            elim (Bool-cases (has provider_id_of p.id cur.value.providers)) [
              | inl taken ↦ inl (ground arith)
              | inr free ↦ inr (
                cur,
                read,
                e,
                with_providers (sort_providers (cur.value.providers ++ p ∷ [])),
                ground arith,
                push-IsSound p cur.value free
                    (build_provider-IsWellFormed header_name parse_url is_rfc3339 input now p b),
              )
            ]

    update_provider-IsUpdate :
        (e : ℕ) (input : ProviderInput) (now : String)
        → IsSoundUpdate (update_provider header_name parse_url is_rfc3339 store e input now s).1
    unfolding update_provider
    update_provider-IsUpdate e input now =
        go (build_provider header_name parse_url is_rfc3339 input now) refl (store.load s) refl
      where
        go :
            (b : Result ProviderProfileV2)
            → build_provider header_name parse_url is_rfc3339 input now ≡ b
            → (l : Result (StoreSnapshot ProviderCollection)) → store.load s ≡ l
            → IsSoundUpdate (update_provider header_name parse_url is_rfc3339 store e input now s).1
        go (err _) b l read = inl (ground arith)
        go (ok p) b (err _) read = inl (ground arith)
        go (ok p) b (ok cur) read =
            elim (Bool-cases (has provider_id_of p.id cur.value.providers)) [
              | inr missing ↦ inl (ground arith)
              | inl known ↦ inr (
                cur,
                read,
                e,
                with_providers (
                    sort_providers
                      (update provider_id_of p.id (replaced_by p) cur.value.providers)),
                ground arith,
                sorted-IsSound p cur.value
                    (build_provider-IsWellFormed header_name parse_url is_rfc3339 input now p b),
              )
            ]

    delete-IsUpdate :
        (e : ℕ) (id : String)
        → IsSoundUpdate (delete header_name parse_url is_rfc3339 store e id s).1
    unfolding delete
    delete-IsUpdate e id = go (store.load s) refl
      where
        go :
            (l : Result (StoreSnapshot ProviderCollection))
            → store.load s ≡ l
            → IsSoundUpdate (delete header_name parse_url is_rfc3339 store e id s).1
        go (err _) read = inl (ground arith)
        go (ok cur) read =
            elim (Bool-cases (
              length (without provider_id_of id cur.value.providers)
              == length cur.value.providers)) [
                | inl missing ↦ inl (ground arith)
                | inr known ↦ inr (
                  cur,
                  read,
                  e,
                  with_providers (without provider_id_of id cur.value.providers),
                  ground arith,
                  λ sound. record {
                    unique = IsUnique-without provider_id_of id cur.value.providers sound.unique;
                    each =
                        All-without provider_id_of (IsWellFormed header_name) id cur.value.providers
                          sound.each;
                  },
                )
              ]

    replace-IsUpdate :
        (e : ℕ) (id : String) (old new : CredentialSource) (now : String)
        → IsSoundUpdate
            (replace_credential_source header_name parse_url is_rfc3339 store e id old new now s).1
    unfolding replace_credential_source source_matches
    replace-IsUpdate e id old new now = go (store.load s) refl
      where
        change : ProviderProfileV2 → ProviderProfileV2
        change = with_credential new now

        checked :
            (cur : StoreSnapshot ProviderCollection) (p : ProviderProfileV2)
            → store.load s ≡ ok cur
            → get provider_id_of id cur.value.providers ≡ some p
            → (v : Result (Unit {0}))
            → validate_upstream_auth header_name (with_source new p.upstream_auth) ≡ v
            → IsSoundUpdate
                (replace_credential_source header_name parse_url is_rfc3339 store e id old new now
                  s).1
        checked cur p read g (err _) v = inl (ground arith)
        checked cur p read g (ok tt) v =
            elim (Bool-cases (is_rfc3339 now && source_matches old p)) [
              | inr refused ↦ inl (ground arith)
              | inl allowed ↦ inr (
                cur,
                read,
                e,
                with_providers (update provider_id_of id change cur.value.providers),
                ground arith,
                update-IsSound id new now p cur.value g v,
              )
            ]

        found :
            (cur : StoreSnapshot ProviderCollection)
            → store.load s ≡ ok cur
            → (g : Option ProviderProfileV2) → get provider_id_of id cur.value.providers ≡ g
            → IsSoundUpdate
                (replace_credential_source header_name parse_url is_rfc3339 store e id old new now
                  s).1
        found cur read none g = inl (ground arith)
        found cur read (some p) g =
            checked cur p read g
              (validate_upstream_auth header_name (with_source new p.upstream_auth)) refl

        go :
            (l : Result (StoreSnapshot ProviderCollection))
            → store.load s ≡ l
            → IsSoundUpdate
                (replace_credential_source header_name parse_url is_rfc3339 store e id old new now
                  s).1
        go (err _) read = inl (ground arith)
        go (ok cur) read = found cur read (get provider_id_of id cur.value.providers) refl

    call-IsUpdate :
        (c : ProviderCall header_name parse_url is_rfc3339 store)
        → IsSoundUpdate (call header_name parse_url is_rfc3339 store c s).1
    unfolding call
    call-IsUpdate (create_call e input now) = create-IsUpdate e input now
    call-IsUpdate (update_call e input now) = update_provider-IsUpdate e input now
    call-IsUpdate (delete_call e id) = delete-IsUpdate e id
    call-IsUpdate (replace_call e id old new now) = replace-IsUpdate e id old new now

  -- If the stored providers are well-formed and their ids distinct, they still are after any calls of
  -- the repository, whichever succeed.
  pub calls-IsSound :
      (cs : List (ProviderCall header_name parse_url is_rfc3339 store)) (s : S)
      → Keeps store (IsSound header_name) s
      → Keeps store (IsSound header_name) (calls header_name parse_url is_rfc3339 store cs s)
  unfolding calls
  calls-IsSound [] s k = k
  calls-IsSound (c ∷ cs) s k =
      calls-IsSound cs (call header_name parse_url is_rfc3339 store c s).1 (
        update-Keeps store (IsSound header_name) s
          (call header_name parse_url is_rfc3339 store c s).1 (call-IsUpdate s c) k)
