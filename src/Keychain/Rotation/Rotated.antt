-- ===== src/Keychain/Rotation/Rotated.antt =====
-- What a rotation leaves behind, whether it succeeds or fails (services/provider_keychain.rs).
use lam.Prelude.{ℕ, String, Bool, Option, ◌≡◌, refl, arith, ◌∙◌, ap, sym, subst, ◌==◌, nat_eq}
use lam.Errors.{
  AppError, Result, ok, err, error, guard, store_revision_conflict, provider_credential_conflict,
}
use lam.Exec.{lift, reading}
use lam.Exec.Triple.{went_on}
use lam.Store.{StoreSnapshot}
use lam.Store.Interface.{VersionedStore}
use lam.Provider.{CredentialSource, ProviderCollection}
use lam.Provider.Build.{Url}
use lam.Provider.Repository.{replace_credential_source, same_source}
use lam.Provider.Repository.Effects.{IsReplaced, replace-IsReplaced, load-replace}
use lam.Keychain.{
  KeychainCredentialReference, SecretIo, to_credential_source, reference_of, new_reference,
}
use lam.Keychain.Service.{KeychainBackend, not_blank, write_exact, revoke}
use lam.Keychain.Rotation.{
  RotationStores, CredentialRotationOutcome, credential_snapshot, swap_or_compensate, clean_up,
  rotate_provider, on_providers, on_secrets, next_version,
}

abbrev rotated : KeychainCredentialReference → ℕ → Bool → CredentialRotationOutcome
rotated reference revision pending = record {
  reference = reference;
  provider_store_revision = revision;
  cleanup_pending = pending;
}

module _ (header_name : String → Option String) (parse_url : String → Option Url)
    (is_rfc3339 : String → Bool) {S K : Type 0} (store : VersionedStore S ProviderCollection)
    (backend : KeychainBackend K) (plaintext : Bool) (io : SecretIo) where
  clean_up-providers :
      (old : Result KeychainCredentialReference) (s : RotationStores S K)
      → (clean_up header_name parse_url is_rfc3339 store backend plaintext io old s).1.providers
        ≡ s.providers
  unfolding clean_up
  clean_up-providers (err e) s = refl
  clean_up-providers (ok old) s = refl

  -- A reference that was swapped in: the provider's record is the repository's work.
  record Swapped (e : ℕ) (id : String) (old new : CredentialSource) (now : String) (s : S)
      (after : S) (revision : ℕ) : Type 0 where
    snap : StoreSnapshot ProviderCollection
    replaced :
        (replace_credential_source header_name parse_url is_rfc3339 store e id old new now s).0
        ≡ ok snap
    state :
        after
        ≡ (replace_credential_source header_name parse_url is_rfc3339 store e id old new now s).1
    at : revision ≡ snap.revision

  swap_or_compensate-Swapped :
      (e : ℕ) (id : String) (old : CredentialSource) (reference : KeychainCredentialReference)
      (now : String) (s : RotationStores S K) (revision : ℕ)
      → (swap_or_compensate header_name parse_url is_rfc3339 store backend plaintext io e id old
          reference now s).0
        ≡ ok revision
      → Swapped e id old
          (to_credential_source reference)
          now
          s.providers
          (swap_or_compensate header_name parse_url is_rfc3339 store backend plaintext io e id old
            reference now s).1.providers
          revision
  unfolding swap_or_compensate
  swap_or_compensate-Swapped e id old reference now s revision h =
      go
        (replace_credential_source header_name parse_url is_rfc3339 store e id old
          (to_credential_source reference) now s.providers).0
        refl
    where
      failed :
          {x : AppError} (u : Result (Unit {0}))
          → (revoke backend plaintext io reference s.secrets).0 ≡ u
          → (replace_credential_source header_name parse_url is_rfc3339 store e id old
              (to_credential_source reference)
              now
              s.providers).0
            ≡ err x
          → Swapped e id old
              (to_credential_source reference)
              now
              s.providers
              (swap_or_compensate header_name parse_url is_rfc3339 store backend plaintext io e id
                old reference now s).1.providers
              revision
      failed (ok done) u r = absurd (ground arith)
      failed (err _) u r = absurd (ground arith)

      go :
          (r : Result (StoreSnapshot ProviderCollection))
          → (replace_credential_source header_name parse_url is_rfc3339 store e id old
              (to_credential_source reference)
              now
              s.providers).0
            ≡ r
          → Swapped e id old
              (to_credential_source reference)
              now
              s.providers
              (swap_or_compensate header_name parse_url is_rfc3339 store backend plaintext io e id
                old reference now s).1.providers
              revision
      go (ok snap) r = record { snap = snap; replaced = r; state = ground arith; at = ground arith }
      go (err _) r = failed (revoke backend plaintext io reference s.secrets).0 refl r

  module _ (e : ℕ) (id : String) (old : CredentialSource) (secret now uuid : String)
      (s : RotationStores S K) (outcome : CredentialRotationOutcome)
      (h : (rotate_provider header_name parse_url is_rfc3339 store backend plaintext io e id old
          secret now uuid s).0
        ≡ ok outcome) where
    finished :
        (reference : KeychainCredentialReference) (revision : ℕ) (pending : Bool) (x : S)
        → ok (rotated reference revision pending) ≡ ok outcome
        → (rotate_provider header_name parse_url is_rfc3339 store backend plaintext io e id old
            secret now uuid s).1.providers
          ≡ x
        → Swapped e id old (to_credential_source reference) now s.providers x revision
        → Swapped e id old
            (to_credential_source outcome.reference)
            now
            s.providers
            (rotate_provider header_name parse_url is_rfc3339 store backend plaintext io e id old
              secret now uuid s).1.providers
            outcome.provider_store_revision
    finished reference revision pending x h' final sw =
        let same : rotated reference revision pending ≡ outcome = ground arith in
        subst
          (λ o.
            Swapped e id old (to_credential_source o.reference) now s.providers
              (rotate_provider header_name parse_url is_rfc3339 store backend plaintext io e id old
                secret now uuid s).1.providers
              o.provider_store_revision)
          same
          (subst (λ y. Swapped e id old (to_credential_source reference) now s.providers y revision)
            (sym final) sw)

    rotate-Swapped :
        Swapped e id old
          (to_credential_source outcome.reference)
          now
          s.providers
          (rotate_provider header_name parse_url is_rfc3339 store backend plaintext io e id old
            secret now uuid s).1.providers
          outcome.provider_store_revision
    unfolding rotate_provider
    rotate-Swapped =
        let (_, _, h1, e1) = went_on (lift (not_blank backend plaintext io secret)) _ s outcome h in
        let (current, _, h2, e2) =
          went_on
            (on_providers (
              reading (
                credential_snapshot header_name parse_url is_rfc3339 store backend plaintext io
                  id)))
            _ s outcome h1 in
        let (_, _, h3, e3) =
          went_on (lift (guard (current.store_revision == e) (error store_revision_conflict))) _ s
            outcome h2 in
        let (_, _, h4, e4) =
          went_on
            (lift (guard (same_source current.source old) (error provider_credential_conflict))) _ s
            outcome h3 in
        let (version, _, h5, e5) =
          went_on (lift (next_version (reference_of old))) _ s outcome h4 in
        let (reference, _, h6, e6) = went_on (lift (new_reference uuid version)) _ s outcome h5 in
        let (_, _, h7, e7) =
          went_on (on_secrets (write_exact backend plaintext io reference secret)) _ s outcome h6 in
        let written = (on_secrets (write_exact backend plaintext io reference secret) s).1 in
        let (revision, sw, h8, e8) =
          went_on
            (swap_or_compensate header_name parse_url is_rfc3339 store backend plaintext io e id old
              reference now)
            _ written outcome h7 in
        let swapped =
          (swap_or_compensate header_name parse_url is_rfc3339 store backend plaintext io e id old
            reference now written).1 in
        let (pending, _, h9, e9) =
          went_on
            (clean_up header_name parse_url is_rfc3339 store backend plaintext io
              (reference_of old))
            _ swapped outcome h8 in
        let whole = e1 ∙ e2 ∙ e3 ∙ e4 ∙ e5 ∙ e6 ∙ e7 ∙ e8 ∙ e9 in
        finished reference revision pending swapped.providers h9
          (ap (λ r. r.1.providers) whole ∙ clean_up-providers (reference_of old) swapped)
          (swap_or_compensate-Swapped e id old reference now written revision sw)

    -- After a rotation that succeeds, the next load of the providers gives the revision that it told, at
    -- which this provider has the new reference for its source, and the others are as they were.
    pub rotate-IsReplaced :
        (before : StoreSnapshot ProviderCollection)
        → store.load s.providers ≡ ok before
        → (snap : StoreSnapshot ProviderCollection) × (store.load
              (rotate_provider header_name parse_url is_rfc3339 store backend plaintext io e id old
                secret now uuid s).1.providers
            ≡ ok snap)
          × (outcome.provider_store_revision ≡ snap.revision)
          × IsReplaced header_name parse_url is_rfc3339 store id
              (to_credential_source outcome.reference)
              now
              before
              snap
    rotate-IsReplaced before read =
        let sw = rotate-Swapped in
        (
          sw.snap,
          ap store.load sw.state
              ∙ load-replace header_name parse_url is_rfc3339 store e id old
                  (to_credential_source outcome.reference) now s.providers before sw.snap read
                  sw.replaced,
          sw.at,
          replace-IsReplaced header_name parse_url is_rfc3339 store e id old
              (to_credential_source outcome.reference) now s.providers before sw.snap read
              sw.replaced,
        )
