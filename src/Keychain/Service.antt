-- ===== src/Keychain/Service.antt =====
-- `KeychainCredentialService` of services/provider_keychain.rs, over a Keychain from outside.
pub mod RoundTrip
use lam.Prelude.{
  ℕ, String, Bool, true, false, not, ◌&&◌, ◌==◌, string_eq, Option, none, some, if◌then◌else◌,
}
use lam.Prelude.Text.{trim, is_empty}
use lam.Errors.{
  AppError, ErrorCode, Result, ok, err, error, guard, ok_or, keychain_reference_invalid,
  provider_secret_empty, is_not_found,
}
use lam.Exec.{Exec, lift, ◌>>=◌, ◌>>◌}
use lam.Keychain.{
  KeychainCredentialReference, remote_provider_keychain_service, from_parts,
  plaintext_credential_key, SecretFile, SecretIo, get_secret, insert, remove,
}

-- `KeychainBackend`, over the state `K` of the Keychain
pub record KeychainBackend (K : Type 0) : Type 0 where
  pub write : KeychainCredentialReference → String → Exec K (Unit {0})
  pub read : KeychainCredentialReference → K → Result String
  pub delete : KeychainCredentialReference → Exec K (Unit {0})

-- the file, where one is used, and the Keychain
pub record Secrets (K : Type 0) : Type 0 where
  pub file : SecretFile
  pub keychain : K

-- `sanitize_keychain_error`
abbrev pub sanitized : {A : Type 0} → Result A → Result A
sanitized (ok a) = ok a
sanitized (err e) = err (record e { details = none })

module _ {K : Type 0} where
  abbrev on_file : {A : Type 0} → Exec SecretFile A → Exec (Secrets K) A
  on_file m s = let r = m s.file in (r.0, record s { file = r.1 })

  abbrev on_keychain : {A : Type 0} → Exec K A → Exec (Secrets K) A
  on_keychain m s = let r = m s.keychain in (r.0, record s { keychain = r.1 })

module _ {K : Type 0} (backend : KeychainBackend K) (plaintext : Bool) (io : SecretIo) where
  abbrev pub checked : KeychainCredentialReference → Result KeychainCredentialReference
  checked reference = from_parts reference.service reference.account reference.version

  abbrev pub uses_plaintext : KeychainCredentialReference → Bool
  uses_plaintext reference = plaintext && reference.service == remote_provider_keychain_service

  abbrev pub key_of : KeychainCredentialReference → Result String
  key_of reference =
      ok_or (plaintext_credential_key reference.account) (error keychain_reference_invalid)

  unfoldable pub not_blank : String → Result (Unit {0})
  unfolding trim is_empty
  not_blank secret = guard (not (is_empty (trim secret))) (error provider_secret_empty)

  unfoldable pub write_exact : KeychainCredentialReference → String → Exec (Secrets K) (Unit {0})
  write_exact reference secret = do
    lift (checked reference)
    lift (not_blank secret)
    if uses_plaintext reference
        then (lift (key_of reference) >>= λ key. on_file (insert io key secret))
        else (λ s. let r = on_keychain (backend.write reference secret) s in (sanitized r.0, r.1))

  -- the secret of a reference that is in the file, or else of the Keychain, from which it is copied
  unfoldable pub read_plaintext : KeychainCredentialReference → String → Exec (Secrets K) String
  read_plaintext reference key s = elim (get_secret io key s.file) [
    | err e ↦ (err e, s)
    | ok (some secret) ↦ (ok secret, s)
    | ok none ↦
        (lift (sanitized (backend.read reference s.keychain)) >>= λ secret.
        on_file (insert io key secret) >> lift (ok secret))
          s
  ]

  -- the operation that is given the secret is the reader's
  unfoldable pub with_secret : KeychainCredentialReference → Exec (Secrets K) String
  with_secret reference = do
    lift (checked reference)
    secret ←
        (if uses_plaintext reference
          then (lift (key_of reference) >>= λ key. read_plaintext reference key)
          else (λ s. (sanitized (backend.read reference s.keychain), s)))
    lift (not_blank secret)
    lift (ok secret)

  unfoldable pub delete_item : KeychainCredentialReference → Exec K (Unit {0})
  delete_item reference k = elim (backend.delete reference k).0 [
    | ok done ↦ (ok tt, (backend.delete reference k).1)
    | err e ↦ (
      (if is_not_found e.code then ok tt else sanitized {A = Unit {0}} (err e)),
      (backend.delete reference k).1,
    )
  ]

  unfoldable pub revoke : KeychainCredentialReference → Exec (Secrets K) (Unit {0})
  revoke reference = do
    lift (checked reference)
    if uses_plaintext reference
        then (lift (key_of reference) >>= λ key. on_file (remove io key))
        else on_keychain (delete_item reference)
