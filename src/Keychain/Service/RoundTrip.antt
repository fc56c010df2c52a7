-- ===== src/Keychain/Service/RoundTrip.antt =====
-- What is read of a secret that was written, and of one that was revoked (services/provider_keychain.rs).
use lam.Prelude.{
  String, Bool, true, false, ◌&&◌, string_eq, none, some, [], ◌≡◌, refl, arith, eq_iff,
}
use lam.Prelude.Keyed.{get, insert_sorted, without, get-insert_sorted, has-without_self, get_of_has}
use lam.Errors.{Result, ok, err, error, ok_or, ◌>>=◌, ◌>>◌, keychain_reference_invalid}
use lam.Binding.{BTreeMap}
use lam.Keychain.{
  KeychainCredentialReference, SecretFile, SecretIo, entry_key, load_all, get_secret, insert,
  remove, persist, plaintext_credential_key, absent, not_json, holding,
}
use lam.Keychain.Service.{
  KeychainBackend, Secrets, sanitized, uses_plaintext, key_of, not_blank, write_exact,
  read_plaintext, with_secret, revoke,
}

module _ (io : SecretIo) (readable : io.readable ≡ true) where
  look_up-inserted :
      (key secret : String) (entries : BTreeMap String)
      → get entry_key key (insert_sorted entry_key (key, secret) (without entry_key key entries))
        ≡ some (key, secret)
  look_up-inserted key secret entries = ground (
    arith,
    get-insert_sorted entry_key key (key, secret) (without entry_key key entries)
        (has-without_self entry_key key entries),
    eq_iff key key,
  )

  look_up-removed :
      (key : String) (entries : BTreeMap String)
      → get entry_key key (without entry_key key entries) ≡ none
  look_up-removed key entries =
      get_of_has entry_key key (without entry_key key entries)
        (has-without_self entry_key key entries)

  -- A file gives back what was inserted.
  get_secret-insert :
      (key secret : String) (file : SecretFile)
      → (insert io key secret file).0 ≡ ok tt
      → get_secret io key (insert io key secret file).1 ≡ ok (some secret)
  unfolding insert persist get_secret load_all
  get_secret-insert key secret absent h = ground (arith, readable, look_up-inserted key secret [])
  get_secret-insert key secret not_json h = ground (arith, readable)
  get_secret-insert key secret (holding entries) h =
      ground (arith, readable, look_up-inserted key secret entries)

  -- What was removed is not there.
  get_secret-remove :
      (key : String) (file : SecretFile)
      → (remove io key file).0 ≡ ok tt
      → get_secret io key (remove io key file).1 ≡ ok none
  unfolding remove persist get_secret load_all
  get_secret-remove key absent h = ground (arith, readable)
  get_secret-remove key not_json h = ground (arith, readable)
  get_secret-remove key (holding entries) h = ground (arith, readable, look_up-removed key entries)

  insert-remove :
      (key secret : String) (file : SecretFile)
      → io.created && io.written && io.renamed ≡ true
      → (remove io key file).0 ≡ ok tt
      → (insert io key secret (remove io key file).1).0 ≡ ok tt
  unfolding remove insert persist load_all
  insert-remove key secret absent works h = ground (arith, readable)
  insert-remove key secret not_json works h = ground (arith, readable)
  insert-remove key secret (holding entries) works h = ground (arith, readable)

  module _ {K : Type 0} (backend : KeychainBackend K) (plaintext : Bool) where
    -- A secret that was written is read back, from the file or from the Keychain, and nothing
    -- changes by that. The file must be readable, and the Keychain give back what was set.
    pub with_secret-write_exact :
        (reference : KeychainCredentialReference) (secret : String) (s : Secrets K)
        → ((k : K)
            → (backend.write reference secret k).0 ≡ ok tt
            → backend.read reference (backend.write reference secret k).1 ≡ ok secret)
        → (write_exact backend plaintext io reference secret s).0 ≡ ok tt
        → with_secret backend plaintext io reference
            (write_exact backend plaintext io reference secret s).1
          ≡ (ok secret, (write_exact backend plaintext io reference secret s).1)
    unfolding write_exact with_secret read_plaintext
    with_secret-write_exact reference secret s given h =
        go (uses_plaintext backend plaintext io reference) refl
          (ok_or (plaintext_credential_key reference.account) (error keychain_reference_invalid))
          refl
      where
        go :
            (u : Bool)
            → uses_plaintext backend plaintext io reference ≡ u
            → (key : Result String) → key_of backend plaintext io reference ≡ key
            → with_secret backend plaintext io reference
                (write_exact backend plaintext io reference secret s).1
              ≡ (ok secret, (write_exact backend plaintext io reference secret s).1)
        go false u key e = ground (arith, given s.keychain)
        go true u (ok key) e = ground (arith, get_secret-insert key secret s.file)
        go true u (err _) e = ground arith

    -- After a successful revocation in plaintext mode, a reader is given what the Keychain still holds
    -- under the reference: only the copy in the file is gone.
    pub with_secret-revoke :
        (reference : KeychainCredentialReference) (s : Secrets K)
        → uses_plaintext backend plaintext io reference ≡ true
        → io.created && io.written && io.renamed ≡ true
        → (revoke backend plaintext io reference s).0 ≡ ok tt
        → (with_secret backend plaintext io reference (revoke backend plaintext io reference s).1).0
          ≡ (sanitized (backend.read reference s.keychain) >>= λ v.
              not_blank backend plaintext io v >> ok v)
    unfolding revoke with_secret read_plaintext
    with_secret-revoke reference s plain works h =
        go (ok_or (plaintext_credential_key reference.account) (error keychain_reference_invalid))
          refl (backend.read reference s.keychain) refl
      where
        go :
            (key : Result String)
            → key_of backend plaintext io reference ≡ key
            → (read : Result String) → backend.read reference s.keychain ≡ read
            → (with_secret backend plaintext io reference
                (revoke backend plaintext io reference s).1).0
              ≡ (sanitized (backend.read reference s.keychain) >>= λ v.
                  not_blank backend plaintext io v >> ok v)
        go (ok key) e (ok held) r =
            ground (arith, get_secret-remove key s.file, insert-remove key held s.file works)
        go (ok key) e (err _) r = ground (arith, get_secret-remove key s.file)
        go (err _) e read r = ground arith
