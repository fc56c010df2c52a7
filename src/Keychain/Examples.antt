-- ===== src/Keychain/Examples.antt =====
-- Checks at concrete inputs: a Keychain that holds one item, and secrets in the file before it.
use lam.Prelude.{String, true, Option, none, some, [], ◌∷◌, ◌≡◌, refl, ap, false}
use lam.Errors.{ok, err, error, keychain_item_not_found}
use lam.Store.{StoreSnapshot}
use lam.Store.Memory.{memory}
use lam.Provider.{ProviderCollection, env, keychain}
use lam.Provider.Credentials.{validate_upstream_auth}
use lam.Provider.Repository.{same_source, replace_credential_source}
use lam.Provider.Repository.Effects.{IsReplaced}
use lam.Provider.Repository.Examples.{lower, parsed, any_time, acme}
use lam.Keychain.Rotation.{
  RotationStores, CredentialRotationOutcome, next_version, credential_snapshot, swap_or_compensate,
  clean_up, rotate_provider,
}
use lam.Keychain.Rotation.Rotated.{rotate-IsReplaced}
use lam.Keychain.{
  reference_of, KeychainCredentialReference, SecretIo, holding, absent, from_parts, new_reference,
  plaintext_credential_key, insert, remove,
}
use lam.Keychain.Service.{KeychainBackend, Secrets, write_exact, with_secret, revoke, not_blank}
use lam.Keychain.Service.RoundTrip.{with_secret-write_exact, with_secret-revoke}

abbrev reference : KeychainCredentialReference
reference = record { service = "lam.remote-provider"; account = "credential/acme/v3"; version = 3 }

new_acme : new_reference "acme" 3 ≡ ok reference
unfolding new_reference
new_acme = refl

-- a Keychain that holds at most one secret, under any reference
abbrev one_item : KeychainBackend (Option String)
one_item = record {
  write = λ r secret k. (ok tt, some secret);
  read = λ r k. elim k [ none ↦ err (error keychain_item_not_found) | some secret ↦ ok secret ];
  delete = λ r k. elim k [
    | none ↦ (err (error keychain_item_not_found), none)
    | some secret ↦ (ok tt, none)
  ];
}

abbrev all_work : SecretIo
all_work = record { readable = true; created = true; written = true; renamed = true }

abbrev fresh : Secrets (Option String)
fresh = record { file = absent; keychain = none }

abbrev stored : Secrets (Option String)
stored = record { file = holding (("acme", "s3") ∷ []); keychain = none }

write_acme : write_exact one_item true all_work reference "s3" fresh ≡ (ok tt, stored)
unfolding write_exact from_parts not_blank plaintext_credential_key insert
write_acme = refl

with_secret-write_exact_example :
    with_secret one_item true all_work reference
      (write_exact one_item true all_work reference "s3" fresh).1
    ≡ (ok "s3", (write_exact one_item true all_work reference "s3" fresh).1)
with_secret-write_exact_example =
    with_secret-write_exact all_work refl one_item true reference "s3" fresh (λ k e. refl)
      (ap (λ r. r.0) write_acme)

-- The secret was copied from the Keychain, where it stays.
abbrev copied : Secrets (Option String)
copied = record { file = holding (("acme", "s3") ∷ []); keychain = some "s3" }

revoke_acme : (revoke one_item true all_work reference copied).0 ≡ ok tt
unfolding revoke from_parts plaintext_credential_key remove
revoke_acme = refl

with_secret-revoke_example :
    (with_secret one_item true all_work reference
      (revoke one_item true all_work reference copied).1).0
    ≡ ok "s3"
unfolding not_blank
with_secret-revoke_example =
    with_secret-revoke all_work refl one_item true reference copied refl refl revoke_acme

-- a provider whose key came from the environment gets its first secret
abbrev one_provider : StoreSnapshot ProviderCollection
one_provider = record {
  schema_version = 1;
  revision = 4;
  value = record { providers = acme ∷ [] };
  exists = true;
}

abbrev before : RotationStores (StoreSnapshot ProviderCollection) (Option String)
before = record { providers = one_provider; secrets = fresh }

abbrev first_secret : CredentialRotationOutcome
first_secret = record {
  reference = record { service = "lam.remote-provider"; account = "credential/u1/v1"; version = 1 };
  provider_store_revision = 5;
  cleanup_pending = false;
}

rotated :
    (rotate_provider lower parsed any_time memory one_item true all_work 4 "acme"
      (env "ACME_KEY")
      "s1"
      "t1"
      "u1"
      before).0
    ≡ ok first_secret
unfolding rotate_provider not_blank credential_snapshot same_source next_version reference_of
    new_reference write_exact plaintext_credential_key insert swap_or_compensate
    replace_credential_source validate_upstream_auth clean_up memory
rotated = refl

rotate-IsReplaced_example :
    (snap : StoreSnapshot ProviderCollection) × ((memory {T = ProviderCollection}).load
        (rotate_provider lower parsed any_time memory one_item true all_work 4 "acme"
          (env "ACME_KEY")
          "s1"
          "t1"
          "u1"
          before).1.providers
      ≡ ok snap)
    × (5 ≡ snap.revision)
    × IsReplaced lower parsed any_time memory "acme"
        (keychain "lam.remote-provider" "credential/u1/v1" 1)
        "t1"
        one_provider
        snap
rotate-IsReplaced_example =
    rotate-IsReplaced lower parsed any_time memory one_item true all_work 4 "acme" (env "ACME_KEY")
      "s1" "t1" "u1" before first_secret rotated one_provider (unfold memory in refl)
