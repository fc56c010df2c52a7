-- ===== src/Keychain.antt =====
-- services/provider_keychain.rs and services/credential_store.rs: secrets under versioned references, in
-- the system's Keychain or in a private file of JSON. Here are the references and the file.
--
-- The Keychain comes from outside (`KeychainBackend`), as do the outcomes of the file's calls (`SecretIo`).
pub mod Service
pub mod Rotation
mod Examples
use lam.Prelude.{
  ℕ, String, Bool, true, false, not, ◌&&◌, ◌||◌, ◌==◌, string_eq, nat_eq, leb, ltb, Option, none,
  some, List, [], ◌∷◌, if◌then◌else◌,
}
use Prim.Native.String.{len, ◌++◌}
use lam.Prelude.Keyed.{get, insert_sorted, without}
use lam.Prelude.Text.{
  is_empty, all_chars, any_char, is_control, is_ascii_alphanumeric, has_prefix, has_suffix,
  strip_prefix, split_at,
}
use lam.Prelude.Decimal.{decimal}
use lam.Errors.{
  Result, ok, err, error, guard, ◌>>=◌, ◌>>◌, keychain_reference_invalid, secret_store_read_failed,
  secret_store_invalid, secret_store_write_failed,
}
use lam.Exec.{Exec, reading}
use lam.Binding.{BTreeMap}
use lam.Provider.{CredentialSource, env, keychain, auth_command, codex_profile, no_source}

abbrev pub remote_provider_keychain_service : String
remote_provider_keychain_service = "lam.remote-provider"

pub record KeychainCredentialReference : Type 0 where
  pub service : String
  pub account : String
  pub version : ℕ

unfoldable pub from_parts : String → String → ℕ → Result KeychainCredentialReference
unfolding has_prefix has_suffix any_char is_control decimal
from_parts service account version =
    if not (service == remote_provider_keychain_service)
      || version == 0
      || ltb 256 (len account)
      || not (has_prefix "credential/" account)
      || not (has_suffix ("/v" ++ decimal version) account)
      || any_char is_control account
    then err (error keychain_reference_invalid)
    else ok (record { service = service; account = account; version = version })

unfoldable pub valid_credential_id : String → Bool
unfolding is_empty all_chars is_ascii_alphanumeric
valid_credential_id credential_id =
    not (is_empty credential_id)
    && leb (len credential_id) 128
    && all_chars (λ c. is_ascii_alphanumeric c || c == b'-' || c == b'_') credential_id

unfoldable pub new_reference : String → ℕ → Result KeychainCredentialReference
unfolding from_parts valid_credential_id decimal
new_reference credential_id version =
    guard (valid_credential_id credential_id && not (version == 0))
      (error keychain_reference_invalid)
    >> from_parts remote_provider_keychain_service
        ("credential/" ++ credential_id ++ "/v" ++ decimal version) version

abbrev pub to_credential_source : KeychainCredentialReference → CredentialSource
to_credential_source r = keychain r.service r.account r.version

-- `try_from`
unfoldable pub reference_of : CredentialSource → Result KeychainCredentialReference
reference_of (keychain service account version) = from_parts service account version
reference_of _ = err (error keychain_reference_invalid)

unfoldable pub plaintext_credential_key : String → Option String
unfolding strip_prefix split_at is_empty
plaintext_credential_key account = elim (strip_prefix "credential/" account) [
  | none ↦ none
  | some trimmed ↦ let id = (split_at b'/' trimmed).0 in if is_empty id then none else some id
]

-- What stands at the path of a `JsonFileStore`.
pub data SecretFile : Type 0 where
  absent not_json : SecretFile
  holding : BTreeMap String → SecretFile

-- Which calls succeed: the read, the creation of the directory, the write of the temporary file and
-- its rename.
pub record SecretIo : Type 0 where
  pub readable : Bool
  pub created : Bool
  pub written : Bool
  pub renamed : Bool

abbrev pub entry_key : String × String → String
entry_key e = e.0

module _ (io : SecretIo) where
  unfoldable pub load_all : SecretFile → Result (BTreeMap String)
  load_all absent = ok []
  load_all not_json =
      guard io.readable (error secret_store_read_failed) >> err (error secret_store_invalid)
  load_all (holding entries) = guard io.readable (error secret_store_read_failed) >> ok entries

  abbrev lookup : String → BTreeMap String → Option String
  lookup key entries = elim (get entry_key key entries) [ none ↦ none | some e ↦ some e.1 ]

  unfoldable pub get_secret : String → SecretFile → Result (Option String)
  unfolding load_all
  get_secret key file = load_all file >>= λ entries. ok (lookup key entries)

  unfoldable pub persist : BTreeMap String → Exec SecretFile (Unit {0})
  persist entries file =
      if io.created && io.written && io.renamed
      then (ok tt, holding entries)
      else (err (error secret_store_write_failed), file)

  unfoldable pub insert : String → String → Exec SecretFile (Unit {0})
  unfolding load_all insert_sorted persist
  insert key value file = elim (load_all file) [
    | err e ↦ (err e, file)
    | ok entries ↦
        persist (insert_sorted entry_key (key, value) (without entry_key key entries)) file
  ]

  unfoldable pub remove : String → Exec SecretFile (Unit {0})
  unfolding load_all persist
  remove key file = elim (load_all file) [
    | err e ↦ (err e, file)
    | ok entries ↦ persist (without entry_key key entries) file
  ]
