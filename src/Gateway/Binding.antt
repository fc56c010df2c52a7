-- ===== src/Gateway/Binding.antt =====
-- services/gateway/binding.rs: a profile's right to the gateway, proved by a bearer token of which only
-- the hash is stored. Here are the data, the checks and the authentication; `Service` has the
-- operations that write, on the `Stores`.
--
-- sha2, hex, chrono and uuid come from outside (`Crates`).
pub mod Stores
pub mod Service
pub mod Digest
pub mod Accepted
pub mod Live
pub mod Retired
mod Examples
use Prim.Native.Nat.{bit_or, bit_xor}
use Prim.Native.String.{len, ◌++◌, compare}
use lam.Prelude.{
  ℕ, ◌+◌, ◌*◌, ◌^◌, String, Bool, true, false, not, ◌&&◌, ◌||◌, ◌==◌, string_eq, nat_eq, leb, ltb,
  Option, none, some, List, [], ◌∷◌, length, any, find, retain, is_some, if◌then◌else◌,
}
use lam.Prelude.Text.{trim, is_empty, any_char, is_control, is_whitespace, has_prefix, strip_prefix}
use lam.Errors.{
  Result, ok, err, error, guard, ok_or, ◌>>=◌, ◌>>◌, gateway_binding_expiry_invalid,
  gateway_binding_profile_invalid, gateway_binding_model_invalid, gateway_auth_invalid,
  gateway_auth_expired, gateway_auth_profile_mismatch, gateway_binding_timestamp_invalid,
  gateway_binding_generation_overflow,
}
use lam.Store.{StoreSnapshot}
use lam.Provider.{ProviderProfileV2}
use lam.Keychain.{KeychainCredentialReference, new_reference}

pub record GatewayBinding : Type 0 where
  pub schema_revision : ℕ
  pub binding_id : String
  pub profile_id : String
  pub provider_id : String
  pub selected_model : String
  pub provider_revision : ℕ
  pub provider : ProviderProfileV2
  pub token_hash : String
  pub credential_reference : KeychainCredentialReference
  pub generation : ℕ
  pub prepared_operation_id : Option String
  pub created_at : String
  pub expires_at : Option String
  pub revoked_at : Option String
  pub revocation_pending : Bool

pub record GatewayBindingCollection : Type 0 where
  pub bindings : List GatewayBinding

pub record GatewayTokenRequest : Type 0 where
  pub profile_id : String
  pub provider : ProviderProfileV2
  pub provider_revision : ℕ
  pub selected_model : String
  pub expires_at : Option String
  pub now : String

pub record GatewayBindingProvision : Type 0 where
  pub binding_id : String
  pub credential_reference : KeychainCredentialReference
  pub generation : ℕ
  pub store_revision : ℕ

pub record GatewayRevocationOutcome : Type 0 where
  pub store_revision : ℕ
  pub revocation_pending : Bool

pub record GatewayBindingSnapshot : Type 0 where
  pub binding_id : String
  pub profile_id : String
  pub provider_id : String
  pub selected_model : String
  pub provider_revision : ℕ
  pub provider : ProviderProfileV2
  pub credential_reference : KeychainCredentialReference
  pub generation : ℕ

-- `GatewayBindingSnapshot::from`
unfoldable pub snapshot_of : GatewayBinding → GatewayBindingSnapshot
snapshot_of b = record {
  binding_id = b.binding_id;
  profile_id = b.profile_id;
  provider_id = b.provider_id;
  selected_model = b.selected_model;
  provider_revision = b.provider_revision;
  provider = b.provider;
  credential_reference = b.credential_reference;
  generation = b.generation;
}

abbrev pub id_of : GatewayBinding → String
id_of b = b.binding_id

-- What the crates give: the SHA-256 of a text in bytes, hexadecimal both ways, the instant that an RFC
-- 3339 text names, and whether a text is a UUID.
pub record Crates : Type 0 where
  pub sha256 : String → List ℕ
  pub encode : List ℕ → String
  pub decode : String → Option (List ℕ)
  pub instant : String → Option ℕ
  pub is_uuid : String → Bool

-- the fold of `constant_time_eq`
unfoldable pub difference_of : List ℕ → List ℕ → ℕ → ℕ
difference_of (l ∷ ls) (r ∷ rs) difference = difference_of ls rs (bit_or difference (bit_xor l r))
difference_of _ _ difference = difference

unfoldable pub constant_time_eq : List ℕ → List ℕ → Bool
unfolding difference_of
constant_time_eq left right = difference_of left right 0 == 0

abbrev token_prefix : String
token_prefix = "lam_gw_"

-- `TOKEN_PREFIX.len() + TOKEN_RANDOM_BYTES * 2`
abbrev token_length : ℕ
token_length = 71

unfoldable pub parse_bearer : String → Result String
unfolding strip_prefix has_prefix any_char is_whitespace
parse_bearer value = do
  token ← ok_or (strip_prefix "Bearer " value) (error gateway_auth_invalid)
  guard
      (not (
        ltb (len token) token_length
        || not (has_prefix token_prefix token)
        || any_char is_whitespace token))
      (error gateway_auth_invalid)
  ok token

unfoldable pub validate_selected_model : ProviderProfileV2 → String → Result (Unit {0})
validate_selected_model provider selected_model =
    guard (any (λ m. m.id == selected_model) provider.models) (error gateway_binding_model_invalid)

-- `filter`, `map`, `max` and `unwrap_or(0)`
unfoldable pub last_generation : String → List GatewayBinding → ℕ
last_generation profile_id [] = 0
last_generation profile_id (b ∷ bs) =
    let rest = last_generation profile_id bs in
    if b.profile_id == profile_id && leb rest b.generation then b.generation else rest

-- `checked_add(1)`
unfoldable pub next_generation : ℕ → Result ℕ
next_generation last =
    guard (ltb (last + 1) (2 ^ 64)) (error gateway_binding_generation_overflow) >> ok (last + 1)

module _ (crates : Crates) where
  unfoldable pub parse_timestamp : String → Result ℕ
  parse_timestamp value = ok_or (crates.instant value) (error gateway_binding_timestamp_invalid)

  abbrev pub validate_timestamp : String → Result (Unit {0})
  validate_timestamp value = parse_timestamp value >>= λ instant. ok tt

  unfoldable pub expires_later : Option String → String → Result (Unit {0})
  unfolding parse_timestamp
  expires_later none now = ok tt
  expires_later (some expires_at) now = parse_timestamp expires_at >>= λ expiry.
      parse_timestamp now >>= λ start.
      guard (ltb start expiry) (error gateway_binding_expiry_invalid)

  unfoldable pub validate_request : GatewayTokenRequest → Result (Unit {0})
  unfolding expires_later parse_timestamp trim is_empty any_char is_control validate_selected_model
  validate_request request =
      validate_timestamp request.now
      >> (expires_later request.expires_at request.now
          >> (guard
                (not (
                  is_empty (trim request.profile_id)
                  || ltb 128 (len request.profile_id)
                  || any_char is_control request.profile_id))
                (error gateway_binding_profile_invalid)
              >> validate_selected_model request.provider request.selected_model))

  -- `token_hash`
  abbrev pub token_hash_of : String → String
  token_hash_of token = crates.encode (crates.sha256 token)

  -- the bytes are those that `OsRng` filled in
  unfoldable pub generate_token :
      String → ℕ → List ℕ → Result (String × KeychainCredentialReference)
  generate_token binding_id generation bytes =
      new_reference ("gateway-" ++ binding_id) generation >>= λ reference.
      ok (token_prefix ++ crates.encode bytes, reference)

  -- `decode_hash`: 32 bytes
  unfoldable pub decode_hash : String → Option (List ℕ)
  decode_hash value = elim (crates.decode value) [
    | none ↦ none
    | some bytes ↦ if length bytes == 32 then some bytes else none
  ]

  unfoldable pub holds_token : String → GatewayBinding → Bool
  unfolding decode_hash constant_time_eq
  holds_token token b = elim (decode_hash b.token_hash) [
    | none ↦ false
    | some stored ↦ constant_time_eq stored (crates.sha256 token)
  ]

  -- whether an expiry has come
  unfoldable pub has_expired : ℕ → Option String → Result Bool
  unfolding parse_timestamp
  has_expired now none = ok false
  has_expired now (some expires_at) = parse_timestamp expires_at >>= λ expires. ok (leb expires now)

  module _ {S : Type 0} (load : S → Result (StoreSnapshot GatewayBindingCollection)) where
    unfoldable pub authenticate : String → String → S → Result GatewayBindingSnapshot
    unfolding parse_timestamp snapshot_of
    authenticate authorization now s = do
      instant ← parse_timestamp now
      token ← parse_bearer authorization
      snapshot ← load s
      binding ←
          ok_or (find (holds_token token) snapshot.value.bindings) (error gateway_auth_invalid)
      guard (not (is_some binding.revoked_at || binding.revocation_pending))
          (error gateway_auth_invalid)
      expired ← has_expired instant binding.expires_at
      guard (not expired) (error gateway_auth_expired)
      ok (snapshot_of binding)

    unfoldable pub authenticate_for_profile :
        String → String → String → S → Result GatewayBindingSnapshot
    unfolding authenticate
    authenticate_for_profile profile_id authorization now s = do
      snapshot ← authenticate authorization now s
      guard (snapshot.profile_id == profile_id) (error gateway_auth_profile_mismatch)
      ok snapshot
