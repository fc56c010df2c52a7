-- ===== src/Provider/Credentials.antt =====
-- services/provider_credentials.rs: which credential references are valid, and which of them Codex can
-- use without a gateway. `HeaderName::from_bytes` comes from outside: the parsed name, in lower case.
use lam.Prelude.{
  ℕ, String, Bool, not, ◌&&◌, ◌||◌, ◌==◌, string_eq, nat_eq, leb, ltb, Option, List, [], ◌∷◌, any,
  if◌then◌else◌,
}
use Prim.Native.String.{len}
use lam.Prelude.Text.{
  trim, is_empty, all_chars, contains, is_ascii_alphanumeric, env_name, to_ascii_lowercase,
}
use lam.Errors.{
  Result, ok, err, error, guard, ◌>>=◌, ◌>>◌, provider_auth_conflict, provider_credential_invalid,
  provider_env_invalid, provider_auth_header_invalid, provider_auth_header_forbidden,
  provider_auth_route_unsupported, ok_or, ErrorCode, provider_query_param_sensitive,
  provider_env_header_invalid, provider_env_header_forbidden, provider_credential_missing,
  provider_credential_encoding, provider_credential_empty, provider_credential_source_unsupported,
}
use lam.Provider.{
  CredentialSource, env, keychain, auth_command, codex_profile, no_source, UpstreamAuth, bearer,
  header, no_auth, CodexProviderOptions,
}
use lam.Binding.{BTreeMap}

pub data DirectCodexAuth : Type 0 where
  env_key : String → DirectCodexAuth
  env_header : String → String → DirectCodexAuth
  -- approval, command and arguments
  command : String → String → List String → DirectCodexAuth
  keychain_item : String → String → ℕ → DirectCodexAuth
  approved_command : String → DirectCodexAuth
  native_api_key through_gateway no_codex_auth : DirectCodexAuth

abbrev forbidden_header_names : List String
forbidden_header_names =
    "authorization" ∷ "proxy-authorization" ∷ "host" ∷ "content-length" ∷ "connection"
    ∷ "transfer-encoding" ∷ []

abbrev sensitive_query_tokens : List String
sensitive_query_tokens = "api_key" ∷ "apikey" ∷ "token" ∷ "secret" ∷ "auth" ∷ []

unfoldable pub is_sensitive_key : String → Bool
unfolding to_ascii_lowercase contains
is_sensitive_key key = any (λ token. contains token (to_ascii_lowercase key)) sensitive_query_tokens

unfoldable pub valid_profile_id : String → Bool
unfolding is_empty all_chars is_ascii_alphanumeric
valid_profile_id value =
    not (is_empty value)
    && leb (len value) 128
    && not (value == ".")
    && not (value == "..")
    && all_chars (λ c. is_ascii_alphanumeric c || c == b'-' || c == b'_' || c == b'.') value

unfoldable pub validate_env_name : String → Result (Unit {0})
unfolding env_name
validate_env_name value = guard (env_name value) (error provider_env_invalid)

unfoldable pub validate_source : CredentialSource → Result (Unit {0})
unfolding validate_env_name valid_profile_id trim is_empty
validate_source no_source = err (error provider_auth_conflict)
validate_source (env name) = validate_env_name name
validate_source (keychain service account version) =
    guard (not (is_empty (trim service)) && not (is_empty (trim account)) && ltb 0 version)
      (error provider_credential_invalid)
validate_source (auth_command approval_id) =
    guard (not (is_empty (trim approval_id))) (error provider_credential_invalid)
validate_source (codex_profile profile_id) =
    guard (valid_profile_id profile_id) (error provider_credential_invalid)

module _ (header_name : String → Option String) where
  -- `code_prefix` stands for its two codes
  unfoldable pub validate_header_name : ErrorCode → ErrorCode → String → Result (Unit {0})
  validate_header_name invalid forbidden name =
      ok_or (header_name name) (error invalid) >>= λ parsed.
      guard (not (any (λ f. f == parsed) forbidden_header_names)) (error forbidden)

  unfoldable pub validate_upstream_auth : UpstreamAuth → Result (Unit {0})
  unfolding validate_header_name validate_source
  validate_upstream_auth no_auth = ok tt
  validate_upstream_auth (bearer source) = validate_source source
  validate_upstream_auth (header name source) =
      validate_header_name provider_auth_header_invalid provider_auth_header_forbidden name
      >> validate_source source

  -- the `match` of `direct_codex_auth`
  unfoldable pub direct_route : UpstreamAuth → Result DirectCodexAuth
  unfolding to_ascii_lowercase
  direct_route no_auth = ok no_codex_auth
  direct_route (bearer (env name)) = ok (env_key name)
  direct_route (header name (env key)) = ok (env_header (to_ascii_lowercase name) key)
  direct_route (bearer (keychain service account version)) =
      ok (keychain_item service account version)
  direct_route (bearer (auth_command approval_id)) = ok (approved_command approval_id)
  direct_route (bearer (codex_profile profile_id)) = ok native_api_key
  direct_route _ = err (error provider_auth_route_unsupported)

  unfoldable pub direct_codex_auth : UpstreamAuth → Result DirectCodexAuth
  unfolding validate_upstream_auth direct_route
  direct_codex_auth auth = validate_upstream_auth auth >> direct_route auth

  unfoldable pub validate_env_headers : BTreeMap String → Result (Unit {0})
  unfolding validate_header_name validate_env_name
  validate_env_headers [] = ok tt
  validate_env_headers ((name, variable) ∷ entries) =
      validate_header_name provider_env_header_invalid provider_env_header_forbidden name
      >> (validate_env_name variable >> validate_env_headers entries)

  unfoldable pub validate_codex_security_options : CodexProviderOptions → Result (Unit {0})
  unfolding is_sensitive_key validate_env_headers
  validate_codex_security_options options =
      guard (not (any (λ entry. is_sensitive_key entry.0) options.query_params))
        (error provider_query_param_sensitive)
      >> validate_env_headers options.env_http_headers

-- What the environment has under a name: nothing, a text, or bytes that are no text.
pub data EnvValue : Type 0 where
  unset not_unicode : EnvValue
  value : String → EnvValue

unfoldable pub resolve_credential : (String → EnvValue) → CredentialSource → Result String
unfolding validate_env_name trim is_empty
resolve_credential get_env (env name) = validate_env_name name >> elim (get_env name) [
  | unset ↦ err (error provider_credential_missing)
  | not_unicode ↦ err (error provider_credential_encoding)
  | value v ↦ if is_empty (trim v) then err (error provider_credential_empty) else ok v
]
resolve_credential get_env _ = err (error provider_credential_source_unsupported)
