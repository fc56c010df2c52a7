-- ===== src/Provider/Build.antt =====
-- `build_provider` and its validators, of services/provider_v2.rs. The url crate and chrono's parser
-- come from outside.
pub mod WellFormed
use lam.Prelude.{
  ℕ, String, Bool, true, false, not, ◌&&◌, ◌||◌, ◌==◌, string_eq, nat_eq, leb, ltb, if◌then◌else◌,
  Option, none, some, List, [], ◌∷◌, any, arith,
}
use Prim.Native.String.{len, ◌++◌}
use lam.Prelude.Keyed.{sort}
use lam.Prelude.Text.{
  trim, is_empty, all_chars, any_char, is_control, is_ascii_alphanumeric, trim_end_matches,
  trim_start_matches, has_prefix, split, valid_id_text,
}
use lam.Errors.{
  Result, ok, err, error, guard, ◌>>=◌, ◌>>◌, provider_invalid_id, provider_reserved_id,
  provider_url_invalid, provider_url_userinfo, provider_url_insecure, provider_model_duplicate,
  provider_default_model_missing, provider_adapter_invalid, provider_adapter_unknown,
  provider_adapter_path_invalid, provider_compatibility_unknown, provider_codex_options_invalid,
  provider_timestamp_invalid, provider_invalid,
}
use lam.Capability.{CapabilitySupport, CapabilityDeclaration}
use lam.Provider.{
  ProviderProtocol, responses, chat_completions, ProviderModel, AdapterConfig, no_adapter,
  local_adapter, UpstreamAuth, CodexProviderOptions, ProviderProfileV2,
}
use lam.Provider.Credentials.{validate_upstream_auth, validate_codex_security_options}

pub record ProviderInput : Type 0 where
  pub id : String
  pub name : String
  pub protocol : ProviderProtocol
  pub base_url : String
  pub default_model : String
  pub models : List ProviderModel
  pub upstream_auth : UpstreamAuth
  pub adapter : AdapterConfig
  pub compatibility_profile : Option String
  pub codex : CodexProviderOptions

-- What the code reads of a parsed `Url`, and what the url prints as once its path is set.
pub record Url : Type 0 where
  pub username : String
  pub has_password : Bool
  pub scheme : String
  pub host : Option String
  pub path : String
  pub has_query : Bool
  pub has_fragment : Bool
  pub with_path : String → String

-- `T::contains(&x)` on a list of texts
abbrev one_of : String → List String → Bool
one_of s texts = any (λ t. t == s) texts

unfoldable pub required_trimmed : String → Result String
unfolding trim is_empty
required_trimmed value =
    if is_empty (trim value) then err (error provider_invalid) else ok (trim value)

abbrev reserved_provider_ids : List String
reserved_provider_ids = "openai" ∷ "ollama" ∷ "lmstudio" ∷ []

unfoldable pub validate_provider_id : String → Result String
unfolding trim is_empty valid_id_text
validate_provider_id input =
    let id = trim input in
    if is_empty id || ltb 64 (len id)
    then err (error provider_invalid_id)
    else if not (valid_id_text id)
    then err (error provider_invalid_id)
    else if one_of id reserved_provider_ids
    then err (error provider_reserved_id)
    else ok id

-- `matches!(url.host_str(), Some("127.0.0.1" | "::1" | "localhost"))`
unfoldable pub is_loopback_host : Option String → Bool
is_loopback_host none = false
is_loopback_host (some h) = h == "127.0.0.1" || h == "::1" || h == "localhost"

abbrev has_host : Url → Bool
has_host url = elim url.host [ none ↦ false | some h ↦ true ]

unfoldable pub canonical_url : Url → Result String
unfolding is_loopback_host is_empty trim_end_matches
canonical_url url = do
  guard (is_empty url.username && not url.has_password) (error provider_url_userinfo)
  guard (url.scheme == "https" || (url.scheme == "http" && is_loopback_host url.host))
      (error provider_url_insecure)
  guard (has_host url && not url.has_query && not url.has_fragment) (error provider_url_invalid)
  let path = if url.path == "/" then "" else trim_end_matches b'/' url.path
  ok (trim_end_matches b'/' (url.with_path path))

unfoldable pub canonicalize_base_url : (String → Option Url) → String → Result String
unfolding canonical_url trim
canonicalize_base_url parse_url input = elim (parse_url (trim input)) [
  | none ↦ err (error provider_url_invalid)
  | some url ↦ canonical_url url
]

-- the loop over the models, with the ids so far
unfoldable pub check_models : List String → List ProviderModel → Result (List ProviderModel)
unfolding required_trimmed
check_models seen [] = ok []
check_models seen (m ∷ models) = required_trimmed m.id >>= λ id.
    required_trimmed m.label >>= λ label.
    (if one_of id seen
      then err (error provider_model_duplicate)
      else (check_models (id ∷ seen) models >>= λ checked.
          ok (record m { id = id; label = label } ∷ checked)))

abbrev pub model_id : ProviderModel → String
model_id m = m.id

unfoldable pub validate_models : List ProviderModel → String → Result (List ProviderModel × String)
validate_models models default_model = do
  default ← required_trimmed default_model
  checked ← check_models [] models
  guard (any (λ m. model_id m == default) checked) (error provider_default_model_missing)
  ok (sort model_id checked, default)

-- an absolute path with nothing in it that a server could read as another
unfoldable pub is_plain_path : String → Bool
unfolding has_prefix any_char is_control split
is_plain_path path =
    has_prefix "/" path
    && not (has_prefix "//" path)
    && not (any_char (λ c. c == b'?' || c == b'#' || c == b'\\' || c == b'%') path)
    && not (any_char is_control path)
    && not (any (λ piece. piece == "." || piece == "..") (split b'/' path))

unfoldable pub validate_upstream_path : String → Result String
unfolding is_plain_path trim trim_end_matches
validate_upstream_path input =
    if is_plain_path (trim input)
    then ok (trim_end_matches b'/' (trim input))
    else err (error provider_adapter_path_invalid)

abbrev responses_chat_adapter : String
responses_chat_adapter = "responses_to_chat_completions"

unfoldable pub validate_adapter : ProviderProtocol → AdapterConfig → Result AdapterConfig
unfolding validate_upstream_path
validate_adapter protocol no_adapter = ok no_adapter
validate_adapter responses (local_adapter id path) = err (error provider_adapter_invalid)
validate_adapter chat_completions (local_adapter id path) =
    if id == responses_chat_adapter
    then (validate_upstream_path path >>= λ p. ok (local_adapter id p))
    else err (error provider_adapter_unknown)

abbrev compatibility_profiles : List String
compatibility_profiles = "openai_chat_completions" ∷ "deepseek_chat_completions" ∷ []

unfoldable pub validate_compatibility : Option String → Result (Option String)
validate_compatibility none = ok none
validate_compatibility (some value) =
    if one_of value compatibility_profiles
    then ok (some value)
    else err (error provider_compatibility_unknown)

-- `is_some_and(|v| v > limit)`
abbrev above : ℕ → Option ℕ → Bool
above limit none = false
above limit (some v) = ltb limit v

abbrev below : ℕ → Option ℕ → Bool
below limit none = false
below limit (some v) = ltb v limit

abbrev unknown_capabilities : CapabilityDeclaration
unknown_capabilities = record {
  streaming = CapabilitySupport.unknown;
  function_tools = CapabilitySupport.unknown;
  structured_outputs = CapabilitySupport.unknown;
  reasoning = CapabilitySupport.unknown;
}

-- `input.codex`, with `route_via_gateway` cleared for a provider of responses
unfoldable pub codex_of : ProviderInput → CodexProviderOptions
codex_of input = elim input.protocol [
  | responses ↦ record input.codex { route_via_gateway = false }
  | chat_completions ↦ input.codex
]

module _ (header_name : String → Option String) where
  unfoldable pub validate_codex_options : CodexProviderOptions → Result (Unit {0})
  unfolding validate_codex_security_options
  validate_codex_options options =
      if above 3 options.direct_request_max_retries
        || above 3 options.direct_stream_max_retries
        || below 1_000 options.stream_idle_timeout_ms
        || above 900_000 options.stream_idle_timeout_ms
      then err (error provider_codex_options_invalid)
      else validate_codex_security_options header_name options

  module _ (parse_url : String → Option Url) (is_rfc3339 : String → Bool) where
    unfoldable pub build_provider : ProviderInput → String → Result ProviderProfileV2
    build_provider input now = do
      guard (is_rfc3339 now) (error provider_timestamp_invalid)
      id ← validate_provider_id input.id
      name ← required_trimmed input.name
      base_url ← canonicalize_base_url parse_url input.base_url
      (models, default_model) ← validate_models input.models input.default_model
      adapter ← validate_adapter input.protocol input.adapter
      compatibility_profile ← validate_compatibility input.compatibility_profile
      validate_upstream_auth header_name input.upstream_auth
      validate_codex_options (codex_of input)
      ok (record {
        id = id;
        name = name;
        protocol = input.protocol;
        base_url = base_url;
        default_model = default_model;
        models = models;
        upstream_auth = input.upstream_auth;
        capabilities = unknown_capabilities;
        adapter = adapter;
        compatibility_profile = compatibility_profile;
        codex = codex_of input;
        created_at = now;
        updated_at = now;
      })

    -- `format!("{}/{}", ..)`
    unfoldable pub join_upstream_endpoint : String → String → Result String
    unfolding canonicalize_base_url validate_upstream_path trim_end_matches trim_start_matches
    join_upstream_endpoint base_url upstream_path = do
      base ← canonicalize_base_url parse_url base_url
      path ← validate_upstream_path upstream_path
      ok (trim_end_matches b'/' base ++ ("/" ++ trim_start_matches b'/' path))
