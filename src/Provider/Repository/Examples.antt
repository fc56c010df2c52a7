-- ===== src/Provider/Repository/Examples.antt =====
-- Checks at concrete inputs, over the store in memory: a provider of chat completions is created, and its
-- credential is replaced.
use lam.Prelude.{String, Bool, true, false, Option, none, some, List, [], ◌∷◌, ◌≡◌, refl}
use lam.Prelude.Keyed.{sort}
use lam.Errors.{ok}
use lam.Capability.{CapabilitySupport}
use lam.Store.{StoreSnapshot}
use lam.Store.Memory.{memory}
use lam.Store.Kept.{Keeps, memory-Keeps}
use lam.Provider.{
  env, bearer, chat_completions, local_adapter, ProviderProfileV2, ProviderCollection,
}
use lam.Provider.Credentials.{validate_upstream_auth, validate_codex_security_options}
use lam.Provider.Build.{
  ProviderInput, Url, required_trimmed, validate_provider_id, canonicalize_base_url, check_models,
  validate_models, validate_adapter, validate_compatibility, validate_codex_options, codex_of,
  build_provider,
}
use lam.Provider.Build.WellFormed.{IsWellFormed, build_provider-IsWellFormed}
use lam.Provider.Repository.{create_call, replace_call, ProviderCall, calls}
use lam.Provider.Repository.Invariant.{IsSound, calls-IsSound}

abbrev pub lower : String → Option String
lower name = some name

abbrev pub parsed : String → Option Url
parsed text = some (record {
  username = "";
  has_password = false;
  scheme = "https";
  host = some "api.example";
  path = "/v1/";
  has_query = false;
  has_fragment = false;
  with_path = λ path. text;
})

abbrev pub any_time : String → Bool
any_time text = true

abbrev pub input : ProviderInput
input = record {
  id = " acme ";
  name = "Acme";
  protocol = chat_completions;
  base_url = "https://api.example/v1/";
  default_model = "m1";
  models =
      (record { id = "m2"; label = "Two"; capabilities = none; context_window = none })
      ∷ (record { id = "m1"; label = "One"; capabilities = none; context_window = none })
      ∷ [];
  upstream_auth = bearer (env "ACME_KEY");
  adapter = local_adapter "responses_to_chat_completions" "/chat/completions";
  compatibility_profile = none;
  codex = record {
    display_name = none;
    stream_idle_timeout_ms = none;
    direct_request_max_retries = none;
    direct_stream_max_retries = none;
    route_via_gateway = true;
    query_params = [];
    env_http_headers = [];
    reasoning_effort = none;
  };
}

abbrev pub acme : ProviderProfileV2
acme = record {
  id = "acme";
  name = "Acme";
  protocol = chat_completions;
  base_url = "https://api.example/v1";
  default_model = "m1";
  models =
      (record { id = "m1"; label = "One"; capabilities = none; context_window = none })
      ∷ (record { id = "m2"; label = "Two"; capabilities = none; context_window = none })
      ∷ [];
  upstream_auth = bearer (env "ACME_KEY");
  capabilities = record {
    streaming = CapabilitySupport.unknown;
    function_tools = CapabilitySupport.unknown;
    structured_outputs = CapabilitySupport.unknown;
    reasoning = CapabilitySupport.unknown;
  };
  adapter = local_adapter "responses_to_chat_completions" "/chat/completions";
  compatibility_profile = none;
  codex = input.codex;
  created_at = "t0";
  updated_at = "t0";
}

built : build_provider lower parsed any_time input "t0" ≡ ok acme
unfolding build_provider required_trimmed validate_provider_id canonicalize_base_url validate_models
    check_models validate_adapter validate_compatibility validate_codex_options
    validate_upstream_auth validate_codex_security_options codex_of sort
built = refl

build_provider-IsWellFormed_example : IsWellFormed lower acme
build_provider-IsWellFormed_example =
    build_provider-IsWellFormed lower parsed any_time input "t0" acme built

abbrev empty : StoreSnapshot ProviderCollection
empty = record {
  schema_version = 1;
  revision = 0;
  value = record { providers = [] };
  exists = false;
}

abbrev two_calls : List (ProviderCall lower parsed any_time memory)
two_calls =
    create_call 0 input "t0" ∷ replace_call 1 "acme" (env "ACME_KEY") (env "OTHER_KEY") "t1" ∷ []

calls-IsSound_example :
    Keeps memory (IsSound lower) (calls lower parsed any_time memory two_calls empty)
calls-IsSound_example =
    calls-IsSound lower parsed any_time memory two_calls empty
      (memory-Keeps (IsSound lower) empty (record { unique = tt; each = tt }))
