-- ===== src/Planner/Route/Examples.antt =====
-- A provider of chat completions, on the standard catalog (services/provider_planner.rs).
use lam.Prelude.{String, ◌≡◌, ◌↔◌, true, false, Option, none, some, [], ◌∷◌}
use lam.Capability.{CapabilitySupport, CapabilityDeclaration}
use lam.Provider.{ProviderProfileV2, chat_completions, local_adapter, bearer, env}
use lam.Planner.Route.{RoutePlanInput, standard, has_model, plan_provider_route}
use lam.Planner.Route.Blockers.{IsOpen, blockers-IsOpen_iff}

abbrev pub unknown_capabilities : CapabilityDeclaration
unknown_capabilities = record {
  streaming = CapabilitySupport.unknown;
  function_tools = CapabilitySupport.unknown;
  structured_outputs = CapabilitySupport.unknown;
  reasoning = CapabilitySupport.unknown;
}

abbrev pub provider : ProviderProfileV2
provider = record {
  id = "acme";
  name = "Acme";
  protocol = chat_completions;
  base_url = "https://api.acme.example/v1";
  default_model = "m";
  models = record { id = "m"; label = "M"; capabilities = none; context_window = none } ∷ [];
  upstream_auth = bearer (env "ACME_KEY");
  capabilities = unknown_capabilities;
  adapter = local_adapter "responses_to_chat_completions" "/chat/completions";
  compatibility_profile = none;
  codex = record {
    display_name = none;
    stream_idle_timeout_ms = none;
    direct_request_max_retries = none;
    direct_stream_max_retries = none;
    route_via_gateway = false;
    query_params = [];
    env_http_headers = [];
    reasoning_effort = none;
  };
  created_at = "now";
  updated_at = "now";
}

abbrev input : RoutePlanInput
input = record { provider = provider; selected_model = "m"; adapters = standard }

abbrev header_name : String → Option String
header_name s = some s

blockers-IsOpen_iff_example : ((plan_provider_route header_name input).blockers ≡ []) ↔ (
    (has_model "m" provider.models ≡ true)
    × IsOpen header_name standard provider (plan_provider_route header_name input))
blockers-IsOpen_iff_example = blockers-IsOpen_iff header_name input
