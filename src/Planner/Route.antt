-- ===== src/Planner/Route.antt =====
-- `plan_provider_route` of services/provider_planner.rs: the way from Codex to a provider, and what
-- stands in its way.
pub mod Blockers
pub mod Examples
use lam.Prelude.{
  ℕ, String, Bool, true, false, not, ◌&&◌, ◌==◌, string_eq, if◌then◌else◌, Option, none, some, List,
  [], ◌∷◌, ◌++◌, any,
}
use lam.Prelude.Keyed.{get}
use lam.Errors.{Result, ok, err}
use lam.Capability.{CapabilityDeclaration}
use lam.Binding.{BTreeMap, map_key, RouteKind, direct, gateway}
use lam.Provider.{
  ProviderProfileV2, ProviderProtocol, responses, chat_completions, AdapterConfig, no_adapter,
  local_adapter, UpstreamAuth, ProviderModel,
}
use lam.Provider.Credentials.{DirectCodexAuth, through_gateway, no_codex_auth, direct_codex_auth}

pub record AdapterDescriptor : Type 0 where
  pub source : ProviderProtocol
  pub target : ProviderProtocol
  pub version : String

-- `AdapterCatalog`
abbrev pub AdapterCatalog : Type 0
AdapterCatalog = BTreeMap AdapterDescriptor

-- `AdapterCatalog::standard`
abbrev pub standard : AdapterCatalog
standard =
    (
      "responses_to_chat_completions",
      record { source = chat_completions; target = responses; version = "1" },
    )
    ∷ []

pub record RoutePlanInput : Type 0 where
  pub provider : ProviderProfileV2
  pub selected_model : String
  pub adapters : AdapterCatalog

pub data PlanBlocker : Type 0 where
  model_not_found adapter_required adapter_registry_mismatch : PlanBlocker
  unsupported_credential_route credential_missing binding_drift : PlanBlocker
  gateway_unavailable auth_runtime_unavailable : PlanBlocker

pub record ProviderRoutePlan : Type 0 where
  pub provider_id : String
  pub selected_model : String
  pub route_kind : RouteKind
  pub upstream_endpoint : String
  pub upstream_protocol : ProviderProtocol
  pub adapter_id : Option String
  pub adapter_version : Option String
  pub codex_auth : DirectCodexAuth
  pub effective_capabilities : CapabilityDeclaration
  pub blockers : List PlanBlocker
  pub warnings : List String
  pub provider : ProviderProfileV2

-- `models.iter().any(|model| model.id == selected_model)`
abbrev pub has_model : String → List ProviderModel → Bool
has_model selected models = any (λ m. m.id == selected) models

abbrev pub is_chat : ProviderProtocol → Bool
is_chat p = elim p [ responses ↦ false | chat_completions ↦ true ]

-- the catalog's adapter takes chat completions for what Codex speaks
unfoldable pub adapts : Option AdapterDescriptor → Bool
adapts none = false
adapts (some v) = is_chat v.source && not (is_chat v.target)

-- the route's kind, the adapter's id and version, and the blockers of the `match` on the protocol
pub record Leg : Type 0 where
  pub kind : RouteKind
  pub id : Option String
  pub version : Option String
  pub stops : List PlanBlocker

unfoldable pub chat_leg : AdapterCatalog → AdapterConfig → Leg
unfolding adapts
chat_leg catalog no_adapter = record {
  kind = gateway;
  id = none;
  version = none;
  stops = adapter_required ∷ [];
}
chat_leg catalog (local_adapter id path) = record {
  kind = gateway;
  id = some id;
  version = elim (get map_key id catalog) [ none ↦ none | some e ↦ some e.1.version ];
  stops =
      if not (adapts (elim (get map_key id catalog) [ none ↦ none | some e ↦ some e.1 ]))
      then adapter_registry_mismatch ∷ []
      else [];
}

unfoldable pub route_leg : AdapterCatalog → ProviderProtocol → AdapterConfig → Leg
unfolding chat_leg
route_leg catalog responses _ = record { kind = direct; id = none; version = none; stops = [] }
route_leg catalog chat_completions adapter = chat_leg catalog adapter

-- `unwrap_or_else` on a direct route: the credential, or none and a blocker
unfoldable pub route_auth : Result DirectCodexAuth → RouteKind → DirectCodexAuth × List PlanBlocker
route_auth auth gateway = (through_gateway, [])
route_auth (ok a) direct = (a, [])
route_auth (err e) direct = (no_codex_auth, unsupported_credential_route ∷ [])

module _ (header_name : String → Option String) where
  unfoldable pub plan_provider_route : RoutePlanInput → ProviderRoutePlan
  unfolding route_leg route_auth
  plan_provider_route input =
      let p = input.provider in
      let leg = route_leg input.adapters p.protocol p.adapter in
      let (auth, refused) = route_auth (direct_codex_auth header_name p.upstream_auth) leg.kind in
      record {
        provider_id = p.id;
        selected_model = input.selected_model;
        route_kind = leg.kind;
        upstream_endpoint = p.base_url;
        upstream_protocol = p.protocol;
        adapter_id = leg.id;
        adapter_version = leg.version;
        codex_auth = auth;
        effective_capabilities = p.capabilities;
        blockers =
            (if not (has_model input.selected_model p.models) then model_not_found ∷ [] else [])
            ++ (leg.stops ++ refused);
        warnings = [];
        provider = p;
      }
