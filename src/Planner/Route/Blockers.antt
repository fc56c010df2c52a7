-- ===== src/Planner/Route/Blockers.antt =====
-- When a route plan has no blocker (services/provider_planner.rs).
use lam.Prelude.{String, ◌≡◌, ◌≢◌, ◌↔◌, refl, true, string_eq, Option, none, some, [], arith}
use lam.Prelude.Keyed.{get}
use lam.Errors.{Result, ok, err}
use lam.Binding.{map_key, direct, gateway}
use lam.Provider.{
  ProviderProfileV2, ProviderProtocol, responses, chat_completions, AdapterConfig, no_adapter,
  local_adapter, UpstreamAuth, bearer, header, no_auth,
}
use lam.Provider.Credentials.{DirectCodexAuth, through_gateway, direct_codex_auth, direct_route}
use lam.Planner.Route.{
  AdapterCatalog, AdapterDescriptor, RoutePlanInput, ProviderRoutePlan, has_model,
  plan_provider_route, route_leg, chat_leg, route_auth, adapts,
}

-- The route of an unblocked plan: straight to a provider of responses, with a credential that Codex
-- can use; through the gateway to one of chat completions, with an adapter of the catalog that maps
-- chat completions to responses, at the catalog's version.
pub data IsOpen (header_name : String → Option String) (catalog : AdapterCatalog)
    (p : ProviderProfileV2) (plan : ProviderRoutePlan) : Type 0 where
  straight :
      (auth : DirectCodexAuth)
      → p.protocol ≡ responses
      → direct_codex_auth header_name p.upstream_auth ≡ ok auth
      → plan.route_kind ≡ direct
      → plan.codex_auth ≡ auth
      → IsOpen header_name catalog p plan
  adapted :
      (id path : String) (entry : String × AdapterDescriptor)
      → p.protocol ≡ chat_completions
      → p.adapter ≡ local_adapter id path
      → get map_key id catalog ≡ some entry
      → entry.1.source ≡ chat_completions
      → entry.1.target ≡ responses
      → plan.route_kind ≡ gateway
      → plan.codex_auth ≡ through_gateway
      → plan.adapter_version ≡ some entry.1.version
      → IsOpen header_name catalog p plan

module _ (header_name : String → Option String) (input : RoutePlanInput) where
  abbrev plan : ProviderRoutePlan
  plan = plan_provider_route header_name input

  unblocked-IsOpen :
      plan.blockers ≡ []
      → (has_model input.selected_model input.provider.models ≡ true)
        × IsOpen header_name input.adapters input.provider plan
  unblocked-IsOpen h = (listed, go input.provider.protocol refl input.provider.adapter refl)
    where
      listed : has_model input.selected_model input.provider.models ≡ true
      listed = unfold plan_provider_route in ground arith

      go :
          (protocol : ProviderProtocol)
          → input.provider.protocol ≡ protocol
          → (adapter : AdapterConfig) → input.provider.adapter ≡ adapter
          → IsOpen header_name input.adapters input.provider plan
      go responses e _ a =
          credential (direct_codex_auth header_name input.provider.upstream_auth) refl
        where
          credential :
              (r : Result DirectCodexAuth)
              → direct_codex_auth header_name input.provider.upstream_auth ≡ r
              → IsOpen header_name input.adapters input.provider plan
          credential (err x) r = unfold plan_provider_route route_leg route_auth in ground arith
          credential (ok auth) r =
              straight auth e r (unfold plan_provider_route route_leg route_auth in ground arith)
                (unfold plan_provider_route route_leg route_auth in ground arith)
      go chat_completions e no_adapter a =
          unfold plan_provider_route route_leg chat_leg in ground arith
      go chat_completions e (local_adapter id path) a = found (get map_key id input.adapters) refl
        where
          found :
              (o : Option (String × AdapterDescriptor))
              → get map_key id input.adapters ≡ o
              → IsOpen header_name input.adapters input.provider plan
          found none g = unfold plan_provider_route route_leg chat_leg adapts in ground arith
          found (some entry) g =
              adapted id path entry e a g
                (unfold plan_provider_route route_leg chat_leg adapts in ground arith)
                (unfold plan_provider_route route_leg chat_leg adapts in ground arith)
                (unfold plan_provider_route route_leg chat_leg in ground arith)
                (unfold plan_provider_route route_leg chat_leg route_auth in ground arith)
                (unfold plan_provider_route route_leg chat_leg in ground arith)

  IsOpen-unblocked :
      has_model input.selected_model input.provider.models ≡ true
      → IsOpen header_name input.adapters input.provider plan
      → plan.blockers ≡ []
  unfolding plan_provider_route route_leg chat_leg adapts route_auth
  IsOpen-unblocked listed (straight auth e r k c) = ground (arith, listed, e, r)
  IsOpen-unblocked listed (adapted id path entry e a g s t k c v) =
      ground (arith, listed, e, a, g, s, t)

  -- A plan has no blocker exactly if its model is one that the provider lists and its route is open:
  -- straight to a provider of responses, with a credential that Codex can use itself, or through the
  -- gateway to a provider of chat completions, with an adapter that the catalog has for that mapping.
  pub blockers-IsOpen_iff : (plan.blockers ≡ []) ↔ (
      (has_model input.selected_model input.provider.models ≡ true)
      × IsOpen header_name input.adapters input.provider plan)
  blockers-IsOpen_iff = (unblocked-IsOpen, λ h. IsOpen-unblocked h.0 h.1)

  direct_unlike_gateway :
      (auth : UpstreamAuth) → direct_codex_auth header_name auth ≢ ok through_gateway
  unfolding direct_codex_auth direct_route
  direct_unlike_gateway no_auth = ground arith
  direct_unlike_gateway (bearer s) = ground arith
  direct_unlike_gateway (header name s) = ground arith

  -- Codex is told to authenticate to the gateway exactly on the routes through the gateway, which are
  -- those to providers of chat completions.
  pub codex_auth-gateway_iff :
      ((plan.codex_auth ≡ through_gateway) ↔ (plan.route_kind ≡ gateway))
      × ((plan.route_kind ≡ gateway) ↔ (input.provider.protocol ≡ chat_completions))
  unfolding plan_provider_route route_leg chat_leg route_auth
  codex_auth-gateway_iff =
      (ground (arith, direct_unlike_gateway input.provider.upstream_auth), ground arith)
