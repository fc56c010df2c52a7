-- ===== src/Attach/Execute/Examples.antt =====
-- A plan that is executed, or interrupted and then recovered, and a binding that is taken away again
-- (services/provider_attach_transaction.rs).
use lam.Prelude.{false, none, some, sort_by, [], ◌∷◌, ◌≡◌, refl, ◌⊎◌}
use lam.Errors.{ok, err, error, attach_transaction_interrupted}
use lam.Store.Memory.{memory}
use lam.Binding.{direct}
use lam.Provider.{responses}
use lam.Provider.Credentials.{no_codex_auth}
use lam.Planner.Route.{ProviderRoutePlan}
use lam.Planner.Route.Examples.{provider, unknown_capabilities}
use lam.Planner.Plans.{ProfileAttachPlan, ProfileDetachPlan}
use lam.Planner.Tickets.{validate, consume}
use lam.Attach.Journal.{valid_transition, validate_record, validate_collection}
use lam.Attach.Journal.Examples.{bound}
use lam.Attach.Coordinator.{World, crash_after_config_committed}
use lam.Attach.Coordinator.Logged.{HasRecord, Untouched}
use lam.Attach.Examples.{Providers, Bindings, Records, coordinator, interrupted}
use lam.Attach.Execute.{execute_attach, completed_outcome}
use lam.Attach.Execute.Logged.{execute_attach-IsLogged}
use lam.Attach.Detach.{execute_detach}
use lam.Attach.Detach.Logged.{execute_detach-IsLogged}

abbrev route : ProviderRoutePlan
route = record {
  provider_id = "acme";
  selected_model = "m";
  route_kind = direct;
  upstream_endpoint = "https://api.acme.example/v1";
  upstream_protocol = responses;
  adapter_id = none;
  adapter_version = none;
  codex_auth = no_codex_auth;
  effective_capabilities = unknown_capabilities;
  blockers = [];
  warnings = [];
  provider = provider;
}

abbrev plan : ProfileAttachPlan
plan = record {
  route = route;
  profile_id = "work";
  config_path = "/c";
  expected_provider_store_revision = 1;
  expected_binding_revision = none;
  expected_binding_store_revision = 0;
  source_config_hash = "h";
  gateway_endpoint_version = none;
  gateway_binding_id = none;
  config_projection = record {
    provider_id = "acme";
    model = "m";
    display_name = "Acme";
    base_url = "https://api.acme.example/v1";
    auth = no_codex_auth;
    codex = provider.codex;
    gateway = false;
    model_catalog_path = "/models.json";
    model_context_window = none;
    model_auto_compact_token_limit = none;
    reasoning_effort = none;
  };
  journal_operations = [];
  blockers = [];
  warnings = [];
  redacted_preview = "";
  fingerprint = "f";
}

abbrev ready : World Providers Bindings Records (Unit {0})
ready = record interrupted {
  providers = record interrupted.providers { value = record { providers = provider ∷ [] } };
  journal = record interrupted.journal { revision = 0; value = record { records = [] } };
  files = ("/c", "h") ∷ [];
  registry = record {
    ttl_ms = 60_000;
    capacity = 2;
    entries =
        record { ticket = "t"; fingerprint = "f"; expires_at = 70_000; consumed = false } ∷ [];
  };
}

completes :
    (execute_attach coordinator (ok tt) "t" plan "op9" 20_000 none ready).0
    ≡ ok (completed_outcome "op9")
unfolding execute_attach validate memory validate_record validate_collection consume sort_by
    valid_transition
completes = refl

-- the crash leaves the configuration changed
interrupts :
    (execute_attach coordinator
      (ok tt)
      "t"
      plan
      "op9"
      20_000
      (some crash_after_config_committed)
      ready).0
    ≡ err (error attach_transaction_interrupted)
unfolding execute_attach validate memory validate_record validate_collection consume sort_by
    valid_transition
interrupts = refl

execute_attach-IsLogged_example :
    Untouched coordinator "op9" ready
      (execute_attach coordinator
        (ok tt)
        "t"
        plan
        "op9"
        20_000
        (some crash_after_config_committed)
        ready).1
    ⊎ HasRecord coordinator "op9"
        (execute_attach coordinator
          (ok tt)
          "t"
          plan
          "op9"
          20_000
          (some crash_after_config_committed)
          ready).1.journal
execute_attach-IsLogged_example =
    execute_attach-IsLogged coordinator "op9" (ok tt) "t" plan 20_000
      (some crash_after_config_committed) ready

abbrev detaching : ProfileDetachPlan
detaching = record {
  profile_id = "work";
  expected_binding_store_revision = 0;
  expected_binding_revision = 1;
  source_config_hash = "h";
  binding = bound;
  fingerprint = "f";
}

abbrev bound_ready : World Providers Bindings Records (Unit {0})
bound_ready = record ready {
  bindings = record ready.bindings { value = record { bindings = bound ∷ [] } };
}

detaches :
    (execute_detach coordinator (ok tt) "t" detaching "op9" 20_000 none bound_ready).0
    ≡ ok (completed_outcome "op9")
unfolding execute_detach validate memory validate_record validate_collection consume sort_by
    valid_transition
detaches = refl

execute_detach-IsLogged_example :
    Untouched coordinator "op9" bound_ready
      (execute_detach coordinator (ok tt) "t" detaching "op9" 20_000 none bound_ready).1
    ⊎ HasRecord coordinator "op9"
        (execute_detach coordinator (ok tt) "t" detaching "op9" 20_000 none bound_ready).1.journal
execute_detach-IsLogged_example =
    execute_detach-IsLogged coordinator "op9" (ok tt) "t" detaching 20_000 none bound_ready
