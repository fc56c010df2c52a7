-- ===== src/Planner/Plans.antt =====
-- The plans of services/provider_planner.rs, which a dry run shows and the coordinator executes.
use lam.Prelude.{ℕ, String, Option, List}
use lam.Binding.{ProfileProviderBinding}
use lam.Attach.Config.{ConfigProjectionSpec}
use lam.Planner.Route.{PlanBlocker, ProviderRoutePlan}

pub record ProfileAttachPlan : Type 0 where
  pub route : ProviderRoutePlan
  pub profile_id : String
  pub config_path : String
  pub expected_provider_store_revision : ℕ
  pub expected_binding_revision : Option ℕ
  pub expected_binding_store_revision : ℕ
  pub source_config_hash : String
  pub gateway_endpoint_version : Option ℕ
  pub gateway_binding_id : Option String
  pub config_projection : ConfigProjectionSpec
  pub journal_operations : List String
  pub blockers : List PlanBlocker
  pub warnings : List String
  pub redacted_preview : String
  pub fingerprint : String

pub record ProfileDetachPlan : Type 0 where
  pub profile_id : String
  pub expected_binding_store_revision : ℕ
  pub expected_binding_revision : ℕ
  pub source_config_hash : String
  pub binding : ProfileProviderBinding
  pub fingerprint : String
