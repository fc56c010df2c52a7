-- ===== src/Attach/Prepare.antt =====
-- What `execute_attach` (services/provider_attach_transaction.rs) does before it writes the journal:
-- the plan is checked against the stores, and the new configuration and binding are built.
use lam.Prelude.{
  ℕ, ◌+◌, ◌%◌, ◌^◌, String, Bool, true, false, not, ◌&&◌, ◌||◌, ◌==◌, string_eq, nat_eq, Option,
  none, some, List, [], ◌∷◌, ◌++◌, any, is_some, if◌then◌else◌,
}
use lam.Prelude.Decide.{is_yes}
use lam.Prelude.Decimal.{decimal}
use lam.Prelude.Keyed.{has, get, update}
use lam.Errors.{
  AppError, Result, ok, err, error, guard, attach_plan_blocked, attach_plan_stale,
  attach_binding_commit_failed, gateway_binding_plan_mismatch, codex_config_ownership_conflict,
}
use lam.Errors as Results
use lam.Exec.{Exec, lift, reading, ◌>>=◌, ◌>>◌}
use lam.Binding.{
  RouteKind, direct, gateway, ManagedConfigProjection, ProfileProviderBinding, profile_of,
  sort_bindings,
}
use lam.Planner.Plans.{ProfileAttachPlan}
use lam.Planner.Tickets.{validate}
use lam.Attach.Journal.{attach, rebind, prepared, AttachJournalRecord, ConfigManagedProjection}
use lam.Attach.Config.{AppliedProjection, read_file}
use lam.Attach.Coordinator.{
  AttachTransactionCoordinator, World, provider_discrete, ignored, on_gateway, revoke_reference,
  config_to_binding_projection, projection_of,
}

abbrev pub is_gateway : RouteKind → Bool
is_gateway gateway = true
is_gateway direct = false

-- `==` on optional texts and numbers
abbrev pub same_text : Option String → Option String → Bool
same_text none none = true
same_text (some a) (some b) = a == b
same_text _ _ = false

abbrev pub same_number : Option ℕ → Option ℕ → Bool
same_number none none = true
same_number (some a) (some b) = a == b
same_number _ _ = false

abbrev pub revision_of : Option ProfileProviderBinding → Option ℕ
revision_of none = none
revision_of (some b) = some b.revision

-- the parts of the earlier projection that are kept, since they tell what was there before LAM
abbrev pub kept_from :
    Option ProfileProviderBinding → ManagedConfigProjection → ManagedConfigProjection
kept_from none managed = managed
kept_from (some previous) managed = record managed {
  before_hash = previous.config_projection.before_hash;
  previous_values = previous.config_projection.previous_values;
  provider_table_created_by_lam = previous.config_projection.provider_table_created_by_lam;
}

abbrev next_revision : Option ProfileProviderBinding → ℕ
next_revision none = 1
next_revision (some previous) = (previous.revision + 1) % 2 ^ 64

abbrev first_created : Option ProfileProviderBinding → ℕ → String
first_created none now_ms = decimal now_ms
first_created (some previous) now_ms = previous.created_at

abbrev pub gateway_id_of : Option ProfileProviderBinding → Option String
gateway_id_of none = none
gateway_id_of (some previous) = previous.gateway_binding_id

-- `fingerprint` is that of the plan's provider
unfoldable pub build_prepared_binding :
    String
    → ProfileAttachPlan
    → Option ProfileProviderBinding
    → ConfigManagedProjection
    → Option String
    → ℕ
    → ProfileProviderBinding
unfolding config_to_binding_projection
build_prepared_binding fingerprint plan previous projection gateway_reference now_ms = record {
  profile_id = plan.profile_id;
  provider_id = plan.route.provider_id;
  selected_model = plan.route.selected_model;
  route_kind = plan.route.route_kind;
  gateway_binding_id = gateway_reference;
  provider_revision = plan.expected_provider_store_revision;
  provider_fingerprint = fingerprint;
  config_projection = kept_from previous (config_to_binding_projection plan.config_path projection);
  revision = next_revision previous;
  created_at = first_created previous now_ms;
  updated_at = decimal now_ms;
}

-- what the operation has prepared before it writes the journal
pub record Prepared : Type 0 where
  pub operation_id : String
  pub previous : Option ProfileProviderBinding
  pub source : String
  pub applied : AppliedProjection
  pub gateway_reference : Option String
  pub binding : ProfileProviderBinding
  -- the bindings as they were read
  pub bindings : List ProfileProviderBinding

-- the journal's record
unfoldable pub attach_record : ProfileAttachPlan → Prepared → String → ℕ → AttachJournalRecord
attach_record plan p operation_id now_ms = record {
  journal_version = 1;
  operation_id = operation_id;
  operation = if is_some p.previous then rebind else attach;
  state = prepared;
  profile_id = plan.profile_id;
  provider_id = plan.route.provider_id;
  selected_model = plan.route.selected_model;
  route_kind = plan.route.route_kind;
  expected_provider_store_revision = plan.expected_provider_store_revision;
  expected_binding_store_revision = plan.expected_binding_store_revision;
  expected_binding_revision = plan.expected_binding_revision;
  config_path = plan.config_path;
  config_before_hash = plan.source_config_hash;
  config_intended_hash = p.applied.projection.applied_hash;
  managed_projection = some p.applied.projection;
  previous_binding = p.previous;
  prepared_binding = some p.binding;
  new_gateway_binding_ref = p.gateway_reference;
  superseded_gateway_binding_ref = gateway_id_of p.previous;
  created_at_ms = now_ms;
  updated_at_ms = now_ms;
  last_error_code = none;
}

-- the profile's binding is replaced, or pushed, and the list sorted
unfoldable pub with_binding :
    String → ProfileProviderBinding → List ProfileProviderBinding → List ProfileProviderBinding
with_binding profile_id b bindings = sort_bindings (
    if has profile_of profile_id bindings
    then update profile_of profile_id (λ _. b) bindings
    else bindings ++ b ∷ [])

module _ {P B J G : Type 0} (c : AttachTransactionCoordinator P B J G) where
  unfoldable pub validate_attach_state : ProfileAttachPlan → World P B J G → Result (Unit {0})
  unfolding provider_discrete read_file
  validate_attach_state plan w =
      Results.◌>>◌
        (guard (elim plan.blockers [ [] ↦ true | _ ∷ _ ↦ false ]) (error attach_plan_blocked))
        (Results.◌>>=◌ (c.provider_store.load w.providers) λ providers.
          Results.◌>>◌
            (guard
              (providers.revision == plan.expected_provider_store_revision
                && any (λ p. is_yes (provider_discrete p plan.route.provider))
                    providers.value.providers)
              (error attach_plan_stale))
            (Results.◌>>=◌ (c.binding_store.load w.bindings) λ bindings.
              Results.◌>>◌
                (guard
                  (bindings.revision == plan.expected_binding_store_revision
                    && same_number
                        (revision_of (get profile_of plan.profile_id bindings.value.bindings))
                        plan.expected_binding_revision)
                  (error attach_plan_stale))
                (Results.◌>>◌
                  (guard
                    (not (is_some plan.gateway_endpoint_version)
                      || same_number plan.gateway_endpoint_version
                          (some c.gateway_endpoint_version))
                    (error attach_plan_stale))
                  (Results.◌>>=◌ (read_file c.calls plan.config_path w.files) λ contents.
                    guard (c.calls.config_hash contents == plan.source_config_hash)
                      (error attach_plan_stale)))))

  -- the configuration with the plan's projection in place of an earlier one
  unfoldable pub planned_config :
      ProfileAttachPlan → Option ProfileProviderBinding → String → Result AppliedProjection
  planned_config plan none source =
      c.editor.apply_projection source plan.source_config_hash plan.config_projection
  planned_config plan (some previous) source =
      Results.◌>>=◌ (c.editor.detach_projection source (projection_of previous)) λ unmanaged.
        c.editor.apply_projection unmanaged (c.calls.config_hash unmanaged) plan.config_projection

  -- the gateway's binding is prepared, where the route needs one, and is the one that was planned
  unfoldable pub prepare_gateway : ProfileAttachPlan → String → Exec (World P B J G) (Option String)
  prepare_gateway plan operation_id =
      if is_gateway plan.route.route_kind
      then (on_gateway (c.gateway_service.prepare operation_id plan) >>= λ reference.
          if same_text reference plan.gateway_binding_id
          then lift (ok reference)
          else (ignored (revoke_reference c.gateway_service reference)
              >> lift (err (error gateway_binding_plan_mismatch))))
      else lift (ok none)

  -- all that comes before the journal
  unfoldable pub prepare_attach :
      String → ProfileAttachPlan → String → ℕ → Exec (World P B J G) Prepared
  unfolding validate_attach_state planned_config prepare_gateway read_file
  prepare_attach ticket plan operation_id now_ms = do
    reading (λ w. validate ticket plan.fingerprint plan.fingerprint now_ms w.registry)
    reading (validate_attach_state plan)
    bindings ← reading (λ w. c.binding_store.load w.bindings)
    let previous = get profile_of plan.profile_id bindings.value.bindings
    source ← reading (λ w. read_file c.calls plan.config_path w.files)
    applied ← lift (planned_config plan previous source)
    reference ← prepare_gateway plan operation_id
    lift (
        ok (record {
          operation_id = operation_id;
          previous = previous;
          source = source;
          applied = applied;
          gateway_reference = reference;
          binding =
              build_prepared_binding (c.fingerprint_of plan.route.provider) plan previous
                applied.projection reference now_ms;
          bindings = bindings.value.bindings;
        }))
