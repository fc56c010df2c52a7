-- ===== src/Attach/Detach.antt =====
-- `execute_detach` of `AttachTransactionCoordinator` (services/provider_attach_transaction.rs). The
-- operation's new UUID is an argument.
pub mod Logged
use lam.Prelude.{
  ℕ, String, true, ◌&&◌, ◌||◌, ◌==◌, string_eq, nat_eq, Option, none, some, List, if◌then◌else◌,
}
use lam.Prelude.Decide.{is_yes}
use lam.Prelude.Keyed.{get, without}
use lam.Errors.{Result, ok, error, guard, attach_plan_stale, attach_binding_commit_failed}
use lam.Exec.{Exec, lift, reading, ◌>>=◌, ◌>>◌}
use lam.Binding.{ProfileProviderBinding, profile_of}
use lam.Binding.Repository.{with_bindings}
use lam.Planner.Plans.{ProfileDetachPlan}
use lam.Planner.Tickets.{validate, consume}
use lam.Attach.Journal.{
  detach, prepared, config_committed, binding_committed, completed, rolled_back,
  AttachJournalRecord,
}
use lam.Attach.Config.{read_file, replace_config_file}
use lam.Attach.Coordinator.{
  AttachTransactionCoordinator, AttachTransactionOutcome, TransactionFault, crash_after_prepared,
  crash_after_config_committed, fail_binding_commit, crash_after_binding_committed,
  crash_before_cleanup, has_fault, World, binding_discrete, on_bindings, on_journal, on_files,
  on_registry, interrupted_at, revoke_reference, create_journal_locked, transition_journal_locked,
  projection_of,
}
use lam.Attach.Execute.{completed_outcome, fail_with}

-- what the operation has prepared before it writes the journal
pub record Detached : Type 0 where
  pub current : ProfileProviderBinding
  -- the configuration without the projection
  pub contents : String

-- the journal's record, where `intended_hash` is that of the new configuration
unfoldable pub detach_record :
    ProfileDetachPlan → ProfileProviderBinding → ℕ → String → String → ℕ → AttachJournalRecord
unfolding projection_of
detach_record plan current store_revision intended_hash operation_id now_ms = record {
  journal_version = 1;
  operation_id = operation_id;
  operation = detach;
  state = prepared;
  profile_id = current.profile_id;
  provider_id = current.provider_id;
  selected_model = current.selected_model;
  route_kind = current.route_kind;
  expected_provider_store_revision = current.provider_revision;
  expected_binding_store_revision = store_revision;
  expected_binding_revision = some current.revision;
  config_path = current.config_projection.config_path;
  config_before_hash = plan.source_config_hash;
  config_intended_hash = intended_hash;
  managed_projection = some (projection_of current);
  previous_binding = some current;
  prepared_binding = none;
  new_gateway_binding_ref = none;
  superseded_gateway_binding_ref = current.gateway_binding_id;
  created_at_ms = now_ms;
  updated_at_ms = now_ms;
  last_error_code = none;
}

-- the profile is not bound: nothing is to be done
abbrev pub unbound_outcome : AttachTransactionOutcome
unbound_outcome = record { operation_id = none; state = completed; idempotent = true }

module _ {P B J G : Type 0} (c : AttachTransactionCoordinator P B J G) where
  unfoldable pub prepare_detach :
      ProfileDetachPlan → ProfileProviderBinding → Exec (World P B J G) Detached
  unfolding binding_discrete read_file
  prepare_detach plan current = do
    lift (
        guard
          (current.revision == plan.expected_binding_revision
            && is_yes (binding_discrete current plan.binding))
          (error attach_plan_stale))
    source ← reading (λ w. read_file c.calls current.config_projection.config_path w.files)
    lift (guard (c.calls.config_hash source == plan.source_config_hash) (error attach_plan_stale))
    contents ← lift (c.editor.detach_projection source (projection_of current))
    lift (ok (record { current = current; contents = contents }))

  -- the injected failure of the binding's removal: the projection is applied again
  unfoldable pub undo_detach : Detached → ℕ → String → ℕ → Exec (World P B J G) (Unit {0})
  unfolding replace_config_file fail_with
  undo_detach d revision operation_id now_ms = do
    restored ← lift (c.editor.reapply_managed_projection d.contents (projection_of d.current))
    on_files (
        replace_config_file c.calls d.current.config_projection.config_path
          (c.calls.config_hash d.contents) restored)
    fail_with c revision operation_id now_ms rolled_back (error attach_binding_commit_failed)

  -- the steps after the journal's record is written, at its revision
  unfoldable pub run_detach :
      ProfileDetachPlan
      → Detached
      → List ProfileProviderBinding
      → ℕ
      → String
      → ℕ
      → Option TransactionFault
      → Exec (World P B J G) AttachTransactionOutcome
  unfolding has_fault replace_config_file transition_journal_locked undo_detach
  run_detach plan d bindings created operation_id now_ms fault = do
    interrupted_at (has_fault crash_after_prepared fault)
    on_files (
        replace_config_file c.calls d.current.config_projection.config_path plan.source_config_hash
          d.contents)
    revision ←
        on_journal (transition_journal_locked c created operation_id config_committed now_ms none)
    interrupted_at (has_fault crash_after_config_committed fault)
    if has_fault fail_binding_commit fault
        then undo_detach d revision operation_id now_ms
        else lift (ok tt)
    on_bindings (
        c.binding_store.swap plan.expected_binding_store_revision
          (with_bindings (without profile_of plan.profile_id bindings)))
    next ←
        on_journal (transition_journal_locked c revision operation_id binding_committed now_ms none)
    interrupted_at
        (has_fault crash_after_binding_committed fault || has_fault crash_before_cleanup fault)
    revoke_reference c.gateway_service d.current.gateway_binding_id
    on_journal (transition_journal_locked c next operation_id completed now_ms none)
    lift (ok (completed_outcome operation_id))

  unfoldable pub execute_detach :
      Result (Unit {0})
      → String
      → ProfileDetachPlan
      → String
      → ℕ
      → Option TransactionFault
      → Exec (World P B J G) AttachTransactionOutcome
  unfolding prepare_detach detach_record create_journal_locked run_detach
  execute_detach acquired ticket plan operation_id now_ms fault = do
    lift acquired
    reading (λ w. validate ticket plan.fingerprint plan.fingerprint now_ms w.registry)
    bindings ← reading (λ w. c.binding_store.load w.bindings)
    lift (
        guard (bindings.revision == plan.expected_binding_store_revision) (error attach_plan_stale))
    elim (get profile_of plan.profile_id bindings.value.bindings) [
      | none ↦
          on_registry (consume ticket plan.fingerprint plan.fingerprint now_ms)
          >> lift (ok unbound_outcome)
      | some current ↦ prepare_detach plan current >>= λ d.
          on_journal (
            create_journal_locked c (
              detach_record plan current bindings.revision (c.calls.config_hash d.contents)
                operation_id now_ms))
          >>= λ created.
              on_registry (consume ticket plan.fingerprint plan.fingerprint now_ms)
              >> run_detach plan d bindings.value.bindings created operation_id now_ms fault
    ]
