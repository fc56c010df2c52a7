-- ===== src/Attach/Execute.antt =====
-- `execute_attach` of `AttachTransactionCoordinator` (services/provider_attach_transaction.rs), cut at
-- the points where the journal moves. The operation's new UUID is an argument.
mod Recorded
pub mod Logged
mod Examples
use lam.Prelude.{
  ℕ, String, false, ◌==◌, string_eq, nat_eq, Option, none, some, is_some, if◌then◌else◌,
}
use lam.Errors.{
  AppError, Result, ok, err, error, attach_binding_commit_failed, codex_config_ownership_conflict,
}
use lam.Exec.{Exec, lift, reading, ◌>>=◌, ◌>>◌}
use lam.Binding.Repository.{with_bindings}
use lam.Planner.Plans.{ProfileAttachPlan}
use lam.Planner.Tickets.{consume}
use lam.Attach.Journal.{
  AttachJournalState, config_committed, binding_committed, completed, rolled_back,
  manual_intervention,
}
use lam.Attach.Config.{
  overwrite, read_file, apply_projection_file, replace_config_file, replace_config_file_with_backup,
}
use lam.Attach.Coordinator.{
  AttachTransactionCoordinator, AttachTransactionOutcome, TransactionFault, crash_after_prepared,
  crash_after_config_committed, fail_binding_commit, drift_config_before_binding_commit,
  crash_after_binding_committed, crash_before_cleanup, has_fault, World, ignored, on_error,
  on_bindings, on_journal, on_files, on_registry, interrupted_at, revoke_reference,
  create_journal_locked, transition_journal_locked,
}
use lam.Attach.Prepare.{Prepared, attach_record, with_binding, gateway_id_of, prepare_attach}

abbrev pub completed_outcome : String → AttachTransactionOutcome
completed_outcome id = record { operation_id = some id; state = completed; idempotent = false }

module _ {P B J G : Type 0} (c : AttachTransactionCoordinator P B J G) where
  -- a step that gives up the gateway's new binding if it fails
  unfoldable pub or_revoke : Prepared → Exec (World P B J G) ℕ → Exec (World P B J G) ℕ
  or_revoke p m =
      on_error m
        λ e. ignored (revoke_reference c.gateway_service p.gateway_reference) >> lift (err e)

  unfoldable pub write_config : ProfileAttachPlan → Prepared → Exec (World P B J G) (Unit {0})
  unfolding apply_projection_file replace_config_file_with_backup
  write_config plan p = on_files (
      if is_some p.previous
      then (replace_config_file_with_backup c.calls plan.config_path plan.source_config_hash
            p.applied.contents
          >>= λ backup. lift (ok tt))
      else (apply_projection_file c.calls c.editor.apply_projection plan.config_path
            plan.source_config_hash plan.config_projection none
          >>= λ applied. lift (ok tt)))

  -- the journal is told of an error, which is then returned
  unfoldable pub fail_with :
      ℕ → String → ℕ → AttachJournalState → AppError → Exec (World P B J G) (Unit {0})
  unfolding transition_journal_locked
  fail_with revision operation_id now_ms state e = do
    on_journal
        (transition_journal_locked c revision operation_id state now_ms (some (c.code_text e.code)))
    lift (err e)

  -- the step from `prepared` to `config_committed`
  unfoldable pub commit_config : ProfileAttachPlan → Prepared → ℕ → ℕ → Exec (World P B J G) ℕ
  unfolding write_config fail_with transition_journal_locked
  commit_config plan p revision now_ms = do
    on_error (write_config plan p) λ e.
        ignored (revoke_reference c.gateway_service p.gateway_reference)
        >> ignored (fail_with revision p.operation_id now_ms rolled_back e)
        >> lift (err e)
    on_journal (transition_journal_locked c revision p.operation_id config_committed now_ms none)

  -- the injected failure of the next step, which takes the configuration back
  unfoldable pub undo_config :
      ProfileAttachPlan → Prepared → ℕ → ℕ → Exec (World P B J G) (Unit {0})
  unfolding replace_config_file fail_with
  undo_config plan p revision now_ms = do
    on_files
        (replace_config_file c.calls plan.config_path p.applied.projection.applied_hash p.source)
    revoke_reference c.gateway_service p.gateway_reference
    fail_with revision p.operation_id now_ms rolled_back (error attach_binding_commit_failed)

  -- the injected edit of the configuration by someone else
  unfoldable pub drift_config : ProfileAttachPlan → Exec (World P B J G) (Unit {0})
  unfolding overwrite
  drift_config plan =
      on_files (overwrite c.calls plan.config_path "# simulated external config edit\n")

  -- the configuration still is what was written
  unfoldable pub check_config :
      ProfileAttachPlan → Prepared → ℕ → ℕ → Exec (World P B J G) (Unit {0})
  unfolding read_file fail_with
  check_config plan p revision now_ms = do
    contents ← reading (λ w. read_file c.calls plan.config_path w.files)
    if c.calls.config_hash contents == p.applied.projection.applied_hash
        then lift (ok tt)
        else (ignored (revoke_reference c.gateway_service p.gateway_reference)
            >> fail_with revision p.operation_id now_ms manual_intervention
                (error codex_config_ownership_conflict))

  -- the step from `config_committed` to `binding_committed`
  unfoldable pub commit_binding : ProfileAttachPlan → Prepared → ℕ → ℕ → Exec (World P B J G) ℕ
  unfolding with_binding transition_journal_locked
  commit_binding plan p revision now_ms = do
    on_bindings (
        c.binding_store.swap plan.expected_binding_store_revision
          (with_bindings (with_binding plan.profile_id p.binding p.bindings)))
    on_journal (transition_journal_locked c revision p.operation_id binding_committed now_ms none)

  -- what is left once both are stored
  unfoldable pub complete_attach : Prepared → ℕ → ℕ → Exec (World P B J G) AttachTransactionOutcome
  unfolding transition_journal_locked
  complete_attach p revision now_ms = do
    revoke_reference c.gateway_service (gateway_id_of p.previous)
    on_journal (transition_journal_locked c revision p.operation_id completed now_ms none)
    lift (ok (completed_outcome p.operation_id))

  unfoldable pub after_config :
      ProfileAttachPlan
      → Prepared
      → ℕ
      → ℕ
      → Option TransactionFault
      → Exec (World P B J G) AttachTransactionOutcome
  unfolding has_fault undo_config drift_config check_config commit_binding complete_attach
  after_config plan p revision now_ms fault = do
    interrupted_at (has_fault crash_after_config_committed fault)
    if has_fault fail_binding_commit fault then undo_config plan p revision now_ms else lift (ok tt)
    if has_fault drift_config_before_binding_commit fault then drift_config plan else lift (ok tt)
    check_config plan p revision now_ms
    next ← commit_binding plan p revision now_ms
    interrupted_at (has_fault crash_after_binding_committed fault)
    interrupted_at (has_fault crash_before_cleanup fault)
    complete_attach p next now_ms

  unfoldable pub execute_attach :
      Result (Unit {0})
      → String
      → ProfileAttachPlan
      → String
      → ℕ
      → Option TransactionFault
      → Exec (World P B J G) AttachTransactionOutcome
  unfolding prepare_attach attach_record or_revoke create_journal_locked has_fault commit_config
      after_config
  execute_attach acquired ticket plan operation_id now_ms fault = do
    lift acquired
    p ← prepare_attach c ticket plan operation_id now_ms
    created ←
        or_revoke p
          (on_journal (create_journal_locked c (attach_record plan p operation_id now_ms)))
    on_registry (consume ticket plan.fingerprint plan.fingerprint now_ms)
    interrupted_at (has_fault crash_after_prepared fault)
    revision ← commit_config plan p created now_ms
    after_config plan p revision now_ms fault
