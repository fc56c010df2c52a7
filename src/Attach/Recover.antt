-- ===== src/Attach/Recover.antt =====
-- `recover_pending` of `AttachTransactionCoordinator` (services/provider_attach_transaction.rs): each
-- operation that was interrupted is finished, undone, or left for a person to look at.
pub mod Open
pub mod Steps
pub mod Lowers
pub mod Closing
pub mod Progress
pub mod Marked
pub mod Settled
use lam.Prelude.{
  ℕ, zero, suc, String, Bool, true, false, not, ◌&&◌, ◌||◌, ◌==◌, string_eq, leb, Option, none,
  some, List, [], ◌∷◌, retain, take, count, is_some, if◌then◌else◌,
}
use lam.Prelude.Keyed.{get}
use lam.Errors.{
  Result, ok, err, error, guard, ok_or, attach_recovery_bound_invalid,
  attach_recovery_ownership_conflict, attach_recovery_journal_invalid,
}
use lam.Errors as Results
use lam.Exec.{Exec, lift, reading, ◌>>=◌, ◌>>◌}
use lam.Binding.{profile_of, ProfileProviderBinding}
use lam.Attach.Journal.{
  AttachOperation, attach, rebind, detach, AttachJournalState, prepared, config_committed,
  binding_committed, completed, rolled_back, manual_intervention, AttachJournalRecord,
  validate_collection, is_open,
}
use lam.Attach.Config.{FileCalls, read_file, replace_config_file}
use lam.Attach.Coordinator.{
  AttachTransactionCoordinator, ConfigEditor, RecoveryReport, World, same_binding, on_files,
  on_journal, revoke_reference, transition_journal_locked, transition_latest, journal_revision,
  projection_of,
}

-- the binding of the operation's outcome is stored
unfoldable pub is_committed : AttachJournalRecord → Option ProfileProviderBinding → Bool
unfolding same_binding
is_committed r current = elim r.operation [
  | attach ↦ is_some r.prepared_binding && same_binding current r.prepared_binding
  | rebind ↦ is_some r.prepared_binding && same_binding current r.prepared_binding
  | detach ↦ not (is_some current)
]

-- the configuration without what the operation changed
unfoldable pub restored_config : ConfigEditor → AttachJournalRecord → String → Result String
restored_config editor r source =
    Results.◌>>=◌ (ok_or r.managed_projection (error attach_recovery_journal_invalid)) λ projection.
      elim r.operation [
        | detach ↦
            Results.◌>>=◌ (ok_or r.previous_binding (error attach_recovery_journal_invalid))
              λ previous. editor.reapply_managed_projection source (projection_of previous)
        | _ ↦ Results.◌>>=◌ (editor.detach_projection source projection) λ unmanaged.
            elim r.previous_binding [
              | none ↦ ok unmanaged
              | some previous ↦ editor.reapply_managed_projection unmanaged (projection_of previous)
            ]
      ]

abbrev pub is_binding_committed : AttachJournalState → Bool
is_binding_committed binding_committed = true
is_binding_committed _ = false

module _ {P B J G : Type 0} (c : AttachTransactionCoordinator P B J G) where
  unfoldable pub mark_manual : AttachJournalRecord → ℕ → String → Exec (World P B J G) (Unit {0})
  unfolding transition_latest
  mark_manual r now_ms reason = do
    on_journal (transition_latest c r.operation_id manual_intervention now_ms (some reason))
    lift (err (error attach_recovery_ownership_conflict))

  unfoldable pub rollback_record_config : AttachJournalRecord → Exec (World P B J G) (Unit {0})
  unfolding restored_config read_file replace_config_file
  rollback_record_config r = on_files (
      reading (read_file c.calls r.config_path) >>= λ source.
      lift (restored_config c.editor r source) >>= λ restored.
      replace_config_file c.calls r.config_path r.config_intended_hash restored)

  -- the two transitions that a crash may have left out
  unfoldable pub caught_up : AttachJournalState → ℕ → String → ℕ → Exec J (AttachJournalState × ℕ)
  unfolding transition_journal_locked
  caught_up prepared revision id now_ms = do
    first ← transition_journal_locked c revision id config_committed now_ms none
    second ← transition_journal_locked c first id binding_committed now_ms none
    lift (ok (binding_committed, second))
  caught_up config_committed revision id now_ms = do
    second ← transition_journal_locked c revision id binding_committed now_ms none
    lift (ok (binding_committed, second))
  caught_up state revision id now_ms = lift (ok (state, revision))

  -- the cleanup of an operation that reached `binding_committed`
  unfoldable pub conclude_record :
      AttachJournalRecord → ℕ → AttachJournalState × ℕ → Exec (World P B J G) (Unit {0})
  unfolding mark_manual transition_journal_locked
  conclude_record r now_ms (binding_committed, revision) = do
    revoke_reference c.gateway_service r.superseded_gateway_binding_ref
    on_journal (transition_journal_locked c revision r.operation_id completed now_ms none)
    lift (ok tt)
  conclude_record r now_ms (_, revision) = mark_manual r now_ms "ATTACH_RECOVERY_STATE_CONFLICT"

  -- the branch where the binding is stored
  unfoldable pub finish_record : AttachJournalRecord → ℕ → Exec (World P B J G) (Unit {0})
  unfolding caught_up journal_revision conclude_record
  finish_record r now_ms = do
    revision ← on_journal (reading (journal_revision c))
    reached ← on_journal (caught_up r.state revision r.operation_id now_ms)
    conclude_record r now_ms reached

  -- the branch where it is not
  unfoldable pub undo_record : AttachJournalRecord → ℕ → Exec (World P B J G) (Unit {0})
  unfolding transition_latest
  undo_record r now_ms = do
    revoke_reference c.gateway_service r.new_gateway_binding_ref
    on_journal (transition_latest c r.operation_id rolled_back now_ms none)
    lift (ok tt)

  -- what is stored of the bindings, and the hash of the file
  unfoldable pub recover_observed :
      AttachJournalRecord → ℕ → Bool → String → Exec (World P B J G) (Unit {0})
  unfolding mark_manual finish_record rollback_record_config undo_record
  recover_observed r now_ms committed current_hash =
      if committed
      then (if current_hash == r.config_intended_hash
          then finish_record r now_ms
          else mark_manual r now_ms "ATTACH_RECOVERY_CONFIG_CONFLICT")
      else (if is_binding_committed r.state
          then mark_manual r now_ms "ATTACH_RECOVERY_BINDING_CONFLICT"
          else (if current_hash == r.config_intended_hash
              then rollback_record_config r >> undo_record r now_ms
              else (if current_hash == r.config_before_hash
                  then undo_record r now_ms
                  else mark_manual r now_ms "ATTACH_RECOVERY_CONFIG_CONFLICT")))

  unfoldable pub recover_record : AttachJournalRecord → ℕ → Exec (World P B J G) (Unit {0})
  unfolding is_committed same_binding mark_manual read_file recover_observed
  recover_record r now_ms = do
    bindings ← reading (λ w. c.binding_store.load w.bindings)
    let current = get profile_of r.profile_id bindings.value.bindings
    if not (is_committed r current) && not (same_binding current r.previous_binding)
        then mark_manual r now_ms "ATTACH_RECOVERY_BINDING_CONFLICT"
        else (reading (λ w. read_file c.calls r.config_path w.files) >>= λ contents.
            recover_observed r now_ms (is_committed r current) (c.calls.config_hash contents))

  -- the loop, which counts the records
  unfoldable pub recover_records : List AttachJournalRecord → ℕ → Exec (World P B J G) ℕ
  unfolding recover_record
  recover_records [] now_ms = lift (ok 0)
  recover_records (r ∷ rs) now_ms = do
    recover_record r now_ms
    n ← recover_records rs now_ms
    lift (ok (suc n))

  unfoldable pub recover_pending : Result (Unit {0}) → ℕ → ℕ → Exec (World P B J G) RecoveryReport
  unfolding recover_records
  recover_pending acquired now_ms zero = lift (err (error attach_recovery_bound_invalid))
  recover_pending acquired now_ms (suc bound) = do
    lift acquired
    snapshot ← reading (λ w. c.journal_store.load w.journal)
    lift (validate_collection c.to_text snapshot.value)
    recovered ← recover_records (take (suc bound) (retain is_open snapshot.value.records)) now_ms
    after ← reading (λ w. c.journal_store.load w.journal)
    lift (ok (record { recovered = recovered; remaining = count is_open after.value.records }))

-- `recover_provider_transactions_on_startup`
abbrev pub recover_provider_transactions_on_startup :
    {P B J G : Type 0}
    → AttachTransactionCoordinator P B J G
    → Result (Unit {0})
    → ℕ
    → ℕ
    → Exec (World P B J G) RecoveryReport
recover_provider_transactions_on_startup c = recover_pending c
