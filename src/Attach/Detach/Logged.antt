-- ===== src/Attach/Detach/Logged.antt =====
-- `execute_detach` writes the journal before it changes a configuration or a binding
-- (services/provider_attach_transaction.rs).
use lam.Prelude.{
  ℕ, String, ◌||◌, Option, none, some, List, refl, ◌⊎◌, if◌then◌else◌, ◌==◌, nat_eq, string_eq,
  ◌&&◌,
}
use lam.Prelude.Keyed.{get, without}
use lam.Prelude.Decide.{is_yes}
use lam.Errors.{Result, ok, error, guard, attach_plan_stale, attach_binding_commit_failed}
use lam.Exec.{Exec, lift, reading, ◌>>=◌, ◌>>◌}
use lam.Binding.{profile_of, ProfileProviderBinding}
use lam.Binding.Repository.{with_bindings}
use lam.Planner.Plans.{ProfileDetachPlan}
use lam.Planner.Tickets.{validate, consume}
use lam.Attach.Journal.{
  config_committed, binding_committed, completed, rolled_back, AttachJournalRecord,
}
use lam.Attach.Config.{read_file, replace_config_file}
use lam.Attach.Coordinator.{
  AttachTransactionCoordinator, TransactionFault, crash_after_prepared,
  crash_after_config_committed, fail_binding_commit, crash_after_binding_committed,
  crash_before_cleanup, has_fault, World, on_bindings, on_journal, on_files, on_registry,
  interrupted_at, revoke_reference, create_journal_locked, transition_journal_locked, projection_of,
  binding_discrete,
}
use lam.Attach.Coordinator.Logged.{
  HasRecord, Untouched, Keeping, Quiet, IsLogged, bind-Keeping, bind-Quiet, bind-IsLogged,
  record-IsLogged, Quiet-IsLogged, revoke-Keeping, create-HasRecord,
}
use lam.Attach.Execute.Logged.{step-Keeping, fail_with-Keeping, if_Keeping}
use lam.Attach.Detach.{
  Detached, detach_record, unbound_outcome, prepare_detach, undo_detach, run_detach, execute_detach,
}

module _ {P B J G : Type 0} (c : AttachTransactionCoordinator P B J G) (id : String) where
  prepare_detach-Quiet :
      (plan : ProfileDetachPlan) (current : ProfileProviderBinding)
      → Quiet c id (prepare_detach c plan current)
  unfolding prepare_detach
  prepare_detach-Quiet plan current =
      bind-Quiet c id
        (lift (
          guard
            (current.revision == plan.expected_binding_revision
              && is_yes (binding_discrete current plan.binding))
            (error attach_plan_stale)))
        _ (λ w. (refl, refl))
        λ a.
          bind-Quiet c id
            (reading (λ w. read_file c.calls current.config_projection.config_path w.files)) _
            (λ w. (refl, refl))
            λ source.
              bind-Quiet c id
                (lift (
                  guard (c.calls.config_hash source == plan.source_config_hash)
                    (error attach_plan_stale)))
                _ (λ w. (refl, refl))
                λ b.
                  bind-Quiet c id (lift (c.editor.detach_projection source (projection_of current)))
                    _ (λ w. (refl, refl)) λ contents w. (refl, refl)

  undo_Keeping :
      (d : Detached) (revision : ℕ) (other : String) (now : ℕ)
      → Keeping c id (undo_detach c d revision other now)
  unfolding undo_detach
  undo_Keeping d revision other now =
      bind-Keeping c id
        (lift (c.editor.reapply_managed_projection d.contents (projection_of d.current))) _
        (λ w k. k)
        λ restored.
          bind-Keeping c id
            (on_files (
              replace_config_file c.calls d.current.config_projection.config_path
                (c.calls.config_hash d.contents) restored))
            _ (λ w k. k)
            λ u.
              fail_with-Keeping c id revision other now rolled_back
                (error attach_binding_commit_failed)

  run_Keeping :
      (plan : ProfileDetachPlan) (d : Detached) (bindings : List ProfileProviderBinding)
      (created : ℕ) (other : String) (now : ℕ) (fault : Option TransactionFault)
      → Keeping c id (run_detach c plan d bindings created other now fault)
  unfolding run_detach
  run_Keeping plan d bindings created other now fault =
      bind-Keeping c id (interrupted_at (has_fault crash_after_prepared fault)) _ (λ w k. k)
        λ a.
          bind-Keeping c id
            (on_files (
              replace_config_file c.calls d.current.config_projection.config_path
                plan.source_config_hash d.contents))
            _ (λ w k. k)
            λ b.
              bind-Keeping c id
                (on_journal (transition_journal_locked c created other config_committed now none)) _
                (step-Keeping c id created other config_committed now none)
                λ revision.
                  bind-Keeping c id (interrupted_at (has_fault crash_after_config_committed fault))
                    _ (λ w k. k)
                    λ e.
                      bind-Keeping c id
                        (if has_fault fail_binding_commit fault
                          then undo_detach c d revision other now
                          else lift (ok tt))
                        _
                        (if_Keeping c id (has_fault fail_binding_commit fault)
                          (undo_detach c d revision other now) (lift (ok tt))
                          (undo_Keeping d revision other now) (λ w k. k))
                        λ f.
                          bind-Keeping c id
                            (on_bindings (
                              c.binding_store.swap plan.expected_binding_store_revision
                                (with_bindings (without profile_of plan.profile_id bindings))))
                            _ (λ w k. k)
                            λ snap.
                              bind-Keeping c id
                                (on_journal (
                                  transition_journal_locked c revision other binding_committed now
                                    none))
                                _ (step-Keeping c id revision other binding_committed now none)
                                λ next.
                                  bind-Keeping c id
                                    (interrupted_at (
                                      has_fault crash_after_binding_committed fault
                                      || has_fault crash_before_cleanup fault))
                                    _ (λ w k. k)
                                    λ g.
                                      bind-Keeping c id
                                        (revoke_reference c.gateway_service
                                          d.current.gateway_binding_id)
                                        _ (revoke-Keeping c id d.current.gateway_binding_id)
                                        λ h.
                                          bind-Keeping c id
                                            (on_journal (
                                              transition_journal_locked c next other completed now
                                                none))
                                            _ (step-Keeping c id next other completed now none)
                                            λ n w k. k

  each_detachment :
      (acquired : Result (Unit {0})) (ticket : String) (plan : ProfileDetachPlan) (now : ℕ)
      (fault : Option TransactionFault)
      → IsLogged c id (execute_detach c acquired ticket plan id now fault)
  unfolding execute_detach detach_record
  each_detachment acquired ticket plan now fault =
      bind-IsLogged c id (lift acquired) _ (λ w. (refl, refl))
        λ u.
          bind-IsLogged c id
            (reading (λ w. validate ticket plan.fingerprint plan.fingerprint now w.registry)) _
            (λ w. (refl, refl))
            λ f.
              bind-IsLogged c id (reading (λ w. c.binding_store.load w.bindings)) _
                (λ w. (refl, refl))
                λ bindings.
                  bind-IsLogged c id
                    (lift (
                      guard (bindings.revision == plan.expected_binding_store_revision)
                        (error attach_plan_stale)))
                    _ (λ w. (refl, refl))
                    λ g.
                      chosen bindings.revision bindings.value.bindings
                        (get profile_of plan.profile_id bindings.value.bindings)
    where
      spent : Exec (World P B J G) String
      spent = on_registry (consume ticket plan.fingerprint plan.fingerprint now)

      chosen :
          (revision : ℕ) (bindings : List ProfileProviderBinding)
          (current : Option ProfileProviderBinding)
          → IsLogged c id (elim current [
            | none ↦ spent >> lift (ok unbound_outcome)
            | some current ↦ prepare_detach c plan current >>= λ d.
                on_journal (
                  create_journal_locked c
                    (detach_record plan current revision (c.calls.config_hash d.contents) id now))
                >>= λ created. spent >> run_detach c plan d bindings created id now fault
          ])
      chosen revision bindings none = Quiet-IsLogged c id (spent >> lift (ok unbound_outcome)) (
          bind-Quiet c id spent (λ f. lift (ok unbound_outcome)) (λ w. (refl, refl))
            λ f w. (refl, refl))
      chosen revision bindings (some current) =
          bind-IsLogged c id (prepare_detach c plan current)
            (λ d. on_journal (create_journal_locked c (recorded d)) >>= λ created.
              spent >> run_detach c plan d bindings created id now fault)
            (prepare_detach-Quiet plan current)
            λ d.
              record-IsLogged c id (on_journal (create_journal_locked c (recorded d)))
                (λ created. spent >> run_detach c plan d bindings created id now fault)
                (λ w. (refl, refl)) (λ w n h. create-HasRecord c id (recorded d) w.journal n refl h)
                λ created.
                  bind-Keeping c id spent (λ f. run_detach c plan d bindings created id now fault)
                    (λ w k. k) λ f. run_Keeping plan d bindings created id now fault
        where
          recorded : Detached → AttachJournalRecord
          recorded d = detach_record plan current revision (c.calls.config_hash d.contents) id now

  -- Whatever a detachment returns, and wherever it is interrupted: if it changed a configuration or a
  -- binding, the journal has a record of the operation.
  pub execute_detach-IsLogged :
      (acquired : Result (Unit {0})) (ticket : String) (plan : ProfileDetachPlan) (now : ℕ)
      (fault : Option TransactionFault) (w : World P B J G)
      → Untouched c id w (execute_detach c acquired ticket plan id now fault w).1
        ⊎ HasRecord c id (execute_detach c acquired ticket plan id now fault w).1.journal
  execute_detach-IsLogged = each_detachment
