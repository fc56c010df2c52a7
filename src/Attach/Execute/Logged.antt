-- ===== src/Attach/Execute/Logged.antt =====
-- `execute_attach` writes the journal before it changes a configuration or a binding
-- (services/provider_attach_transaction.rs).
use lam.Prelude.{
  ℕ, String, Bool, true, false, Option, none, some, refl, ◌⊎◌, if◌then◌else◌, ◌==◌, string_eq,
}
use lam.Errors.{
  AppError, Result, ok, err, error, attach_binding_commit_failed, codex_config_ownership_conflict,
}
use lam.Exec.{Exec, lift, reading, ◌>>◌}
use lam.Binding.Repository.{with_bindings}
use lam.Planner.Plans.{ProfileAttachPlan}
use lam.Planner.Tickets.{consume}
use lam.Attach.Journal.{
  AttachJournalState, config_committed, binding_committed, completed, rolled_back,
  manual_intervention,
}
use lam.Attach.Config.{read_file, replace_config_file}
use lam.Attach.Coordinator.{
  AttachTransactionCoordinator, TransactionFault, has_fault, crash_after_prepared,
  crash_after_config_committed, fail_binding_commit, drift_config_before_binding_commit,
  crash_after_binding_committed, crash_before_cleanup, World, on_error, on_bindings, on_journal,
  on_files, on_registry, ignored, revoke_reference, create_journal_locked,
  transition_journal_locked, interrupted_at,
}
use lam.Attach.Coordinator.Logged.{
  HasRecord, Untouched, Keeping, IsLogged, bind-Keeping, bind-IsLogged, record-IsLogged,
  on_error-Keeping, revoke-Keeping, transition-HasRecord,
}
use lam.Attach.Prepare.{Prepared, with_binding, gateway_id_of, attach_record, prepare_attach}
use lam.Attach.Execute.{
  or_revoke, write_config, fail_with, commit_config, undo_config, drift_config, check_config,
  commit_binding, complete_attach, after_config, execute_attach,
}
use lam.Attach.Execute.Recorded.{prepare_attach-Quiet, recording-Quiet, recording-HasRecord}

module _ {P B J G : Type 0} (c : AttachTransactionCoordinator P B J G) (id : String) where
  pub step-Keeping :
      (e : ℕ) (other : String) (state : AttachJournalState) (now : ℕ) (code : Option String)
      → Keeping c id (on_journal (transition_journal_locked c e other state now code))
  step-Keeping e other state now code w k =
      transition-HasRecord c id e other state now code w.journal k

  pub fail_with-Keeping :
      (e : ℕ) (other : String) (now : ℕ) (state : AttachJournalState) (x : AppError)
      → Keeping c id (fail_with c e other now state x)
  unfolding fail_with
  fail_with-Keeping e other now state x =
      bind-Keeping c id
        (on_journal (transition_journal_locked c e other state now (some (c.code_text x.code)))) _
        (step-Keeping e other state now (some (c.code_text x.code))) λ n w k. k

  ignored-Keeping :
      {A : Type 0} (m : Exec (World P B J G) A) → Keeping c id m → Keeping c id (ignored m)
  ignored-Keeping m k w i = k w i

  config_Keeping :
      (plan : ProfileAttachPlan) (p : Prepared) (revision now : ℕ)
      → Keeping c id (commit_config c plan p revision now)
  unfolding commit_config write_config
  config_Keeping plan p revision now =
      bind-Keeping c id (on_error (write_config c plan p) given_up) _
        (on_error-Keeping c id (write_config c plan p) given_up (λ w k. k) given_up-Keeping)
        λ u. step-Keeping revision p.operation_id config_committed now none
    where
      given_up : AppError → Exec (World P B J G) (Unit {0})
      given_up e =
          ignored (revoke_reference c.gateway_service p.gateway_reference)
          >> (ignored (fail_with c revision p.operation_id now rolled_back e) >> lift (err e))

      given_up-Keeping : (e : AppError) → Keeping c id (given_up e)
      given_up-Keeping e =
          bind-Keeping c id {D = Unit {0}}
            (ignored (revoke_reference c.gateway_service p.gateway_reference))
            (λ u. ignored (fail_with c revision p.operation_id now rolled_back e) >> lift (err e))
            (revoke-Keeping c id p.gateway_reference)
            λ u.
              bind-Keeping c id {D = Unit {0}}
                (ignored (fail_with c revision p.operation_id now rolled_back e))
                (λ v. lift {A = Unit {0}} (err e))
                (fail_with-Keeping revision p.operation_id now rolled_back e) λ v w k. k

  undo_Keeping :
      (plan : ProfileAttachPlan) (p : Prepared) (revision now : ℕ)
      → Keeping c id (undo_config c plan p revision now)
  unfolding undo_config
  undo_Keeping plan p revision now =
      bind-Keeping c id
        (on_files
          (replace_config_file c.calls plan.config_path p.applied.projection.applied_hash p.source))
        _ (λ w k. k)
        λ u.
          bind-Keeping c id (revoke_reference c.gateway_service p.gateway_reference) _
            (revoke-Keeping c id p.gateway_reference)
            λ v.
              fail_with-Keeping revision p.operation_id now rolled_back
                (error attach_binding_commit_failed)

  check_Keeping :
      (plan : ProfileAttachPlan) (p : Prepared) (revision now : ℕ)
      → Keeping c id (check_config c plan p revision now)
  unfolding check_config
  check_Keeping plan p revision now =
      bind-Keeping c id (reading (λ w. read_file c.calls plan.config_path w.files)) _ (λ w k. k)
        λ contents. unchanged (c.calls.config_hash contents == p.applied.projection.applied_hash)
    where
      unchanged :
          (same : Bool)
          → Keeping c id (
              if same
              then lift (ok tt)
              else (ignored (revoke_reference c.gateway_service p.gateway_reference)
                  >> fail_with c revision p.operation_id now manual_intervention
                      (error codex_config_ownership_conflict)))
      unchanged true = λ w k. k
      unchanged false =
          bind-Keeping c id (ignored (revoke_reference c.gateway_service p.gateway_reference))
            (λ u.
              fail_with c revision p.operation_id now manual_intervention
                (error codex_config_ownership_conflict))
            (revoke-Keeping c id p.gateway_reference)
            λ u.
              fail_with-Keeping revision p.operation_id now manual_intervention
                (error codex_config_ownership_conflict)

  binding_Keeping :
      (plan : ProfileAttachPlan) (p : Prepared) (revision now : ℕ)
      → Keeping c id (commit_binding c plan p revision now)
  unfolding commit_binding
  binding_Keeping plan p revision now =
      bind-Keeping c id
        (on_bindings (
          c.binding_store.swap plan.expected_binding_store_revision
            (with_bindings (with_binding plan.profile_id p.binding p.bindings))))
        _ (λ w k. k) λ snap. step-Keeping revision p.operation_id binding_committed now none

  complete_Keeping :
      (p : Prepared) (revision now : ℕ) → Keeping c id (complete_attach c p revision now)
  unfolding complete_attach
  complete_Keeping p revision now =
      bind-Keeping c id (revoke_reference c.gateway_service (gateway_id_of p.previous)) _
        (revoke-Keeping c id (gateway_id_of p.previous))
        λ u.
          bind-Keeping c id
            (on_journal (transition_journal_locked c revision p.operation_id completed now none)) _
            (step-Keeping revision p.operation_id completed now none) λ n w k. k

  pub if_Keeping :
      {A : Type 0} (b : Bool) (m n : Exec (World P B J G) A)
      → Keeping c id m
      → Keeping c id n
      → Keeping c id (if b then m else n)
  if_Keeping true m n k l = k
  if_Keeping false m n k l = l

  after_Keeping :
      (plan : ProfileAttachPlan) (p : Prepared) (revision now : ℕ) (fault : Option TransactionFault)
      → Keeping c id (after_config c plan p revision now fault)
  unfolding after_config drift_config
  after_Keeping plan p revision now fault =
      bind-Keeping c id (interrupted_at (has_fault crash_after_config_committed fault)) _ (λ w k. k)
        λ a.
          bind-Keeping c id
            (if has_fault fail_binding_commit fault
              then undo_config c plan p revision now
              else lift (ok tt))
            _
            (if_Keeping (has_fault fail_binding_commit fault) (undo_config c plan p revision now)
              (lift (ok tt)) (undo_Keeping plan p revision now) (λ w k. k))
            λ b.
              bind-Keeping c id
                (if has_fault drift_config_before_binding_commit fault
                  then drift_config c plan
                  else lift (ok tt))
                _
                (if_Keeping (has_fault drift_config_before_binding_commit fault)
                  (drift_config c plan) (lift (ok tt)) (λ w k. k) (λ w k. k))
                λ d.
                  bind-Keeping c id (check_config c plan p revision now) _
                    (check_Keeping plan p revision now)
                    λ e.
                      bind-Keeping c id (commit_binding c plan p revision now) _
                        (binding_Keeping plan p revision now)
                        λ next.
                          bind-Keeping c id
                            (interrupted_at (has_fault crash_after_binding_committed fault)) _
                            (λ w k. k)
                            λ f.
                              bind-Keeping c id
                                (interrupted_at (has_fault crash_before_cleanup fault)) _ (λ w k. k)
                                λ g. complete_Keeping p next now

  each_attachment :
      (acquired : Result (Unit {0})) (ticket : String) (plan : ProfileAttachPlan) (now : ℕ)
      (fault : Option TransactionFault)
      → IsLogged c id (execute_attach c acquired ticket plan id now fault)
  unfolding execute_attach attach_record
  each_attachment acquired ticket plan now fault =
      bind-IsLogged c id (lift acquired) _ (λ w. (refl, refl))
        λ u.
          bind-IsLogged c id (prepare_attach c ticket plan id now) _
            (prepare_attach-Quiet c id ticket plan id now)
            λ p.
              record-IsLogged c id
                (or_revoke c p (on_journal (create_journal_locked c (attach_record plan p id now))))
                _ (recording-Quiet c id p (attach_record plan p id now) refl)
                (recording-HasRecord c id p (attach_record plan p id now) refl)
                λ created.
                  bind-Keeping c id
                    (on_registry (consume ticket plan.fingerprint plan.fingerprint now)) _
                    (λ w k. k)
                    λ f.
                      bind-Keeping c id (interrupted_at (has_fault crash_after_prepared fault)) _
                        (λ w k. k)
                        λ a.
                          bind-Keeping c id (commit_config c plan p created now) _
                            (config_Keeping plan p created now)
                            λ revision. after_Keeping plan p revision now fault

  -- Whatever an attachment returns, and wherever it is interrupted: if it changed a configuration or a
  -- binding, the journal has a record of the operation.
  pub execute_attach-IsLogged :
      (acquired : Result (Unit {0})) (ticket : String) (plan : ProfileAttachPlan) (now : ℕ)
      (fault : Option TransactionFault) (w : World P B J G)
      → Untouched c id w (execute_attach c acquired ticket plan id now fault w).1
        ⊎ HasRecord c id (execute_attach c acquired ticket plan id now fault w).1.journal
  execute_attach-IsLogged = each_attachment
