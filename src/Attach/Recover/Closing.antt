-- ===== src/Attach/Recover/Closing.antt =====
-- Each step of a recovery closes the operation that it takes up, or none
-- (services/provider_attach_transaction.rs).
use lam.Prelude.{
  ℕ, String, Bool, true, false, not, ◌&&◌, ◌==◌, string_eq, Option, none, some, List, [], ◌∷◌, ◌≡◌,
  refl, arith, ◌++◌, if◌then◌else◌, Bool-cases, inl, inr,
}
use lam.Prelude.Keyed.{get}
use lam.Errors.{ok}
use lam.Exec.{reading, lift, ◌>>=◌}
use lam.Exec.Triple.{went_on}
use lam.Binding.{profile_of, ProfileProviderBinding}
use lam.Attach.Journal.{
  AttachJournalState, prepared, config_committed, binding_committed, completed, rolled_back,
  manual_intervention, AttachJournalRecord, is_active,
}
use lam.Attach.Config.{read_file}
use lam.Attach.Coordinator.{
  AttachTransactionCoordinator, World, transition_journal_locked, transition_latest,
  journal_revision, on_journal, on_gateway, revoke_reference, same_binding,
}
use lam.Attach.Recover.{
  is_committed, mark_manual, rollback_record_config, caught_up, conclude_record, finish_record,
  undo_record, recover_observed, recover_record, is_binding_committed,
}
use lam.Attach.Recover.Steps.{closing, transition-Moved}
use lam.Attach.Recover.Lowers.{Lowers, bind-Lowers, apart-Lowers}

module _ {P B J G : Type 0} (c : AttachTransactionCoordinator P B J G) where
  abbrev pub of_journal : J → J
  of_journal j = j

  abbrev pub of_world : World P B J G → J
  of_world w = w.journal

  -- what a transition to the state closes
  transition-Lowers :
      (e : ℕ) (id : String) (state : AttachJournalState) (now : ℕ) (code : Option String)
      → Lowers c of_journal
          (transition_journal_locked c e id state now code)
          (λ n. closing id state)
  transition-Lowers e id state now code j n h = (transition-Moved c e id state now code j n h).0

  latest-Lowers :
      (id : String) (state : AttachJournalState) (now : ℕ) (code : Option String)
      → Lowers c of_journal (transition_latest c id state now code) (λ n. [] ++ closing id state)
  unfolding transition_latest
  latest-Lowers id state now code =
      bind-Lowers c of_journal (reading (journal_revision c)) _ [] (λ n. closing id state)
        (apart-Lowers c of_journal (reading (journal_revision c)) (λ j. refl))
        (λ revision. transition-Lowers revision id state now code)

  caught_up-Lowers :
      (state : AttachJournalState) (revision : ℕ) (id : String) (now : ℕ)
      → Lowers c of_journal (caught_up c state revision id now) (λ x. [])
  unfolding caught_up is_active
  caught_up-Lowers prepared revision id now =
      bind-Lowers c of_journal _ _ [] (λ x. [])
        (transition-Lowers revision id config_committed now none)
        λ first.
          bind-Lowers c of_journal _ _ [] (λ x. [])
            (transition-Lowers first id binding_committed now none)
            λ second. apart-Lowers c of_journal (lift (ok (binding_committed, second))) (λ j. refl)
  caught_up-Lowers config_committed revision id now =
      bind-Lowers c of_journal _ _ [] (λ x. [])
        (transition-Lowers revision id binding_committed now none)
        λ second. apart-Lowers c of_journal (lift (ok (binding_committed, second))) (λ j. refl)
  caught_up-Lowers binding_committed revision id now =
      apart-Lowers c of_journal (lift (ok (binding_committed, revision))) (λ j. refl)
  caught_up-Lowers completed revision id now =
      apart-Lowers c of_journal (lift (ok (completed, revision))) (λ j. refl)
  caught_up-Lowers rolled_back revision id now =
      apart-Lowers c of_journal (lift (ok (rolled_back, revision))) (λ j. refl)
  caught_up-Lowers manual_intervention revision id now =
      apart-Lowers c of_journal (lift (ok (manual_intervention, revision))) (λ j. refl)

  revoke-Lowers :
      (reference : Option String)
      → Lowers c of_world (revoke_reference c.gateway_service reference) (λ x. [])
  revoke-Lowers none = apart-Lowers c of_world (lift (ok tt)) (λ w. refl)
  revoke-Lowers (some reference) =
      apart-Lowers c of_world (on_gateway (c.gateway_service.revoke reference)) (λ w. refl)

  pub never_marks :
      (r : AttachJournalRecord) (now : ℕ) (reason : String) (w : World P B J G) (x : Unit {0})
      → (mark_manual c r now reason w).0 ≡ ok x
      → ⊥
  unfolding mark_manual
  never_marks r now reason w x h =
      let (n, _, later, _) =
        went_on
          (on_journal (transition_latest c r.operation_id manual_intervention now (some reason))) _
          w x h in
      ground (arith, later)

  mark_manual-Lowers :
      (r : AttachJournalRecord) (now : ℕ) (reason : String) (d : List String)
      → Lowers c of_world (mark_manual c r now reason) (λ x. d)
  mark_manual-Lowers r now reason d w x h = absurd (never_marks r now reason w x h)

  conclude-Lowers :
      (r : AttachJournalRecord) (now : ℕ) (reached : AttachJournalState × ℕ)
      → Lowers c of_world (conclude_record c r now reached) (λ x. r.operation_id ∷ [])
  unfolding conclude_record is_active
  conclude-Lowers r now (binding_committed, revision) =
      bind-Lowers c of_world (revoke_reference c.gateway_service r.superseded_gateway_binding_ref) _
        [] (λ x. r.operation_id ∷ []) (revoke-Lowers r.superseded_gateway_binding_ref)
        λ x.
          bind-Lowers c of_world
            (on_journal (transition_journal_locked c revision r.operation_id completed now none)) _
            (r.operation_id ∷ []) (λ x. [])
            (λ w. transition-Lowers revision r.operation_id completed now none w.journal)
            λ n. apart-Lowers c of_world (lift (ok tt)) (λ w. refl)
  conclude-Lowers r now (prepared, revision) = mark_manual-Lowers r now _ (r.operation_id ∷ [])
  conclude-Lowers r now (config_committed, revision) =
      mark_manual-Lowers r now _ (r.operation_id ∷ [])
  conclude-Lowers r now (completed, revision) = mark_manual-Lowers r now _ (r.operation_id ∷ [])
  conclude-Lowers r now (rolled_back, revision) = mark_manual-Lowers r now _ (r.operation_id ∷ [])
  conclude-Lowers r now (manual_intervention, revision) =
      mark_manual-Lowers r now _ (r.operation_id ∷ [])

  finish-Lowers :
      (r : AttachJournalRecord) (now : ℕ)
      → Lowers c of_world (finish_record c r now) (λ x. r.operation_id ∷ [])
  unfolding finish_record
  finish-Lowers r now =
      bind-Lowers c of_world (on_journal (reading (journal_revision c))) _ []
        (λ x. r.operation_id ∷ [])
        (apart-Lowers c of_world (on_journal (reading (journal_revision c))) (λ w. refl))
        λ revision.
          bind-Lowers c of_world (on_journal (caught_up c r.state revision r.operation_id now)) _ []
            (λ x. r.operation_id ∷ [])
            (λ w. caught_up-Lowers r.state revision r.operation_id now w.journal)
            (conclude-Lowers r now)

  undo-Lowers :
      (r : AttachJournalRecord) (now : ℕ)
      → Lowers c of_world (undo_record c r now) (λ x. r.operation_id ∷ [])
  unfolding undo_record is_active
  undo-Lowers r now =
      bind-Lowers c of_world (revoke_reference c.gateway_service r.new_gateway_binding_ref) _ []
        (λ x. r.operation_id ∷ []) (revoke-Lowers r.new_gateway_binding_ref)
        λ x.
          bind-Lowers c of_world
            (on_journal (transition_latest c r.operation_id rolled_back now none)) _
            (r.operation_id ∷ []) (λ x. [])
            (λ w. latest-Lowers r.operation_id rolled_back now none w.journal)
            λ n. apart-Lowers c of_world (lift (ok tt)) (λ w. refl)

  rollback-journal :
      (r : AttachJournalRecord) (w : World P B J G)
      → (rollback_record_config c r w).1.journal ≡ w.journal
  unfolding rollback_record_config
  rollback-journal r w = refl

  observed-Lowers :
      (r : AttachJournalRecord) (now : ℕ) (committed : Bool) (hash : String)
      → Lowers c of_world (recover_observed c r now committed hash) (λ x. r.operation_id ∷ [])
  unfolding recover_observed
  observed-Lowers r now true hash = elim (Bool-cases (hash == r.config_intended_hash)) [
    | inl e ↦ rw e (finish-Lowers r now)
    | inr e ↦ rw e (mark_manual-Lowers r now _ (r.operation_id ∷ []))
  ]
  observed-Lowers r now false hash = elim (Bool-cases (is_binding_committed r.state)) [
    | inl e ↦ rw e (mark_manual-Lowers r now _ (r.operation_id ∷ []))
    | inr e ↦ rw e (elim (Bool-cases (hash == r.config_intended_hash)) [
      | inl f ↦ rw f (
          bind-Lowers c of_world (rollback_record_config c r) _ [] (λ x. r.operation_id ∷ [])
            (apart-Lowers c of_world (rollback_record_config c r) (rollback-journal r))
            λ x. undo-Lowers r now)
      | inr f ↦ rw f (elim (Bool-cases (hash == r.config_before_hash)) [
        | inl g ↦ rw g (undo-Lowers r now)
        | inr g ↦ rw g (mark_manual-Lowers r now _ (r.operation_id ∷ []))
      ])
    ])
  ]

  pub recover_record-Lowers :
      (r : AttachJournalRecord) (now : ℕ)
      → Lowers c of_world (recover_record c r now) (λ x. r.operation_id ∷ [])
  unfolding recover_record
  recover_record-Lowers r now =
      bind-Lowers c of_world (reading (λ w. c.binding_store.load w.bindings)) _ []
        (λ x. r.operation_id ∷ [])
        (apart-Lowers c of_world (reading (λ w. c.binding_store.load w.bindings)) (λ w. refl))
        λ bindings. chosen (get profile_of r.profile_id bindings.value.bindings)
    where
      chosen :
          (current : Option ProfileProviderBinding)
          → Lowers c of_world
              (if not (is_committed r current) && not (same_binding current r.previous_binding)
                then mark_manual c r now "ATTACH_RECOVERY_BINDING_CONFLICT"
                else (reading (λ w. read_file c.calls r.config_path w.files) >>= λ contents.
                    recover_observed c r now
                      (is_committed r current)
                      (c.calls.config_hash contents)))
              (λ x. r.operation_id ∷ [])
      chosen current =
          elim (Bool-cases
            (not (is_committed r current) && not (same_binding current r.previous_binding))) [
              | inl e ↦ rw e (mark_manual-Lowers r now _ (r.operation_id ∷ []))
              | inr e ↦ rw e (
                  bind-Lowers c of_world (reading (λ w. read_file c.calls r.config_path w.files)) _
                    [] (λ x. r.operation_id ∷ [])
                    (apart-Lowers c of_world
                      (reading (λ w. read_file c.calls r.config_path w.files)) (λ w. refl))
                    λ contents.
                      observed-Lowers r now (is_committed r current) (c.calls.config_hash contents))
            ]
