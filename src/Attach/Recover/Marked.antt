-- ===== src/Attach/Recover/Marked.antt =====
-- The last steps of a recovery mark the operation's record (services/provider_attach_transaction.rs).
use lam.Prelude.{ℕ, String, string_eq, Option, none, some, ◌≡◌, refl}
use lam.Errors.{ok}
use lam.Exec.{Exec, reading, lift, ◌>>=◌, ◌>>◌}
use lam.Exec.Triple.{went_on}
use lam.Attach.Journal.{
  AttachJournalState, prepared, config_committed, binding_committed, completed, rolled_back,
  manual_intervention, AttachJournalRecord,
}
use lam.Attach.Coordinator.{
  AttachTransactionCoordinator, World, transition_journal_locked, transition_latest,
  journal_revision, on_journal, revoke_reference,
}
use lam.Attach.Recover.{caught_up, conclude_record, finish_record, undo_record}
use lam.Attach.Recover.Steps.{Stands, transition-Moved}
use lam.Attach.Recover.Closing.{never_marks}

module _ {P B J G : Type 0} (c : AttachTransactionCoordinator P B J G) where
  abbrev W : Type 0
  W = World P B J G

  -- The operation's record is in this state, and the other stores are as they were.
  pub record IsMarked (id : String) (state : AttachJournalState) (w w' : World P B J G)
      : Type 0 where
    pub standing : Stands c id state w'.journal
    pub bindings : w'.bindings ≡ w.bindings
    pub providers : w'.providers ≡ w.providers

  revoked :
      (reference : Option String) (w : W)
      → ((revoke_reference c.gateway_service reference w).1.bindings ≡ w.bindings)
        × ((revoke_reference c.gateway_service reference w).1.providers ≡ w.providers)
        × ((revoke_reference c.gateway_service reference w).1.files ≡ w.files)
  revoked none w = (refl, refl, refl)
  revoked (some _) w = (refl, refl, refl)

  -- a revocation and one step on the journal
  abbrev closing_steps : Option String → Exec J ℕ → Exec W (Unit {0})
  closing_steps reference m =
      revoke_reference c.gateway_service reference >> (on_journal m >> lift (ok tt))

  closing_steps-IsMarked :
      (reference : Option String) (m : Exec J ℕ) (id : String) (state : AttachJournalState)
      → ((j : J) (n : ℕ) → (m j).0 ≡ ok n → Stands c id state (m j).1)
      → (w : World P B J G) (x : Unit {0}) → (closing_steps reference m w).0 ≡ ok x
      → IsMarked id state w (closing_steps reference m w).1
        × ((closing_steps reference m w).1.files ≡ w.files)
  closing_steps-IsMarked reference m id state stands w x h =
      let (_, _, later, same) =
        went_on (revoke_reference c.gateway_service reference) (λ u. on_journal m >> lift (ok tt)) w
          x h in
      let w' : W = (revoke_reference {P = P} {B = B} {J = J} c.gateway_service reference w).1 in
      let (n, stepped, _, same') = went_on (on_journal m) (λ n. lift (ok tt)) w' x later in
      let (b, p, f) = revoked reference w in
      rw (same, same')
        (record { standing = stands w'.journal n stepped; bindings = b; providers = p }, f)

  latest-Stands :
      (id : String) (state : AttachJournalState) (now : ℕ) (code : Option String) (j : J) (n : ℕ)
      → (transition_latest c id state now code j).0 ≡ ok n
      → Stands c id state (transition_latest c id state now code j).1
  unfolding transition_latest
  latest-Stands id state now code j n h =
      let (revision, _, later, same) =
        went_on (reading (journal_revision c))
          (λ e. transition_journal_locked c e id state now code) j n h in
      rw same (transition-Moved c revision id state now code j n later).1

  module _ (r : AttachJournalRecord) (now : ℕ) where
    conclude-IsMarked :
        (reached : AttachJournalState × ℕ) (w : World P B J G) (x : Unit {0})
        → (conclude_record c r now reached w).0 ≡ ok x
        → IsMarked r.operation_id completed w (conclude_record c r now reached w).1
          × ((conclude_record c r now reached w).1.files ≡ w.files)
    unfolding conclude_record
    conclude-IsMarked (binding_committed, revision) w x h =
        closing_steps-IsMarked r.superseded_gateway_binding_ref
          (transition_journal_locked c revision r.operation_id completed now none) r.operation_id
          completed
          (λ j n s. (transition-Moved c revision r.operation_id completed now none j n s).1) w x h
    conclude-IsMarked (prepared, revision) w x h = absurd (never_marks c r now _ w x h)
    conclude-IsMarked (config_committed, revision) w x h = absurd (never_marks c r now _ w x h)
    conclude-IsMarked (completed, revision) w x h = absurd (never_marks c r now _ w x h)
    conclude-IsMarked (rolled_back, revision) w x h = absurd (never_marks c r now _ w x h)
    conclude-IsMarked (manual_intervention, revision) w x h = absurd (never_marks c r now _ w x h)

    pub finish-IsMarked :
        (w : World P B J G) (x : Unit {0})
        → (finish_record c r now w).0 ≡ ok x
        → IsMarked r.operation_id completed w (finish_record c r now w).1
          × ((finish_record c r now w).1.files ≡ w.files)
    unfolding finish_record
    finish-IsMarked w x h =
        let (revision, _, later, same) =
          went_on (on_journal (reading (journal_revision c)))
            (λ revision. on_journal (caught_up c r.state revision r.operation_id now) >>= λ reached.
              conclude_record c r now reached)
            w x h in
        let (reached, _, last, same') =
          went_on (on_journal (caught_up c r.state revision r.operation_id now))
            (conclude_record c r now) w x later in
        let w' : W = record w {
          journal = (caught_up c r.state revision r.operation_id now w.journal).1;
        } in
        let (m, f) = conclude-IsMarked reached w' x last in
        rw (same, same')
          (record { standing = m.standing; bindings = m.bindings; providers = m.providers }, f)

    pub undo-IsMarked :
        (w : World P B J G) (x : Unit {0})
        → (undo_record c r now w).0 ≡ ok x
        → IsMarked r.operation_id rolled_back w (undo_record c r now w).1
          × ((undo_record c r now w).1.files ≡ w.files)
    unfolding undo_record
    undo-IsMarked w x h =
        closing_steps-IsMarked r.new_gateway_binding_ref
          (transition_latest c r.operation_id rolled_back now none) r.operation_id rolled_back
          (latest-Stands r.operation_id rolled_back now none) w x h
