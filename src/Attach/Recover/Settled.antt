-- ===== src/Attach/Recover/Settled.antt =====
-- What a recovery that succeeds has done to an operation (services/provider_attach_transaction.rs): all
-- of it or nothing.
use lam.Prelude.{
  ℕ, String, Bool, true, false, not, ◌&&◌, ◌||◌, subst, ◌==◌, string_eq, some, ◌≡◌, refl, ◌∙◌, ap,
  arith, ◌⊎◌, inl, inr, if◌then◌else◌,
}
use lam.Prelude.Keyed.{get}
use text.Mathlib.TextEquality.{eq_iff}
use lam.Errors.{ok}
use lam.Exec.{Exec, reading, lift, ◌>>=◌, ◌>>◌}
use lam.Exec.Triple.{went_on}
use lam.Store.{StoreSnapshot}
use lam.Binding.{profile_of, map_key, ProfileBindingCollection}
use lam.Attach.Journal.{completed, rolled_back, AttachJournalRecord}
use lam.Attach.Config.{Files, read_file, replace_config_file}
use lam.Attach.Config.Replace.{replaced}
use lam.Attach.Coordinator.{AttachTransactionCoordinator, World, same_binding}
use lam.Attach.Recover.{
  is_committed, restored_config, mark_manual, rollback_record_config, finish_record, undo_record,
  recover_observed, recover_record, is_binding_committed,
}
use lam.Attach.Recover.Closing.{never_marks}
use lam.Attach.Recover.Marked.{IsMarked, finish-IsMarked, undo-IsMarked}

module _ {P B J G : Type 0} (c : AttachTransactionCoordinator P B J G) where
  abbrev W : Type 0
  W = World P B J G

  module _ (r : AttachJournalRecord) (now : ℕ) where
    -- The configuration `text` without the operation's changes is in place.
    abbrev pub IsRestored : String → Files → Type 0
    IsRestored text files =
        (restored : String) × (restored_config c.editor r text ≡ ok restored)
        × (get map_key r.config_path files ≡ some (r.config_path, restored))

    rollback-IsRestored :
        (text : String) (w : W) (x : Unit {0})
        → read_file c.calls r.config_path w.files ≡ ok text
        → (rollback_record_config c r w).0 ≡ ok x
        → IsRestored text (rollback_record_config c r w).1.files
    unfolding rollback_record_config
    rollback-IsRestored text w x read h =
        let (source, found, later, same) =
          went_on (reading (read_file c.calls r.config_path))
            (λ source. lift (restored_config c.editor r source) >>= λ restored.
              replace_config_file c.calls r.config_path r.config_intended_hash restored)
            w.files x h in
        let (restored, made, last, same') =
          went_on (lift (restored_config c.editor r source))
            (replace_config_file c.calls r.config_path r.config_intended_hash) w.files x later in
        let e : source ≡ text = ground (arith, found, read) in
        (
          restored,
          subst (λ t. restored_config c.editor r t ≡ ok restored) e made,
          rw (same, same')
              (replaced c.calls r.config_path restored w.files r.config_intended_hash last).1,
        )

    rollback-others :
        (w : W)
        → ((rollback_record_config c r w).1.bindings ≡ w.bindings)
          × ((rollback_record_config c r w).1.providers ≡ w.providers)
    unfolding rollback_record_config
    rollback-others w = (refl, refl)

    -- The operation is finished: the configuration has what it was to write.
    pub record IsFinished (text : String) (w w' : W) : Type 0 where
      pub finished : IsMarked c r.operation_id completed w w'
      pub intended : c.calls.config_hash text ≡ r.config_intended_hash
      pub files_kept : w'.files ≡ w.files

    -- The operation is undone: the configuration is the one before it, or was restored.
    pub record IsUndone (text : String) (w w' : W) : Type 0 where
      pub undone : IsMarked c r.operation_id rolled_back w w'
      pub config :
          ((c.calls.config_hash text ≡ r.config_before_hash) × (w'.files ≡ w.files))
          ⊎ ((c.calls.config_hash text ≡ r.config_intended_hash) × IsRestored text w'.files)

    abbrev pub Outcome : Bool → String → W → W → Type 0
    Outcome true text w w' = IsFinished text w w'
    Outcome false text w w' = IsUndone text w w'

    module _ (text : String) (w : W) (x : Unit {0}) where
      abbrev hash : String
      hash = c.calls.config_hash text

      abbrev marking : String → Exec W (Unit {0})
      marking reason = mark_manual c r now reason

      chosen_finish :
          (b : Bool)
          → (hash == r.config_intended_hash) ≡ b
          → ((if b then finish_record c r now else marking "ATTACH_RECOVERY_CONFIG_CONFLICT") w).0
            ≡ ok x
          → IsFinished text w
              ((if b then finish_record c r now else marking "ATTACH_RECOVERY_CONFIG_CONFLICT") w).1
      chosen_finish true e h =
          let (m, f) = finish-IsMarked c r now w x h in
          record {
            finished = m;
            intended = (eq_iff hash r.config_intended_hash).0 e;
            files_kept = f;
          }
      chosen_finish false e h = absurd (never_marks c r now _ w x h)

      rolled_back_IsUndone :
          read_file c.calls r.config_path w.files ≡ ok text
          → hash ≡ r.config_intended_hash
          → ((rollback_record_config c r >> undo_record c r now) w).0 ≡ ok x
          → IsUndone text w ((rollback_record_config c r >> undo_record c r now) w).1
      rolled_back_IsUndone read e h =
          let (u, restored, later, same) =
            went_on (rollback_record_config c r) (λ u. undo_record c r now) w x h in
          let w' : W = (rollback_record_config c r w).1 in
          let (m, f) = undo-IsMarked c r now w' x later in
          let (b, p) = rollback-others w in
          let (t, made, there) = rollback-IsRestored text w u read restored in
          rw same (record {
            undone = record {
              standing = m.standing;
              bindings = m.bindings ∙ b;
              providers = m.providers ∙ p;
            };
            config = inr (e, (t, made, ap (get map_key r.config_path) f ∙ there));
          })

      chosen_undo :
          (b : Bool)
          → (hash == r.config_before_hash) ≡ b
          → ((if b then undo_record c r now else marking "ATTACH_RECOVERY_CONFIG_CONFLICT") w).0
            ≡ ok x
          → IsUndone text w
              ((if b then undo_record c r now else marking "ATTACH_RECOVERY_CONFIG_CONFLICT") w).1
      chosen_undo true e h =
          let (m, f) = undo-IsMarked c r now w x h in
          record { undone = m; config = inl ((eq_iff hash r.config_before_hash).0 e, f) }
      chosen_undo false e h = absurd (never_marks c r now _ w x h)

      abbrev undoing : Bool → Bool → Bool → Exec W (Unit {0})
      undoing late intended before =
          if late
          then marking "ATTACH_RECOVERY_BINDING_CONFLICT"
          else (if intended
              then rollback_record_config c r >> undo_record c r now
              else (if before
                  then undo_record c r now
                  else marking "ATTACH_RECOVERY_CONFIG_CONFLICT"))

      chosen_rollback :
          (late intended : Bool)
          → (hash == r.config_intended_hash) ≡ intended
          → read_file c.calls r.config_path w.files ≡ ok text
          → (undoing late intended (hash == r.config_before_hash) w).0 ≡ ok x
          → IsUndone text w (undoing late intended (hash == r.config_before_hash) w).1
      chosen_rollback true intended e read h = absurd (never_marks c r now _ w x h)
      chosen_rollback false true e read h =
          rolled_back_IsUndone read ((eq_iff hash r.config_intended_hash).0 e) h
      chosen_rollback false false e read h = chosen_undo (hash == r.config_before_hash) refl h

      observed-Outcome :
          (committed : Bool)
          → read_file c.calls r.config_path w.files ≡ ok text
          → (recover_observed c r now committed hash w).0 ≡ ok x
          → Outcome committed text w (recover_observed c r now committed hash w).1
      unfolding recover_observed
      observed-Outcome true read h = chosen_finish (hash == r.config_intended_hash) refl h
      observed-Outcome false read h =
          chosen_rollback (is_binding_committed r.state) (hash == r.config_intended_hash) refl read
            h

    abbrev read_and_recover : Bool → Exec W (Unit {0})
    read_and_recover committed =
        reading (λ w. read_file c.calls r.config_path w.files) >>= λ contents.
        recover_observed c r now committed (c.calls.config_hash contents)

    -- for whether the operation's binding is stored, and whether the earlier one is
    abbrev recovering : Bool → Bool → Exec W (Unit {0})
    recovering committed earlier =
        if not committed && not earlier
        then mark_manual c r now "ATTACH_RECOVERY_BINDING_CONFLICT"
        else read_and_recover committed

    abbrev Recovered : Bool → Bool → W → W → Type 0
    Recovered committed earlier w w' =
        (text : String) × (read_file c.calls r.config_path w.files ≡ ok text)
        × ((committed || earlier) ≡ true)
        × Outcome committed text w w'

    opened :
        (k : Bool) (w : W) (x : Unit {0})
        → (read_and_recover k w).0 ≡ ok x
        → (text : String) × (read_file c.calls r.config_path w.files ≡ ok text)
          × Outcome k text w (read_and_recover k w).1
    opened k w x h =
        let (text, read, later, same) =
          went_on (reading (λ w. read_file c.calls r.config_path w.files))
            (λ contents. recover_observed c r now k (c.calls.config_hash contents)) w x h in
        (text, read, rw same (observed-Outcome text w x k read later))

    recovering-Recovered :
        (k s : Bool) (w : W) (x : Unit {0})
        → (recovering k s w).0 ≡ ok x
        → Recovered k s w (recovering k s w).1
    recovering-Recovered false false w x h = absurd (never_marks c r now _ w x h)
    recovering-Recovered true s w x h = let (t, read, o) = opened true w x h in (t, read, refl, o)
    recovering-Recovered false true w x h =
        let (t, read, o) = opened false w x h in (t, read, refl, o)

    -- the two tests on the bindings that are stored
    abbrev committed_in : StoreSnapshot ProfileBindingCollection → Bool
    committed_in stored = is_committed r (get profile_of r.profile_id stored.value.bindings)

    abbrev earlier_in : StoreSnapshot ProfileBindingCollection → Bool
    earlier_in stored =
        same_binding (get profile_of r.profile_id stored.value.bindings) r.previous_binding

    -- the bindings that were read, and what became of the operation
    pub record IsSettled (w w' : W) : Type 0 where
      pub stored : StoreSnapshot ProfileBindingCollection
      pub stored_read : c.binding_store.load w.bindings ≡ ok stored
      pub recovered : Recovered (committed_in stored) (earlier_in stored) w w'

    -- Where the recovery of an operation from its record succeeds, the bindings and providers are as they
    -- were, and either the binding that was prepared is stored (or, for a detach, none is), the
    -- configuration has what was intended, and the record is completed; or the earlier
    -- binding is stored, the configuration is the earlier one or the one without the operation's
    -- changes, and the record is rolled back.
    pub recover_record-IsSettled :
        (w : W) (x : Unit {0})
        → (recover_record c r now w).0 ≡ ok x
        → IsSettled w (recover_record c r now w).1
    unfolding recover_record
    recover_record-IsSettled w x h =
        let (stored, stored_read, later, same) =
          went_on (reading (λ w. c.binding_store.load w.bindings))
            (λ stored. recovering (committed_in stored) (earlier_in stored)) w x h in
        rw same (record {
          stored = stored;
          stored_read = stored_read;
          recovered = recovering-Recovered (committed_in stored) (earlier_in stored) w x later;
        })
