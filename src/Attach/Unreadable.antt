-- ===== src/Attach/Unreadable.antt =====
-- The coordinator's own writes to the journal check less than the repository's
-- (services/provider_attach_transaction.rs): what it writes may fail the checks of the next load.
use lam.Prelude.{
  ◌<◌, all, find, update_first, ◌==◌, Bool, false, String, List, Option, some, ℕ, true, [], ◌∷◌,
  ◌++◌, ◌≡◌, ◌≢◌, refl, ◌∙◌, ap, sym, arith, count, count-append, count-sort_by, string_eq,
}
use lam.Prelude.Keyed.{get, update}
use lam.Errors.{Result, ok, err}
use lam.Store.{StoreSnapshot}
use lam.Attach.Journal.{
  AttachJournalState, AttachJournalRecord, AttachJournalCollection, is_open, operation_of, moved_to,
  validate_record, max_active_records, validate_collection, with_records, sort_records,
  record_not_after,
}
use lam.Attach.Journal.Valid.{is_valid, validate_collection-IsSound_iff}
use lam.Attach.Coordinator.{
  AttachTransactionCoordinator, create_journal_locked, transition_journal_locked,
}

all-update_bad :
    {A : Type 0} (p q : A → Bool) (f : A → A) (xs : List A) (x : A)
    → find q xs ≡ some x
    → p (f x) ≡ false
    → all p (update_first q f xs) ≡ false
all-update_bad p q f [] x h bad = ground arith
all-update_bad p q f (y ∷ ys) x h bad = ground (arith, all-update_bad p q f ys x)

module _ {P B J G : Type 0} (c : AttachTransactionCoordinator P B J G) where
  abbrev Snapshot : Type 0
  Snapshot = StoreSnapshot AttachJournalCollection

  -- The journal is there, and the checks that follow each load refuse it.
  abbrev pub IsUnreadable : J → Type 0
  IsUnreadable j =
      (snap : Snapshot) × (c.journal_store.load j ≡ ok snap)
      × (validate_collection c.to_text snap.value ≢ ok tt)

  -- what a swap that succeeds leaves
  module _ (e : ℕ) (v : AttachJournalCollection) (j : J) (snap : Snapshot)
      (s : (c.journal_store.swap e v j).0 ≡ ok snap) where
    swapped-IsUnreadable :
        (validate_collection c.to_text v ≢ ok tt) → IsUnreadable (c.journal_store.swap e v j).1
    swapped-IsUnreadable bad =
        let same = (c.journal_store.swap_value e v j snap s).0 in
        (
          snap,
          c.journal_store.load-swap e v j snap s,
          λ h. bad (ap (validate_collection c.to_text) (sym same) ∙ h),
        )

  module _ (r : AttachJournalRecord) (j : J) (n : ℕ) (before : Snapshot)
      (read : c.journal_store.load j ≡ ok before) (h : (create_journal_locked c r j).0 ≡ ok n) where
    abbrev added : AttachJournalCollection
    added = with_records (sort_records (before.value.records ++ r ∷ []))

    create-swap :
        (snap : Snapshot) × ((c.journal_store.swap before.revision added j).0 ≡ ok snap)
        × ((create_journal_locked c r j).1 ≡ (c.journal_store.swap before.revision added j).1)
    unfolding create_journal_locked
    create-swap = go (c.journal_store.swap before.revision added j).0 refl
      where
        go :
            (x : Result Snapshot)
            → (c.journal_store.swap before.revision added j).0 ≡ x
            → (snap : Snapshot) × ((c.journal_store.swap before.revision added j).0 ≡ ok snap)
              × ((create_journal_locked c r j).1 ≡ (c.journal_store.swap before.revision added j).1)
        go (ok snap) e = (snap, e, ground arith)
        go (err _) e = absurd (ground arith)

    -- Where 128 operations are active already, a new one that is recorded makes the journal unreadable:
    -- the limit is checked by each load, and not before the record is written.
    pub create_full-IsUnreadable :
        count is_open before.value.records ≡ max_active_records
        → is_open r ≡ true
        → IsUnreadable (create_journal_locked c r j).1
    create_full-IsUnreadable full open_ =
        let (snap, s, same) = create-swap in
        rw same (
          swapped-IsUnreadable before.revision added j snap s λ valid.
            let sound = (validate_collection-IsSound_iff c.to_text added).0 valid in
            ground (
              arith,
              sound.within,
              count-sort_by record_not_after is_open (before.value.records ++ r ∷ []),
              count-append is_open before.value.records (r ∷ []),
            ))

  module _ (e : ℕ) (id : String) (state : AttachJournalState) (now : ℕ) (code : Option String)
      (j : J) (n : ℕ) (before : Snapshot) (r : AttachJournalRecord)
      (read : c.journal_store.load j ≡ ok before)
      (found : get operation_of id before.value.records ≡ some r)
      (h : (transition_journal_locked c e id state now code j).0 ≡ ok n) where
    abbrev updated : AttachJournalCollection
    updated = with_records (update operation_of id (moved_to state now code) before.value.records)

    transition-swap :
        (snap : Snapshot) × ((c.journal_store.swap e updated j).0 ≡ ok snap)
        × ((transition_journal_locked c e id state now code j).1
            ≡ (c.journal_store.swap e updated j).1)
    unfolding transition_journal_locked
    transition-swap = go (c.journal_store.swap e updated j).0 refl
      where
        go :
            (x : Result Snapshot)
            → (c.journal_store.swap e updated j).0 ≡ x
            → (snap : Snapshot) × ((c.journal_store.swap e updated j).0 ≡ ok snap)
              × ((transition_journal_locked c e id state now code j).1
                  ≡ (c.journal_store.swap e updated j).1)
        go (ok snap) x = (snap, x, ground arith)
        go (err _) x = absurd (ground arith)

    too_early : now < r.created_at_ms → is_valid c.to_text (moved_to state now code r) ≡ false
    unfolding validate_record
    too_early early = ground arith

    -- A transition at a time before the operation's creation, as after the clock was set back, makes
    -- the journal unreadable: the record that is written is not checked.
    pub transition_early-IsUnreadable :
        now < r.created_at_ms → IsUnreadable (transition_journal_locked c e id state now code j).1
    transition_early-IsUnreadable early =
        let (snap, s, same) = transition-swap in
        rw same (
          swapped-IsUnreadable e updated j snap s λ valid.
            let sound = (validate_collection-IsSound_iff c.to_text updated).0 valid in
            ground (
              arith,
              sound.valid,
              all-update_bad (is_valid c.to_text) (λ x. operation_of x == id)
                  (moved_to state now code) before.value.records r found (too_early early),
            ))
