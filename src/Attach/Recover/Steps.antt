-- ===== src/Attach/Recover/Steps.antt =====
-- A step on the journal (services/provider_attach_transaction.rs): which record it moves, and which
-- operations stay active.
use lam.Prelude.{
  ℕ, String, true, Option, none, some, List, [], ◌∷◌, ◌≡◌, refl, ◌∙◌, ap, arith, string_eq,
  if◌then◌else◌, eq_refl,
}
use lam.Prelude.Keyed.{get, update, get-replace}
use lam.Errors.{Result, ok, err}
use lam.Store.{StoreSnapshot}
use lam.Attach.Journal.{
  AttachJournalState, AttachJournalRecord, AttachJournalCollection, is_active, valid_transition,
  operation_of, moved_to, with_records,
}
use lam.Attach.Recover.Open.{open_ids, strike_all, open_ids-update}
use lam.Attach.Coordinator.{AttachTransactionCoordinator, transition_journal_locked}

valid-is_active : (a b : AttachJournalState) → valid_transition a b ≡ true → is_active a ≡ true
unfolding valid_transition is_active
valid-is_active AttachJournalState.prepared b h = refl
valid-is_active AttachJournalState.config_committed b h = refl
valid-is_active AttachJournalState.binding_committed b h = refl
valid-is_active AttachJournalState.completed b h = absurd (ground arith)
valid-is_active AttachJournalState.rolled_back b h = absurd (ground arith)
valid-is_active AttachJournalState.manual_intervention b h = absurd (ground arith)

-- the operations that a step to this state closes
abbrev pub closing : String → AttachJournalState → List String
closing id state = if is_active state then [] else id ∷ []

module _ {P B J G : Type 0} (c : AttachTransactionCoordinator P B J G) where
  abbrev Snapshot : Type 0
  Snapshot = StoreSnapshot AttachJournalCollection

  -- From a journal that is read, these operations are no longer active, and all others are as they were.
  abbrev pub Closes : List String → J → J → Type 0
  Closes ids j j' =
      (before : Snapshot)
      → c.journal_store.load j ≡ ok before
      → (after : Snapshot) × (c.journal_store.load j' ≡ ok after)
        × (open_ids after.value.records ≡ strike_all ids (open_ids before.value.records))

  -- The operation's record is in this state.
  abbrev pub Stands : String → AttachJournalState → J → Type 0
  Stands id state j =
      (snap : Snapshot) × (c.journal_store.load j ≡ ok snap)
      × (r : AttachJournalRecord) × (get operation_of id snap.value.records ≡ some r)
      × (r.state ≡ state)

  module _ (e : ℕ) (id : String) (state : AttachJournalState) (now : ℕ) (code : Option String)
      (j : J) (n : ℕ) (h : (transition_journal_locked c e id state now code j).0 ≡ ok n) where
    abbrev Moved : Type 0
    Moved =
        Closes (closing id state) j (transition_journal_locked c e id state now code j).1
        × Stands id state (transition_journal_locked c e id state now code j).1

    -- A transition that succeeds closes the operation if the new state is final and nothing otherwise, and
    -- the operation's record is in that state.
    pub transition-Moved : Moved
    unfolding transition_journal_locked
    transition-Moved = loaded (c.journal_store.load j) refl
      where
        written : Snapshot → AttachJournalCollection
        written cur =
            with_records (update operation_of id (moved_to state now code) cur.value.records)

        stored :
            (cur : Snapshot) (r : AttachJournalRecord) (snap : Snapshot)
            → c.journal_store.load j ≡ ok cur
            → get operation_of id cur.value.records ≡ some r
            → (c.journal_store.swap e (written cur) j).0 ≡ ok snap
            → Moved
        stored cur r snap read g s =
            let same : (transition_journal_locked c e id state now code j).1
                ≡ (c.journal_store.swap e (written cur) j).1 =
              ground arith in
            let back = c.journal_store.load-swap e (written cur) j snap s in
            let value = (c.journal_store.swap_value e (written cur) j snap s).0 in
            let valid : valid_transition r.state state ≡ true = ground arith in
            let records = ap (λ v. v.records) value in
            (
              λ before first. (
                snap,
                rw same back,
                rw records (
                    ground (
                      arith,
                      open_ids-update id (moved_to state now code) (λ x. refl) cur.value.records r
                          g,
                      valid-is_active r.state state valid,
                    )),
              ),
              (
                snap,
                rw same back,
                moved_to state now code r,
                rw records (
                    get-replace operation_of id id (moved_to state now code) cur.value.records r
                      (λ y k. k) g
                    ∙ ground (arith, eq_refl id)),
                refl,
              ),
            )

        swapped :
            (cur : Snapshot) (r : AttachJournalRecord)
            → c.journal_store.load j ≡ ok cur
            → get operation_of id cur.value.records ≡ some r
            → (x : Result Snapshot) → (c.journal_store.swap e (written cur) j).0 ≡ x
            → Moved
        swapped cur r read g (ok snap) s = stored cur r snap read g s
        swapped cur r read g (err _) s = absurd (ground arith)

        chosen :
            (cur : Snapshot)
            → c.journal_store.load j ≡ ok cur
            → (g : Option AttachJournalRecord) → get operation_of id cur.value.records ≡ g
            → Moved
        chosen cur read (some r) g =
            swapped cur r read g (c.journal_store.swap e (written cur) j).0 refl
        chosen cur read none g = absurd (ground arith)

        loaded : (l : Result Snapshot) → c.journal_store.load j ≡ l → Moved
        loaded (ok cur) read = chosen cur read (get operation_of id cur.value.records) refl
        loaded (err _) read = absurd (ground arith)
