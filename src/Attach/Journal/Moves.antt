-- ===== src/Attach/Journal/Moves.antt =====
-- What a transition of the journal changes (services/provider_attach_transaction.rs).
use lam.Prelude.{
  ℕ, suc, String, true, Option, none, some, ◌≡◌, refl, ap, arith, ◌==◌, string_eq, if◌then◌else◌,
  ◌∙◌,
}
use lam.Prelude.Keyed.{get, update, get-replace}
use lam.Errors.{Result, ok, err}
use lam.Store.{StoreSnapshot}
use lam.Store.Interface.{VersionedStore}
use lam.Attach.Journal.{
  AttachJournalRecord, AttachJournalCollection, AttachJournalState, valid_transition, operation_of,
  with_records, moved_to, load, transition,
}

module _ (to_text : AttachJournalRecord → Option String) {S : Type 0}
    (store : VersionedStore S AttachJournalCollection) where
  -- From what was stored in `s`, one record moved by an allowed transition, and `snap` is as before else.
  pub record IsMove (id : String) (state : AttachJournalState) (now : ℕ) (code : Option String)
      (s : S) (snap : StoreSnapshot AttachJournalCollection) : Type 0 where
    pub before : StoreSnapshot AttachJournalCollection
    pub read : store.load s ≡ ok before
    pub moved : AttachJournalRecord
    pub found : get operation_of id before.value.records ≡ some moved
    pub allowed : valid_transition moved.state state ≡ true
    pub after :
        (j : String)
        → get operation_of j snap.value.records ≡ (
            if id == j
            then some (moved_to state now code moved)
            else get operation_of j before.value.records)
    pub next_revision : snap.revision ≡ suc before.revision

  module _ (e : ℕ) (id : String) (state : AttachJournalState) (now : ℕ) (code : Option String)
      (s : S) (snap : StoreSnapshot AttachJournalCollection)
      (h : (transition to_text store e id state now code s).0 ≡ ok snap) where
    abbrev change : AttachJournalRecord → AttachJournalRecord
    change = moved_to state now code

    found-IsMove :
        (cur : StoreSnapshot AttachJournalCollection) (r : AttachJournalRecord)
        → store.load s ≡ ok cur
        → get operation_of id cur.value.records ≡ some r
        → IsMove id state now code s snap
    unfolding transition load
    found-IsMove cur r read g =
        let swapped : (store.swap e (with_records (update operation_of id change cur.value.records))
              s).0
            ≡ ok snap =
          ground arith in
        let value =
          (store.swap_value e (with_records (update operation_of id change cur.value.records)) s
            snap swapped) in
        let (previous, p, at) =
          store.swap_previous e (with_records (update operation_of id change cur.value.records)) s
            snap swapped in
        record {
          before = cur;
          read = read;
          moved = r;
          found = g;
          allowed = ground arith;
          after = λ j.
              ap (λ c. get operation_of j c.records) value.0
              ∙ get-replace operation_of id j change cur.value.records r (λ y k. k) g;
          next_revision = ground (arith, value.1, p, at, read);
        }

    -- A transition that succeeds moves the record of its operation, by a transition that is allowed, and
    -- leaves the other records as they were, at the next revision.
    pub transition-IsMove : IsMove id state now code s snap
    unfolding transition load
    transition-IsMove = loaded (store.load s) refl
      where
        chosen :
            (cur : StoreSnapshot AttachJournalCollection)
            → store.load s ≡ ok cur
            → (g : Option AttachJournalRecord) → get operation_of id cur.value.records ≡ g
            → IsMove id state now code s snap
        chosen cur read (some r) g = found-IsMove cur r read g
        chosen cur read none g = absurd (ground arith)

        loaded :
            (l : Result (StoreSnapshot AttachJournalCollection))
            → store.load s ≡ l
            → IsMove id state now code s snap
        loaded (err _) read = absurd (ground arith)
        loaded (ok cur) read = chosen cur read (get operation_of id cur.value.records) refl
