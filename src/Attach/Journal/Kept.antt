-- ===== src/Attach/Journal/Kept.antt =====
-- The journal's own writes never make it unreadable (services/provider_attach_transaction.rs).
use lam.Prelude.{
  ℕ, String, Bool, true, false, not, ◌&&◌, ◌==◌, string_eq, nat_eq, leb, Option, none, some, List,
  [], ◌∷◌, ◌++◌, any, count, retain, ◌≡◌, refl, arith, Bool-cases, inl, inr, ==_sym, all-sort_by,
  all-append, all-retain, all-update_found, count-sort_by, count-append, count-retain,
  count-update_found, any-weaker, distinct-sort_by, distinct-push, distinct-retain,
  distinct-update_found,
}
use lam.Prelude.Keyed.{has, get, update}
use lam.Errors.{is_ok, Result, ok, err}
use lam.Store.{StoreSnapshot}
use lam.Store.Interface.{VersionedStore}
use lam.Store.Kept.{Keeps, IsUpdate, update-Keeps}
use lam.Attach.Journal.{
  AttachJournalRecord, AttachJournalCollection, AttachJournalState, is_open, is_active,
  max_active_records, validate_record, validate_collection, valid_transition, operation_of,
  with_records, sort_records, record_not_after, moved_to, is_kept, newest_terminals, load, create,
  transition, compact, JournalCall, create_call, transition_call, compact_call, call, calls,
}
use lam.Attach.Journal.Valid.{
  is_valid, IsSound, same_operation, both_open, same_operation_sym, both_open_sym,
  validate_collection-IsSound_iff,
}

module _ (to_text : AttachJournalRecord → Option String) where
  sorted-IsSound :
      (rs : List AttachJournalRecord)
      → IsSound to_text (with_records rs)
      → IsSound to_text (with_records (sort_records rs))
  sorted-IsSound rs s = record {
    valid = ground (arith, all-sort_by record_not_after (is_valid to_text) rs, s.valid);
    one_each = distinct-sort_by record_not_after same_operation same_operation_sym rs s.one_each;
    one_open = distinct-sort_by record_not_after both_open both_open_sym rs s.one_open;
    within = ground (arith, count-sort_by record_not_after is_open rs, s.within);
  }

  retain-IsSound :
      (p : AttachJournalRecord → Bool) (rs : List AttachJournalRecord)
      → IsSound to_text (with_records rs)
      → IsSound to_text (with_records (retain p rs))
  retain-IsSound p rs s = record {
    valid = all-retain (is_valid to_text) p rs s.valid;
    one_each = distinct-retain same_operation p rs s.one_each;
    one_open = distinct-retain both_open p rs s.one_open;
    within = ground (arith, count-retain is_open p rs, s.within);
  }

  push-IsSound :
      (rs : List AttachJournalRecord) (r : AttachJournalRecord)
      → validate_record to_text r ≡ ok tt
      → has operation_of r.operation_id rs ≡ false
      → is_open r && any (λ item. item.profile_id == r.profile_id && is_open item) rs ≡ false
      → is_open r && leb max_active_records (count is_open rs) ≡ false
      → IsSound to_text (with_records rs)
      → IsSound to_text (with_records (rs ++ r ∷ []))
  push-IsSound rs r v new alone room s = record {
    valid = ground (arith, all-append (is_valid to_text) rs (r ∷ []), s.valid, v);
    one_each =
        distinct-push same_operation same_operation_sym rs r
          (any-weaker (same_operation r) (λ x. operation_of x == r.operation_id) rs
            (λ x h. ground (arith, ==_sym r.operation_id x.operation_id, h)) new)
          s.one_each;
    one_open = distinct-push both_open both_open_sym rs r (others rs alone) s.one_open;
    within = ground (arith, count-append is_open rs (r ∷ []), s.within, room);
  }
    where
      others :
          (xs : List AttachJournalRecord)
          → is_open r && any (λ item. item.profile_id == r.profile_id && is_open item) xs ≡ false
          → any (both_open r) xs ≡ false
      others [] h = refl
      others (x ∷ xs) h = ground (arith, others xs, ==_sym r.profile_id x.profile_id)

  -- Only an active record moves to an active state.
  was_open :
      (r : AttachJournalRecord) (state : AttachJournalState)
      → valid_transition r.state state ≡ true
      → is_open r ≡ true
  unfolding valid_transition is_active
  was_open r state t = ground arith

  moved-IsSound :
      (rs : List AttachJournalRecord) (id : String) (state : AttachJournalState) (now : ℕ)
      (code : Option String) (r : AttachJournalRecord)
      → get operation_of id rs ≡ some r
      → valid_transition r.state state ≡ true
      → validate_record to_text (moved_to state now code r) ≡ ok tt
      → IsSound to_text (with_records rs)
      → IsSound to_text (with_records (update operation_of id (moved_to state now code) rs))
  moved-IsSound rs id state now code r g t v s =
      let is_it : AttachJournalRecord → Bool = λ x. operation_of x == id in
      let opened = was_open r state t in
      record {
        valid =
            all-update_found (is_valid to_text) is_it (moved_to state now code) rs
              (λ x found h. ground (arith, g, found, v)) s.valid;
        one_each =
            distinct-update_found same_operation same_operation_sym is_it (moved_to state now code)
              rs (λ x found y h. h) s.one_each;
        one_open =
            distinct-update_found both_open both_open_sym is_it (moved_to state now code) rs
              (λ x found y h. ground (arith, g, found, opened, h)) s.one_open;
        within = ground (
          arith,
          count-update_found is_open is_it (moved_to state now code) rs
              (λ x found h. ground (arith, g, found, opened)),
          s.within,
        );
      }

  module _ {S : Type 0} (store : VersionedStore S AttachJournalCollection) (s : S) where
    abbrev IsReadable : AttachJournalCollection → Type 0
    IsReadable c = validate_collection to_text c ≡ ok tt

    accepted : (c : AttachJournalCollection) → IsSound to_text c → IsReadable c
    accepted c sound = (validate_collection-IsSound_iff to_text c).1 sound

    readable-IsSound : (c : AttachJournalCollection) → IsReadable c → IsSound to_text c
    readable-IsSound c readable = (validate_collection-IsSound_iff to_text c).0 readable

    compact-IsUpdate : (e now : ℕ) → IsUpdate store IsReadable s (compact to_text store e now s).1
    unfolding compact load
    compact-IsUpdate e now = go (store.load s) refl
      where
        go :
            (l : Result (StoreSnapshot AttachJournalCollection))
            → store.load s ≡ l
            → IsUpdate store IsReadable s (compact to_text store e now s).1
        go (err _) read = inl (ground arith)
        go (ok cur) read =
            elim (Bool-cases (
              is_ok (validate_collection to_text cur.value)
              && not (any is_open cur.value.records))) [
                | inr busy ↦ inl (ground arith)
                | inl idle ↦
                    let kept =
                      retain (is_kept now (newest_terminals cur.value.records)) cur.value.records in
                    inr (
                      cur,
                      read,
                      e,
                      with_records (sort_records kept),
                      ground arith,
                      λ readable. accepted (with_records (sort_records kept)) (
                          sorted-IsSound kept (
                            retain-IsSound (is_kept now (newest_terminals cur.value.records))
                              cur.value.records (readable-IsSound cur.value readable))),
                    )
              ]

    transition-IsUpdate :
        (e : ℕ) (id : String) (state : AttachJournalState) (now : ℕ) (code : Option String)
        → IsUpdate store IsReadable s (transition to_text store e id state now code s).1
    unfolding transition load
    transition-IsUpdate e id state now code = go (store.load s) refl
      where
        moved : AttachJournalRecord → AttachJournalRecord
        moved = moved_to state now code

        chosen :
            (cur : StoreSnapshot AttachJournalCollection)
            → store.load s ≡ ok cur
            → (g : Option AttachJournalRecord) → get operation_of id cur.value.records ≡ g
            → IsUpdate store IsReadable s (transition to_text store e id state now code s).1
        chosen cur read none g = inl (ground arith)
        chosen cur read (some r) g =
            elim (Bool-cases (
              is_ok (validate_collection to_text cur.value)
              && valid_transition r.state state
              && is_ok (validate_record to_text (moved r)))) [
                | inr refused ↦ inl (ground arith)
                | inl allowed ↦ inr (
                  cur,
                  read,
                  e,
                  with_records (update operation_of id moved cur.value.records),
                  ground arith,
                  λ readable.
                      accepted (with_records (update operation_of id moved cur.value.records)) (
                        moved-IsSound cur.value.records id state now code r g
                          (ground (arith, allowed)) (ground (arith, allowed))
                          (readable-IsSound cur.value readable)),
                )
              ]

        go :
            (l : Result (StoreSnapshot AttachJournalCollection))
            → store.load s ≡ l
            → IsUpdate store IsReadable s (transition to_text store e id state now code s).1
        go (err _) read = inl (ground arith)
        go (ok cur) read = chosen cur read (get operation_of id cur.value.records) refl

    create-IsUpdate :
        (e : ℕ) (r : AttachJournalRecord)
        → IsUpdate store IsReadable s (create to_text store e r s).1
    unfolding create load
    create-IsUpdate e r = go (store.load s) refl
      where
        go :
            (l : Result (StoreSnapshot AttachJournalCollection))
            → store.load s ≡ l
            → IsUpdate store IsReadable s (create to_text store e r s).1
        go (err _) read = inl (ground arith)
        go (ok cur) read =
            let rs = cur.value.records in
            let taken = has operation_of r.operation_id rs in
            let busy =
              is_open r && any (λ item. item.profile_id == r.profile_id && is_open item) rs in
            let full = is_open r && leb max_active_records (count is_open rs) in
            elim (Bool-cases (
              is_ok (validate_record to_text r)
              && is_ok (validate_collection to_text cur.value)
              && not taken
              && not busy
              && not full)) [
                | inr refused ↦ inl (ground arith)
                | inl allowed ↦ inr (
                  cur,
                  read,
                  e,
                  with_records (sort_records (rs ++ r ∷ [])),
                  ground arith,
                  λ readable. accepted (with_records (sort_records (rs ++ r ∷ []))) (
                      sorted-IsSound (rs ++ r ∷ []) (
                        push-IsSound rs r (ground (arith, allowed)) (ground (arith, allowed))
                          (ground (arith, allowed)) (ground (arith, allowed))
                          (readable-IsSound cur.value readable))),
                )
              ]

    call-IsUpdate :
        (c : JournalCall to_text store) → IsUpdate store IsReadable s (call to_text store c s).1
    unfolding call
    call-IsUpdate (create_call e r) = create-IsUpdate e r
    call-IsUpdate (transition_call e id state now code) = transition-IsUpdate e id state now code
    call-IsUpdate (compact_call e now) = compact-IsUpdate e now

  -- A journal that is read without an error still is after any calls, whichever succeed: what they write
  -- passes the checks of the next load.
  pub calls-readable :
      {S : Type 0} (store : VersionedStore S AttachJournalCollection)
      (cs : List (JournalCall to_text store)) (s : S)
      → Keeps store (λ c. validate_collection to_text c ≡ ok tt) s
      → Keeps store (λ c. validate_collection to_text c ≡ ok tt) (calls to_text store cs s)
  unfolding calls
  calls-readable store [] s k = k
  calls-readable store (c ∷ cs) s k = calls-readable store cs (call to_text store c s).1 (
      update-Keeps store (λ c. validate_collection to_text c ≡ ok tt) s (call to_text store c s).1
        (call-IsUpdate store s c) k)
