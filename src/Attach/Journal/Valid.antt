-- ===== src/Attach/Journal/Valid.antt =====
-- What `validate_collection` checks, independently of the order of the records
-- (services/provider_attach_transaction.rs).
use lam.Prelude.{
  ◌≤◌, String, Bool, true, false, not, ◌&&◌, ◌==◌, string_eq, Option, List, [], ◌∷◌, any, all,
  count, distinct, ◌≡◌, ◌↔◌, refl, arith, Bool-cases, inl, inr, ==_sym,
}
use lam.Errors.{is_ok, ok, passed_on}
use lam.Attach.Journal.{
  AttachJournalRecord, AttachJournalCollection, is_open, max_active_records, validate_record,
  check_records, validate_collection,
}

-- records of one operation, and active records of one profile
abbrev pub same_operation : AttachJournalRecord → AttachJournalRecord → Bool
same_operation a b = a.operation_id == b.operation_id

abbrev pub both_open : AttachJournalRecord → AttachJournalRecord → Bool
both_open a b = is_open a && is_open b && a.profile_id == b.profile_id

pub same_operation_sym : (a b : AttachJournalRecord) → same_operation a b ≡ same_operation b a
same_operation_sym a b = ==_sym a.operation_id b.operation_id

pub both_open_sym : (a b : AttachJournalRecord) → both_open a b ≡ both_open b a
both_open_sym a b = ground (arith, ==_sym a.profile_id b.profile_id)

module _ (to_text : AttachJournalRecord → Option String) where
  abbrev pub is_valid : AttachJournalRecord → Bool
  is_valid r = is_ok (validate_record to_text r)

  -- Every record is valid, no operation has two, no profile two active ones, and not too many are
  -- active.
  pub record IsSound (c : AttachJournalCollection) : Type 0 where
    pub valid : all is_valid c.records ≡ true
    pub one_each : distinct same_operation c.records ≡ true
    pub one_open : distinct both_open c.records ≡ true
    pub within : count is_open c.records ≤ max_active_records

  -- a record that the loop passes after these ids and profiles
  abbrev passes : List String → List String → AttachJournalRecord → Bool
  passes ids profiles r =
      is_valid r
      && not (any (λ id. id == r.operation_id) ids)
      && not (is_open r && any (λ p. p == r.profile_id) profiles)

  abbrev passes_all : List String → List String → List AttachJournalRecord → Bool
  passes_all ids profiles rs =
      all (passes ids profiles) rs && distinct same_operation rs && distinct both_open rs

  after_open :
      (ids profiles : List String) (r : AttachJournalRecord) (rs : List AttachJournalRecord)
      → is_open r ≡ true
      → all (passes (r.operation_id ∷ ids) (r.profile_id ∷ profiles)) rs ≡ (
          all (passes ids profiles) rs
          && not (any (same_operation r) rs)
          && not (any (both_open r) rs))
  after_open ids profiles r [] o = refl
  after_open ids profiles r (x ∷ rs) o = ground (arith, after_open ids profiles r rs o)

  after_closed :
      (ids profiles : List String) (r : AttachJournalRecord) (rs : List AttachJournalRecord)
      → is_open r ≡ false
      → all (passes (r.operation_id ∷ ids) profiles) rs ≡ (
          all (passes ids profiles) rs
          && not (any (same_operation r) rs)
          && not (any (both_open r) rs))
  after_closed ids profiles r [] o = refl
  after_closed ids profiles r (x ∷ rs) o = ground (arith, after_closed ids profiles r rs o)

  pub check_records-ok :
      (ids profiles : List String) (rs : List AttachJournalRecord)
      → passes_all ids profiles rs ≡ true
      → check_records to_text ids profiles rs ≡ ok (count is_open rs)
  unfolding check_records
  check_records-ok ids profiles [] h = refl
  check_records-ok ids profiles (r ∷ rs) h = elim (Bool-cases (is_open r)) [
    | inl o ↦ ground (
      arith,
      after_open ids profiles r rs o,
      check_records-ok (r.operation_id ∷ ids) (r.profile_id ∷ profiles) rs,
    )
    | inr o ↦ ground (
      arith,
      after_closed ids profiles r rs o,
      check_records-ok (r.operation_id ∷ ids) profiles rs,
    )
  ]

  is_ok-check_records :
      (ids profiles : List String) (rs : List AttachJournalRecord)
      → is_ok (check_records to_text ids profiles rs) ≡ passes_all ids profiles rs
  unfolding check_records
  is_ok-check_records ids profiles [] = refl
  is_ok-check_records ids profiles (r ∷ rs) = elim (Bool-cases (is_open r)) [
    | inl o ↦ ground (
      arith,
      after_open ids profiles r rs o,
      is_ok-check_records (r.operation_id ∷ ids) (r.profile_id ∷ profiles) rs,
    )
    | inr o ↦ ground (
      arith,
      after_closed ids profiles r rs o,
      is_ok-check_records (r.operation_id ∷ ids) profiles rs,
    )
  ]

  passes_valid : (rs : List AttachJournalRecord) → all (passes [] []) rs ≡ all is_valid rs
  passes_valid [] = refl
  passes_valid (r ∷ rs) = ground (arith, passes_valid rs)

  validate_collection-IsSound :
      (c : AttachJournalCollection) → validate_collection to_text c ≡ ok tt → IsSound c
  unfolding validate_collection
  validate_collection-IsSound c h =
      let (n, checked, h1) = passed_on _ (check_records to_text [] [] c.records) _ h in
      let passed : passes_all [] [] c.records ≡ true =
        ground (arith, is_ok-check_records [] [] c.records, checked) in
      let counted : n ≡ count is_open c.records =
        ground (arith, check_records-ok [] [] c.records passed, checked) in
      record {
        valid = ground (arith, passes_valid c.records, passed);
        one_each = ground (arith, passed);
        one_open = ground (arith, passed);
        within = ground (arith, counted, h1);
      }

  IsSound-validate_collection :
      (c : AttachJournalCollection) → IsSound c → validate_collection to_text c ≡ ok tt
  unfolding validate_collection
  IsSound-validate_collection c s = ground (
    arith,
    check_records-ok [] [] c.records,
    passes_valid c.records,
    s.valid,
    s.one_each,
    s.one_open,
    s.within,
  )

  -- The journal is accepted exactly if every record is valid, no operation has two records, no profile
  -- two active ones, and at most 128 are active.
  pub validate_collection-IsSound_iff :
      (c : AttachJournalCollection) → (validate_collection to_text c ≡ ok tt) ↔ IsSound c
  validate_collection-IsSound_iff c = (validate_collection-IsSound c, IsSound-validate_collection c)
