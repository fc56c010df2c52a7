-- ===== src/Attach/Journal.antt =====
-- `AttachJournalRepository` of services/provider_attach_transaction.rs, over any versioned store. The text
-- that serde_json makes of a record comes from outside.
pub mod Valid
pub mod Kept
pub mod Moves
pub mod Examples
use Prim.Native.Nat.{Ordering}
use Prim.Native.Nat as Nat
use Prim.Native.String.{len, compare}
use lam.Prelude.{
  ℕ, suc, ◌-◌, String, Bool, true, false, not, ◌&&◌, ◌||◌, ◌==◌, string_eq, nat_eq, leb, ltb,
  Option, none, some, List, [], ◌∷◌, ◌++◌, map, any, retain, count, take, is_some, if◌then◌else◌,
  sort_by,
}
use lam.Prelude.Keyed.{not_after, has, get, update}
use lam.Prelude.Text.{trim, is_empty, contains, to_ascii_lowercase}
use lam.Errors.{
  Result, ok, err, error, guard, ok_or, attach_journal_operation_exists,
  attach_journal_profile_active, attach_journal_active_limit, attach_journal_not_found,
  attach_journal_transition_invalid, attach_journal_invalid, attach_journal_record_too_large,
  attach_journal_sensitive_data,
}
use lam.Errors as Results
use lam.Exec.{Exec, lift, reading, ◌>>=◌, ◌>>◌}
use lam.Store.{StoreSnapshot}
use lam.Store.Interface.{VersionedStore}
use lam.Binding.{BTreeMap, RouteKind, ProfileProviderBinding}

pub data AttachOperation : Type 0 where
  attach rebind detach : AttachOperation

pub data AttachJournalState : Type 0 where
  prepared config_committed binding_committed completed rolled_back manual_intervention :
      AttachJournalState

unfoldable pub is_active : AttachJournalState → Bool
is_active prepared = true
is_active config_committed = true
is_active binding_committed = true
is_active _ = false

unfoldable pub is_retained_terminal : AttachJournalState → Bool
is_retained_terminal completed = true
is_retained_terminal rolled_back = true
is_retained_terminal _ = false

abbrev pub is_manual : AttachJournalState → Bool
is_manual manual_intervention = true
is_manual _ = false

pub record ConfigManagedProjection : Type 0 where
  pub before_hash : String
  pub applied_hash : String
  pub provider_id : String
  pub previous_values : BTreeMap (Option String)
  pub managed_values : BTreeMap String
  pub provider_table_created_by_lam : Bool

pub record AttachJournalRecord : Type 0 where
  pub journal_version : ℕ
  pub operation_id : String
  pub operation : AttachOperation
  pub state : AttachJournalState
  pub profile_id : String
  pub provider_id : String
  pub selected_model : String
  pub route_kind : RouteKind
  pub expected_provider_store_revision : ℕ
  pub expected_binding_store_revision : ℕ
  pub expected_binding_revision : Option ℕ
  pub config_path : String
  pub config_before_hash : String
  pub config_intended_hash : String
  pub managed_projection : Option ConfigManagedProjection
  pub previous_binding : Option ProfileProviderBinding
  pub prepared_binding : Option ProfileProviderBinding
  pub new_gateway_binding_ref : Option String
  pub superseded_gateway_binding_ref : Option String
  pub created_at_ms : ℕ
  pub updated_at_ms : ℕ
  pub last_error_code : Option String

pub record AttachJournalCollection : Type 0 where
  pub records : List AttachJournalRecord

abbrev pub operation_of : AttachJournalRecord → String
operation_of r = r.operation_id

abbrev max_record_bytes : ℕ
max_record_bytes = 262_144

abbrev pub max_active_records : ℕ
max_active_records = 128

-- thirty days
abbrev pub retention_ms : ℕ
retention_ms = 2_592_000_000

abbrev pub min_terminal_records : ℕ
min_terminal_records = 100

unfoldable pub valid_transition : AttachJournalState → AttachJournalState → Bool
valid_transition prepared config_committed = true
valid_transition prepared rolled_back = true
valid_transition prepared manual_intervention = true
valid_transition config_committed binding_committed = true
valid_transition config_committed rolled_back = true
valid_transition config_committed manual_intervention = true
valid_transition binding_committed completed = true
valid_transition binding_committed manual_intervention = true
valid_transition _ _ = false

abbrev pub is_open : AttachJournalRecord → Bool
is_open r = is_active r.state

-- by creation, then by id
abbrev pub record_not_after : AttachJournalRecord → AttachJournalRecord → Bool
record_not_after a b = elim (Nat.compare a.created_at_ms b.created_at_ms) [
  | Ordering.lt ↦ true
  | Ordering.gt ↦ false
  | Ordering.eq ↦ not_after a.operation_id b.operation_id
]

-- `sort_records`
abbrev pub sort_records : List AttachJournalRecord → List AttachJournalRecord
sort_records = sort_by record_not_after

-- the order of `compact`: the newest first
abbrev pub newer_first : AttachJournalRecord → AttachJournalRecord → Bool
newer_first a b = elim (Nat.compare b.updated_at_ms a.updated_at_ms) [
  | Ordering.lt ↦ true
  | Ordering.gt ↦ false
  | Ordering.eq ↦ not_after b.operation_id a.operation_id
]

unfoldable pub has_shape : AttachJournalRecord → Bool
has_shape r =
    (elim r.operation [
      | attach ↦ not (is_some r.previous_binding) && is_some r.prepared_binding
      | rebind ↦ is_some r.previous_binding && is_some r.prepared_binding
      | detach ↦ is_some r.previous_binding && not (is_some r.prepared_binding)
    ])
    && is_some r.managed_projection

abbrev forbidden_texts : List String
forbidden_texts = "lam_test_secret" ∷ "bearer eyj" ∷ "authorization: bearer" ∷ "sk-never-store" ∷ []

abbrev pub with_records : List AttachJournalRecord → AttachJournalCollection
with_records records = record { records = records }

-- the assignments of `transition`
abbrev pub moved_to :
    AttachJournalState → ℕ → Option String → AttachJournalRecord → AttachJournalRecord
moved_to state now error_code r = record r {
  state = state;
  updated_at_ms = now;
  last_error_code = error_code;
}

-- the records that `compact` keeps, where the ids of the newest terminal ones are given
unfoldable pub is_kept : ℕ → List String → AttachJournalRecord → Bool
unfolding is_retained_terminal
is_kept now newest r =
    is_manual r.state
    || not (is_retained_terminal r.state)
    || any (λ id. id == r.operation_id) newest
    || leb (now - r.updated_at_ms) retention_ms

unfoldable pub newest_terminals : List AttachJournalRecord → List String
newest_terminals records = map operation_of (
    take min_terminal_records
      (sort_by newer_first (retain (λ r. is_retained_terminal r.state) records)))

module _ (to_text : AttachJournalRecord → Option String) where
  unfoldable pub validate_record : AttachJournalRecord → Result (Unit {0})
  unfolding trim is_empty has_shape contains to_ascii_lowercase
  validate_record r =
      Results.◌>>◌
        (guard
          (not (
            not (r.journal_version == 1)
            || is_empty (trim r.operation_id)
            || is_empty (trim r.profile_id)
            || is_empty (trim r.provider_id)
            || is_empty (trim r.config_path)
            || ltb r.updated_at_ms r.created_at_ms))
          (error attach_journal_invalid))
        (Results.◌>>◌ (guard (has_shape r) (error attach_journal_invalid)) (
          Results.◌>>=◌ (ok_or (to_text r) (error attach_journal_invalid)) λ text.
            Results.◌>>◌
              (guard (leb (len text) max_record_bytes) (error attach_journal_record_too_large))
              (guard (not (any (λ t. contains t (to_ascii_lowercase text)) forbidden_texts))
                (error attach_journal_sensitive_data))))

  -- the loop of `validate_collection` over the ids and the active profiles so far, which counts the
  -- active records
  unfoldable pub check_records : List String → List String → List AttachJournalRecord → Result ℕ
  check_records ids profiles [] = ok 0
  check_records ids profiles (r ∷ rs) = Results.◌>>◌ (validate_record r) (
      Results.◌>>◌
        (guard (not (any (λ id. id == r.operation_id) ids)) (error attach_journal_invalid))
        (if is_open r
          then (Results.◌>>◌
              (guard (not (any (λ p. p == r.profile_id) profiles)) (error attach_journal_invalid))
              (Results.◌>>=◌ (check_records (r.operation_id ∷ ids) (r.profile_id ∷ profiles) rs)
                λ n. ok (suc n)))
          else check_records (r.operation_id ∷ ids) profiles rs))

  unfoldable pub validate_collection : AttachJournalCollection → Result (Unit {0})
  unfolding check_records
  validate_collection c =
      Results.◌>>=◌ (check_records [] [] c.records)
        λ active. guard (leb active max_active_records) (error attach_journal_active_limit)

  module _ {S : Type 0} (store : VersionedStore S AttachJournalCollection) where
    abbrev pub Snapshot : Type 0
    Snapshot = StoreSnapshot AttachJournalCollection

    unfoldable pub load : S → Result Snapshot
    unfolding validate_collection
    load s =
        Results.◌>>=◌ (store.load s)
          λ snapshot. Results.◌>>◌ (validate_collection snapshot.value) (ok snapshot)

    unfoldable pub create : ℕ → AttachJournalRecord → Exec S Snapshot
    create expected r = do
      lift (validate_record r)
      snapshot ← reading load
      lift (
          guard (not (has operation_of r.operation_id snapshot.value.records))
            (error attach_journal_operation_exists))
      lift (
          guard
            (not (
              is_open r
              && any (λ item. item.profile_id == r.profile_id && is_open item)
                  snapshot.value.records))
            (error attach_journal_profile_active))
      lift (
          guard (not (is_open r && leb max_active_records (count is_open snapshot.value.records)))
            (error attach_journal_active_limit))
      store.swap expected (with_records (sort_records (snapshot.value.records ++ r ∷ [])))

    unfoldable pub transition :
        ℕ → String → AttachJournalState → ℕ → Option String → Exec S Snapshot
    transition expected operation_id state now error_code = do
      snapshot ← reading load
      r ← lift (
          ok_or (get operation_of operation_id snapshot.value.records)
            (error attach_journal_not_found))
      lift (guard (valid_transition r.state state) (error attach_journal_transition_invalid))
      lift (validate_record (moved_to state now error_code r))
      store.swap expected (
          with_records (
            update operation_of operation_id (moved_to state now error_code)
              snapshot.value.records))

    unfoldable pub compact : ℕ → ℕ → Exec S Snapshot
    compact expected now = do
      snapshot ← reading load
      if any is_open snapshot.value.records
          then lift (ok snapshot)
          else store.swap expected (
              with_records (
                sort_records (
                  retain (is_kept now (newest_terminals snapshot.value.records))
                    snapshot.value.records)))

    pub data JournalCall : Type 0 where
      create_call : ℕ → AttachJournalRecord → JournalCall
      transition_call : ℕ → String → AttachJournalState → ℕ → Option String → JournalCall
      compact_call : ℕ → ℕ → JournalCall

    unfoldable pub call : JournalCall → Exec S Snapshot
    call (create_call expected r) = create expected r
    call (transition_call expected id state now error_code) =
        transition expected id state now error_code
    call (compact_call expected now) = compact expected now

    -- the state after calls, whether they succeed or fail
    unfoldable pub calls : List JournalCall → S → S
    calls [] s = s
    calls (c ∷ cs) s = calls cs (call c s).1
