-- ===== src/Attach/Coordinator.antt =====
-- What the operations of `AttachTransactionCoordinator` share (services/provider_attach_transaction.rs):
-- the state, which is three stores, the gateway, the files and the registry of tickets, and the steps
-- on the journal. The lock is held throughout; its outcome is an argument of the operations.
pub mod Logged
use lam.Prelude.{
  ℕ, suc, ◌+◌, ◌%◌, ◌^◌, String, Bool, true, false, not, ◌&&◌, ◌||◌, ◌==◌, string_eq, nat_eq,
  Option, none, some, List, [], ◌∷◌, ◌++◌, any, if◌then◌else◌,
}
use lam.Prelude.Decide.{string_discrete, is_yes}
use lam.Prelude.Decimal.{decimal}
use lam.Prelude.Keyed.{get, update}
use native.Mathlib.Decide.{ℕ_discrete}
use lam.Errors.{
  AppError, ErrorCode, Result, ok, err, error, guard, ok_or, attach_journal_profile_active,
  attach_journal_conflict, attach_journal_not_found, attach_journal_transition_invalid,
  attach_transaction_interrupted,
}
use lam.Exec.{Exec, lift, reading, ◌>>=◌, ◌>>◌}
use lam.Store.Interface.{VersionedStore}
use lam.Binding.{
  RouteKind, ProjectionOwnership, ManagedConfigProjection, ProfileProviderBinding,
  ProfileBindingCollection,
}
use lam.Provider.{ProviderProfileV2, ProviderCollection}
use lam.Planner.Tickets.{DryRunRegistry}
use lam.Planner.Plans.{ProfileAttachPlan}
use lam.Attach.Journal.{
  AttachJournalState, AttachJournalRecord, AttachJournalCollection, ConfigManagedProjection,
  validate_record, validate_collection, valid_transition, is_open, operation_of, moved_to,
  with_records, sort_records,
}
use lam.Attach.Config.{ConfigProjectionSpec, AppliedProjection, Files, FileCalls}

-- the derived equalities
unfoldable pub binding_discrete : Discrete ProfileProviderBinding
unfolding string_discrete ℕ_discrete
binding_discrete = hlevel (ℕ_discrete, string_discrete)

unfoldable pub provider_discrete : Discrete ProviderProfileV2
unfolding string_discrete ℕ_discrete
provider_discrete = hlevel (ℕ_discrete, string_discrete)

-- `a == b.as_ref()` on optional bindings
unfoldable pub same_binding : Option ProfileProviderBinding → Option ProfileProviderBinding → Bool
unfolding binding_discrete
same_binding none none = true
same_binding (some a) (some b) = is_yes (binding_discrete a b)
same_binding _ _ = false

pub data TransactionFault : Type 0 where
  crash_after_prepared crash_after_config_committed fail_binding_commit : TransactionFault
  drift_config_before_binding_commit crash_after_binding_committed : TransactionFault
  crash_before_cleanup : TransactionFault

-- `fault == Some(..)`
unfoldable pub has_fault : TransactionFault → Option TransactionFault → Bool
has_fault crash_after_prepared (some crash_after_prepared) = true
has_fault crash_after_config_committed (some crash_after_config_committed) = true
has_fault fail_binding_commit (some fail_binding_commit) = true
has_fault drift_config_before_binding_commit (some drift_config_before_binding_commit) = true
has_fault crash_after_binding_committed (some crash_after_binding_committed) = true
has_fault crash_before_cleanup (some crash_before_cleanup) = true
has_fault _ _ = false

pub record AttachTransactionOutcome : Type 0 where
  pub operation_id : Option String
  pub state : AttachJournalState
  pub idempotent : Bool

pub record RecoveryReport : Type 0 where
  pub recovered : ℕ
  pub remaining : ℕ

-- the trait, over the state of its implementation
pub record GatewayBindingLifecycle (G : Type 0) : Type 0 where
  pub prepare : String → ProfileAttachPlan → Exec G (Option String)
  pub revoke : String → Exec G (Unit {0})

-- the functions of services/provider_config_editor.rs on the text of a configuration
pub record ConfigEditor : Type 0 where
  pub apply_projection : String → String → ConfigProjectionSpec → Result AppliedProjection
  pub detach_projection : String → ConfigManagedProjection → Result String
  pub reapply_managed_projection : String → ConfigManagedProjection → Result String

pub record World (P B J G : Type 0) : Type 0 where
  pub providers : P
  pub bindings : B
  pub journal : J
  pub gateway : G
  pub files : Files
  pub registry : DryRunRegistry

pub record AttachTransactionCoordinator (P B J G : Type 0) : Type 0 where
  pub provider_store : VersionedStore P ProviderCollection
  pub binding_store : VersionedStore B ProfileBindingCollection
  pub journal_store : VersionedStore J AttachJournalCollection
  pub gateway_service : GatewayBindingLifecycle G
  pub gateway_endpoint_version : ℕ
  pub editor : ConfigEditor
  pub calls : FileCalls
  -- the JSON of a record, where serde_json can write it
  pub to_text : AttachJournalRecord → Option String
  -- SHA-256, in hexadecimal digits, of the JSON of a provider
  pub fingerprint_of : ProviderProfileV2 → String
  -- the string that the source has for a code
  pub code_text : ErrorCode → String

module _ {S A : Type 0} where
  -- `let _ = ..`
  abbrev pub ignored : Exec S A → Exec S (Unit {0})
  ignored m s = (ok tt, (m s).1)

  abbrev pub handled : Result A → (AppError → Exec S A) → Exec S A
  handled (ok a) handler s = (ok a, s)
  handled (err e) handler s = handler e s

  -- `match` on the outcome of a step, with a handler for an error
  abbrev pub on_error : Exec S A → (AppError → Exec S A) → Exec S A
  on_error m handler s = handled (m s).0 handler (m s).1

module _ {P B J G : Type 0} where
  module _ {A : Type 0} where
    abbrev pub on_bindings : Exec B A → Exec (World P B J G) A
    on_bindings m w = ((m w.bindings).0, record w { bindings = (m w.bindings).1 })

    abbrev pub on_journal : Exec J A → Exec (World P B J G) A
    on_journal m w = ((m w.journal).0, record w { journal = (m w.journal).1 })

    abbrev pub on_gateway : Exec G A → Exec (World P B J G) A
    on_gateway m w = ((m w.gateway).0, record w { gateway = (m w.gateway).1 })

    abbrev pub on_files : Exec Files A → Exec (World P B J G) A
    on_files m w = ((m w.files).0, record w { files = (m w.files).1 })

    abbrev pub on_registry : Exec DryRunRegistry A → Exec (World P B J G) A
    on_registry m w = ((m w.registry).0, record w { registry = (m w.registry).1 })

  -- `if fault == Some(..) { return Err(interrupted(..)) }`
  abbrev pub interrupted_at : Bool → Exec (World P B J G) (Unit {0})
  interrupted_at stop = lift (guard (not stop) (error attach_transaction_interrupted))

  -- `if let Some(reference) = .. { gateway.revoke(..)?; }`
  abbrev pub revoke_reference :
      GatewayBindingLifecycle G → Option String → Exec (World P B J G) (Unit {0})
  revoke_reference gateway none = lift (ok tt)
  revoke_reference gateway (some reference) = on_gateway (gateway.revoke reference)

  module _ (c : AttachTransactionCoordinator P B J G) where
    unfoldable pub create_journal_locked : AttachJournalRecord → Exec J ℕ
    create_journal_locked r = do
      lift (validate_record c.to_text r)
      snapshot ← reading c.journal_store.load
      lift (validate_collection c.to_text snapshot.value)
      lift (
          guard
            (not (
              any (λ item. item.profile_id == r.profile_id && is_open item) snapshot.value.records))
            (error attach_journal_profile_active))
      swapped ←
          c.journal_store.swap snapshot.revision
            (with_records (sort_records (snapshot.value.records ++ r ∷ [])))
      lift (ok swapped.revision)

    unfoldable pub transition_journal_locked :
        ℕ → String → AttachJournalState → ℕ → Option String → Exec J ℕ
    transition_journal_locked expected operation_id state now_ms last_error = do
      snapshot ← reading c.journal_store.load
      lift (guard (snapshot.revision == expected) (error attach_journal_conflict))
      r ← lift (
          ok_or (get operation_of operation_id snapshot.value.records)
            (error attach_journal_not_found))
      lift (guard (valid_transition r.state state) (error attach_journal_transition_invalid))
      swapped ← c.journal_store.swap expected (
          with_records (
            update operation_of operation_id (moved_to state now_ms last_error)
              snapshot.value.records))
      lift (ok swapped.revision)

    -- `self.journal_store.load_locked(guard)?.revision`
    unfoldable pub journal_revision : J → Result ℕ
    journal_revision j = elim (c.journal_store.load j) [
      | err e ↦ err e
      | ok snapshot ↦ ok snapshot.revision
    ]

    -- a transition from whatever revision the journal has
    unfoldable pub transition_latest : String → AttachJournalState → ℕ → Option String → Exec J ℕ
    unfolding journal_revision transition_journal_locked
    transition_latest operation_id state now_ms last_error = do
      revision ← reading journal_revision
      transition_journal_locked revision operation_id state now_ms last_error

unfoldable pub config_to_binding_projection :
    String → ConfigManagedProjection → ManagedConfigProjection
config_to_binding_projection path projection = record {
  config_path = path;
  ownership = ProjectionOwnership.managed;
  before_hash = projection.before_hash;
  applied_hash = projection.applied_hash;
  previous_values = projection.previous_values;
  managed_values = projection.managed_values;
  provider_table_created_by_lam = projection.provider_table_created_by_lam;
}

unfoldable pub binding_to_config_projection :
    ManagedConfigProjection → String → ConfigManagedProjection
binding_to_config_projection projection provider_id = record {
  before_hash = projection.before_hash;
  applied_hash = projection.applied_hash;
  provider_id = provider_id;
  previous_values = projection.previous_values;
  managed_values = projection.managed_values;
  provider_table_created_by_lam = projection.provider_table_created_by_lam;
}

-- the projection that was applied for a binding
unfoldable pub projection_of : ProfileProviderBinding → ConfigManagedProjection
unfolding binding_to_config_projection
projection_of b = binding_to_config_projection b.config_projection b.provider_id
