-- ===== src/Attach/Journal/Examples.antt =====
-- Checks at concrete inputs: an operation is prepared, committed and completed, and the journal compacted.
use lam.Prelude.{String, true, false, Option, none, some, List, [], ◌∷◌, ◌≡◌, ◌↔◌, refl}
use lam.Errors.{ok}
use lam.Store.{StoreSnapshot}
use lam.Store.Memory.{memory}
use lam.Store.Kept.{Keeps, memory-Keeps}
use lam.Binding.{direct, ProfileProviderBinding, ProjectionOwnership}
use lam.Attach.Journal.{
  AttachJournalRecord, AttachJournalCollection, ConfigManagedProjection, AttachOperation, prepared,
  config_committed, binding_committed, completed, with_records, validate_record,
  validate_collection, JournalCall, create_call, transition_call, compact_call, calls, is_active,
  transition, load, valid_transition, moved_to,
}
use lam.Attach.Journal.Valid.{IsSound, validate_collection-IsSound_iff}
use lam.Attach.Journal.Moves.{IsMove, transition-IsMove}
use lam.Attach.Journal.Kept.{calls-readable}

abbrev pub to_text : AttachJournalRecord → Option String
to_text r = some "{}"

abbrev pub projection : ConfigManagedProjection
projection = record {
  before_hash = "h";
  applied_hash = "k";
  provider_id = "acme";
  previous_values = [];
  managed_values = [];
  provider_table_created_by_lam = false;
}

abbrev pub bound : ProfileProviderBinding
bound = record {
  profile_id = "work";
  provider_id = "acme";
  selected_model = "m1";
  route_kind = direct;
  gateway_binding_id = none;
  provider_revision = 1;
  provider_fingerprint = "f";
  config_projection = record {
    config_path = "/c";
    ownership = ProjectionOwnership.managed;
    before_hash = "h";
    applied_hash = "k";
    previous_values = [];
    managed_values = [];
    provider_table_created_by_lam = false;
  };
  revision = 1;
  created_at = "t0";
  updated_at = "t0";
}

abbrev pub attaching : AttachJournalRecord
attaching = record {
  journal_version = 1;
  operation_id = "op1";
  operation = AttachOperation.attach;
  state = prepared;
  profile_id = "work";
  provider_id = "acme";
  selected_model = "m1";
  route_kind = direct;
  expected_provider_store_revision = 1;
  expected_binding_store_revision = 0;
  expected_binding_revision = none;
  config_path = "/c";
  config_before_hash = "h";
  config_intended_hash = "k";
  managed_projection = some projection;
  previous_binding = none;
  prepared_binding = some bound;
  new_gateway_binding_ref = none;
  superseded_gateway_binding_ref = none;
  created_at_ms = 10;
  updated_at_ms = 10;
  last_error_code = none;
}

validate_collection-IsSound_iff_example :
    (validate_collection to_text (with_records (attaching ∷ [])) ≡ ok tt)
    ↔ IsSound to_text (with_records (attaching ∷ []))
validate_collection-IsSound_iff_example =
    validate_collection-IsSound_iff to_text (with_records (attaching ∷ []))

accepted : validate_collection to_text (with_records (attaching ∷ [])) ≡ ok tt
unfolding validate_collection validate_record is_active
accepted = refl

abbrev pub empty : StoreSnapshot AttachJournalCollection
empty = record { schema_version = 1; revision = 0; value = with_records []; exists = false }

abbrev whole_attachment : List (JournalCall to_text memory)
whole_attachment =
    create_call 0 attaching
    ∷ transition_call 1 "op1" config_committed 11 none
    ∷ transition_call 2 "op1" binding_committed 12 none
    ∷ transition_call 3 "op1" completed 13 none
    ∷ compact_call 4 14
    ∷ []

calls-readable_example :
    Keeps memory
      (λ c. validate_collection to_text c ≡ ok tt)
      (calls to_text memory whole_attachment empty)
unfolding validate_collection
calls-readable_example =
    calls-readable to_text memory whole_attachment empty
      (memory-Keeps (λ c. validate_collection to_text c ≡ ok tt) empty refl)

abbrev pub one_prepared : StoreSnapshot AttachJournalCollection
one_prepared = record {
  schema_version = 1;
  revision = 1;
  value = with_records (attaching ∷ []);
  exists = true;
}

abbrev one_committed : StoreSnapshot AttachJournalCollection
one_committed = record one_prepared {
  revision = 2;
  value = with_records (moved_to config_committed 11 none attaching ∷ []);
}

committed :
    (transition to_text memory 1 "op1" config_committed 11 none one_prepared).0 ≡ ok one_committed
unfolding transition load validate_collection validate_record is_active valid_transition memory
committed = refl

transition-IsMove_example :
    IsMove to_text memory "op1" config_committed 11 none one_prepared one_committed
transition-IsMove_example =
    transition-IsMove to_text memory 1 "op1" config_committed 11 none one_prepared one_committed
      committed
