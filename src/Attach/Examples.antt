-- ===== src/Attach/Examples.antt =====
-- An attachment that was interrupted after its configuration was written, and one that runs through
-- (services/provider_attach_transaction.rs).
use lam.Prelude.{
  some, ℕ, zero, suc, ◌≢◌, String, true, none, List, [], ◌∷◌, ◌≡◌, refl, eq_iff, string_eq, arith,
  count, all, distinct,
}
use lam.Prelude.Decimal.{decimal}
use lam.Errors.{ok}
use lam.Exec.{lift}
use lam.Store.{StoreSnapshot}
use lam.Store.Memory.{memory}
use lam.Binding.{ProfileBindingCollection}
use lam.Provider.{ProviderCollection}
use lam.Attach.Journal.{
  AttachJournalRecord, AttachJournalCollection, with_records, config_committed, is_open, is_active,
  max_active_records, validate_record, validate_collection, valid_transition,
}
use lam.Attach.Journal.Examples.{to_text, projection, bound, attaching, one_prepared}
use lam.Attach.Journal.Valid.{is_valid, same_operation, both_open, validate_collection-IsSound_iff}
use lam.Attach.Config.{Files, FileCalls, replace_config_file}
use lam.Attach.Config.Replace.{IsOldOrNew, replace_config_file-IsOldOrNew}
use lam.Attach.Coordinator.{
  AttachTransactionCoordinator, World, RecoveryReport, create_journal_locked,
  transition_journal_locked, same_binding,
}
use lam.Attach.Recover.{recover_record, recover_pending, rollback_record_config}
use lam.Attach.Recover.Progress.{IsRecovered, recover_pending-Progress}
use lam.Attach.Recover.Settled.{IsSettled, recover_record-IsSettled}
use lam.Attach.Unreadable.{IsUnreadable, create_full-IsUnreadable, transition_early-IsUnreadable}

-- file calls that succeed, where a text is its own hash
abbrev pub calls : FileCalls
calls = record {
  read_outcome = λ path files. ok tt;
  create_outcome = λ path contents files. ok tt;
  left_over = λ path contents files. none;
  write_outcome = λ path contents files. ok tt;
  partly_written = λ path contents files. none;
  rename_outcome = λ from to files. ok tt;
  sync_outcome = λ path files. ok tt;
  temp_name = λ path files. "/c.tmp";
  backup_name = λ path files. "/c.backup";
  config_hash = λ contents. contents;
  is_toml = λ contents. true;
}

abbrev pub Bindings : Type 0
Bindings = StoreSnapshot ProfileBindingCollection

abbrev pub Providers : Type 0
Providers = StoreSnapshot ProviderCollection

abbrev pub Records : Type 0
Records = StoreSnapshot AttachJournalCollection

abbrev pub coordinator : AttachTransactionCoordinator Providers Bindings Records (Unit {0})
coordinator = record {
  provider_store = memory;
  binding_store = memory;
  journal_store = memory;
  gateway_service = record {
    prepare = λ id plan. lift (ok none);
    revoke = λ reference. lift (ok tt);
  };
  gateway_endpoint_version = 1;
  editor = record {
    apply_projection = λ source hash spec.
        ok (record { contents = "k"; projection = projection; backup_path = none });
    detach_projection = λ source projection. ok "h";
    reapply_managed_projection = λ source projection. ok source;
  };
  calls = calls;
  to_text = to_text;
  fingerprint_of = λ provider. "f";
  code_text = λ code. "code";
}

abbrev pub interrupted : World Providers Bindings Records (Unit {0})
interrupted = record {
  providers = record {
    schema_version = 2;
    revision = 1;
    value = record { providers = [] };
    exists = true;
  };
  bindings = record {
    schema_version = 1;
    revision = 0;
    value = record { bindings = [] };
    exists = true;
  };
  journal = one_prepared;
  gateway = tt;
  files = ("/c", "k") ∷ [];
  registry = record { ttl_ms = 60_000; capacity = 2; entries = [] };
}

recovered : (recover_record coordinator attaching 20 interrupted).0 ≡ ok tt
unfolding recover_record same_binding rollback_record_config memory valid_transition
recovered = refl

recover_record-IsSettled_example :
    IsSettled coordinator attaching 20 interrupted
      (recover_record coordinator attaching 20 interrupted).1
recover_record-IsSettled_example =
    recover_record-IsSettled coordinator attaching 20 interrupted tt recovered

-- a second operation, of another profile
abbrev later_record : AttachJournalRecord
later_record = record attaching {
  operation_id = "op2";
  profile_id = "home";
  prepared_binding = some (record bound { profile_id = "home" });
}

abbrev two_prepared : Records
two_prepared = record one_prepared { value = record { records = attaching ∷ later_record ∷ [] } }

abbrev twice_interrupted : World Providers Bindings Records (Unit {0})
twice_interrupted = record interrupted { journal = two_prepared }

abbrev report : RecoveryReport
report = record { recovered = 1; remaining = 1 }

one_recovered : (recover_pending coordinator (ok tt) 20 1 twice_interrupted).0 ≡ ok report
unfolding recover_pending validate_collection memory validate_record is_active valid_transition
one_recovered = refl

recover_pending-Progress_example :
    IsRecovered coordinator 1 two_prepared
      (recover_pending coordinator (ok tt) 20 1 twice_interrupted).1.journal
      report
recover_pending-Progress_example =
    recover_pending-Progress coordinator (ok tt) 20 1 twice_interrupted report two_prepared
      (unfold memory in refl) one_recovered

abbrev edited : Files
edited = ("/c", "k") ∷ []

other_name : ◌≢◌ {A = String} "/c.tmp" "/c"
other_name = ground (arith, eq_iff "/c.tmp" "/c")

replace_config_file-IsOldOrNew_example :
    IsOldOrNew "/c" "h" edited (replace_config_file calls "/c" "k" "h" edited).1
replace_config_file-IsOldOrNew_example =
    replace_config_file-IsOldOrNew calls "/c" "h" edited "k" other_name

-- the clock was set back to before the operation began
moved_back :
    (transition_journal_locked coordinator 1 "op1" config_committed 9 none one_prepared).0 ≡ ok 2
unfolding transition_journal_locked memory valid_transition
moved_back = refl

transition_early-IsUnreadable_example :
    IsUnreadable coordinator
      (transition_journal_locked coordinator 1 "op1" config_committed 9 none one_prepared).1
transition_early-IsUnreadable_example =
    transition_early-IsUnreadable coordinator 1 "op1" config_committed 9 none one_prepared 2
      one_prepared attaching (unfold memory in refl) refl moved_back (omega arith)

-- operations of as many profiles
abbrev operation : ℕ → AttachJournalRecord
operation n = record attaching { operation_id = decimal n; profile_id = decimal n }

operations : ℕ → List AttachJournalRecord
operations zero = []
operations (suc n) = operation n ∷ operations n

abbrev full : Records
full = record one_prepared { value = with_records (operations 128) }

all_active : count is_open full.value.records ≡ max_active_records
unfolding operations is_active
all_active = refl

each_valid : all (is_valid to_text) full.value.records ≡ true
unfolding operations validate_record decimal
each_valid = refl

one_each : distinct same_operation full.value.records ≡ true
unfolding operations decimal
one_each = refl

one_open : distinct both_open full.value.records ≡ true
unfolding operations is_active decimal
one_open = refl

readable : validate_collection to_text full.value ≡ ok tt
readable = (validate_collection-IsSound_iff to_text full.value).1 (record {
  valid = each_valid;
  one_each = one_each;
  one_open = one_open;
  within = rw all_active (omega arith);
})

one_more : (create_journal_locked coordinator attaching full).0 ≡ ok 2
unfolding create_journal_locked memory operations validate_record is_active decimal
one_more = rw readable refl

create_full-IsUnreadable_example :
    IsUnreadable coordinator (create_journal_locked coordinator attaching full).1
create_full-IsUnreadable_example =
    create_full-IsUnreadable coordinator attaching full 2 full (unfold memory in refl) one_more
      all_active (unfold is_active in refl)
