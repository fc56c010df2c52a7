-- ===== src/Store/Examples.antt =====
-- Checks at concrete inputs: a store of one number, whose codec is a list of three.
use lam.Prelude.{
  ℕ, zero, suc, ◌*◌, sym, ◌≡◌, refl, ◌⊎◌, Option, none, some, List, [], ◌∷◌, ◌++◌, true, arith, ap,
}
use lam.Errors.{Result, ok, err, error, store_fault_injected}
use lam.Store.{
  StoreSnapshot, VersionedEnvelope, Codec, IsFaithful, Disk, VersionedFileStore,
  InstallationLockGuard, read_unlocked, revision_conflict, AtomicWriteFault, read_bounded,
  reject_symlink, prepare, Fault-discrete, ensure_guard, ensure_revision, next_revision,
  serialize_envelope, inject_fault, validate_private_directory,
}
use lam.Store.Lock.{Flock, Polls, granted, busy, acquire_from, Ended, acquire_from-Ended}
use lam.Store.Write.{WriteIo, private_directory, private_file, commit, atomic_replace}
use lam.Store.Prepare.{calm, Prepared}
use lam.Store.Cas.{Swapped, commit-Swapped, commit-err, commit-store}
use lam.Store.Memory.{memory}
use lam.Store.Writers.{second_writer}

abbrev decode : List ℕ → Option (VersionedEnvelope ℕ)
decode (s ∷ r ∷ v ∷ rest) = some (record { schema_version = s; revision = r; value = v })
decode _ = none

abbrev decode_metadata : List ℕ → Option ℕ
decode_metadata [] = none
decode_metadata (s ∷ rest) = some s

abbrev codec : Codec ℕ
codec = record {
  encode = λ s r v. some (s ∷ r ∷ v ∷ []);
  decode_metadata = decode_metadata;
  decode = decode;
  default = 0;
}

codec-IsFaithful : IsFaithful codec
codec-IsFaithful = record {
  decode-encode = λ s r v body h. ap decode (appended s r v body h);
  metadata-encode = λ s r v body h. ap decode_metadata (appended s r v body h);
}
  where
    appended :
        (s r v : ℕ) (body : List ℕ)
        → some (s ∷ r ∷ v ∷ []) ≡ some body
        → body ++ 10 ∷ [] ≡ s ∷ r ∷ v ∷ 10 ∷ []
    appended s r v body h =
        let e : s ∷ r ∷ v ∷ [] ≡ body = ground arith in ap (λ b. b ++ 10 ∷ []) (sym e)

abbrev cfg : VersionedFileStore
cfg = record {
  file_name = some "bindings.json";
  lock_path = "hub.lock";
  schema_version = 1;
  max_bytes = 100;
  euid = 501;
}

abbrev held : Result InstallationLockGuard
held = ok (record { path = "hub.lock" })

-- every call of a write succeeds
abbrev smooth : WriteIo
smooth = record {
  create_dir_ok = true;
  set_mode_ok = true;
  parent_link_ok = true;
  parent_metadata_ok = true;
  link_ok = true;
  create_temp_ok = true;
  write_ok = true;
  partial = [];
  sync_ok = true;
  rename_ok = true;
  sync_parent_ok = true;
  remove_ok = true;
}

abbrev disk : Disk
disk = record {
  parent = some (private_directory 501);
  store = some (private_file 501 (1 ∷ 4 ∷ 70 ∷ 10 ∷ []));
  temp = none;
}

abbrev stored : ℕ → ℕ → StoreSnapshot ℕ
stored revision value = record {
  schema_version = 1;
  revision = revision;
  value = value;
  exists = true;
}

read_disk : read_unlocked codec cfg calm disk ≡ ok (stored 4 70)
unfolding read_unlocked read_bounded reject_symlink
read_disk = refl

write_disk :
    commit codec cfg held calm smooth 4 71 none disk
    ≡ (ok (stored 5 71), record disk { store = some (private_file 501 (1 ∷ 5 ∷ 71 ∷ 10 ∷ [])) })
unfolding commit prepare read_unlocked read_bounded reject_symlink ensure_guard ensure_revision
    next_revision serialize_envelope inject_fault atomic_replace validate_private_directory
write_disk = refl

commit-Swapped_example :
    Swapped codec cfg calm smooth 4 71 none disk
      (stored 5 71)
      (commit codec cfg held calm smooth 4 71 none disk).1
commit-Swapped_example =
    commit-Swapped codec cfg calm smooth 4 71 none disk codec-IsFaithful held (stored 5 71)
      (ap (λ r. r.0) write_disk)

before_rename :
    (commit codec cfg held calm smooth 4 71 (some AtomicWriteFault.rename) disk).0
    ≡ err (error store_fault_injected)
unfolding commit prepare read_unlocked read_bounded reject_symlink ensure_guard ensure_revision
    next_revision serialize_envelope inject_fault atomic_replace validate_private_directory
    Fault-discrete
before_rename = refl

commit-err_example :
    (commit codec cfg held calm smooth 4 71 (some AtomicWriteFault.rename) disk).1.store
    ≡ disk.store
commit-err_example =
    commit-err codec cfg calm smooth 4 71 (some AtomicWriteFault.rename) disk held
      (error store_fault_injected) before_rename refl

commit-store_example :
    ((commit codec cfg held calm smooth 4 71 none disk).1.store ≡ disk.store)
    ⊎ ((body : List ℕ) × Prepared codec cfg calm 4 71 disk 5 body
        × ((commit codec cfg held calm smooth 4 71 none disk).1.store
            ≡ some (private_file 501 body)))
commit-store_example = commit-store codec cfg calm smooth 4 71 none disk held

second_writer_example :
    (memory {T = ℕ}).swap 4 9 ((memory {T = ℕ}).swap 4 8 (stored 4 7)).1
    ≡ (err (revision_conflict 4 5), ((memory {T = ℕ}).swap 4 8 (stored 4 7)).1)
second_writer_example = second_writer memory 4 8 9 (stored 4 7) (stored 5 8) (unfold memory in refl)

-- the lock is busy twice, then granted
abbrev polls : Polls
polls = record { outcome = outcome; elapsed = λ i. i * 5 }
  where
    outcome : ℕ → Flock
    outcome zero = busy
    outcome (suc zero) = busy
    outcome _ = granted

acquire_runs : acquire_from "hub.lock" 20 polls 21 0 ≡ some held
unfolding acquire_from
acquire_runs = refl

acquire_from-Ended_example :
    (r : Result InstallationLockGuard) × (acquire_from "hub.lock" 20 polls 21 0 ≡ some r)
    × Ended "hub.lock" 20 polls r
acquire_from-Ended_example = acquire_from-Ended "hub.lock" 20 polls (λ i. omega arith)
