-- ===== src/Store.antt =====
-- services/storage.rs: a value in a file, behind an installation lock, with a revision that every
-- write must name. Here are the state, the reads and the checks; `Write` has the replacement of the
-- file, `Lock` the wait for the lock.
--
-- The file system enters as the outcome of each call (`ReadIo`, `WriteIo`), serde_json as a `Codec`.
pub mod Lock
pub mod Write
pub mod Atomic
pub mod Prepare
pub mod Cas
pub mod Interface
pub mod Memory
pub mod Kept
pub mod Writers
mod Examples
use Prim.Native.Nat.{bit_and}
use mathlib.Core.Option
use lam.Prelude.{
  ℕ, suc, ◌+◌, ◌-◌, ◌*◌, ◌^◌, String, Bool, true, false, not, ◌&&◌, ◌||◌, Option, none, some, List,
  [], ◌∷◌, ◌++◌, ◌==◌, nat_eq, string_eq, ltb, leb, length, if◌then◌else◌, ◌≡◌,
}
use lam.Errors.{
  AppError, Result, ok, err, error, guard, ok_or, ◌>>=◌, ◌>>◌, store_revision_conflict,
  store_revision_overflow, store_too_large, store_lock_mismatch, store_invalid, store_future_schema,
  store_schema_migration_required, store_serialize, store_fault_injected, store_unsafe_path,
  store_io,
}

pub data AtomicWriteFault : Type 0 where
  serialize temp_create temp_sync rename : AtomicWriteFault

pub Fault-discrete : Discrete AtomicWriteFault
Fault-discrete = hlevel

pub record StoreSnapshot (T : Type 0) : Type 0 where
  pub schema_version : ℕ
  pub revision : ℕ
  pub value : T
  pub exists : Bool

pub record VersionedEnvelope (T : Type 0) : Type 0 where
  pub schema_version : ℕ
  pub revision : ℕ
  pub value : T

-- What the store asks of serde_json for one type of values.
pub record Codec (T : Type 0) : Type 0 where
  -- `to_vec_pretty` of a `VersionedEnvelopeRef`
  pub encode : ℕ → ℕ → T → Option (List ℕ)
  -- `from_slice` of an `EnvelopeMetadata`: the schema version
  pub decode_metadata : List ℕ → Option ℕ
  -- `from_slice` of a `VersionedEnvelope<T>`
  pub decode : List ℕ → Option (VersionedEnvelope T)
  -- `T::default()`
  pub default : T

-- Documented behaviour of serde_json: what it writes, it reads back, also with a newline behind.
pub record IsFaithful {T : Type 0} (c : Codec T) : Type 0 where
  pub decode-encode :
      (s r : ℕ) (v : T) (body : List ℕ)
      → c.encode s r v ≡ some body
      → c.decode (body ++ 10 ∷ []) ≡ some (record { schema_version = s; revision = r; value = v })
  pub metadata-encode :
      (s r : ℕ) (v : T) (body : List ℕ)
      → c.encode s r v ≡ some body
      → c.decode_metadata (body ++ 10 ∷ []) ≡ some s

pub data FileKind : Type 0 where
  regular directory symlink special : FileKind

-- the parts of `fs::Metadata` that are read
pub record Metadata : Type 0 where
  pub kind : FileKind
  pub uid : ℕ
  pub mode : ℕ

pub record File : Type 0 where
  pub metadata : Metadata
  pub bytes : List ℕ

-- the store's directory, the store's file, and the file at the temporary path
pub record Disk : Type 0 where
  pub parent : Option Metadata
  pub store : Option File
  pub temp : Option File

-- `VersionedFileStore` with its options; `euid` is what `geteuid` returns, `file_name` the last
-- component of the path, if it has one.
pub record VersionedFileStore : Type 0 where
  pub file_name : Option String
  pub lock_path : String
  pub schema_version : ℕ
  pub max_bytes : ℕ
  pub euid : ℕ

-- `DEFAULT_MAX_BYTES`
abbrev pub default_max_bytes : ℕ
default_max_bytes = 16 * 1024 * 1024

-- `InstallationLockGuard`
pub record InstallationLockGuard : Type 0 where
  pub path : String

-- The calls of one read, each of which succeeds or not; a file that is not there is no failure.
pub record ReadIo : Type 0 where
  pub link_ok : Bool
  pub open_ok : Bool
  pub metadata_ok : Bool
  pub read_ok : Bool

abbrev pub is_symlink : Metadata → Bool
is_symlink m = elim m.kind [
  | regular ↦ false
  | directory ↦ false
  | symlink ↦ true
  | special ↦ false
]

abbrev pub is_regular : Metadata → Bool
is_regular m = elim m.kind [
  | regular ↦ true
  | directory ↦ false
  | symlink ↦ false
  | special ↦ false
]

abbrev pub is_directory : Metadata → Bool
is_directory m = elim m.kind [
  | regular ↦ false
  | directory ↦ true
  | symlink ↦ false
  | special ↦ false
]

-- `map_err(|error| store_io(..))`
abbrev pub check_io : Bool → Result (Unit {0})
check_io done = guard done (error store_io)

unfoldable pub reject_symlink : Bool → Option Metadata → Result (Unit {0})
reject_symlink link_ok found = do
  check_io link_ok
  elim found [ none ↦ ok tt | some m ↦ guard (not (is_symlink m)) (error store_unsafe_path) ]

-- no permission for the group or for others
unfoldable pub is_private : ℕ → Metadata → Bool
is_private euid m = m.uid == euid && bit_and m.mode 0o77 == 0

unfoldable pub validate_private_file : ℕ → Metadata → Result (Unit {0})
unfolding is_private
validate_private_file euid m = guard (is_regular m && is_private euid m) (error store_unsafe_path)

unfoldable pub validate_private_directory : ℕ → Bool → Metadata → Result (Unit {0})
unfolding is_private
validate_private_directory euid metadata_ok m = do
  check_io metadata_ok
  guard (is_directory m && is_private euid m) (error store_unsafe_path)

unfoldable pub inject_fault : Option AtomicWriteFault → AtomicWriteFault → Result (Unit {0})
inject_fault none expected = ok tt
inject_fault (some actual) expected = elim (Fault-discrete actual expected) [
  | yes _ ↦ err (error store_fault_injected)
  | no _ ↦ ok tt
]

unfoldable pub ensure_schema : ℕ → ℕ → Result (Unit {0})
ensure_schema actual supported =
    let details = some (("actual", actual) ∷ ("supported", supported) ∷ []) in
    if ltb supported actual
    then err (record { code = store_future_schema; recoverable = false; details = details })
    else if ltb actual supported
    then err
        (record { code = store_schema_migration_required; recoverable = true; details = details })
    else ok tt

-- the error of `ensure_revision`
abbrev pub revision_conflict : ℕ → ℕ → AppError
revision_conflict expected actual = record {
  code = store_revision_conflict;
  recoverable = true;
  details = some (("expected", expected) ∷ ("actual", actual) ∷ []);
}

unfoldable pub ensure_revision : ℕ → ℕ → Result (Unit {0})
ensure_revision expected actual = guard (expected == actual) (revision_conflict expected actual)

-- `u64::checked_add(1)`
unfoldable pub next_revision : ℕ → Result ℕ
next_revision revision =
    if leb (2 ^ 64 - 1) revision then err (error store_revision_overflow) else ok (suc revision)

unfoldable pub read_bounded : VersionedFileStore → ReadIo → Option File → Result (Option (List ℕ))
unfolding validate_private_file
read_bounded cfg io file = if not io.open_ok then err (error store_io) else elim file [
  | none ↦ ok none
  | some f ↦ do
    check_io io.metadata_ok
    validate_private_file cfg.euid f.metadata
    guard (leb (length f.bytes) cfg.max_bytes) (error store_too_large)
    check_io io.read_ok
    ok (some f.bytes)
]

unfoldable pub ensure_guard : VersionedFileStore → InstallationLockGuard → Result (Unit {0})
ensure_guard cfg held = guard (held.path == cfg.lock_path) (error store_lock_mismatch)

module _ {T : Type 0} (codec : Codec T) (cfg : VersionedFileStore) where
  -- what `read_unlocked` makes of the bytes
  unfoldable pub parse_envelope : List ℕ → Result (StoreSnapshot T)
  unfolding ensure_schema
  parse_envelope bytes = do
    schema ← ok_or (codec.decode_metadata bytes) (error store_invalid)
    ensure_schema schema cfg.schema_version
    envelope ← ok_or (codec.decode bytes) (error store_invalid)
    ok (record {
      schema_version = envelope.schema_version;
      revision = envelope.revision;
      value = envelope.value;
      exists = true;
    })

  unfoldable pub empty_snapshot : StoreSnapshot T
  empty_snapshot = record {
    schema_version = cfg.schema_version;
    revision = 0;
    value = codec.default;
    exists = false;
  }

  unfoldable pub read_unlocked : ReadIo → Disk → Result (StoreSnapshot T)
  unfolding parse_envelope empty_snapshot
  read_unlocked io d = do
    reject_symlink io.link_ok (Option.map (λ f. f.metadata) d.store)
    found ← read_bounded cfg io d.store
    elim found [ none ↦ ok empty_snapshot | some bytes ↦ parse_envelope bytes ]

  unfoldable pub serialize_envelope : ℕ → T → Option AtomicWriteFault → Result (List ℕ)
  serialize_envelope revision value fault = do
    inject_fault fault serialize
    body ← ok_or (codec.encode cfg.schema_version revision value) (error store_serialize)
    ok (body ++ 10 ∷ [])

  -- `compare_and_swap_locked` up to the bytes that it writes, with their revision
  unfoldable pub prepare :
      InstallationLockGuard → ReadIo → ℕ → T → Option AtomicWriteFault → Disk → Result (ℕ × List ℕ)
  prepare held io expected_revision value fault d = do
    ensure_guard cfg held
    current ← read_unlocked io d
    ensure_revision expected_revision current.revision
    next ← next_revision current.revision
    body ← serialize_envelope next value fault
    guard (leb (length body) cfg.max_bytes) (error store_too_large)
    ok (next, body)
