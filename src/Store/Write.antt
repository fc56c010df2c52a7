-- ===== src/Store/Write.antt =====
-- The replacement of the store's file in services/storage.rs: a temporary file, made durable, is
-- renamed over the store.
use mathlib.Core.Option
use lam.Prelude.{ℕ, Bool, true, not, Option, none, some, List, if◌then◌else◌}
use lam.Errors.{Result, ok, err, error, store_unsafe_path, store_io, ok_or}
use lam.Exec.{Exec, reading, lift, ◌>>=◌, ◌>>◌}
use lam.Store.{
  AtomicWriteFault, temp_create, temp_sync, StoreSnapshot, Codec, Metadata, File, Disk,
  VersionedFileStore, InstallationLockGuard, ReadIo, check_io, reject_symlink,
  validate_private_directory, inject_fault, prepare, directory, regular,
}

-- The calls of one write, each of which succeeds or not.
pub record WriteIo : Type 0 where
  pub create_dir_ok : Bool
  pub set_mode_ok : Bool
  pub parent_link_ok : Bool
  pub parent_metadata_ok : Bool
  pub link_ok : Bool
  pub create_temp_ok : Bool
  pub write_ok : Bool
  -- what a failed `write_all` leaves in the temporary file
  pub partial : List ℕ
  pub sync_ok : Bool
  pub rename_ok : Bool
  pub sync_parent_ok : Bool
  pub remove_ok : Bool

-- a directory of mode 0o700, a file of mode 0o600
abbrev pub private_directory : ℕ → Metadata
private_directory euid = record { kind = directory; uid = euid; mode = 0o700 }

abbrev pub private_file : ℕ → List ℕ → File
private_file euid bytes = record {
  metadata = record { kind = regular; uid = euid; mode = 0o600 };
  bytes = bytes;
}

module _ (cfg : VersionedFileStore) (io : WriteIo) where
  -- `if !parent.exists() { create_dir_all; set_mode }`
  unfoldable pub create_parent : Exec Disk (Unit {0})
  create_parent d = elim d.parent [
    | some m ↦ (ok tt, d)
    | none ↦
        if not io.create_dir_ok
        then (err (error store_io), d)
        else (check_io io.set_mode_ok, record d { parent = some (private_directory cfg.euid) })
  ]

  -- the checks of `ensure_private_parent`, of a directory that is there
  unfoldable pub check_parent : Disk → Result (Unit {0})
  check_parent d = elim d.parent [
    | none ↦ err (error store_io)
    | some m ↦ elim (reject_symlink io.parent_link_ok (some m)) [
      | ok _ ↦ validate_private_directory cfg.euid io.parent_metadata_ok m
      | err e ↦ err e
    ]
  ]

  unfoldable pub ensure_private_parent : Exec Disk (Unit {0})
  unfolding create_parent check_parent
  ensure_private_parent = do create_parent; reading check_parent

  -- `open_private_temp`: `create_new` refuses a file that is there.
  unfoldable pub open_private_temp : Exec Disk (Unit {0})
  open_private_temp d = elim d.temp [
    | some f ↦ (err (error store_io), d)
    | none ↦
        if io.create_temp_ok
        then (ok tt, record d { temp = some (private_file cfg.euid List.[]) })
        else (err (error store_io), d)
  ]

  unfoldable pub write_all : List ℕ → Exec Disk (Unit {0})
  write_all body d = (
    check_io io.write_ok,
    record d { temp = some (private_file cfg.euid (if io.write_ok then body else io.partial)) },
  )

  unfoldable pub rename_temp : Exec Disk (Unit {0})
  rename_temp d =
      if io.rename_ok
      then (ok tt, record d { store = d.temp; temp = none })
      else (err (error store_io), d)

  unfoldable pub write_and_commit_temp : List ℕ → Option AtomicWriteFault → Exec Disk (Unit {0})
  unfolding open_private_temp write_all rename_temp
  write_and_commit_temp body fault = do
    open_private_temp
    write_all body
    lift (inject_fault fault temp_sync)
    lift (check_io io.sync_ok)
    lift (inject_fault fault AtomicWriteFault.rename)
    rename_temp
    lift (check_io io.sync_parent_ok)

  -- `let _ = fs::remove_file(&temp_path)`, after an error
  unfoldable pub cleanup : Result (Unit {0}) → Exec Disk (Unit {0})
  cleanup (ok done) d = (ok done, d)
  cleanup (err e) d = (err e, if io.remove_ok then record d { temp = none } else d)

  unfoldable pub commit_temp : List ℕ → Option AtomicWriteFault → Exec Disk (Unit {0})
  unfolding write_and_commit_temp cleanup
  commit_temp body fault d =
      let (result, d') = write_and_commit_temp body fault d in cleanup result d'

  unfoldable pub atomic_replace : List ℕ → Option AtomicWriteFault → Exec Disk (Unit {0})
  unfolding ensure_private_parent commit_temp
  atomic_replace body fault = do
    ensure_private_parent
    reading (λ d. reject_symlink io.link_ok (Option.map (λ f. f.metadata) d.store))
    lift (inject_fault fault temp_create)
    -- `temporary_path`
    lift (ok_or cfg.file_name (error store_unsafe_path))
    commit_temp body fault

module _ {T : Type 0} (codec : Codec T) (cfg : VersionedFileStore) where
  -- what `compare_and_swap_locked` returns once the bytes are written
  unfoldable pub committed : ℕ → T → StoreSnapshot T
  committed revision value = record {
    schema_version = cfg.schema_version;
    revision = revision;
    value = value;
    exists = true;
  }

  unfoldable pub compare_and_swap_locked :
      InstallationLockGuard
      → ReadIo
      → WriteIo
      → ℕ
      → T
      → Option AtomicWriteFault
      → Exec Disk (StoreSnapshot T)
  unfolding committed
  compare_and_swap_locked held rio wio expected_revision value fault = do
    (next, body) ← reading (prepare codec cfg held rio expected_revision value fault)
    atomic_replace cfg wio body fault
    lift (ok (committed next value))

  -- `commit`, `compare_and_swap` and `compare_and_swap_with_fault`, given what `acquire_exclusive`
  -- returned
  unfoldable pub commit :
      Result InstallationLockGuard
      → ReadIo
      → WriteIo
      → ℕ
      → T
      → Option AtomicWriteFault
      → Exec Disk (StoreSnapshot T)
  unfolding compare_and_swap_locked
  commit acquired rio wio expected_revision value fault = do
    held ← lift acquired
    compare_and_swap_locked held rio wio expected_revision value fault
