-- ===== src/Attach/Config.antt =====
-- services/provider_config_editor.rs: the configuration file of Codex on disk. `Files` are the files
-- by their paths. The outcomes of file calls, the names that a UUID makes new, SHA-256 and the TOML
-- parser come from outside.
pub mod Replace
use lam.Prelude.{
  String, Bool, true, false, not, ◌==◌, string_eq, Option, none, some, List, [], ◌∷◌, if◌then◌else◌,
}
use lam.Prelude.Keyed.{has, get, without}
use lam.Errors.{
  AppError, Result, ok, err, error, guard, io_error, codex_config_conflict, codex_config_invalid,
  codex_config_fault_injected,
}
use lam.Exec.{Exec, lift, reading, ◌>>=◌, ◌>>◌}
use lam.Binding.{BTreeMap, map_key}
use lam.Provider.{CodexProviderOptions, ℤ}
use lam.Provider.Credentials.{DirectCodexAuth}
use lam.Attach.Journal.{ConfigManagedProjection}

pub record ConfigProjectionSpec : Type 0 where
  pub provider_id : String
  pub model : String
  pub display_name : String
  pub base_url : String
  pub auth : DirectCodexAuth
  pub codex : CodexProviderOptions
  pub gateway : Bool
  pub model_catalog_path : String
  pub model_context_window : Option ℤ
  pub model_auto_compact_token_limit : Option ℤ
  pub reasoning_effort : Option String

pub record AppliedProjection : Type 0 where
  pub contents : String
  pub projection : ConfigManagedProjection
  pub backup_path : Option String

pub data ConfigWriteFault : Type 0 where
  before_rename : ConfigWriteFault

abbrev pub Files : Type 0
Files = BTreeMap String

-- What is taken from outside. A call that fails may leave a part of the new file behind.
pub record FileCalls : Type 0 where
  pub read_outcome : String → Files → Result (Unit {0})
  -- the outcome of `write_private` at a path that is free, and what it leaves there if it fails
  pub create_outcome : String → String → Files → Result (Unit {0})
  pub left_over : String → String → Files → Option String
  -- the outcome of `fs::write`, and what is at the path if it fails
  pub write_outcome : String → String → Files → Result (Unit {0})
  pub partly_written : String → String → Files → Option String
  pub rename_outcome : String → String → Files → Result (Unit {0})
  -- `sync_parent`
  pub sync_outcome : String → Files → Result (Unit {0})
  -- the names `.config.<uuid>.tmp` and `config.toml.backup.<uuid>` beside a path
  pub temp_name : String → Files → String
  pub backup_name : String → Files → String
  -- SHA-256 in hexadecimal digits
  pub config_hash : String → String
  -- `parse::<toml::Value>` succeeds
  pub is_toml : String → Bool

abbrev pub put : String → String → Files → Files
put path contents files = (path, contents) ∷ without map_key path files

module _ (calls : FileCalls) where
  -- `fs::read` and `fs::read_to_string`
  unfoldable pub read_file : String → Files → Result String
  read_file path files = elim (get map_key path files) [
    | none ↦ err (error io_error)
    | some (_, contents) ↦ elim (calls.read_outcome path files) [
      | err e ↦ err e
      | ok _ ↦ ok contents
    ]
  ]

  -- the same, where `NotFound` gives an empty text
  unfoldable pub read_or_empty : String → Files → Result String
  unfolding read_file
  read_or_empty path files = if has map_key path files then read_file path files else ok ""

  unfoldable pub write_private : String → String → Exec Files (Unit {0})
  write_private path contents files =
      if has map_key path files
      then (err (error io_error), files)
      else elim (calls.create_outcome path contents files) [
        | ok _ ↦ (ok tt, put path contents files)
        | err e ↦ (
          err e,
          elim (calls.left_over path contents files) [
            | none ↦ files
            | some part ↦ put path part files
          ],
        )
      ]

  -- `fs::write`
  unfoldable pub overwrite : String → String → Exec Files (Unit {0})
  overwrite path contents files = elim (calls.write_outcome path contents files) [
    | ok _ ↦ (ok tt, put path contents files)
    | err e ↦ (
      err e,
      elim (calls.partly_written path contents files) [
        | none ↦ files
        | some part ↦ put path part files
      ],
    )
  ]

  -- `fs::rename`
  unfoldable pub rename : String → String → Exec Files (Unit {0})
  rename from to files = elim (get map_key from files) [
    | none ↦ (err (error io_error), files)
    | some (_, contents) ↦ elim (calls.rename_outcome from to files) [
      | err e ↦ (err e, files)
      | ok _ ↦ (ok tt, put to contents (without map_key from files))
    ]
  ]

  -- the fault of `apply_projection_file`: the temporary file is removed
  unfoldable pub injected : String → Option ConfigWriteFault → Exec Files (Unit {0})
  injected temp none files = (ok tt, files)
  injected temp (some before_rename) files =
      (err (error codex_config_fault_injected), without map_key temp files)

  -- a temporary file beside the path takes its place
  unfoldable pub put_in_place : String → String → Exec Files (Unit {0})
  unfolding write_private rename
  put_in_place path contents files =
      let temp = calls.temp_name path files in
      (write_private temp contents >> rename temp path >> reading (calls.sync_outcome path)) files

  unfoldable pub replace_config_file : String → String → String → Exec Files (Unit {0})
  unfolding read_or_empty put_in_place
  replace_config_file path expected_hash contents = do
    current ← reading (read_or_empty path)
    lift (guard (calls.config_hash current == expected_hash) (error codex_config_conflict))
    lift (guard (calls.is_toml contents) (error codex_config_invalid))
    put_in_place path contents

  -- the backup that is written first, under a new name
  unfoldable pub back_up : String → String → Exec Files String
  unfolding write_private
  back_up path contents files =
      let backup = calls.backup_name path files in
      (write_private backup contents >> lift (ok backup)) files

  unfoldable pub replace_config_file_with_backup : String → String → String → Exec Files String
  unfolding read_or_empty back_up replace_config_file
  replace_config_file_with_backup path expected_hash contents = do
    current ← reading (read_or_empty path)
    lift (guard (calls.config_hash current == expected_hash) (error codex_config_conflict))
    backup ← back_up path current
    replace_config_file path expected_hash contents
    lift (ok backup)

  module _
      (apply_projection : String → String → ConfigProjectionSpec → Result AppliedProjection) where
    unfoldable pub apply_projection_file :
        String
        → String
        → ConfigProjectionSpec
        → Option ConfigWriteFault
        → Exec Files AppliedProjection
    unfolding read_or_empty back_up injected
    apply_projection_file path expected_hash spec fault = do
      source ← reading (read_or_empty path)
      applied ← lift (apply_projection source expected_hash spec)
      backup ← back_up path source
      temp ← reading (λ files. ok (calls.temp_name path files))
      write_private temp applied.contents
      injected temp fault
      rename temp path
      reading (calls.sync_outcome path)
      lift (ok (record applied { backup_path = some backup }))
