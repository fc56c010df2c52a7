-- ===== src/Attach/Config/Replace.antt =====
-- What replacing the configuration file does to the files (services/provider_config_editor.rs).
use lam.Prelude.{
  Bool-cases, String, Bool, true, false, ◌≡◌, ◌≢◌, refl, arith, Option, none, some, ◌==◌, string_eq,
  eq_refl, ◌⊎◌, inl, inr, if◌then◌else◌, sym, ◌∙◌, ap, ◌&&◌,
}
use lam.Prelude.Keyed.{get, has, without, get-without}
use lam.Errors.{AppError, Result, ok, err}
use lam.Exec.{reading, ◌>>◌}
use lam.Exec.Triple.{went_on}
use lam.Binding.{map_key}
use text.Mathlib.TextEquality.{eq_iff}
use lam.Attach.Config.{
  FileCalls, Files, put, read_or_empty, write_private, rename, put_in_place, replace_config_file,
}

get-put :
    (j path contents : String) (files : Files)
    → get map_key j (put path contents files)
      ≡ (if path == j then some (path, contents) else get map_key j files)
get-put j path contents files = ground (arith, get-without map_key path j files)

get-put_ne :
    (path j : String)
    → path ≢ j
    → (contents : String) (files : Files)
    → get map_key j (put path contents files) ≡ get map_key j files
get-put_ne path j n contents files = ground (arith, get-put j path contents files, eq_iff path j)

get-put_self :
    (path contents : String) (files : Files)
    → get map_key path (put path contents files) ≡ some (path, contents)
get-put_self path contents files = ground (arith, get-put path path contents files, eq_refl path)

get-without_ne :
    (path j : String)
    → path ≢ j
    → (files : Files) → get map_key j (without map_key path files) ≡ get map_key j files
get-without_ne path j n files = ground (arith, get-without map_key path j files, eq_iff path j)

-- What is at a path is as it was, or is new.
abbrev pub IsOldOrNew : String → String → Files → Files → Type 0
IsOldOrNew path contents files files' =
    (get map_key path files' ≡ get map_key path files)
    ⊎ (get map_key path files' ≡ some (path, contents))

module _ (calls : FileCalls) where
  written :
      (t s : String) (files : Files)
      → (write_private calls t s files).0 ≡ ok tt
      → (write_private calls t s files).1 ≡ put t s files
  unfolding write_private
  written t s files h = ground arith

  write_apart :
      (t s j : String) (files : Files)
      → t ≢ j
      → get map_key j (write_private calls t s files).1 ≡ get map_key j files
  unfolding write_private
  write_apart t s j files n =
      go (has map_key t files) refl (calls.create_outcome t s files) refl
        (calls.left_over t s files) refl
    where
      go :
          (b : Bool)
          → has map_key t files ≡ b
          → (r : Result (Unit {0})) → calls.create_outcome t s files ≡ r
          → (o : Option String) → calls.left_over t s files ≡ o
          → get map_key j (write_private calls t s files).1 ≡ get map_key j files
      go true e r f o g = ground arith
      go false e (ok _) f o g = ground (arith, get-put_ne t j n s files)
      go false e (err _) f none g = ground arith
      go false e (err _) f (some part) g = ground (arith, get-put_ne t j n part files)

  -- a rename moves what is at the first path, or leaves all as it was
  renamed :
      (from to s : String) (files : Files)
      → get map_key from files ≡ some (from, s)
      → ((rename calls from to files).1 ≡ files)
        ⊎ ((rename calls from to files).1 ≡ put to s (without map_key from files))
  unfolding rename
  renamed from to s files h = go (calls.rename_outcome from to files) refl
    where
      go :
          (r : Result (Unit {0}))
          → calls.rename_outcome from to files ≡ r
          → ((rename calls from to files).1 ≡ files)
            ⊎ ((rename calls from to files).1 ≡ put to s (without map_key from files))
      go (ok _) e = inr (ground arith)
      go (err _) e = inl (ground arith)

  renamed_ok :
      (from to s : String) (files : Files)
      → get map_key from files ≡ some (from, s)
      → (rename calls from to files).0 ≡ ok tt
      → (rename calls from to files).1 ≡ put to s (without map_key from files)
  unfolding rename
  renamed_ok from to s files g h = ground arith

  module _ (path s : String) (files : Files) where
    abbrev temp : String
    temp = calls.temp_name path files

    abbrev staged : Files
    staged = (write_private calls temp s files).1

    -- The files after all are those after the first call if it fails, and else those after the rename.
    stopped :
        (e : AppError)
        → (write_private calls temp s files).0 ≡ err e
        → (put_in_place calls path s files).1 ≡ staged
    unfolding put_in_place
    stopped e h = ground arith

    moved :
        (write_private calls temp s files).0 ≡ ok tt
        → (put_in_place calls path s files).1 ≡ (rename calls temp path staged).1
    unfolding put_in_place
    moved h = go (rename calls temp path staged).0 refl
      where
        go :
            (r : Result (Unit {0}))
            → (rename calls temp path staged).0 ≡ r
            → (put_in_place calls path s files).1 ≡ (rename calls temp path staged).1
        go (ok _) e = ground arith
        go (err _) e = ground arith

    staged-get :
        (write_private calls temp s files).0 ≡ ok tt → get map_key temp staged ≡ some (temp, s)
    staged-get h = rw (written temp s files h) (get-put_self temp s files)

    put_in_place_ok :
        (put_in_place calls path s files).0 ≡ ok tt
        → get map_key path (put_in_place calls path s files).1 ≡ some (path, s)
    unfolding put_in_place
    put_in_place_ok h =
        let (_, both, _, _) =
          went_on (write_private calls temp s >> rename calls temp path)
            (λ x. reading (calls.sync_outcome path)) files tt h in
        let (_, first, second, _) =
          went_on (write_private calls temp s) (λ x. rename calls temp path) files tt both in
        rw (moved first, renamed_ok temp path s staged (staged-get first) second)
          (get-put_self path s (without map_key temp staged))

    module _ (j : String) (n : temp ≢ j) where
      put_in_place_apart :
          path ≢ j → get map_key j (put_in_place calls path s files).1 ≡ get map_key j files
      put_in_place_apart m = go (write_private calls temp s files).0 refl
        where
          go :
              (r : Result (Unit {0}))
              → (write_private calls temp s files).0 ≡ r
              → get map_key j (put_in_place calls path s files).1 ≡ get map_key j files
          go (err e) h = rw (stopped e h) (write_apart temp s j files n)
          go (ok _) h = rw (moved h) (elim (renamed temp path s staged (staged-get h)) [
            | inl same ↦ rw same (write_apart temp s j files n)
            | inr new ↦ rw new (
                get-put_ne path j m s (without map_key temp staged)
                ∙ get-without_ne temp j n staged
                ∙ write_apart temp s j files n)
          ])

    put_in_place-IsOldOrNew :
        temp ≢ path → IsOldOrNew path s files (put_in_place calls path s files).1
    put_in_place-IsOldOrNew n = go (write_private calls temp s files).0 refl
      where
        go :
            (r : Result (Unit {0}))
            → (write_private calls temp s files).0 ≡ r
            → IsOldOrNew path s files (put_in_place calls path s files).1
        go (err e) h = inl (rw (stopped e h) (write_apart temp s path files n))
        go (ok _) h = rw (moved h) (elim (renamed temp path s staged (staged-get h)) [
          | inl same ↦ inl (rw same (write_apart temp s path files n))
          | inr new ↦ inr (rw new (get-put_self path s (without map_key temp staged)))
        ])

    module _ (expected : String) where
      abbrev Allowed : Type 0
      Allowed =
          (current : String) × (read_or_empty calls path files ≡ ok current)
          × (calls.config_hash current ≡ expected)
          × (calls.is_toml s ≡ true)
          × (replace_config_file calls path expected s files ≡ put_in_place calls path s files)

      abbrev Refused : Type 0
      Refused =
          ((replace_config_file calls path expected s files).1 ≡ files)
          × ¬ ((replace_config_file calls path expected s files).0 ≡ ok tt)

      -- The file is replaced, or nothing is done.
      replace_cases : Allowed ⊎ Refused
      unfolding replace_config_file
      replace_cases = go (read_or_empty calls path files) refl
        where
          go : (r : Result String) → read_or_empty calls path files ≡ r → Allowed ⊎ Refused
          go (err _) e = inr (ground arith, λ h. ground arith)
          go (ok current) e =
              elim (Bool-cases (calls.config_hash current == expected && calls.is_toml s)) [
                | inl both ↦ inl (
                  current,
                  e,
                  ground (arith, both, eq_iff (calls.config_hash current) expected),
                  ground (arith, both),
                  ground (arith, both),
                )
                | inr other ↦ inr (ground (arith, other), λ h. ground (arith, other))
              ]

      -- A replacement that succeeds found the expected hash, and the file has the new contents.
      pub replaced :
          (replace_config_file calls path expected s files).0 ≡ ok tt
          → Allowed
            × (get map_key path (replace_config_file calls path expected s files).1
                ≡ some (path, s))
      replaced h = elim replace_cases [
        | inr (same, failed) ↦ absurd (failed h)
        | inl (current, read, hash, toml, placed) ↦ (
          (current, read, hash, toml, placed),
          rw placed (put_in_place_ok (ap (λ r. r.0) (sym placed) ∙ h)),
        )
      ]

      module _ (n : temp ≢ path) where
        -- Whatever calls fail, the configuration has its old contents or the new ones after a replacement,
        -- where the temporary file has another name: a part of them is never left there.
        pub replace_config_file-IsOldOrNew :
            IsOldOrNew path s files (replace_config_file calls path expected s files).1
        replace_config_file-IsOldOrNew = elim replace_cases [
          | inr (same, failed) ↦ inl (ap (get map_key path) same)
          | inl (current, read, hash, toml, placed) ↦ rw placed (put_in_place-IsOldOrNew n)
        ]
