-- ===== src/Store/Atomic.antt =====
-- What the replacement of the store's file can leave behind (services/storage.rs).
use lam.Prelude.{ℕ, ◌≡◌, ◌⊎◌, true, Option, none, some, List, arith}
use lam.Errors.{AppError, ok, err}
use lam.Store.{AtomicWriteFault, Disk, VersionedFileStore}
use lam.Store.Write.{WriteIo, commit_temp, atomic_replace, private_file, ensure_private_parent}

module _ (cfg : VersionedFileStore) (io : WriteIo) (body : List ℕ)
    (fault : Option AtomicWriteFault) where
  -- The file is the old one, or a new private one with all of the bytes; never a part of them.
  commit_temp-store :
      (d : Disk)
      → ((commit_temp cfg io body fault d).1.store ≡ d.store)
        ⊎ ((commit_temp cfg io body fault d).1.store ≡ some (private_file cfg.euid body))
  unfolding commit_temp
  commit_temp-store d = ground arith

  commit_temp-ok :
      (d : Disk)
      → (commit_temp cfg io body fault d).0 ≡ ok tt
      → (commit_temp cfg io body fault d).1.store ≡ some (private_file cfg.euid body)
  unfolding commit_temp
  commit_temp-ok d h = ground arith

  commit_temp-err :
      (d : Disk) (e : AppError)
      → (commit_temp cfg io body fault d).0 ≡ err e
      → io.sync_parent_ok ≡ true
      → (commit_temp cfg io body fault d).1.store ≡ d.store
  unfolding commit_temp
  commit_temp-err d e h s = ground arith

  commit_temp-temp :
      (d : Disk) → io.remove_ok ≡ true → (commit_temp cfg io body fault d).1.temp ≡ none
  unfolding commit_temp
  commit_temp-temp d h = ground arith

  ensure_private_parent-store :
      (d : Disk)
      → ((ensure_private_parent cfg io d).1.store ≡ d.store)
        × ((ensure_private_parent cfg io d).1.temp ≡ d.temp)
  unfolding ensure_private_parent
  ensure_private_parent-store d = ground arith

  -- Whatever happens, the file is the old one, or a new private one with all of the bytes.
  pub atomic_replace-store :
      (d : Disk)
      → ((atomic_replace cfg io body fault d).1.store ≡ d.store)
        ⊎ ((atomic_replace cfg io body fault d).1.store ≡ some (private_file cfg.euid body))
  unfolding atomic_replace
  atomic_replace-store d =
      ground
        (arith, commit_temp-store (ensure_private_parent cfg io d).1, ensure_private_parent-store d)

  pub atomic_replace-ok :
      (d : Disk)
      → (atomic_replace cfg io body fault d).0 ≡ ok tt
      → (atomic_replace cfg io body fault d).1.store ≡ some (private_file cfg.euid body)
  unfolding atomic_replace
  atomic_replace-ok d h = ground (arith, commit_temp-ok (ensure_private_parent cfg io d).1)

  pub atomic_replace-err :
      (d : Disk) (e : AppError)
      → (atomic_replace cfg io body fault d).0 ≡ err e
      → io.sync_parent_ok ≡ true
      → (atomic_replace cfg io body fault d).1.store ≡ d.store
  unfolding atomic_replace
  atomic_replace-err d e h s =
      ground
        (arith, commit_temp-err (ensure_private_parent cfg io d).1 e, ensure_private_parent-store d)

  pub atomic_replace-temp :
      (d : Disk)
      → io.remove_ok ≡ true
      → d.temp ≡ none
      → (atomic_replace cfg io body fault d).1.temp ≡ none
  unfolding atomic_replace
  atomic_replace-temp d h e =
      ground
        (arith, commit_temp-temp (ensure_private_parent cfg io d).1, ensure_private_parent-store d)
