-- ===== src/Store/Cas.antt =====
-- What `compare_and_swap` of services/storage.rs promises its callers.
use lam.Prelude.{
  ℕ, suc, ◌^◌, ◌<◌, ◌≡◌, ◌≢◌, refl, ◌∙◌, ap, ◌⊎◌, inl, inr, true, Option, some, List, arith, ≡→==,
  subst,
}
use lam.Errors.{AppError, Result, ok, err}
use lam.Exec.{◌>>◌ as ◌>>ₓ◌, lift, continue}
use lam.Store.{
  AtomicWriteFault, StoreSnapshot, Codec, IsFaithful, Disk, VersionedFileStore,
  InstallationLockGuard, ReadIo, read_unlocked, prepare, ensure_guard, ensure_revision,
  revision_conflict,
}
use lam.Store.Write.{WriteIo, private_file, atomic_replace, commit, committed}
use lam.Store.Atomic.{atomic_replace-store, atomic_replace-ok, atomic_replace-err}
use lam.Store.Prepare.{calm, Prepared, prepare-Prepared, read-private_file}

module _ {T : Type 0} (codec : Codec T) (cfg : VersionedFileStore) where
  -- the outcome of the write, once `prepare` has returned
  module _ (rio : ReadIo) (wio : WriteIo) (expected : ℕ) (value : T)
      (fault : Option AtomicWriteFault) (d : Disk) where
    abbrev attempt : Result InstallationLockGuard → Result (StoreSnapshot T) × Disk
    attempt acquired = commit codec cfg acquired rio wio expected value fault d

    pub record Swapped (snap : StoreSnapshot T) (d' : Disk) : Type 0 where
      pub previous : StoreSnapshot T
      pub previous_read : read_unlocked codec cfg rio d ≡ ok previous
      pub previous_revision : previous.revision ≡ expected
      pub revision_fits : suc expected < 2 ^ 64
      pub returned : snap ≡ committed codec cfg (suc expected) value
      pub read_back : read_unlocked codec cfg calm d' ≡ ok snap

    written :
        IsFaithful codec
        → (next : ℕ) (body : List ℕ) → Prepared codec cfg rio expected value d next body
        → (atomic_replace cfg wio body fault d).0 ≡ ok tt
        → Swapped (committed codec cfg next value) (atomic_replace cfg wio body fault d).1
    written faithful next body p done = record {
      previous = p.current;
      previous_read = p.current_read;
      previous_revision = p.current_expected;
      revision_fits = rw (← p.next_suc) p.next_fits;
      returned = ap (λ n. committed codec cfg n value) p.next_suc;
      read_back =
          read-private_file codec cfg faithful (atomic_replace cfg wio body fault d).1 next value
            p.encoded p.encoded_lem (rw (← p.body_lem) p.body_fits)
            (atomic_replace-ok cfg wio body fault d done
              ∙ ap (λ b. some (private_file cfg.euid b)) p.body_lem);
    }

    -- the rest of a swap that `prepare` let through
    abbrev write_part : ℕ → List ℕ → Result (StoreSnapshot T) × Disk
    write_part next body =
        (atomic_replace cfg wio body fault >>ₓ lift (ok (committed codec cfg next value))) d

    data Course (held : InstallationLockGuard) : Type 0 where
      refused : (e : AppError) → attempt (ok held) ≡ (err e, d) → Course held
      went_on :
          (next : ℕ) (body : List ℕ)
          → Prepared codec cfg rio expected value d next body
          → attempt (ok held) ≡ write_part next body
          → Course held

    course : (held : InstallationLockGuard) → Course held
    unfolding commit
    course held = go (prepare codec cfg held rio expected value fault d) refl
      where
        go :
            (r : Result (ℕ × List ℕ))
            → prepare codec cfg held rio expected value fault d ≡ r
            → Course held
        go (err e) p = refused e (rw p)
        go (ok (next, body)) p =
            went_on next body
              (prepare-Prepared codec cfg rio expected value fault d held next body p) (rw p)

    swapped :
        IsFaithful codec
        → (next : ℕ) (body : List ℕ) (snap : StoreSnapshot T)
        → Prepared codec cfg rio expected value d next body
        → (write_part next body).0 ≡ ok snap
        → Swapped snap (write_part next body).1
    swapped faithful next body snap p = go (atomic_replace cfg wio body fault d).0 refl
      where
        d' : Disk
        d' = (atomic_replace cfg wio body fault d).1

        go :
            (r : Result (Unit {0}))
            → (atomic_replace cfg wio body fault d).0 ≡ r
            → (continue r (λ _. lift (ok (committed codec cfg next value))) d').0 ≡ ok snap
            → Swapped snap (continue r (λ _. lift (ok (committed codec cfg next value))) d').1
        go (ok done) e h =
            let same : committed codec cfg next value ≡ snap = ground arith in
            subst (λ s. Swapped s d') same (written faithful next body p e)
        go (err x) e h = cc

    write_part-disk :
        (next : ℕ) (body : List ℕ)
        → (write_part next body).1 ≡ (atomic_replace cfg wio body fault d).1
    write_part-disk next body = ground arith

    kept :
        (next : ℕ) (body : List ℕ) (e : AppError)
        → wio.sync_parent_ok ≡ true
        → (write_part next body).0 ≡ err e
        → (write_part next body).1.store ≡ d.store
    kept next body e s h = ground (arith, atomic_replace-err cfg wio body fault d e)

    -- With a codec that reads back what it writes, a swap that succeeds has replaced the value at the
    -- expected revision: the snapshot that it returns holds the new value at the next revision, which
    -- fits a u64, and reading the file afterwards gives that snapshot.
    pub commit-Swapped :
        IsFaithful codec
        → (acquired : Result InstallationLockGuard) (snap : StoreSnapshot T)
        → (attempt acquired).0 ≡ ok snap
        → Swapped snap (attempt acquired).1
    unfolding commit
    commit-Swapped faithful (err e) snap h = cc
    commit-Swapped faithful (ok held) snap h = elim (course held) [
      | refused e p ↦ ground arith
      | went_on next body p q ↦ rw q (swapped faithful next body snap p (rw q at h))
    ]

    -- A swap that fails leaves the file as it was, if the directory could be synced.
    pub commit-err :
        (acquired : Result InstallationLockGuard) (e : AppError)
        → (attempt acquired).0 ≡ err e
        → wio.sync_parent_ok ≡ true
        → (attempt acquired).1.store ≡ d.store
    unfolding commit
    commit-err (err x) e h s = refl
    commit-err (ok held) e h s = elim (course held) [
      | refused x p ↦ rw p
      | went_on next body p q ↦ rw q (kept next body e s (rw q at h))
    ]

    -- Whatever fails, the file is the old one, or a new private file with all of the bytes of a
    -- body that was prepared for this value at the next revision.
    pub commit-store :
        (acquired : Result InstallationLockGuard)
        → ((attempt acquired).1.store ≡ d.store)
          ⊎ ((body : List ℕ) × Prepared codec cfg rio expected value d (suc expected) body
              × ((attempt acquired).1.store ≡ some (private_file cfg.euid body)))
    unfolding commit
    commit-store (err x) = inl refl
    commit-store (ok held) = elim (course held) [
      | refused e p ↦ inl (rw p)
      | went_on next body p q ↦
          rw (q, write_part-disk next body)
            (elim (atomic_replace-store cfg wio body fault d) [
              | inl old ↦ inl old
              | inr new ↦ inr (body, rw p.next_suc at p, new)
            ])
    ]

    -- A swap under the store's own lock, against another revision than the one that is read from the
    -- file, is refused, and the disk stays as it was.
    pub commit_conflict :
        (held : InstallationLockGuard) (current : StoreSnapshot T)
        → held.path ≡ cfg.lock_path
        → read_unlocked codec cfg rio d ≡ ok current
        → expected ≢ current.revision
        → attempt (ok held) ≡ (err (revision_conflict expected current.revision), d)
    unfolding commit prepare ensure_guard ensure_revision
    commit_conflict held current same read differ = rw (≡→== same, read) (ground arith)
