-- ===== src/Store/Interface.antt =====
-- What the repositories use of services/storage.rs, and that the file store provides it.
use lam.Prelude.{ℕ, suc, ◌≡◌, ◌≢◌, refl, ◌∙◌, ap, ◌⊎◌, inl, inr, true, some, none}
use lam.Errors.{Result, ok, err}
use lam.Exec.{Exec}
use lam.Store.{
  StoreSnapshot, Codec, IsFaithful, Disk, VersionedFileStore, InstallationLockGuard, read_unlocked,
  revision_conflict,
}
use lam.Store.Prepare.{calm, read-private_file}
use lam.Store.Write.{WriteIo, commit, committed, private_file}
use lam.Store.Cas.{commit-Swapped, commit_conflict, commit-store}

-- `S` is the state behind the store. A swap takes the expected revision and the new value.
pub record VersionedStore (S T : Type 0) : Type 0 where
  pub load : S → Result (StoreSnapshot T)
  pub swap : ℕ → T → Exec S (StoreSnapshot T)
  -- a swap that succeeds found the expected revision
  pub swap_previous :
      (e : ℕ) (v : T) (s : S) (snap : StoreSnapshot T)
      → (swap e v s).0 ≡ ok snap
      → (previous : StoreSnapshot T) × (load s ≡ ok previous) × (previous.revision ≡ e)
  -- and returns the new value at the next revision,
  pub swap_value :
      (e : ℕ) (v : T) (s : S) (snap : StoreSnapshot T)
      → (swap e v s).0 ≡ ok snap
      → (snap.value ≡ v) × (snap.revision ≡ suc e) × (snap.exists ≡ true)
  -- which the next load gives
  pub load-swap :
      (e : ℕ) (v : T) (s : S) (snap : StoreSnapshot T)
      → (swap e v s).0 ≡ ok snap
      → load (swap e v s).1 ≡ ok snap
  -- a swap at another revision is refused
  pub swap_conflict :
      (e : ℕ) (v : T) (s : S) (current : StoreSnapshot T)
      → load s ≡ ok current
      → e ≢ current.revision
      → swap e v s ≡ (err (revision_conflict e current.revision), s)
  -- whatever a swap returns, the next load gives the old snapshot or the new value
  pub swap_atomic :
      (e : ℕ) (v : T) (s : S)
      → (load (swap e v s).1 ≡ load s)
        ⊎ ((snap : StoreSnapshot T) × (load (swap e v s).1 ≡ ok snap) × (snap.value ≡ v))

module _ {T : Type 0} (codec : Codec T) (cfg : VersionedFileStore) (faithful : IsFaithful codec)
    (wio : WriteIo) where
  abbrev held : InstallationLockGuard
  held = record { path = cfg.lock_path }

  abbrev file_load : Disk → Result (StoreSnapshot T)
  file_load = read_unlocked codec cfg calm

  abbrev file_swap : ℕ → T → Exec Disk (StoreSnapshot T)
  file_swap e v = commit codec cfg (ok held) calm wio e v none

  file_swap_value :
      (e : ℕ) (v : T) (d : Disk) (snap : StoreSnapshot T)
      → (file_swap e v d).0 ≡ ok snap
      → (snap.value ≡ v) × (snap.revision ≡ suc e) × (snap.exists ≡ true)
  unfolding committed
  file_swap_value e v d snap h =
      let r = (commit-Swapped codec cfg calm wio e v none d faithful (ok held) snap h).returned in
      (ap (λ s. s.value) r, ap (λ s. s.revision) r, ap (λ s. s.exists) r)

  same_store : (d d' : Disk) → d'.store ≡ d.store → file_load d' ≡ file_load d
  unfolding read_unlocked
  same_store d d' h = rw h

  file_swap_atomic :
      (e : ℕ) (v : T) (d : Disk)
      → (file_load (file_swap e v d).1 ≡ file_load d)
        ⊎ ((snap : StoreSnapshot T) × (file_load (file_swap e v d).1 ≡ ok snap) × (snap.value ≡ v))
  file_swap_atomic e v d = elim (commit-store codec cfg calm wio e v none d (ok held)) [
    | inl old ↦ inl (same_store d (file_swap e v d).1 old)
    | inr (body, p, new) ↦ inr (
      committed codec cfg (suc e) v,
      read-private_file codec cfg faithful (file_swap e v d).1 (suc e) v p.encoded p.encoded_lem
          (rw (← p.body_lem) p.body_fits)
          (new ∙ ap (λ b. some (private_file cfg.euid b)) p.body_lem),
      unfold committed in refl,
    )
  ]

  -- The file store keeps the interface's laws, whatever calls of a write fail, once the lock is
  -- held and while reads succeed.
  pub file_store : VersionedStore Disk T
  file_store = record {
    load = file_load;
    swap = file_swap;
    swap_previous = λ e v d snap h.
        let s = commit-Swapped codec cfg calm wio e v none d faithful (ok held) snap h in
        (s.previous, s.previous_read, s.previous_revision);
    swap_value = file_swap_value;
    load-swap = λ e v d snap h.
        (commit-Swapped codec cfg calm wio e v none d faithful (ok held) snap h).read_back;
    swap_conflict = λ e v d current read differ.
        commit_conflict codec cfg calm wio e v none d held current refl read differ;
    swap_atomic = file_swap_atomic;
  }
