-- ===== src/Store/Memory.antt =====
-- A versioned store in memory: the interface of the file store can be met, and tests run on it.
use lam.Prelude.{
  ℕ, suc, ◌≡◌, ◌≢◌, refl, ◌⊎◌, inl, inr, ◌==◌, nat_eq, arith, true, if◌then◌else◌, Bool-cases,
}
use lam.Errors.{Result, ok, err}
use lam.Exec.{Exec}
use lam.Store.{StoreSnapshot, revision_conflict}
use lam.Store.Interface.{VersionedStore}

module _ {T : Type 0} where
  abbrev after : T → StoreSnapshot T → StoreSnapshot T
  after v s = record s { revision = suc s.revision; value = v; exists = true }

  abbrev memory_swap : ℕ → T → Exec (StoreSnapshot T) (StoreSnapshot T)
  memory_swap e v s =
      if e == s.revision
      then (ok (after v s), after v s)
      else (err (revision_conflict e s.revision), s)

  previous :
      (e : ℕ) (v : T) (s snap : StoreSnapshot T)
      → (memory_swap e v s).0 ≡ ok snap
      → (p : StoreSnapshot T) × (◌≡◌ {A = Result (StoreSnapshot T)} (ok s) (ok p))
        × (p.revision ≡ e)
  previous e v s snap h = (s, refl, ground arith)

  value :
      (e : ℕ) (v : T) (s snap : StoreSnapshot T)
      → (memory_swap e v s).0 ≡ ok snap
      → (snap.value ≡ v) × (snap.revision ≡ suc e) × (snap.exists ≡ true)
  value e v s snap h = ground arith

  loaded :
      (e : ℕ) (v : T) (s snap : StoreSnapshot T)
      → (memory_swap e v s).0 ≡ ok snap
      → ok (memory_swap e v s).1 ≡ ok snap
  loaded e v s snap h = ground arith

  conflict :
      (e : ℕ) (v : T) (s current : StoreSnapshot T)
      → ok s ≡ ok current
      → e ≢ current.revision
      → memory_swap e v s ≡ (err (revision_conflict e current.revision), s)
  conflict e v s current h n = ground arith

  atomic :
      (e : ℕ) (v : T) (s : StoreSnapshot T)
      → (ok (memory_swap e v s).1 ≡ ok s)
        ⊎ ((snap : StoreSnapshot T) × (ok (memory_swap e v s).1 ≡ ok snap) × (snap.value ≡ v))
  atomic e v s = elim (Bool-cases (e == s.revision)) [
    | inl same ↦ inr (after v s, rw same, refl)
    | inr other ↦ inl (rw other)
  ]

  unfoldable pub memory : VersionedStore (StoreSnapshot T) T
  unfolding previous value loaded conflict atomic
  memory = record {
    load = λ s. ok s;
    swap = memory_swap;
    swap_previous = previous;
    swap_value = value;
    load-swap = loaded;
    swap_conflict = conflict;
    swap_atomic = atomic;
  }
