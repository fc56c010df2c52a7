-- ===== src/Store/Kept.antt =====
-- What holds of the value in a versioned store holds after an operation that swaps only such values
-- in (services/storage.rs, as the repositories use it).
use lam.Prelude.{ℕ, ◌≡◌, sym, ◌∙◌, arith, subst, ◌⊎◌, inl, inr}
use lam.Errors.{Result, ok}
use lam.Store.{StoreSnapshot}
use lam.Store.Interface.{VersionedStore}
use lam.Store.Memory.{memory}

module _ {S T : Type 0} (store : VersionedStore S T) (P : T → Type 0) where
  -- Whatever the store gives next has the property.
  abbrev pub Keeps : S → Type 0
  Keeps s = (snap : StoreSnapshot T) → store.load s ≡ ok snap → P snap.value

  -- An operation left the state alone, or swapped in a value made from the one that it had read.
  abbrev pub IsUpdate : S → S → Type 0
  IsUpdate s s' =
      (s' ≡ s)
      ⊎ ((cur : StoreSnapshot T) × (store.load s ≡ ok cur)
          × (e : ℕ) × (v : T) × (s' ≡ (store.swap e v s).1)
          × (P cur.value → P v))

  pub swap-Keeps : (e : ℕ) (v : T) (s : S) → P v → Keeps s → Keeps (store.swap e v s).1
  swap-Keeps e v s p h snap read = elim (store.swap_atomic e v s) [
    | inl old ↦ h snap (sym old ∙ read)
    | inr (snap', new, same) ↦
        let e' : snap' ≡ snap = ground arith in subst (λ x. P x.value) e' (subst P (sym same) p)
  ]

  pub update-Keeps : (s s' : S) → IsUpdate s s' → Keeps s → Keeps s'
  update-Keeps s s' (inl same) h = rw same h
  update-Keeps s s' (inr (cur, read, e, v, same, u)) h =
      rw same (swap-Keeps e v s (u (h cur read)) h)

-- in memory, the next load gives the state itself
pub memory-Keeps :
    {T : Type 0} (P : T → Type 0) (s : StoreSnapshot T) → P s.value → Keeps (memory {T = T}) P s
unfolding memory
memory-Keeps {T} P s p snap read = subst (λ x. P x.value) (loaded read) p
  where
    loaded : ◌≡◌ {A = Result (StoreSnapshot T)} (ok s) (ok snap) → s ≡ snap
    loaded h = ground arith
