-- ===== src/Store/Writers.antt =====
-- Writers that share a versioned store (services/storage.rs): each names the revision that it read.
use lam.Prelude.{ℕ, suc, ◌≡◌, ◌∙◌, arith}
use lam.Errors.{ok, err}
use lam.Store.{StoreSnapshot, revision_conflict}
use lam.Store.Interface.{VersionedStore}

module _ {S T : Type 0} (store : VersionedStore S T) where
  -- Of two writers that read one revision, the second is refused, and the first one's value stays.
  pub second_writer :
      (e : ℕ) (v w : T) (s : S) (snap : StoreSnapshot T)
      → (store.swap e v s).0 ≡ ok snap
      → store.swap e w (store.swap e v s).1
        ≡ (err (revision_conflict e (suc e)), (store.swap e v s).1)
  second_writer e v w s snap h =
      let revised = (store.swap_value e v s snap h).1 in
      store.swap_conflict e w (store.swap e v s).1 snap (store.load-swap e v s snap h)
        (λ p. omega (arith, p, revised))
      ∙ ground (arith, revised)
