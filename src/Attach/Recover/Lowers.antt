-- ===== src/Attach/Recover/Lowers.antt =====
-- Which operations a chain of steps closes, from what each step closes
-- (services/provider_attach_transaction.rs).
use lam.Prelude.{List, String, [], ◌++◌, ◌≡◌, ◌∙◌, ap, refl, sym}
use lam.Errors.{ok}
use lam.Exec.{Exec, ◌>>=◌}
use lam.Exec.Triple.{went_on}
use lam.Attach.Coordinator.{AttachTransactionCoordinator}
use lam.Attach.Recover.Open.{open_ids, strike_all, strike_all-append}
use lam.Attach.Recover.Steps.{Closes}

module _ {P B J G : Type 0} (c : AttachTransactionCoordinator P B J G) {S : Type 0}
    (journal : S → J) where
  -- Where `m` returns `a`, the operations `d a` are closed.
  abbrev pub Lowers : {A : Type 0} → Exec S A → (A → List String) → Type 0
  Lowers {A} m d = (s : S) (a : A) → (m s).0 ≡ ok a → Closes c (d a) (journal s) (journal (m s).1)

  Closes-join :
      (d e : List String) (j k l : J) → Closes c d j k → Closes c e k l → Closes c (d ++ e) j l
  Closes-join d e j k l f g before read =
      let (middle, read', first) = f before read in
      let (after, read'', second) = g middle read' in
      (
        after,
        read'',
        second
            ∙ ap (strike_all e) first
            ∙ sym (strike_all-append d e (open_ids before.value.records)),
      )

  Closes-none : (j : J) → Closes c [] j j
  Closes-none j before read = (before, read, refl)

  pub bind-Lowers :
      {A D : Type 0} (m : Exec S A) (f : A → Exec S D) (n : List String) (d : D → List String)
      → Lowers m (λ a. n)
      → ((a : A) → Lowers (f a) d)
      → Lowers (m >>= f) (λ b. n ++ d b)
  bind-Lowers m f n d first rest s b h =
      let (a, returned, later, same) = went_on m f s b h in
      rw same (
        Closes-join n (d b) (journal s) (journal (m s).1) (journal (f a (m s).1).1)
          (first s a returned) (rest a (m s).1 b later))

  -- a step that leaves the journal alone
  pub apart-Lowers :
      {A : Type 0} (m : Exec S A) → ((s : S) → journal (m s).1 ≡ journal s) → Lowers m (λ a. [])
  apart-Lowers m same s a h = rw (same s) (Closes-none (journal s))
