-- ===== src/Prelude/Keyed/Every.antt =====
-- What holds of every entry of a keyed list still holds after the repositories' changes.
use Prim.Native.String.{String}
use mathlib.Core.Path.{◌≡◌, refl}
use mathlib.Core.Logic.{inl, inr}
use mathlib.Core.List.{List, [], ◌∷◌, ◌++◌}
use mathlib.Core.Option.{some}
use lam.Prelude.Tests.{Bool-cases}
use lam.Prelude.Lists.{All}
use lam.Prelude.Classes.{◌==◌, string_eq}
use lam.Prelude.Keyed.{not_after, get, sort, insert_sorted, without, update}

module _ {A : Type 0} (key : A → String) where
  pub All-insert_sorted :
      (P : A → Type 0) (x : A) (xs : List A) → P x → All P xs → All P (insert_sorted key x xs)
  unfolding insert_sorted
  All-insert_sorted P x [] p a = (p, tt)
  All-insert_sorted P x (y ∷ ys) p a = elim (Bool-cases (not_after (key x) (key y))) [
    | inl first ↦ rw first (p, a)
    | inr later ↦ rw later (a.0, All-insert_sorted P x ys p a.1)
  ]

  pub All-sort : (P : A → Type 0) (xs : List A) → All P xs → All P (sort key xs)
  unfolding sort
  All-sort P [] a = tt
  All-sort P (x ∷ xs) a = All-insert_sorted P x (sort key xs) a.0 (All-sort P xs a.1)

  pub All-push : (P : A → Type 0) (xs : List A) (x : A) → P x → All P xs → All P (xs ++ x ∷ [])
  All-push P [] x p a = (p, tt)
  All-push P (y ∷ ys) x p a = (a.0, All-push P ys x p a.1)

  pub All-without :
      (P : A → Type 0) (id : String) (xs : List A) → All P xs → All P (without key id xs)
  All-without P id [] a = tt
  All-without P id (x ∷ xs) a = elim (Bool-cases (key x == id)) [
    | inl same ↦ rw same (All-without P id xs a.1)
    | inr other ↦ rw other (a.0, All-without P id xs a.1)
  ]

  pub All-update :
      (P : A → Type 0) (id : String) (f : A → A) (xs : List A)
      → ((x : A) → get key id xs ≡ some x → P x → P (f x))
      → All P xs
      → All P (update key id f xs)
  All-update P id f [] k a = tt
  All-update P id f (x ∷ xs) k a = elim (Bool-cases (key x == id)) [
    | inl same ↦ rw same (k x (rw same refl) a.0, a.1)
    | inr other ↦ rw other (a.0, All-update P id f xs (λ y g. k y (rw other g)) a.1)
  ]
