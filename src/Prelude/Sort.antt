-- ===== src/Prelude/Sort.antt =====
-- `sort_by` with any order, and what it keeps.
use mathlib.Core.Path.{◌≡◌, refl}
use mathlib.Core.Bool.{Bool, true, false, ◌||◌, ◌&&◌}
use mathlib.Core.List.{List, [], ◌∷◌}
use native.Mathlib.Omega.{arith}
use lam.Prelude.Tests.{if◌then◌else◌}
use lam.Prelude.Lists.{any, all, count, distinct}

module _ {A : Type 0} (not_after : A → A → Bool) where
  place : A → List A → List A
  place x [] = x ∷ []
  place x (y ∷ ys) = let rest = place x ys in if not_after x y then x ∷ y ∷ ys else y ∷ rest

  -- `sort_by`, which is stable
  unfoldable pub sort_by : List A → List A
  unfolding place
  sort_by [] = []
  sort_by (x ∷ xs) = place x (sort_by xs)

  any-place : (p : A → Bool) (x : A) (xs : List A) → any p (place x xs) ≡ (p x || any p xs)
  unfolding place
  any-place p x [] = refl
  any-place p x (y ∷ ys) = ground (arith, any-place p x ys)

  -- Sorting changes neither what some element satisfies nor what all do.
  pub any-sort_by : (p : A → Bool) (xs : List A) → any p (sort_by xs) ≡ any p xs
  unfolding sort_by
  any-sort_by p [] = refl
  any-sort_by p (x ∷ xs) = ground (arith, any-place p x (sort_by xs), any-sort_by p xs)

  all-place : (p : A → Bool) (x : A) (xs : List A) → all p (place x xs) ≡ (p x && all p xs)
  unfolding place
  all-place p x [] = refl
  all-place p x (y ∷ ys) = ground (arith, all-place p x ys)

  pub all-sort_by : (p : A → Bool) (xs : List A) → all p (sort_by xs) ≡ all p xs
  unfolding sort_by
  all-sort_by p [] = refl
  all-sort_by p (x ∷ xs) = ground (arith, all-place p x (sort_by xs), all-sort_by p xs)

  count-place : (p : A → Bool) (x : A) (xs : List A) → count p (place x xs) ≡ count p (x ∷ xs)
  unfolding place
  count-place p x [] = refl
  count-place p x (y ∷ ys) = ground (arith, count-place p x ys)

  pub count-sort_by : (p : A → Bool) (xs : List A) → count p (sort_by xs) ≡ count p xs
  unfolding sort_by
  count-sort_by p [] = refl
  count-sort_by p (x ∷ xs) = ground (arith, count-place p x (sort_by xs), count-sort_by p xs)

  module _ (rel : A → A → Bool) (symmetric : (a b : A) → rel a b ≡ rel b a) where
    distinct-place :
        (x : A) (xs : List A)
        → any (rel x) xs ≡ false
        → distinct rel xs ≡ true
        → distinct rel (place x xs) ≡ true
    unfolding place
    distinct-place x [] h d = refl
    distinct-place x (y ∷ ys) h d =
        ground (arith, distinct-place x ys, any-place (rel y) x ys, symmetric x y)

    pub distinct-sort_by : (xs : List A) → distinct rel xs ≡ true → distinct rel (sort_by xs) ≡ true
    unfolding sort_by
    distinct-sort_by [] d = refl
    distinct-sort_by (x ∷ xs) d =
        ground (arith, distinct-place x (sort_by xs), any-sort_by (rel x) xs, distinct-sort_by xs)
