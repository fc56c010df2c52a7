-- ===== src/Prelude/Lists.antt =====
-- Lists over the native numbers, and the loops that the program writes with iterators.
use Prim.Native.Nat.{ℕ, zero, suc, ◌+◌, ◌≤◌}
use mathlib.Core.Path.{◌≡◌, refl, ◌∙◌}
use mathlib.Core.Bool.{Bool, true, false, not, ◌||◌, ◌&&◌}
use mathlib.Core.List.{List, [], ◌∷◌, ◌++◌}
use mathlib.Core.Option.{Option, none, some}
use mathlib.Core.Logic.{inl, inr}
use native.Mathlib.Omega.{arith}
use lam.Prelude.Tests.{Bool-cases, if◌then◌else◌, is_some}

module _ {ℓ} {A : Type ℓ} where
  abbrev pub length : List A → ℕ
  length [] = 0
  length (x ∷ xs) = suc (length xs)

  -- `iter().any(p)`
  abbrev pub any : (A → Bool) → List A → Bool
  any p [] = false
  any p (x ∷ xs) = p x || any p xs

  -- `iter().all(p)`
  abbrev pub all : (A → Bool) → List A → Bool
  all p [] = true
  all p (x ∷ xs) = p x && all p xs

  -- `iter().find(p)`
  abbrev pub find : (A → Bool) → List A → Option A
  find p [] = none
  find p (x ∷ xs) = let rest = find p xs in if p x then some x else rest

  -- `retain(p)`, `iter().filter(p)`
  abbrev pub retain : (A → Bool) → List A → List A
  retain p [] = []
  retain p (x ∷ xs) = let rest = retain p xs in if p x then x ∷ rest else rest

  -- `*iter_mut().find(p) = f(..)`: the first element that passes is replaced.
  abbrev pub update_first : (A → Bool) → (A → A) → List A → List A
  update_first p f [] = []
  update_first p f (x ∷ xs) = let rest = update_first p f xs in if p x then f x ∷ xs else x ∷ rest

  abbrev pub take : ℕ → List A → List A
  take zero xs = []
  take (suc n) [] = []
  take (suc n) (x ∷ xs) = let rest = take n xs in x ∷ rest

  abbrev pub drop : ℕ → List A → List A
  drop zero xs = xs
  drop (suc n) [] = []
  drop (suc n) (x ∷ xs) = drop n xs

  abbrev pub All {κ} : (A → Type κ) → List A → Type κ
  All P [] = Unit
  All P (x ∷ xs) = P x × All P xs

  pub length-append : (xs ys : List A) → length (xs ++ ys) ≡ length xs + length ys
  length-append [] ys = omega arith
  length-append (x ∷ xs) ys = omega (arith, length-append xs ys)

  pub any-append : (p : A → Bool) (xs ys : List A) → any p (xs ++ ys) ≡ (any p xs || any p ys)
  any-append p [] ys = refl
  any-append p (x ∷ xs) ys = ground (arith, any-append p xs ys)

  pub all-append : (p : A → Bool) (xs ys : List A) → all p (xs ++ ys) ≡ (all p xs && all p ys)
  all-append p [] ys = refl
  all-append p (x ∷ xs) ys = ground (arith, all-append p xs ys)

  pub all-update_first :
      (p q : A → Bool) (f : A → A) (xs : List A)
      → ((x : A) → p x ≡ true → p (f x) ≡ true)
      → all p xs ≡ true
      → all p (update_first q f xs) ≡ true
  all-update_first p q f [] k a = refl
  all-update_first p q f (x ∷ xs) k a = ground (arith, k x, all-update_first p q f xs k)

  pub all-find :
      (p q : A → Bool) (xs : List A) (x : A) → all p xs ≡ true → find q xs ≡ some x → p x ≡ true
  all-find p q [] x a h = ground arith
  all-find p q (y ∷ xs) x a h = ground (arith, all-find p q xs x)

  pub any-retain : (p q : A → Bool) (xs : List A) → any p xs ≡ false → any p (retain q xs) ≡ false
  any-retain p q [] h = refl
  any-retain p q (x ∷ xs) h = ground (arith, any-retain p q xs)

  pub all-retain : (p q : A → Bool) (xs : List A) → all p xs ≡ true → all p (retain q xs) ≡ true
  all-retain p q [] h = refl
  all-retain p q (x ∷ xs) h = ground (arith, all-retain p q xs)

  pub any-weaker :
      (p q : A → Bool) (xs : List A)
      → ((x : A) → p x ≡ true → q x ≡ true)
      → any q xs ≡ false
      → any p xs ≡ false
  any-weaker p q [] k h = refl
  any-weaker p q (x ∷ xs) k h = ground (arith, k x, any-weaker p q xs k)

  pub any-update_found :
      (p q : A → Bool) (f : A → A) (xs : List A)
      → ((x : A) → find q xs ≡ some x → p (f x) ≡ true → p x ≡ true)
      → any p xs ≡ false
      → any p (update_first q f xs) ≡ false
  any-update_found p q f [] k h = refl
  any-update_found p q f (x ∷ xs) k h = elim (Bool-cases (q x)) [
    | inl here ↦ ground (arith, k x)
    | inr later ↦ ground (arith, any-update_found p q f xs (λ y g. k y (rw later g)))
  ]

  pub all-update_found :
      (p q : A → Bool) (f : A → A) (xs : List A)
      → ((x : A) → find q xs ≡ some x → p x ≡ true → p (f x) ≡ true)
      → all p xs ≡ true
      → all p (update_first q f xs) ≡ true
  all-update_found p q f [] k h = refl
  all-update_found p q f (x ∷ xs) k h = elim (Bool-cases (q x)) [
    | inl here ↦ ground (arith, k x)
    | inr later ↦ ground (arith, all-update_found p q f xs (λ y g. k y (rw later g)))
  ]

  -- `filter(p).count()`
  abbrev pub count : (A → Bool) → List A → ℕ
  count p [] = 0
  count p (x ∷ xs) = let rest = count p xs in if p x then suc rest else rest

  pub count-append : (p : A → Bool) (xs ys : List A) → count p (xs ++ ys) ≡ count p xs + count p ys
  count-append p [] ys = omega arith
  count-append p (x ∷ xs) ys = ground (arith, count-append p xs ys)

  pub count-retain : (p q : A → Bool) (xs : List A) → count p (retain q xs) ≤ count p xs
  count-retain p q [] = omega arith
  count-retain p q (x ∷ xs) = ground (arith, count-retain p q xs)

  pub count-update_found :
      (p q : A → Bool) (f : A → A) (xs : List A)
      → ((x : A) → find q xs ≡ some x → p (f x) ≡ true → p x ≡ true)
      → count p (update_first q f xs) ≤ count p xs
  count-update_found p q f [] k = omega arith
  count-update_found p q f (x ∷ xs) k = elim (Bool-cases (q x)) [
    | inl here ↦ ground (arith, k x)
    | inr later ↦ ground (arith, count-update_found p q f xs (λ y g. k y (rw later g)))
  ]

  -- What `find` returns is there exactly if `any` holds.
  pub is_some-find : (p : A → Bool) (xs : List A) → is_some (find p xs) ≡ any p xs
  is_some-find p [] = refl
  is_some-find p (x ∷ xs) = ground (arith, is_some-find p xs)

  pub find-holds : (p : A → Bool) (xs : List A) (x : A) → find p xs ≡ some x → p x ≡ true
  find-holds p [] x h = ground arith
  find-holds p (y ∷ xs) x h = ground (arith, find-holds p xs x)

module _ {A : Type 0} (rel : A → A → Bool) where
  -- no two elements are related
  abbrev pub distinct : List A → Bool
  distinct [] = true
  distinct (x ∷ xs) = not (any (rel x) xs) && distinct xs

  pub distinct-retain :
      (p : A → Bool) (xs : List A) → distinct xs ≡ true → distinct (retain p xs) ≡ true
  distinct-retain p [] d = refl
  distinct-retain p (x ∷ xs) d = ground (arith, distinct-retain p xs, any-retain (rel x) p xs)

  module _ (symmetric : (a b : A) → rel a b ≡ rel b a) where
    pub distinct-push :
        (xs : List A) (x : A)
        → any (rel x) xs ≡ false
        → distinct xs ≡ true
        → distinct (xs ++ x ∷ []) ≡ true
    distinct-push [] x h d = refl
    distinct-push (y ∷ ys) x h d =
        ground (arith, distinct-push ys x, any-append (rel y) ys (x ∷ []), symmetric x y)

    -- A change that relates no more than before keeps elements apart.
    pub distinct-update_found :
        (q : A → Bool) (f : A → A) (xs : List A)
        → ((x : A) → find q xs ≡ some x → (y : A) → rel (f x) y ≡ true → rel x y ≡ true)
        → distinct xs ≡ true
        → distinct (update_first q f xs) ≡ true
    distinct-update_found q f [] k d = refl
    distinct-update_found q f (x ∷ xs) k d = elim (Bool-cases (q x)) [
      | inl here ↦ ground (arith, any-weaker (rel (f x)) (rel x) xs (k x (rw here refl)))
      | inr later ↦ ground (
        arith,
        distinct-update_found q f xs (λ y g. k y (rw later g)),
        any-update_found (rel x) q f xs
            (λ y g h. symmetric x y ∙ k y (rw later g) x (symmetric (f y) x ∙ h)),
      )
    ]
