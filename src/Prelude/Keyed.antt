-- ===== src/Prelude/Keyed.antt =====
-- Lists of things with a text for a key, as the repositories keep them: looked up by `find`,
-- changed by `push`, `retain` and `iter_mut().find`, and sorted by the key.
pub mod Every
use Prim.Native.Nat.{Ordering}
use Prim.Native.String.{String, compare}
use mathlib.Core.Path.{◌≡◌, refl, ◌∙◌}
use mathlib.Core.Logic.{◌≢◌}
use mathlib.Core.Bool.{Bool, true, false, not, ◌||◌}
use mathlib.Core.Option.{Option, none, some}
use mathlib.Core.List.{List, [], ◌∷◌, ◌++◌}
use native.Mathlib.Omega.{arith}
use text.Mathlib.TextEquality.{eq_iff}
use lam.Prelude.Tests.{if◌then◌else◌}
use lam.Prelude.Lists.{any, all, find, retain, update_first, is_some-find}
use lam.Prelude.Classes.{◌==◌, string_eq, eq_refl}

-- `a.cmp(b)` of texts, as a test for "not after"
abbrev pub not_after : String → String → Bool
not_after a b = elim (compare a b) [ Ordering.gt ↦ false | _ ↦ true ]

module _ {A : Type 0} (key : A → String) where
  abbrev pub has : String → List A → Bool
  has id xs = any (λ x. key x == id) xs

  abbrev pub get : String → List A → Option A
  get id xs = find (λ x. key x == id) xs

  unfoldable pub insert_sorted : A → List A → List A
  insert_sorted x [] = x ∷ []
  insert_sorted x (y ∷ ys) =
      let rest = insert_sorted x ys in if not_after (key x) (key y) then x ∷ y ∷ ys else y ∷ rest

  -- `sort_by(|a, b| a.key.cmp(&b.key))`, which is stable
  unfoldable pub sort : List A → List A
  unfolding insert_sorted
  sort [] = []
  sort (x ∷ xs) = insert_sorted x (sort xs)

  -- no two with one key
  abbrev pub IsUnique : List A → Type 0
  IsUnique [] = Unit
  IsUnique (x ∷ xs) = (has (key x) xs ≡ false) × IsUnique xs

  pub has-insert_sorted :
      (id : String) (x : A) (xs : List A) → has id (insert_sorted x xs) ≡ has id (x ∷ xs)
  unfolding insert_sorted
  has-insert_sorted id x [] = refl
  has-insert_sorted id x (y ∷ ys) = ground (arith, has-insert_sorted id x ys)

  pub has-sort : (id : String) (xs : List A) → has id (sort xs) ≡ has id xs
  unfolding sort
  has-sort id [] = refl
  has-sort id (x ∷ xs) = ground (arith, has-insert_sorted id x (sort xs), has-sort id xs)

  pub get-insert_sorted :
      (id : String) (x : A) (xs : List A)
      → has (key x) xs ≡ false
      → get id (insert_sorted x xs) ≡ get id (x ∷ xs)
  unfolding insert_sorted
  get-insert_sorted id x [] h = refl
  get-insert_sorted id x (y ∷ ys) h = ground (
    arith,
    get-insert_sorted id x ys,
    eq_iff (key x) id,
    eq_iff (key y) id,
    eq_iff (key y) (key x),
  )

  pub IsUnique-insert_sorted :
      (x : A) (xs : List A) → has (key x) xs ≡ false → IsUnique xs → IsUnique (insert_sorted x xs)
  unfolding insert_sorted
  IsUnique-insert_sorted x [] h u = (refl, tt)
  IsUnique-insert_sorted x (y ∷ ys) h u = ground (
    arith,
    IsUnique-insert_sorted x ys,
    has-insert_sorted (key y) x ys,
    eq_iff (key x) (key y),
    eq_iff (key y) (key x),
  )

  pub IsUnique-sort : (xs : List A) → IsUnique xs → IsUnique (sort xs)
  unfolding sort
  IsUnique-sort [] u = tt
  IsUnique-sort (x ∷ xs) u =
      IsUnique-insert_sorted x (sort xs) (has-sort (key x) xs ∙ u.0) (IsUnique-sort xs u.1)

  -- Sorting moves no entry out of reach, and brings none in.
  pub get-sort : (id : String) (xs : List A) → IsUnique xs → get id (sort xs) ≡ get id xs
  unfolding sort
  get-sort id [] u = refl
  get-sort id (x ∷ xs) u =
      get-insert_sorted id x (sort xs) (has-sort (key x) xs ∙ u.0)
      ∙ ground (arith, get-sort id xs u.1)

  -- `push`
  pub get-push :
      (id : String) (xs : List A) (x : A)
      → has (key x) xs ≡ false
      → get id (xs ++ x ∷ []) ≡ (if key x == id then some x else get id xs)
  get-push id [] x h = refl
  get-push id (y ∷ ys) x h =
      ground (arith, get-push id ys x, eq_iff (key x) id, eq_iff (key y) id, eq_iff (key y) (key x))

  has-push :
      (id : String) (xs : List A) (x : A) → has id (xs ++ x ∷ []) ≡ (has id xs || key x == id)
  has-push id [] x = ground arith
  has-push id (y ∷ ys) x = ground (arith, has-push id ys x)

  pub IsUnique-push :
      (xs : List A) (x : A) → has (key x) xs ≡ false → IsUnique xs → IsUnique (xs ++ x ∷ [])
  IsUnique-push [] x h u = (refl, tt)
  IsUnique-push (y ∷ ys) x h u = ground (
    arith,
    IsUnique-push ys x,
    has-push (key y) ys x,
    eq_iff (key x) (key y),
    eq_iff (key y) (key x),
  )

  -- `retain(|x| x.key != id)`
  abbrev pub without : String → List A → List A
  without id xs = retain (λ x. not (key x == id)) xs

  pub get-without :
      (id j : String) (xs : List A) → get j (without id xs) ≡ (if id == j then none else get j xs)
  get-without id j [] = ground arith
  get-without id j (x ∷ xs) =
      ground (arith, get-without id j xs, eq_iff id j, eq_iff (key x) id, eq_iff (key x) j)

  has-without : (id j : String) (xs : List A) → has j xs ≡ false → has j (without id xs) ≡ false
  has-without id j [] h = refl
  has-without id j (x ∷ xs) h = ground (arith, has-without id j xs)

  pub has-without_self : (id : String) (xs : List A) → has id (without id xs) ≡ false
  has-without_self id [] = refl
  has-without_self id (x ∷ xs) = ground (arith, has-without_self id xs)

  pub IsUnique-without : (id : String) (xs : List A) → IsUnique xs → IsUnique (without id xs)
  IsUnique-without id [] u = tt
  IsUnique-without id (x ∷ xs) u = ground (arith, IsUnique-without id xs, has-without id (key x) xs)

  -- `*iter_mut().find(|x| x.key == id) = f(x)`
  abbrev pub update : String → (A → A) → List A → List A
  update id f xs = update_first (λ x. key x == id) f xs

  pub get_of_has : (id : String) (xs : List A) → has id xs ≡ false → get id xs ≡ none
  get_of_has id [] h = refl
  get_of_has id (x ∷ xs) h = ground (arith, get_of_has id xs)

  pub get-key : (id : String) (xs : List A) (x : A) → get id xs ≡ some x → key x ≡ id
  get-key id [] x h = ground arith
  get-key id (y ∷ ys) x h = ground (arith, get-key id ys x, eq_iff (key y) id)

  -- An entry that moves to a key that is free: it is found there, no longer where it was, and the
  -- others stay.
  pub get-rename_to :
      (id to : String) (f : A → A) (xs : List A) (x : A)
      → ((y : A) → key (f y) ≡ to)
      → get id xs ≡ some x
      → has to xs ≡ false
      → get to (update id f xs) ≡ some (f x)
  get-rename_to id to f [] x k h free = ground arith
  get-rename_to id to f (y ∷ ys) x k h free =
      ground (arith, k y, get-rename_to id to f ys x k, eq_iff (key (f y)) to)

  pub get-rename_from :
      (id to : String) (f : A → A) (xs : List A)
      → ((y : A) → key (f y) ≡ to)
      → id ≢ to
      → IsUnique xs
      → get id (update id f xs) ≡ none
  get-rename_from id to f [] k ne u = refl
  get-rename_from id to f (y ∷ ys) k ne u = ground (
    arith,
    k y,
    get-rename_from id to f ys k,
    get_of_has id ys,
    eq_iff (key y) id,
    eq_iff (key (f y)) id,
  )

  pub get-rename_ne :
      (id to j : String) (f : A → A) (xs : List A)
      → ((y : A) → key (f y) ≡ to)
      → j ≢ to
      → j ≢ id
      → get j (update id f xs) ≡ get j xs
  get-rename_ne id to j f [] k n m = refl
  get-rename_ne id to j f (y ∷ ys) k n m = ground (
    arith,
    k y,
    get-rename_ne id to j f ys k,
    eq_iff (key y) id,
    eq_iff (key y) j,
    eq_iff (key (f y)) j,
  )

  has-update :
      (id to j : String) (f : A → A) (xs : List A)
      → ((y : A) → key (f y) ≡ to)
      → has j xs ≡ false
      → to ≢ j
      → has j (update id f xs) ≡ false
  has-update id to j f [] k h ne = refl
  has-update id to j f (y ∷ ys) k h ne = ground (arith, k y, has-update id to j f ys k, eq_iff to j)

  pub IsUnique-rename :
      (id to : String) (f : A → A) (xs : List A)
      → ((y : A) → key (f y) ≡ to)
      → has to xs ≡ false
      → IsUnique xs
      → IsUnique (update id f xs)
  IsUnique-rename id to f [] k free u = tt
  IsUnique-rename id to f (y ∷ ys) k free u = ground (
    arith,
    k y,
    IsUnique-rename id to f ys k,
    has-update id to (key y) f ys k,
    eq_iff (key y) to,
    eq_iff to (key y),
  )

  -- An entry that is replaced under its key.
  pub get-replace :
      (id j : String) (f : A → A) (xs : List A) (x : A)
      → ((y : A) → key y ≡ id → key (f y) ≡ id)
      → get id xs ≡ some x
      → get j (update id f xs) ≡ (if id == j then some (f x) else get j xs)
  get-replace id j f [] x k h = ground arith
  get-replace id j f (y ∷ ys) x k h =
      ground
        (arith, k y, get-replace id j f ys x k, eq_iff (key y) id, eq_iff (key y) j, eq_iff id j)

  pub has-replace :
      (id j : String) (f : A → A) (xs : List A)
      → ((y : A) → key y ≡ id → key (f y) ≡ id)
      → has j (update id f xs) ≡ has j xs
  has-replace id j f [] k = refl
  has-replace id j f (y ∷ ys) k = ground (arith, k y, has-replace id j f ys k, eq_iff (key y) id)

  pub IsUnique-replace :
      (id : String) (f : A → A) (xs : List A)
      → ((y : A) → key y ≡ id → key (f y) ≡ id)
      → IsUnique xs
      → IsUnique (update id f xs)
  IsUnique-replace id f [] k u = tt
  IsUnique-replace id f (y ∷ ys) k u =
      ground
        (arith, k y, IsUnique-replace id f ys k, has-replace id (key y) f ys k, eq_iff (key y) id)

  -- A test of every entry is one of every entry that can be found.
  pub all-get :
      (p : A → Bool) (xs : List A) (id : String) (x : A)
      → all p xs ≡ true
      → get id xs ≡ some x
      → p x ≡ true
  all-get p [] id x h g = ground arith
  all-get p (y ∷ ys) id x h g = ground (arith, all-get p ys id x)

  pub all_of_get :
      (p : A → Bool) (xs : List A)
      → IsUnique xs
      → ((id : String) (x : A) → get id xs ≡ some x → p x ≡ true)
      → all p xs ≡ true
  all_of_get p [] u h = refl
  all_of_get p (y ∷ ys) u h =
      let head = h (key y) y (rw (eq_refl (key y)) refl) in
      let tail = all_of_get p ys u.1 (λ id x g. h id x (later id x g)) in ground (arith, head, tail)
    where
      later : (id : String) (x : A) → get id ys ≡ some x → get id (y ∷ ys) ≡ some x
      later id x g =
          ground (
            arith,
            u.0,
            g,
            get-key id ys x g,
            is_some-find (λ z. key z == id) ys,
            eq_iff (key y) id,
          )
