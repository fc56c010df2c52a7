-- ===== src/Exec/Triple.antt =====
-- What a chain of steps keeps and returns, from what each step does.
use lam.Prelude.{ap, ◌≡◌, arith, refl}
use lam.Errors.{Result, ok, err}
use lam.Exec.{Exec, lift, reading, continue, ◌>>=◌, ◌>>◌}

module _ {S : Type 0} (I : S → Type 0) where
  -- `m` keeps `I`, also where it fails, and what it returns is in `Q`.
  abbrev pub Triple : {A : Type 0} → Exec S A → (A → Type 0) → Type 0
  Triple {A} m Q = (s : S) → I s → I (m s).1 × ((a : A) → (m s).0 ≡ ok a → Q a)

  pub lift-Triple : {A : Type 0} (r : Result A) → Triple (lift r) (λ a. r ≡ ok a)
  lift-Triple r s i = (i, λ a h. h)

  pub reading-Triple :
      {A : Type 0} (f : S → Result A) (Q : A → Type 0)
      → ((s : S) (a : A) → I s → f s ≡ ok a → Q a)
      → Triple (reading f) Q
  reading-Triple f Q k s i = (i, λ a h. k s a i h)

  pub bind-Triple :
      {A B : Type 0} (m : Exec S A) (f : A → Exec S B) (Q : A → Type 0) (R : B → Type 0)
      → Triple m Q
      → ((a : A) → Q a → Triple (f a) R)
      → Triple (m >>= f) R
  bind-Triple {A} {B} m f Q R t k s i = go (m s).0 refl
    where
      go :
          (r : Result A)
          → (m s).0 ≡ r
          → I (continue r f (m s).1).1 × ((b : B) → (continue r f (m s).1).0 ≡ ok b → R b)
      go (err _) e = ((t s i).0, λ b h. ground arith)
      go (ok a) e = k a ((t s i).1 a e) (m s).1 (t s i).0

  pub then_Triple :
      {A B : Type 0} (m : Exec S A) (next : Exec S B) (Q : A → Type 0) (R : B → Type 0)
      → Triple m Q
      → Triple next R
      → Triple (m >> next) R
  then_Triple m next Q R t k = bind-Triple m (λ a. next) Q R t (λ a q. k)

module _ {S A B : Type 0} (m : Exec S A) (f : A → Exec S B) (s : S) where
  -- Where a chain succeeded, its first step did, and the chain is the rest from there.
  pub went_on :
      (b : B)
      → ((m >>= f) s).0 ≡ ok b
      → (a : A) × ((m s).0 ≡ ok a) × ((f a (m s).1).0 ≡ ok b) × ((m >>= f) s ≡ f a (m s).1)
  went_on b h = go (m s).0 refl h
    where
      go :
          (r : Result A)
          → (m s).0 ≡ r
          → (continue r f (m s).1).0 ≡ ok b
          → (a : A) × ((m s).0 ≡ ok a) × ((f a (m s).1).0 ≡ ok b) × ((m >>= f) s ≡ f a (m s).1)
      go (err _) e k = absurd (ground arith)
      go (ok a) e k = (a, e, k, ap (λ x. continue x f (m s).1) e)
