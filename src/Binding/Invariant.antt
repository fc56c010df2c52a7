-- ===== src/Binding/Invariant.antt =====
-- No profile has two bindings, whatever the operations return (services/provider_binding.rs).
use lam.Prelude.{
  ℕ, String, ◌≡◌, refl, sym, ◌∙◌, false, List, [], ◌∷◌, ◌++◌, ◌==◌, string_eq, arith, subst, ◌⊎◌,
  inl, inr, is_some, is_some-find,
}
use lam.Prelude.Keyed.{
  has, get, without, update, IsUnique, IsUnique-sort, IsUnique-push, IsUnique-without,
  IsUnique-rename,
}
use lam.Errors.{AppError, Result, ok, err}
use lam.Store.{StoreSnapshot}
use lam.Store.Interface.{VersionedStore}
use lam.Binding.{
  ProfileProviderBinding, ProfileBindingCollection, ExistingConfigBinding, profile_of,
  sort_bindings,
}
use lam.Binding.Repository.{
  adopted_binding, renamed, with_bindings, adopt, rename_profile, detach, BindingCall, adopt_call,
  rename_call, detach_call, call, calls,
}

module _ {S : Type 0} (store : VersionedStore S ProfileBindingCollection) where
  -- Whatever the store gives next names each profile once.
  abbrev pub IsConsistent : S → Type 0
  IsConsistent s =
      (snap : StoreSnapshot ProfileBindingCollection)
      → store.load s ≡ ok snap
      → IsUnique profile_of snap.value.bindings

  swap-IsConsistent :
      (e : ℕ) (v : ProfileBindingCollection) (s : S)
      → IsUnique profile_of v.bindings
      → IsConsistent s
      → IsConsistent (store.swap e v s).1
  swap-IsConsistent e v s u h snap read = elim (store.swap_atomic e v s) [
    | inl old ↦ h snap (sym old ∙ read)
    | inr (snap', new, same) ↦
        let e' : snap' ≡ snap = ground arith in
        subst (λ x. IsUnique profile_of x.value.bindings) e'
          (subst (λ x. IsUnique profile_of x.bindings) (sym same) u)
  ]

  -- An operation keeps consistency if it leaves the state alone where nothing can be loaded, and
  -- else leaves it alone or swaps in bindings that are unique.
  keeps :
      (s s' : S)
      → ((e : AppError) → store.load s ≡ err e → s' ≡ s)
      → ((cur : StoreSnapshot ProfileBindingCollection)
          → store.load s ≡ ok cur
          → (s' ≡ s)
            ⊎ ((e : ℕ) × (v : ProfileBindingCollection) × (s' ≡ (store.swap e v s).1)
                × (IsUnique profile_of cur.value.bindings → IsUnique profile_of v.bindings)))
      → IsConsistent s
      → IsConsistent s'
  keeps s s' broken loaded h = go (store.load s) refl
    where
      swapped :
          (cur : StoreSnapshot ProfileBindingCollection)
          → store.load s ≡ ok cur
          → ((s' ≡ s)
              ⊎ ((e : ℕ) × (v : ProfileBindingCollection) × (s' ≡ (store.swap e v s).1)
                  × (IsUnique profile_of cur.value.bindings → IsUnique profile_of v.bindings)))
          → IsConsistent s'
      swapped cur p (inl same) = rw same h
      swapped cur p (inr (e, v, same, u)) = rw same (swap-IsConsistent e v s (u (h cur p)) h)

      go :
          (l : Result (StoreSnapshot ProfileBindingCollection)) → store.load s ≡ l → IsConsistent s'
      go (err e) p = rw (broken e p) h
      go (ok cur) p = swapped cur p (loaded cur p)

  module _ (s : S) (expected : ℕ) (id : String) (r : ℕ) where
    detach-state :
        (cur : StoreSnapshot ProfileBindingCollection)
        → store.load s ≡ ok cur
        → ((detach store expected id r s).1 ≡ s)
          ⊎ ((detach store expected id r s).1
              ≡ (store.swap expected
                  (with_bindings (without profile_of id cur.value.bindings))
                  s).1)
    unfolding detach
    detach-state cur read = ground arith

    detach-broken : (e : AppError) → store.load s ≡ err e → (detach store expected id r s).1 ≡ s
    unfolding detach
    detach-broken e read = ground arith

    -- Detaching keeps one binding for each profile, also where the swap fails.
    detach-IsConsistent : IsConsistent s → IsConsistent (detach store expected id r s).1
    detach-IsConsistent = keeps s (detach store expected id r s).1 detach-broken λ cur read.
        elim (detach-state cur read) [
          | inl same ↦ inl same
          | inr same ↦ inr (
            expected,
            with_bindings (without profile_of id cur.value.bindings),
            same,
            IsUnique-without profile_of id cur.value.bindings,
          )
        ]

  module _ (s : S) (expected : ℕ) (from to : String) (r : ℕ) (now : String) where
    abbrev moved : StoreSnapshot ProfileBindingCollection → ProfileBindingCollection
    moved cur =
        with_bindings (sort_bindings (update profile_of from (renamed to now) cur.value.bindings))

    rename_profile-state :
        (cur : StoreSnapshot ProfileBindingCollection)
        → store.load s ≡ ok cur
        → ((rename_profile store expected from to r now s).1 ≡ s)
          ⊎ ((has profile_of to cur.value.bindings ≡ false)
              × ((rename_profile store expected from to r now s).1
                  ≡ (store.swap expected (moved cur) s).1))
    unfolding rename_profile
    rename_profile-state cur read = ground arith

    rename_profile-broken :
        (e : AppError)
        → store.load s ≡ err e
        → (rename_profile store expected from to r now s).1 ≡ s
    unfolding rename_profile
    rename_profile-broken e read = ground arith

    -- Renaming a profile keeps one binding for each profile, also where the swap fails.
    rename_profile-IsConsistent :
        IsConsistent s → IsConsistent (rename_profile store expected from to r now s).1
    rename_profile-IsConsistent =
        keeps s (rename_profile store expected from to r now s).1 rename_profile-broken λ cur read.
          elim (rename_profile-state cur read) [
            | inl same ↦ inl same
            | inr (free, same) ↦ inr (
              expected,
              moved cur,
              same,
              λ u.
                  IsUnique-sort profile_of
                    (update profile_of from (renamed to now) cur.value.bindings)
                    (IsUnique-rename profile_of from to (renamed to now) cur.value.bindings
                      (λ y. refl) free u),
            )
          ]

  module _ (s : S) (expected : ℕ) (id : String) (obs : ExistingConfigBinding) (rev : ℕ)
      (fp now : String) where
    abbrev fresh : ProfileProviderBinding
    fresh = adopted_binding id obs rev fp now

    abbrev grown : StoreSnapshot ProfileBindingCollection → ProfileBindingCollection
    grown cur = with_bindings (sort_bindings (cur.value.bindings ++ fresh ∷ []))

    adopt-state :
        (cur : StoreSnapshot ProfileBindingCollection)
        → store.load s ≡ ok cur
        → ((adopt store expected id obs rev fp now s).1 ≡ s)
          ⊎ ((is_some (get profile_of id cur.value.bindings) ≡ false)
              × ((adopt store expected id obs rev fp now s).1
                  ≡ (store.swap expected (grown cur) s).1))
    unfolding adopt
    adopt-state cur read = ground arith

    adopt-broken :
        (e : AppError) → store.load s ≡ err e → (adopt store expected id obs rev fp now s).1 ≡ s
    unfolding adopt
    adopt-broken e read = ground arith

    IsUnique-grown :
        (cur : StoreSnapshot ProfileBindingCollection)
        → is_some (get profile_of id cur.value.bindings) ≡ false
        → IsUnique profile_of cur.value.bindings
        → IsUnique profile_of (grown cur).bindings
    unfolding adopted_binding
    IsUnique-grown cur absent u = IsUnique-sort profile_of (cur.value.bindings ++ fresh ∷ []) (
        IsUnique-push profile_of cur.value.bindings fresh
          (sym (is_some-find (λ b. b.profile_id == id) cur.value.bindings) ∙ absent) u)

    -- Adopting a configuration keeps one binding for each profile, also where the swap fails.
    adopt-IsConsistent : IsConsistent s → IsConsistent (adopt store expected id obs rev fp now s).1
    adopt-IsConsistent =
        keeps s (adopt store expected id obs rev fp now s).1 adopt-broken λ cur read.
          elim (adopt-state cur read) [
            | inl same ↦ inl same
            | inr (absent, same) ↦ inr (expected, grown cur, same, IsUnique-grown cur absent)
          ]

  call-IsConsistent :
      (c : BindingCall store) (s : S) → IsConsistent s → IsConsistent (call store c s).1
  unfolding call
  call-IsConsistent (adopt_call e id obs rev fp now) s = adopt-IsConsistent s e id obs rev fp now
  call-IsConsistent (rename_call e from to r now) s = rename_profile-IsConsistent s e from to r now
  call-IsConsistent (detach_call e id r) s = detach-IsConsistent s e id r

  -- Where each profile has one binding at most, it still has after any calls that adopt a configuration,
  -- rename a profile or detach one, whichever succeed.
  pub calls-IsConsistent :
      (cs : List (BindingCall store)) (s : S) → IsConsistent s → IsConsistent (calls store cs s)
  unfolding calls
  calls-IsConsistent [] s k = k
  calls-IsConsistent (c ∷ cs) s k =
      calls-IsConsistent cs (call store c s).1 (call-IsConsistent c s k)
