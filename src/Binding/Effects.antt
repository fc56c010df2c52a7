-- ===== src/Binding/Effects.antt =====
-- What the operations of `ProfileBindingRepository` do to the stored bindings
-- (services/provider_binding.rs).
use lam.Prelude.{
  string_eq, nat_eq, ℕ, String, ◌≡◌, ◌≢◌, refl, ◌∙◌, ap, true, false, Option, none, some, List, [],
  ◌∷◌, ◌++◌, arith, if◌then◌else◌, ◌==◌, is_some-find, eq_iff,
}
use lam.Prelude.Keyed.{
  has, get, without, update, IsUnique, get-sort, get-push, get_of_has, IsUnique-push, get-without,
  get-rename_to, get-rename_from, get-rename_ne, IsUnique-rename,
}
use lam.Errors.{ok}
use lam.Store.{StoreSnapshot}
use lam.Store.Interface.{VersionedStore}
use lam.Binding.{
  ProfileProviderBinding, ProfileBindingCollection, ExistingConfigBinding, profile_of,
  sort_bindings, validate_observation,
}
use lam.Binding.Repository.{
  adopted_binding, renamed, with_bindings, adopt, rename_profile, detach, is_same_adoption,
}

module _ {S : Type 0} (store : VersionedStore S ProfileBindingCollection) where
  -- what a caller finds under a profile
  abbrev pub binding_at :
      String → StoreSnapshot ProfileBindingCollection → Option ProfileProviderBinding
  binding_at profile_id snap = get profile_of profile_id snap.value.bindings

  -- The store holds `snap`, in which the bindings are `bs`.
  swapped :
      (e : ℕ) (v : ProfileBindingCollection) (s : S) (snap : StoreSnapshot ProfileBindingCollection)
      → (store.swap e v s).0 ≡ ok snap
      → (store.load (store.swap e v s).1 ≡ ok snap) × (snap.value.bindings ≡ v.bindings)
  swapped e v s snap h =
      (store.load-swap e v s snap h, ap (λ c. c.bindings) (store.swap_value e v s snap h).0)

  module _ (s : S) (cur : StoreSnapshot ProfileBindingCollection)
      (read : store.load s ≡ ok cur) where
    abbrev detached : String → ProfileBindingCollection
    detached id = with_bindings (without profile_of id cur.value.bindings)

    detach-swap :
        (expected : ℕ) (id : String) (r : ℕ) (snap : StoreSnapshot ProfileBindingCollection)
        → (detach store expected id r s).0 ≡ ok snap
        → detach store expected id r s ≡ store.swap expected (detached id) s
    unfolding detach
    detach-swap expected id r snap h = ground arith

    -- A successful detach leaves the profile without a binding and every other profile with its own.
    pub binding_at-detach :
        (expected : ℕ) (id : String) (r : ℕ) (snap : StoreSnapshot ProfileBindingCollection)
        → (detach store expected id r s).0 ≡ ok snap
        → (store.load (detach store expected id r s).1 ≡ ok snap)
          × ((j : String) → binding_at j snap ≡ (if id == j then none else binding_at j cur))
    binding_at-detach expected id r snap h =
        let e = detach-swap expected id r snap h in
        let (loaded, same) = swapped expected (detached id) s snap (rw e at h) in
        (rw e loaded, λ j. rw same (get-without profile_of id j cur.value.bindings))

    abbrev moved : String → String → String → ProfileBindingCollection
    moved from to now =
        with_bindings (sort_bindings (update profile_of from (renamed to now) cur.value.bindings))

    rename_profile-swap :
        (expected : ℕ) (from to : String) (r : ℕ) (now : String)
        (snap : StoreSnapshot ProfileBindingCollection)
        → (rename_profile store expected from to r now s).0 ≡ ok snap
        → (has profile_of to cur.value.bindings ≡ false)
          × (rename_profile store expected from to r now s
              ≡ store.swap expected (moved from to now) s)
    unfolding rename_profile
    rename_profile-swap expected from to r now snap h = (ground arith, ground arith)

    abbrev moved_bindings : String → String → String → List ProfileProviderBinding
    moved_bindings from to now = update profile_of from (renamed to now) cur.value.bindings

    -- Where each profile has one binding at most, a successful rename moves the binding to the new
    -- profile, where its revision is one up and all but its time is kept; the old profile has none,
    -- and every other profile has its own.
    pub binding_at-rename_profile :
        (expected : ℕ) (from to : String) (r : ℕ) (now : String) (old : ProfileProviderBinding)
        (snap : StoreSnapshot ProfileBindingCollection)
        → IsUnique profile_of cur.value.bindings
        → binding_at from cur ≡ some old
        → (rename_profile store expected from to r now s).0 ≡ ok snap
        → (store.load (rename_profile store expected from to r now s).1 ≡ ok snap)
          × ((j : String)
              → binding_at j snap ≡ (
                  if to == j
                  then some (renamed to now old)
                  else if from == j
                  then none
                  else binding_at j cur))
    binding_at-rename_profile expected from to r now old snap u found h =
        let (free, e) = rename_profile-swap expected from to r now snap h in
        let (loaded, same) = swapped expected (moved from to now) s snap (rw e at h) in
        let f = renamed to now in
        let bs = cur.value.bindings in
        let unique = IsUnique-rename profile_of from to f bs (λ y. refl) free u in
        let apart : from ≢ to =
          ground (arith, free, found, is_some-find (λ b. b.profile_id == to) bs) in
        (
          rw e loaded,
          λ j. rw same (
              get-sort profile_of j (moved_bindings from to now) unique
              ∙ ground (
                arith,
                get-rename_to profile_of from to f bs old (λ y. refl) found free,
                get-rename_from profile_of from to f bs (λ y. refl) apart u,
                get-rename_ne profile_of from to j f bs (λ y. refl),
                eq_iff to j,
                eq_iff from j,
              )),
        )

    module _ (id : String) (obs : ExistingConfigBinding) (rev : ℕ) (fp now : String) where
      abbrev fresh : ProfileProviderBinding
      fresh = adopted_binding id obs rev fp now

      abbrev grown : ProfileBindingCollection
      grown = with_bindings (sort_bindings (cur.value.bindings ++ fresh ∷ []))

      adopt-swap :
          (expected : ℕ) (snap : StoreSnapshot ProfileBindingCollection)
          → binding_at id cur ≡ none
          → (adopt store expected id obs rev fp now s).0 ≡ ok snap
          → adopt store expected id obs rev fp now s ≡ store.swap expected grown s
      unfolding adopt
      adopt-swap expected snap absent h = ground arith

      -- Where each profile has one binding at most, adopting the configuration of a profile without
      -- one, if it succeeds, stores its binding, as LAM found it, and changes no other profile's.
      pub binding_at-adopt :
          (expected : ℕ) (snap : StoreSnapshot ProfileBindingCollection)
          → IsUnique profile_of cur.value.bindings
          → has profile_of id cur.value.bindings ≡ false
          → (adopt store expected id obs rev fp now s).0 ≡ ok snap
          → (store.load (adopt store expected id obs rev fp now s).1 ≡ ok snap)
            × ((j : String)
                → binding_at j snap ≡ (if id == j then some fresh else binding_at j cur))
      unfolding adopted_binding
      binding_at-adopt expected snap u absent h =
          let e = adopt-swap expected snap (get_of_has profile_of id cur.value.bindings absent) h in
          let (loaded, same) = swapped expected grown s snap (rw e at h) in
          (
            rw e loaded,
            λ j. rw same (
                get-sort profile_of j (cur.value.bindings ++ fresh ∷ [])
                  (IsUnique-push profile_of cur.value.bindings fresh absent u)
                ∙ get-push profile_of j cur.value.bindings fresh absent),
          )

      -- Adopting once more what is adopted already writes nothing, at whatever revision.
      pub adopt_again :
          (expected : ℕ) (b : ProfileProviderBinding)
          → validate_observation obs ≡ ok tt
          → binding_at id cur ≡ some b
          → is_same_adoption b obs ≡ true
          → adopt store expected id obs rev fp now s ≡ (ok cur, s)
      unfolding adopt
      adopt_again expected b valid found same = ground arith
