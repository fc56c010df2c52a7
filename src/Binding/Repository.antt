-- ===== src/Binding/Repository.antt =====
-- `ProfileBindingRepository` of services/provider_binding.rs, over any versioned store.
use lam.Prelude.{
  ℕ, ◌+◌, ◌%◌, ◌^◌, String, Bool, true, false, ◌&&◌, none, some, List, [], ◌∷◌, ◌++◌, map, ◌==◌,
  nat_eq, string_eq, if◌then◌else◌, retain,
}
use lam.Prelude.Keyed.{has, get, sort, without, update}
use lam.Errors.{
  Result, ok, err, error, guard, ok_or, profile_binding_exists, profile_binding_not_found,
  profile_has_provider_binding,
}
use lam.Exec.{Exec, lift, reading, ◌>>=◌, ◌>>◌}
use lam.Store.{StoreSnapshot}
use lam.Store.Interface.{VersionedStore}
use lam.Binding.{
  ProfileProviderBinding, ProfileBindingCollection, ExistingConfigBinding, ProjectionOwnership,
  direct, profile_of, is_adopted, binding_conflict, validate_observation, sort_bindings, itself,
}

-- the binding that `adopt` pushes
unfoldable pub adopted_binding :
    String → ExistingConfigBinding → ℕ → String → String → ProfileProviderBinding
adopted_binding profile_id observation provider_revision fingerprint now = record {
  profile_id = profile_id;
  provider_id = observation.provider_id;
  selected_model = observation.selected_model;
  route_kind = direct;
  gateway_binding_id = none;
  provider_revision = provider_revision;
  provider_fingerprint = fingerprint;
  config_projection = record {
    config_path = observation.config_path;
    ownership = ProjectionOwnership.adopted;
    before_hash = observation.config_hash;
    applied_hash = observation.config_hash;
    previous_values = [];
    managed_values = [];
    provider_table_created_by_lam = false;
  };
  revision = 1;
  created_at = now;
  updated_at = now;
}

-- the observation is what the profile is bound to already
unfoldable pub is_same_adoption : ProfileProviderBinding → ExistingConfigBinding → Bool
is_same_adoption existing observation =
    existing.provider_id == observation.provider_id
    && existing.selected_model == observation.selected_model
    && is_adopted existing.config_projection.ownership
    && existing.config_projection.applied_hash == observation.config_hash

-- the assignments of `rename_profile`
abbrev pub renamed : String → String → ProfileProviderBinding → ProfileProviderBinding
renamed to now b = record b {
  profile_id = to;
  revision = (b.revision + 1) % 2 ^ 64;
  updated_at = now;
}

abbrev pub with_bindings : List ProfileProviderBinding → ProfileBindingCollection
with_bindings bindings = record { bindings = bindings }

module _ {S : Type 0} (store : VersionedStore S ProfileBindingCollection) where
  abbrev pub Snapshot : Type 0
  Snapshot = StoreSnapshot ProfileBindingCollection

  unfoldable pub adopt : ℕ → String → ExistingConfigBinding → ℕ → String → String → Exec S Snapshot
  unfolding is_same_adoption
  adopt expected profile_id observation provider_revision fingerprint now = do
    lift (validate_observation observation)
    snapshot ← reading store.load
    elim (get profile_of profile_id snapshot.value.bindings) [
      | some existing ↦ lift (
          if is_same_adoption existing observation
          then ok snapshot
          else err (binding_conflict 0 existing.revision))
      | none ↦ store.swap expected (
          with_bindings (
            sort_bindings (
              snapshot.value.bindings
              ++ adopted_binding profile_id observation provider_revision fingerprint now ∷ [])))
    ]

  unfoldable pub used_by : String → S → Result (List String)
  used_by provider_id s = elim (store.load s) [
    | err e ↦ err e
    | ok snapshot ↦ ok (
        sort itself
          (map profile_of (retain (λ b. b.provider_id == provider_id) snapshot.value.bindings)))
  ]

  unfoldable pub rename_profile : ℕ → String → String → ℕ → String → Exec S Snapshot
  rename_profile expected from to expected_binding_revision now = do
    snapshot ← reading store.load
    lift (
        guard (if has profile_of to snapshot.value.bindings then false else true)
          (error profile_binding_exists))
    binding ←
        lift (ok_or (get profile_of from snapshot.value.bindings) (error profile_binding_not_found))
    lift (
        guard (binding.revision == expected_binding_revision)
          (binding_conflict expected_binding_revision binding.revision))
    store.swap expected (
        with_bindings
          (sort_bindings (update profile_of from (renamed to now) snapshot.value.bindings)))

  unfoldable pub detach : ℕ → String → ℕ → Exec S Snapshot
  detach expected profile_id expected_binding_revision = do
    snapshot ← reading store.load
    binding ← lift (
        ok_or (get profile_of profile_id snapshot.value.bindings) (error profile_binding_not_found))
    lift (
        guard (binding.revision == expected_binding_revision)
          (binding_conflict expected_binding_revision binding.revision))
    store.swap expected (with_bindings (without profile_of profile_id snapshot.value.bindings))

  unfoldable pub ensure_profile_can_delete : String → S → Result (Unit {0})
  ensure_profile_can_delete profile_id s = elim (store.load s) [
    | err e ↦ err e
    | ok snapshot ↦
        guard (if has profile_of profile_id snapshot.value.bindings then false else true)
          (error profile_has_provider_binding)
  ]

  -- a call that may write
  pub data BindingCall : Type 0 where
    adopt_call : ℕ → String → ExistingConfigBinding → ℕ → String → String → BindingCall
    rename_call : ℕ → String → String → ℕ → String → BindingCall
    detach_call : ℕ → String → ℕ → BindingCall

  unfoldable pub call : BindingCall → Exec S Snapshot
  call (adopt_call expected id observation revision fingerprint now) =
      adopt expected id observation revision fingerprint now
  call (rename_call expected from to revision now) = rename_profile expected from to revision now
  call (detach_call expected id revision) = detach expected id revision

  -- the state after calls, whether they succeed or fail
  unfoldable pub calls : List BindingCall → S → S
  calls [] s = s
  calls (c ∷ cs) s = calls cs (call c s).1
