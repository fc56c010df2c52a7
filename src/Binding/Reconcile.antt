-- ===== src/Binding/Reconcile.antt =====
-- What `reconcile_binding` reports (services/provider_binding.rs).
use lam.Prelude.{
  ℕ, String, ◌≡◌, refl, sym, ◌∙◌, ap, ◌↔◌, true, false, ◌&&◌, [], ◌∷◌, map, arith, any, All, ==→≡,
  eq_iff, Option, none, some, retain, ◌==◌, string_eq, nat_eq, eq_refl, ≡→==,
}
use lam.Prelude.Keyed.{has, get, get-key, has-sort, sort}
use lam.Binding.{
  ProjectionOwnership, ProfileProviderBinding, BindingState, BTreeMap, map_key, itself, has_drifted,
  is_adopted, drift, reconcile_binding,
}

module _ (b : ProfileProviderBinding) (current : BTreeMap String) where
  abbrev managed_values : BTreeMap String
  managed_values = b.config_projection.managed_values

  has-drifted_keys :
      (k : String) (entries : BTreeMap String)
      → has itself k (map map_key (retain (has_drifted current) entries))
        ≡ any (λ e. e.0 == k && has_drifted current e) entries
  has-drifted_keys k [] = refl
  has-drifted_keys k (e ∷ entries) = ground (arith, has-drifted_keys k entries)

  -- A key is reported as drifted exactly if LAM manages it and the file has another value for it,
  -- or none.
  pub has-drift :
      (k : String)
      → has itself k (drift b current) ≡ any (λ e. e.0 == k && has_drifted current e) managed_values
  unfolding drift
  has-drift k =
      has-sort itself k (map map_key (retain (has_drifted current) managed_values))
      ∙ has-drifted_keys k managed_values

  -- The file has this entry.
  abbrev pub IsInFile : String × String → Type 0
  IsInFile e = get map_key e.0 current ≡ some e

  undrifted : (e : String × String) → IsInFile e → has_drifted current e ≡ false
  unfolding has_drifted
  undrifted (key, value) h = ground (arith, eq_refl value)

  undrifted-IsInFile : (e : String × String) → has_drifted current e ≡ false → IsInFile e
  unfolding has_drifted
  undrifted-IsInFile (key, value) h = found (get map_key key current) refl
    where
      found :
          (o : Option (String × String))
          → get map_key key current ≡ o
          → get map_key key current ≡ some (key, value)
      found none e = absurd (ground arith)
      found (some (k, v)) e =
          let same_key : k ≡ key = get-key map_key key current (k, v) e in
          let same_value : v ≡ value = ground (arith, eq_iff v value) in
          e
          ∙ ap some
              (ap (λ (t : String). (t, v)) same_key ∙ ap (λ (t : String). (key, t)) same_value)

  retain-has_drifted :
      (entries : BTreeMap String) → All IsInFile entries → retain (has_drifted current) entries ≡ []
  retain-has_drifted [] h = refl
  retain-has_drifted (e ∷ entries) h =
      ground (arith, undrifted e h.0, retain-has_drifted entries h.1)

  undrifted_all-IsInFile :
      (entries : BTreeMap String)
      → ((k : String) → any (λ e. e.0 == k && has_drifted current e) entries ≡ false)
      → All IsInFile entries
  undrifted_all-IsInFile [] h = tt
  undrifted_all-IsInFile (e ∷ entries) h = (
    undrifted-IsInFile e (ground (arith, h e.0, eq_refl e.0)),
    undrifted_all-IsInFile entries (λ k. ground (arith, h k)),
  )

  module _ (revision : ℕ) (fingerprint : String) where
    -- The provider is as it was when the binding was written, LAM manages the keys, and the file has each
    -- of them with LAM's value.
    pub record IsManaged : Type 0 where
      pub same_revision : b.provider_revision ≡ revision
      pub same_fingerprint : b.provider_fingerprint ≡ fingerprint
      pub owned : b.config_projection.ownership ≡ ProjectionOwnership.managed
      pub kept : All IsInFile managed_values

    IsManaged-reconcile :
        IsManaged → reconcile_binding b current revision fingerprint ≡ BindingState.managed
    unfolding reconcile_binding sort
    IsManaged-reconcile m =
        rw (retain-has_drifted managed_values m.kept, ≡→== m.same_revision, ≡→== m.same_fingerprint)
          (rw m.owned)

    owned_of : (o : ProjectionOwnership) → is_adopted o ≡ false → o ≡ ProjectionOwnership.managed
    owned_of ProjectionOwnership.managed h = refl
    owned_of ProjectionOwnership.adopted h = absurd (ground arith)

    unchanged :
        reconcile_binding b current revision fingerprint ≡ BindingState.managed
        → ((b.provider_revision == revision) ≡ true)
          × ((b.provider_fingerprint == fingerprint) ≡ true)
          × (is_adopted b.config_projection.ownership ≡ false)
          × (drift b current ≡ [])
    unfolding reconcile_binding
    unchanged h = (ground arith, ground arith, ground arith, ground arith)

    reconcile-IsManaged :
        reconcile_binding b current revision fingerprint ≡ BindingState.managed → IsManaged
    reconcile-IsManaged h =
        let (r, f, a, d) = unchanged h in
        record {
          same_revision = ==→≡ r;
          same_fingerprint = ==→≡ f;
          owned = owned_of b.config_projection.ownership a;
          kept = undrifted_all-IsInFile managed_values λ k. sym (has-drift k) ∙ ap (has itself k) d;
        }

    -- A binding is reported as managed exactly if the provider has the revision and the fingerprint that it
    -- had when the binding was written, the keys are LAM's own and not adopted, and the file has each
    -- managed key with the value that LAM wrote.
    pub reconcile-managed_iff :
        (reconcile_binding b current revision fingerprint ≡ BindingState.managed) ↔ IsManaged
    reconcile-managed_iff = (reconcile-IsManaged, IsManaged-reconcile)
