-- ===== src/Binding/Examples.antt =====
-- Checks at concrete inputs, over the store in memory: one profile is bound, one is adopted, one
-- renamed.
use lam.Prelude.{
  String, subst, ap, any, ◌&&◌, ◌≡◌, refl, ◌↔◌, true, false, some, List, [], ◌∷◌, arith,
  if◌then◌else◌, ◌==◌, string_eq,
}
use lam.Prelude.Keyed.{has, sort, IsUnique}
use lam.Errors.{Result, ok}
use lam.Store.{StoreSnapshot}
use lam.Store.Memory.{memory}
use lam.Binding.{
  ProfileBindingCollection, ProfileProviderBinding, ExistingConfigBinding, ProjectionOwnership,
  BindingState, drifted, drift, itself, reconcile_binding, has_drifted, profile_of,
  validate_observation,
}
use lam.Binding.Repository.{
  adopted_binding, renamed, adopt, rename_profile, detach, BindingCall, adopt_call, rename_call,
  detach_call, calls,
}
use lam.Binding.Effects.{binding_at, binding_at-adopt}
use lam.Binding.Invariant.{IsConsistent, calls-IsConsistent}
use lam.Binding.Reconcile.{has-drift, IsManaged, reconcile-managed_iff}

abbrev memory_load :
    StoreSnapshot ProfileBindingCollection → Result (StoreSnapshot ProfileBindingCollection)
memory_load s = (memory {T = ProfileBindingCollection}).load s

abbrev observed : ExistingConfigBinding
observed = record {
  provider_id = "acme";
  selected_model = "m1";
  config_path = "/c";
  config_hash = "h";
  auth_supported = true;
  manageable = true;
  ambiguous = false;
}

abbrev bound : ProfileProviderBinding
bound = adopted_binding "work" observed 3 "f" "t0"

abbrev initial : StoreSnapshot ProfileBindingCollection
initial = record {
  schema_version = 1;
  revision = 7;
  value = record { bindings = bound ∷ [] };
  exists = true;
}

abbrev with_home : StoreSnapshot ProfileBindingCollection
with_home = record initial {
  revision = 8;
  value = record { bindings = adopted_binding "home" observed 3 "f" "t1" ∷ bound ∷ [] };
}

adopt_home : adopt memory 7 "home" observed 3 "f" "t1" initial ≡ (ok with_home, with_home)
unfolding adopt memory adopted_binding validate_observation sort
adopt_home = refl

binding_at-adopt_example :
    (memory_load (adopt memory 7 "home" observed 3 "f" "t1" initial).1 ≡ ok with_home)
    × ((j : String)
        → binding_at memory j with_home ≡ (
            if "home" == j
            then some (adopted_binding "home" observed 3 "f" "t1")
            else binding_at memory j initial))
unfolding adopted_binding
binding_at-adopt_example =
    binding_at-adopt memory initial initial (unfold memory in refl) "home" observed 3 "f" "t1" 7
      with_home (refl, tt) refl (ap (λ r. r.0) adopt_home)

abbrev office : ProfileProviderBinding
office = renamed "office" "t2" bound

abbrev with_office : StoreSnapshot ProfileBindingCollection
with_office = record initial { revision = 8; value = record { bindings = office ∷ [] } }

rename_work : rename_profile memory 7 "work" "office" 1 "t2" initial ≡ (ok with_office, with_office)
unfolding rename_profile memory adopted_binding sort
rename_work = refl

abbrev emptied : StoreSnapshot ProfileBindingCollection
emptied = record initial { revision = 8; value = record { bindings = [] } }

detach_work : detach memory 7 "work" 1 initial ≡ (ok emptied, emptied)
unfolding detach memory adopted_binding
detach_work = refl

initial-IsConsistent : IsConsistent memory initial
unfolding memory adopted_binding
initial-IsConsistent snap e =
    subst (λ x. IsUnique profile_of x.value.bindings) (ok_injective e) (refl, tt)
  where
    ok_injective : ok initial ≡ ok snap → initial ≡ snap
    ok_injective h = ground arith

abbrev owned : ProfileProviderBinding
owned = record bound {
  config_projection = record {
    config_path = "/c";
    ownership = ProjectionOwnership.managed;
    before_hash = "h";
    applied_hash = "k";
    previous_values = [];
    managed_values = ("model", "m1") ∷ ("model_provider", "acme") ∷ [];
    provider_table_created_by_lam = true;
  };
}

abbrev edited : List (String × String)
edited = ("model", "m2") ∷ ("model_provider", "acme") ∷ []

reconcile_edited : reconcile_binding owned edited 3 "f" ≡ drifted ("model" ∷ [])
unfolding reconcile_binding sort adopted_binding
reconcile_edited = refl

has-drift_example :
    has itself "model" (drift owned edited)
    ≡ any (λ e. e.0 == "model" && has_drifted edited e) owned.config_projection.managed_values
has-drift_example = has-drift owned edited "model"

reconcile-managed_iff_example :
    (reconcile_binding owned edited 3 "f" ≡ BindingState.managed) ↔ IsManaged owned edited 3 "f"
reconcile-managed_iff_example = reconcile-managed_iff owned edited 3 "f"

abbrev three_calls : List (BindingCall memory)
three_calls =
    adopt_call 7 "home" observed 3 "f" "t1"
    ∷ rename_call 8 "work" "office" 1 "t2"
    ∷ detach_call 9 "office" 2
    ∷ []

calls-IsConsistent_example : IsConsistent memory (calls memory three_calls initial)
calls-IsConsistent_example = calls-IsConsistent memory three_calls initial initial-IsConsistent
