-- ===== src/Binding.antt =====
-- services/provider_binding.rs: which provider a profile is bound to, and how that relates to the
-- profile's configuration file. `Repository` has the operations on the stored collection.
pub mod Repository
pub mod Effects
pub mod Invariant
pub mod Reconcile
mod Examples
use lam.Prelude.{
  ℕ, String, Bool, true, false, not, ◌&&◌, ◌||◌, Option, none, some, List, [], ◌∷◌, map, ◌==◌,
  nat_eq, string_eq, if◌then◌else◌, retain,
}
use lam.Prelude.Keyed.{sort, get}
use lam.Prelude.Text.{trim, is_empty}
use lam.Errors.{
  AppError, Result, ok, err, error, guard, ◌>>◌, profile_binding_conflict, profile_config_ambiguous,
  profile_config_unmanageable, profile_config_auth_unsupported, provider_not_found,
}

pub data RouteKind : Type 0 where
  direct gateway : RouteKind

pub data ProjectionOwnership : Type 0 where
  managed adopted : ProjectionOwnership

-- a `BTreeMap<String, V>`: its entries in the order of their keys
abbrev pub BTreeMap : Type 0 → Type 0
BTreeMap V = List (String × V)

abbrev pub map_key {ℓ} : {V : Type ℓ} → String × V → String
map_key entry = entry.0

pub record ManagedConfigProjection : Type 0 where
  pub config_path : String
  pub ownership : ProjectionOwnership
  pub before_hash : String
  pub applied_hash : String
  pub previous_values : BTreeMap (Option String)
  pub managed_values : BTreeMap String
  pub provider_table_created_by_lam : Bool

pub record ProfileProviderBinding : Type 0 where
  pub profile_id : String
  pub provider_id : String
  pub selected_model : String
  pub route_kind : RouteKind
  pub gateway_binding_id : Option String
  pub provider_revision : ℕ
  pub provider_fingerprint : String
  pub config_projection : ManagedConfigProjection
  pub revision : ℕ
  pub created_at : String
  pub updated_at : String

pub record ProfileBindingCollection : Type 0 where
  pub bindings : List ProfileProviderBinding

pub data BindingState : Type 0 where
  adopted managed : BindingState
  drifted : List String → BindingState
  stale_provider : BindingState

pub record ExistingConfigBinding : Type 0 where
  pub provider_id : String
  pub selected_model : String
  pub config_path : String
  pub config_hash : String
  pub auth_supported : Bool
  pub manageable : Bool
  pub ambiguous : Bool

abbrev pub profile_of : ProfileProviderBinding → String
profile_of b = b.profile_id

abbrev pub is_adopted : ProjectionOwnership → Bool
is_adopted ProjectionOwnership.adopted = true
is_adopted ProjectionOwnership.managed = false

abbrev pub binding_conflict : ℕ → ℕ → AppError
binding_conflict expected actual = record {
  code = profile_binding_conflict;
  recoverable = true;
  details = some (("expected", expected) ∷ ("actual", actual) ∷ []);
}

unfoldable pub validate_observation : ExistingConfigBinding → Result (Unit {0})
unfolding trim is_empty
validate_observation value = do
  guard (not value.ambiguous) (error profile_config_ambiguous)
  guard value.manageable (error profile_config_unmanageable)
  guard value.auth_supported (error profile_config_auth_unsupported)
  guard (not (is_empty (trim value.provider_id))) (error provider_not_found)

-- `sort_bindings`
abbrev pub sort_bindings : List ProfileProviderBinding → List ProfileProviderBinding
sort_bindings = sort profile_of

-- `current_values.get(*key) != Some(*value)`
unfoldable pub has_drifted : BTreeMap String → String × String → Bool
has_drifted current_values (key, value) = elim (get map_key key current_values) [
  | none ↦ true
  | some (_, current) ↦ not (current == value)
]

abbrev pub itself : String → String
itself s = s

-- `drift`, sorted
unfoldable pub drift : ProfileProviderBinding → BTreeMap String → List String
unfolding has_drifted
drift binding current_values =
    sort itself
      (map map_key (retain (has_drifted current_values) binding.config_projection.managed_values))

abbrev drift_state : List String → BindingState
drift_state [] = BindingState.managed
drift_state (key ∷ keys) = drifted (key ∷ keys)

unfoldable pub reconcile_binding :
    ProfileProviderBinding → BTreeMap String → ℕ → String → BindingState
unfolding drift
reconcile_binding binding current_values provider_revision fingerprint =
    if not (binding.provider_revision == provider_revision)
      || not (binding.provider_fingerprint == fingerprint)
    then stale_provider
    else if is_adopted binding.config_projection.ownership
    then BindingState.adopted
    else drift_state (drift binding current_values)
