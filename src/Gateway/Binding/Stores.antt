-- ===== src/Gateway/Binding/Stores.antt =====
-- services/gateway/binding.rs: what `GatewayBindingService` is made of, the store of the bindings and the
-- credentials' service, and the changes that it makes to a binding.
use lam.Prelude.{
  ℕ, String, Bool, true, false, not, ◌||◌, ◌==◌, string_eq, nat_eq, ltb, Option, none, some, List,
  sort_by,
}
use Prim.Native.Nat.{Ordering}
use Prim.Native.Nat as Nat
use Prim.Native.String.{len, compare}
use lam.Prelude.Keyed.{not_after}
use lam.Prelude.Text.{is_empty, any_char, is_control}
use lam.Errors.{Result, ok, err}
use lam.Exec.{Exec}
use lam.Store.Interface.{VersionedStore}
use lam.Keychain.{KeychainCredentialReference, SecretIo}
use lam.Keychain.Service.{KeychainBackend, Secrets}
use lam.Gateway.Binding.{GatewayBinding, GatewayBindingCollection, GatewayTokenRequest, Crates}

-- `sort_bindings`: by profile, then generation, then id
abbrev pub binding_not_after : GatewayBinding → GatewayBinding → Bool
binding_not_after a b = elim (compare a.profile_id b.profile_id) [
  | Ordering.lt ↦ true
  | Ordering.gt ↦ false
  | Ordering.eq ↦ elim (Nat.compare a.generation b.generation) [
    | Ordering.lt ↦ true
    | Ordering.gt ↦ false
    | Ordering.eq ↦ not_after a.binding_id b.binding_id
  ]
]

abbrev pub sort_bindings : List GatewayBinding → List GatewayBinding
sort_bindings = sort_by binding_not_after

abbrev pub with_bindings : List GatewayBinding → GatewayBindingCollection
with_bindings bindings = record { bindings = bindings }

-- what the random source gives an operation: a UUID and the bytes of a token
pub record Random : Type 0 where
  pub uuid : String
  pub bytes : List ℕ

-- the binding that an operation pushes
unfoldable pub make_binding :
    GatewayTokenRequest
    → Option String
    → String
    → ℕ
    → String
    → KeychainCredentialReference
    → GatewayBinding
make_binding request prepared binding_id generation token_hash reference = record {
  schema_revision = 1;
  binding_id = binding_id;
  profile_id = request.profile_id;
  provider_id = request.provider.id;
  selected_model = request.selected_model;
  provider_revision = request.provider_revision;
  provider = request.provider;
  token_hash = token_hash;
  credential_reference = reference;
  generation = generation;
  prepared_operation_id = prepared;
  created_at = request.now;
  expires_at = request.expires_at;
  revoked_at = none;
  revocation_pending = false;
}

abbrev pub revoked_by : String → GatewayBinding → GatewayBinding
revoked_by now b = record b { revoked_at = some now }

abbrev pub pending : GatewayBinding → GatewayBinding
pending b = record b { revocation_pending = true }

-- `get_or_insert_with`
abbrev pub revoked_once : String → GatewayBinding → GatewayBinding
revoked_once now b = record b {
  revoked_at = elim b.revoked_at [ none ↦ some now | some t ↦ some t ];
}

unfoldable pub valid_operation_id : String → Bool
unfolding is_empty any_char is_control
valid_operation_id id = not (is_empty id || ltb 128 (len id) || any_char is_control id)

abbrev pub is_prepared_for : String → GatewayBinding → Bool
is_prepared_for operation_id b = elim b.prepared_operation_id [
  | none ↦ false
  | some id ↦ id == operation_id
]

-- the bindings' store and the secrets
pub record GatewayStores (S K : Type 0) : Type 0 where
  pub bindings : S
  pub secrets : Secrets K

module _ {S K : Type 0} where
  abbrev pub on_bindings : {A : Type 0} → Exec S A → Exec (GatewayStores S K) A
  on_bindings m s = let r = m s.bindings in (r.0, record s { bindings = r.1 })

  abbrev pub on_secrets : {A : Type 0} → Exec (Secrets K) A → Exec (GatewayStores S K) A
  on_secrets m s = let r = m s.secrets in (r.0, record s { secrets = r.1 })

  -- `if let Some(existing) = .. { return .. }`
  abbrev pub answer_or :
      {A B : Type 0}
      → Option A
      → (A → Result B)
      → Exec (GatewayStores S K) B
      → Exec (GatewayStores S K) B
  answer_or (some a) answer m s = (answer a, s)
  answer_or none answer m s = m s

  -- what follows the revocation of a secret: `m` where it failed
  abbrev pub after_secret :
      {A : Type 0}
      → Result A
      → Exec (GatewayStores S K) A
      → Result (Unit {0})
      → GatewayStores S K
      → Result A × GatewayStores S K
  after_secret result m (ok done) s = (result, s)
  after_secret result m (err e) s = m s

-- What the service is made of: the store, and the service of the credentials (`backend`, `plaintext` and
-- `io`), with the crates' functions.
pub record GatewayBindingService (S K : Type 0) : Type 0 where
  pub crates : Crates
  pub store : VersionedStore S GatewayBindingCollection
  pub backend : KeychainBackend K
  pub plaintext : Bool
  pub io : SecretIo
