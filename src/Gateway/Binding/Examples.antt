-- ===== src/Gateway/Binding/Examples.antt =====
-- Checks at concrete inputs: a profile has a binding, whose token authenticates until it is revoked.
use lam.Prelude.{
  ℕ, Bool, false, length, String, true, false, none, some, List, [], ◌∷◌, ◌≡◌, ◌≢◌, ◌↔◌, refl,
  arith, ◌==◌, string_eq, if◌then◌else◌,
}
use lam.Prelude.Keyed.{IsUnique}
use lam.Errors.{Result, ok}
use lam.Store.{StoreSnapshot}
use lam.Store.Memory.{memory}
use lam.Store.Kept.{memory-Keeps}
use lam.Provider.{ProviderProfileV2, chat_completions, no_adapter, no_auth}
use lam.Capability.{CapabilitySupport}
use lam.Keychain.{
  KeychainCredentialReference, SecretIo, absent, from_parts, plaintext_credential_key, remove,
}
use lam.Keychain.Service.{KeychainBackend, Secrets}
use lam.Keychain.Service as Credentials
use lam.Gateway.Binding.{
  GatewayBinding, GatewayBindingCollection, GatewayRevocationOutcome, Crates, snapshot_of,
  parse_timestamp, parse_bearer, holds_token, has_expired, id_of, authenticate,
}
use lam.Gateway.Binding.Live.{IsLive, authenticate-IsLive_iff}
use lam.Gateway.Binding.Stores.{GatewayBindingService, GatewayStores}
use lam.Gateway.Binding.Service.{revoke, revoke_or_mark}
use lam.Gateway.Binding.Service.Prepared.{GatewayCall, revoke_call, call, calls}
use lam.Gateway.Binding.Retired.{IsRetired}
use lam.Gateway.Binding.Retired.Steps.{Settled}
use lam.Gateway.Binding.Retired.ForGood.{retired_for_good, revoke-Settled}

abbrev thirty_two : List ℕ
thirty_two =
    1 ∷ 2 ∷ 3 ∷ 4 ∷ 5 ∷ 6 ∷ 7 ∷ 8 ∷ 9 ∷ 10 ∷ 11 ∷ 12 ∷ 13 ∷ 14 ∷ 15 ∷ 16 ∷ 17 ∷ 18 ∷ 19 ∷ 20 ∷ 21
    ∷ 22 ∷ 23 ∷ 24 ∷ 25 ∷ 26 ∷ 27 ∷ 28 ∷ 29 ∷ 30 ∷ 31 ∷ 32 ∷ []

abbrev token : String
token = "lam_gw_0102030405060708091011121314151617181920212223242526272829303132"

-- one token has the bytes of the stored hash
abbrev zeros : List ℕ
zeros =
    0 ∷ 0 ∷ 0 ∷ 0 ∷ 0 ∷ 0 ∷ 0 ∷ 0 ∷ 0 ∷ 0 ∷ 0 ∷ 0 ∷ 0 ∷ 0 ∷ 0 ∷ 0 ∷ 0 ∷ 0 ∷ 0 ∷ 0 ∷ 0 ∷ 0 ∷ 0 ∷ 0
    ∷ 0 ∷ 0 ∷ 0 ∷ 0 ∷ 0 ∷ 0 ∷ 0 ∷ 0 ∷ []

abbrev crates : Crates
crates = record {
  sha256 = λ text. if text == token then thirty_two else zeros;
  encode = λ bytes. "hash";
  decode = λ text. if text == "hash" then some thirty_two else none;
  instant = λ text. if text == "t5" then some 5 else some 9;
  is_uuid = λ text. true;
}

abbrev acme : ProviderProfileV2
acme = record {
  id = "acme";
  name = "Acme";
  protocol = chat_completions;
  base_url = "https://api.example";
  default_model = "m1";
  models = [];
  upstream_auth = no_auth;
  capabilities = record {
    streaming = CapabilitySupport.unknown;
    function_tools = CapabilitySupport.unknown;
    structured_outputs = CapabilitySupport.unknown;
    reasoning = CapabilitySupport.unknown;
  };
  adapter = no_adapter;
  compatibility_profile = none;
  codex = record {
    display_name = none;
    stream_idle_timeout_ms = none;
    direct_request_max_retries = none;
    direct_stream_max_retries = none;
    route_via_gateway = true;
    query_params = [];
    env_http_headers = [];
    reasoning_effort = none;
  };
  created_at = "t0";
  updated_at = "t0";
}

abbrev reference : KeychainCredentialReference
reference = record {
  service = "lam.remote-provider";
  account = "credential/gateway-b1/v1";
  version = 1;
}

abbrev granted : GatewayBinding
granted = record {
  schema_revision = 1;
  binding_id = "b1";
  profile_id = "work";
  provider_id = "acme";
  selected_model = "m1";
  provider_revision = 1;
  provider = acme;
  token_hash = "hash";
  credential_reference = reference;
  generation = 1;
  prepared_operation_id = none;
  created_at = "t0";
  expires_at = some "t9";
  revoked_at = none;
  revocation_pending = false;
}

abbrev bindings_of : List GatewayBinding → StoreSnapshot GatewayBindingCollection
bindings_of bindings = record {
  schema_version = 1;
  revision = 4;
  value = record { bindings = bindings };
  exists = true;
}

abbrev load :
    StoreSnapshot GatewayBindingCollection → Result (StoreSnapshot GatewayBindingCollection)
load s = ok s

abbrev with_token : String
with_token = "Bearer lam_gw_0102030405060708091011121314151617181920212223242526272829303132"

thirty_two_bytes : (t : String) → length (crates.sha256 t) ≡ 32
thirty_two_bytes t = either_way (t == token)
  where
    either_way : (b : Bool) → length (if b then thirty_two else zeros) ≡ 32
    either_way true = refl
    either_way false = refl

authenticated :
    authenticate crates load with_token "t5" (bindings_of (granted ∷ [])) ≡ ok (snapshot_of granted)
unfolding authenticate parse_bearer holds_token has_expired
authenticated = refl

authenticate-IsLive_iff_example :
    (authenticate crates load with_token "t5" (bindings_of (granted ∷ []))
      ≡ ok (snapshot_of granted))
    ↔ IsLive crates thirty_two_bytes load with_token "t5"
        (bindings_of (granted ∷ []))
        (snapshot_of granted)
authenticate-IsLive_iff_example =
    authenticate-IsLive_iff crates thirty_two_bytes load with_token "t5"
      (bindings_of (granted ∷ [])) (snapshot_of granted)

-- a Keychain that holds nothing and takes nothing
abbrev no_items : KeychainBackend (Unit {0})
no_items = record {
  write = λ r secret k. (ok tt, tt);
  read = λ r k. ok "";
  delete = λ r k. (ok tt, tt);
}

abbrev all_work : SecretIo
all_work = record { readable = true; created = true; written = true; renamed = true }

abbrev service : GatewayBindingService (StoreSnapshot GatewayBindingCollection) (Unit {0})
service = record {
  crates = crates;
  store = memory;
  backend = no_items;
  plaintext = true;
  io = all_work;
}

abbrev start : GatewayStores (StoreSnapshot GatewayBindingCollection) (Unit {0})
start = record {
  bindings = bindings_of (granted ∷ []);
  secrets = record { file = absent; keychain = tt };
}

abbrev done : GatewayRevocationOutcome
done = record { store_revision = 5; revocation_pending = false }

revoked_b1 : (revoke service 4 "b1" "t5" start).0 ≡ ok done
unfolding revoke memory parse_timestamp revoke_or_mark Credentials.revoke from_parts
    plaintext_credential_key remove
revoked_b1 = refl

revoke-Settled_example : Settled service "b1" (revoke service 4 "b1" "t5" start).1
revoke-Settled_example =
    revoke-Settled service "b1" 4 "t5" start done
      (memory-Keeps (λ c. IsUnique id_of c.bindings) (bindings_of (granted ∷ [])) (refl, tt))
      revoked_b1

-- the first binding is revoked, and another has the token
abbrev other : GatewayBinding
other = record granted { binding_id = "b2"; generation = 2 }

abbrev later : GatewayStores (StoreSnapshot GatewayBindingCollection) (Unit {0})
later = record start {
  bindings =
      bindings_of (record granted { revoked_at = some "t1"; token_hash = "old" } ∷ other ∷ []);
}

abbrev two_calls : List (GatewayCall service)
two_calls = revoke_call 4 "b1" "t5" ∷ revoke_call 4 "b9" "t5" ∷ []

other_authenticates :
    authenticate crates
      (memory {T = GatewayBindingCollection}).load
      with_token
      "t5"
      (calls service two_calls later).bindings
    ≡ ok (snapshot_of other)
unfolding authenticate parse_bearer holds_token has_expired calls call revoke memory parse_timestamp
other_authenticates = refl

retired_for_good_example : (snapshot_of other).binding_id ≢ "b1"
retired_for_good_example =
    retired_for_good service "b1" two_calls later with_token "t5" (snapshot_of other)
      ((λ new e. ground arith), ((λ new e. ground arith), tt))
      (memory-Keeps (IsRetired "b1") later.bindings refl) other_authenticates
