-- ===== src/Gateway/State/Examples.antt =====
-- The runtime state of a gateway on port 50000, in a store in memory (services/gateway/sidecar.rs).
use lam.Prelude.{
  ℕ, String, ◌≡◌, ◌≢◌, refl, ◌⊎◌, Bool, true, false, Option, none, some, List, [], ◌∷◌, arith,
  eq_iff, string_eq,
}
use lam.Errors.{ok}
use lam.Prelude.Keyed.{sort}
use lam.Store.{StoreSnapshot}
use lam.Store.Memory.{memory}
use lam.Store.Interface.{VersionedStore}
use lam.Gateway.State.{
  GatewayRuntimeState, GatewayPortChangePlan, claim_process, release_process, plan_port_change,
  claimed, port_plan_fingerprint,
}
use lam.Gateway.State.Ownership.{claim-owner}

abbrev store : VersionedStore (StoreSnapshot GatewayRuntimeState) GatewayRuntimeState
store = memory

abbrev any_time : String → Bool
any_time s = true

abbrev digest : ℕ → ℕ → ℕ → List String → String
digest revision from to ids = "d"

abbrev state_of : Option ℕ → GatewayRuntimeState
state_of owner = record {
  state_schema = 1;
  install_id = "install";
  instance_id = "instance";
  stable_port = 50_000;
  process_id = owner;
  component_version = "1.0.0";
  control_protocol_version = 1;
  binding_schema = 1;
  restart_count = 0;
  last_control_nonce = 0;
  updated_at = "now";
}

abbrev at_revision : ℕ → Option ℕ → StoreSnapshot GatewayRuntimeState
at_revision revision owner = record {
  schema_version = 1;
  revision = revision;
  value = state_of owner;
  exists = true;
}

claims :
    (claim_process store any_time digest 3 42 false "now" "other" (at_revision 3 none)).0
    ≡ ok (at_revision 4 (some 42))
unfolding claim_process claimed memory
claims = refl

releases :
    (release_process store any_time digest 3 42 "now" (at_revision 3 (some 42))).0
    ≡ ok (at_revision 4 none)
unfolding release_process memory
releases = refl

claim-owner_example :
    ((◌≡◌ {A = Option ℕ} none none) ⊎ (false ≡ true))
    × (◌≢◌ {A = ℕ} 42 0)
    × (store.load
          (claim_process store any_time digest 3 42 false "now" "other" (at_revision 3 none)).1
        ≡ ok (at_revision 4 (some 42)))
    × (◌≡◌ {A = Option ℕ} (some 42) (some 42))
claim-owner_example =
    claim-owner store any_time digest (at_revision 3 none) (at_revision 3 none)
      (unfold memory in refl) 3 42 false "now" "other" (at_revision 4 (some 42)) claims

abbrev plan : GatewayPortChangePlan
plan = record {
  expected_state_revision = 3;
  old_port = 50_000;
  new_port = 50_001;
  profile_ids = "a" ∷ "b" ∷ [];
  fingerprint = "d";
}

planned :
    plan_port_change store any_time digest 50_001 ("b" ∷ "a" ∷ "b" ∷ []) (at_revision 3 none)
    ≡ ok plan
unfolding plan_port_change memory port_plan_fingerprint sort
planned = refl

other_text : ◌≢◌ {A = String} "d" "e"
other_text = ground (arith, eq_iff "d" "e")
