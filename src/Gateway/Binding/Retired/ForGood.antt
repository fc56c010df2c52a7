-- ===== src/Gateway/Binding/Retired/ForGood.antt =====
-- A revoked binding stays revoked through all operations (services/gateway/binding.rs).
use lam.Prelude.{
  ℕ, String, true, false, string_eq, nat_eq, Option, none, some, List, [], ◌∷◌, ◌≡◌, ◌≢◌, refl,
  arith, is_some, eq_iff, inl, inr, ◌∙◌, sym, subst, All, all-find, ap, Bool-cases,
}
use lam.Prelude.Keyed.{get, update, IsUnique, IsUnique-replace, get-replace}
use lam.Errors.{Result, ok, err}
use lam.Store.{StoreSnapshot}
use lam.Store.Kept.{Keeps}
use lam.Gateway.Binding.{
  GatewayBinding, GatewayBindingCollection, GatewayRevocationOutcome, GatewayBindingSnapshot,
  authenticate, snapshot_of, holds_token, id_of,
}
use lam.Gateway.Binding.Accepted.{authenticate-IsAccepted}
use lam.Gateway.Binding.Stores.{GatewayBindingService, GatewayStores, with_bindings, revoked_by}
use lam.Gateway.Binding.Service.{revoke_or_mark, revoke}
use lam.Gateway.Binding.Service.Prepared.{
  GatewayCall, provision_call, rotate_call, revoke_call, prepare_call, prepare_locked_call,
  revoke_locked_call, helper_call, new_id, call, calls,
}
use lam.Gateway.Binding.Retired.{IsRetired, is_settled, all_settled, unique-IsRetired}
use lam.Gateway.Binding.Retired.Steps.{Settled, revoke_or_mark-Keeping}
use lam.Gateway.Binding.Retired.Operations.{
  provision-Keeping, rotate-Keeping, revoke-Keeping, revoke_locked-Keeping,
  prepare_candidate-Keeping, prepare_candidate_locked-Keeping, token_for_helper-Keeping,
}

module _ {S K : Type 0} (service : GatewayBindingService S K) (id : String) where
  pub call_Settled :
      (c : GatewayCall service) (s : GatewayStores S K)
      → ((new : String) → new_id service c ≡ some new → new ≢ id)
      → Settled service id s
      → Settled service id (call service c s)
  unfolding call
  call_Settled (provision_call e request random) s n k =
      (provision-Keeping service id e request random (n random.uuid refl) s k).0
  call_Settled (rotate_call e j provider revision model now random) s n k =
      (rotate-Keeping service id e j provider revision model now random (n random.uuid refl) s k).0
  call_Settled (revoke_call e j now) s n k = (revoke-Keeping service id e j now s k).0
  call_Settled (prepare_call e operation request random) s n k =
      (prepare_candidate-Keeping service id e operation request random (n random.uuid refl) s k).0
  call_Settled (prepare_locked_call operation planned request bytes) s n k =
      (prepare_candidate_locked-Keeping service id operation planned request bytes s k).0
  call_Settled (revoke_locked_call j now) s n k = (revoke_locked-Keeping service id j now s k).0
  call_Settled (helper_call profile j) s n k = (token_for_helper-Keeping service id profile j s k).0

  -- No operation makes a binding with the id: the random ids differ from it.
  abbrev pub IsApart : List (GatewayCall service) → Type 0
  IsApart cs = All (λ c. (new : String) → new_id service c ≡ some new → new ≢ id) cs

  calls_Settled :
      (cs : List (GatewayCall service)) (s : GatewayStores S K)
      → IsApart cs
      → Settled service id s
      → Settled service id (calls service cs s)
  unfolding calls
  calls_Settled [] s n k = k
  calls_Settled (c ∷ cs) s n k = calls_Settled cs (call service c s) n.1 (call_Settled c s n.0 k)

  -- Once a binding's id is stored and revoked, no sequence of operations, failed ones included, lets a
  -- bearer token authenticate as that binding, if the random ids of the new bindings differ from it.
  pub retired_for_good :
      (cs : List (GatewayCall service)) (s : GatewayStores S K) (authorization now : String)
      (snap : GatewayBindingSnapshot)
      → IsApart cs
      → Settled service id s
      → authenticate service.crates service.store.load authorization now
          (calls service cs s).bindings
        ≡ ok snap
      → snap.binding_id ≢ id
  unfolding snapshot_of
  retired_for_good cs s authorization now snap n k h =
      let live =
        authenticate-IsAccepted service.crates service.store.load authorization now
          (calls service cs s).bindings snap h in
      let retired_now = calls_Settled cs s n k live.stored live.read in
      let settled_one =
        all-find (is_settled id) (holds_token service.crates live.token) live.stored.value.bindings
          live.binding (all_settled id live.stored.value retired_now) live.found in
      λ same.
        absurd_id live.binding settled_one live.unrevoked (ap (λ x. x.binding_id) live.same ∙ same)
    where
      absurd_id :
          (b : GatewayBinding)
          → is_settled id b ≡ true
          → is_some b.revoked_at ≡ false
          → id_of b ≢ id
      absurd_id b settled_one unrevoked = ground (arith, eq_iff (id_of b) id)

  written :
      (e : ℕ) (s : GatewayStores S K) (bs : List GatewayBinding)
      (committed : StoreSnapshot GatewayBindingCollection)
      → (service.store.swap e (with_bindings bs) s.bindings).0 ≡ ok committed
      → IsRetired id (with_bindings bs)
      → Settled service id
          (record s { bindings = (service.store.swap e (with_bindings bs) s.bindings).1 })
  written e s bs committed swapped r snap read =
      let value : committed.value ≡ with_bindings bs =
        (service.store.swap_value e (with_bindings bs) s.bindings committed swapped).0 in
      let same : committed ≡ snap =
        ground (
          arith,
          service.store.load-swap e (with_bindings bs) s.bindings committed swapped,
          read,
        ) in
      subst (λ x. IsRetired id x.value) same (subst (IsRetired id) (sym value) r)

  -- A revocation that succeeds leaves the id stored and revoked, where the stored ids are distinct.
  pub revoke-Settled :
      (e : ℕ) (now : String) (s : GatewayStores S K) (outcome : GatewayRevocationOutcome)
      → Keeps service.store (λ c. IsUnique id_of c.bindings) s.bindings
      → (revoke service e id now s).0 ≡ ok outcome
      → Settled service id (revoke service e id now s).1
  unfolding revoke
  revoke-Settled e now s outcome unique h = found (service.store.load s.bindings) refl
    where
      after_swap : List GatewayBinding → GatewayStores S K
      after_swap bs = record s { bindings = (service.store.swap e (with_bindings bs) s.bindings).1 }

      marked :
          (cur : StoreSnapshot GatewayBindingCollection) (b : GatewayBinding)
          → service.store.load s.bindings ≡ ok cur
          → get id_of id cur.value.bindings ≡ some b
          → is_some b.revoked_at ≡ false
          → (r : Result (StoreSnapshot GatewayBindingCollection))
          → (service.store.swap e
              (with_bindings (update id_of id (revoked_by now) cur.value.bindings))
              s.bindings).0
            ≡ r
          → Settled service id (revoke service e id now s).1
      marked cur b read g n (err _) swapped = λ snap x. ground arith
      marked cur b read g n (ok committed) swapped =
          let bs = update id_of id (revoked_by now) cur.value.bindings in
          let one : IsUnique id_of bs =
            IsUnique-replace id_of id (revoked_by now) cur.value.bindings (λ y k. k)
              (unique cur read) in
          let held : get id_of id bs ≡ some (revoked_by now b) = ground (
            arith,
            get-replace id_of id id (revoked_by now) cur.value.bindings b (λ y k. k) g,
            eq_iff id id,
          ) in
          let same : (revoke service e id now s).1
              ≡ (revoke_or_mark service committed.revision id b.credential_reference
                  (after_swap bs)).1 =
            ground arith in
          subst (Settled service id) (sym same)
            (revoke_or_mark-Keeping service id committed.revision id b.credential_reference
              (after_swap bs)
              (written e s bs committed swapped
                (unique-IsRetired id bs (revoked_by now b) one held refl))).0

      chosen :
          (cur : StoreSnapshot GatewayBindingCollection)
          → service.store.load s.bindings ≡ ok cur
          → (g : Option GatewayBinding) → get id_of id cur.value.bindings ≡ g
          → Settled service id (revoke service e id now s).1
      chosen cur read none g = λ snap x. ground arith
      chosen cur read (some b) g = elim (Bool-cases (is_some b.revoked_at)) [
        | inr n ↦
            marked cur b read g n
              (service.store.swap e
                (with_bindings (update id_of id (revoked_by now) cur.value.bindings)) s.bindings).0
              refl
        | inl old ↦
            let same : (revoke service e id now s).1 ≡ s = ground arith in
            subst (Settled service id) (sym same) (λ snap read'.
              unique-IsRetired id snap.value.bindings b (unique snap read')
                (ground (arith, read, read', g)) old)
      ]

      found :
          (l : Result (StoreSnapshot GatewayBindingCollection))
          → service.store.load s.bindings ≡ l
          → Settled service id (revoke service e id now s).1
      found (err _) read = λ snap x. ground arith
      found (ok cur) read = chosen cur read (get id_of id cur.value.bindings) refl
