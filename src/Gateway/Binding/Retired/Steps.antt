-- ===== src/Gateway/Binding/Retired/Steps.antt =====
-- What the steps of the operations on the gateway's bindings keep: that an id is retired
-- (services/gateway/binding.rs).
use lam.Prelude.{
  ℕ, String, Bool, true, false, string_eq, nat_eq, Option, none, some, List, [], ◌∷◌, ◌++◌, ◌≡◌,
  ◌≢◌, refl, arith, sym, subst, if◌then◌else◌,
}
use lam.Errors.{AppError, Result, ok, err, guard}
use lam.Exec.{Exec, lift, ◌>>=◌, ◌>>◌}
use lam.Exec.Triple.{Triple, bind-Triple}
use lam.Store.{StoreSnapshot}
use lam.Store.Kept.{Keeps, swap-Keeps}
use lam.Keychain.{KeychainCredentialReference}
use lam.Keychain.Service as Credentials
use lam.Keychain.Service.{KeychainBackend, Secrets, write_exact, with_secret}
use lam.Gateway.Binding.{
  GatewayBinding, GatewayBindingCollection, GatewayTokenRequest, GatewayBindingProvision,
  generate_token, token_hash_of,
}
use lam.Gateway.Binding.Stores.{
  GatewayBindingService, GatewayStores, answer_or, after_secret, make_binding, with_bindings,
  sort_bindings, pending, on_secrets,
}
use lam.Gateway.Binding.Service.{
  Step, loaded, swap, swap_or_revoke, revoke_secret, add_binding, mark_revocation_pending,
  revoke_or_mark,
}
use lam.Gateway.Binding.Service.Prepared.{revoke_or_mark_locked}
use lam.Gateway.Binding.Retired.{
  IsRetired, sorted-IsRetired, push-IsRetired, update-IsRetired, pending-IsSettling,
}

module _ {S K : Type 0} (service : GatewayBindingService S K) (id : String) where
  -- what the service.store gives next has the id retired
  abbrev pub Settled : GatewayStores S K → Type 0
  Settled s = Keeps service.store (IsRetired id) s.bindings

  abbrev pub Keeping : {A : Type 0} → Step service A → Type 0
  Keeping {A} m = Triple Settled m (λ a. Unit {0})

  pub done-Keeping : {A : Type 0} (r : Result A) → Keeping (lift r)
  done-Keeping r s k = (k, λ a h. tt)

  pub lift-Keeping :
      {A B : Type 0} (r : Result A) (f : A → Step service B)
      → ((a : A) → Keeping (f a))
      → Keeping (lift r >>= f)
  lift-Keeping r f k =
      bind-Triple Settled (lift r) f (λ a. Unit {0}) (λ b. Unit {0}) (done-Keeping r) (λ a _. k a)

  pub loaded-Keeping :
      {B : Type 0} (f : StoreSnapshot GatewayBindingCollection → Step service B)
      → ((snap : StoreSnapshot GatewayBindingCollection)
          → IsRetired id snap.value
          → Keeping (f snap))
      → Keeping (loaded service >>= f)
  loaded-Keeping f k =
      bind-Triple Settled (loaded service) f (λ snap. IsRetired id snap.value) (λ b. Unit {0})
        (λ s kept. (kept, λ snap read. kept snap read)) k

  pub check-Keeping :
      {B : Type 0} (r : Result (Unit {0})) (next : Step service B)
      → Keeping next
      → Keeping (lift r >> next)
  check-Keeping r next k = lift-Keeping r (λ a. next) (λ a. k)

  pub guard-Keeping :
      {B : Type 0} (b : Bool) (e : AppError) (next : Step service B)
      → (b ≡ true → Keeping next)
      → Keeping (lift (guard b e) >> next)
  guard-Keeping true e next k s kept = k refl s kept
  guard-Keeping false e next k s kept = (kept, λ b h. tt)

  pub secrets-Keeping :
      {B : Type 0} (m : Exec (Secrets K) (Unit {0})) (next : Step service B)
      → Keeping next
      → Keeping (on_secrets m >> next)
  secrets-Keeping m next k =
      bind-Triple Settled (on_secrets m) (λ a. next) (λ a. Unit {0}) (λ b. Unit {0})
        (λ s kept. (kept, λ a h. tt)) (λ a _. k)

  pub swap-Keeping :
      {B : Type 0} (e : ℕ) (bs : List GatewayBinding)
      (f : StoreSnapshot GatewayBindingCollection → Step service B)
      → IsRetired id (with_bindings bs)
      → ((snap : StoreSnapshot GatewayBindingCollection) → Keeping (f snap))
      → Keeping (swap service e bs >>= f)
  swap-Keeping e bs f r k =
      bind-Triple Settled (swap service e bs) f (λ a. Unit {0}) (λ b. Unit {0})
        (λ s kept. (
          swap-Keeps service.store (IsRetired id) e (with_bindings bs) s.bindings r kept,
          λ a h. tt,
        ))
        (λ a _. k a)

  swap_or_revoke-bindings :
      (e : ℕ) (bs : List GatewayBinding) (reference : KeychainCredentialReference)
      (s : GatewayStores S K)
      → (swap_or_revoke service e bs reference s).1.bindings
        ≡ (service.store.swap e (with_bindings bs) s.bindings).1
  unfolding swap_or_revoke
  swap_or_revoke-bindings e bs reference s = ground arith

  pub swap_or_revoke-Keeping :
      {B : Type 0} (e : ℕ) (bs : List GatewayBinding) (reference : KeychainCredentialReference)
      (f : StoreSnapshot GatewayBindingCollection → Step service B)
      → IsRetired id (with_bindings bs)
      → ((snap : StoreSnapshot GatewayBindingCollection) → Keeping (f snap))
      → Keeping (swap_or_revoke service e bs reference >>= f)
  swap_or_revoke-Keeping e bs reference f r k =
      bind-Triple Settled (swap_or_revoke service e bs reference) f (λ a. Unit {0}) (λ b. Unit {0})
        (λ s kept. (
          subst (Keeps service.store (IsRetired id))
              (sym (swap_or_revoke-bindings e bs reference s))
              (swap-Keeps service.store (IsRetired id) e (with_bindings bs) s.bindings r kept),
          λ a h. tt,
        ))
        (λ a _. k a)

  pub add_binding-Keeping :
      (e : ℕ) (bs : List GatewayBinding) (request : GatewayTokenRequest) (prepared : Option String)
      (new : String) (generation : ℕ) (bytes : List ℕ)
      → new ≢ id
      → IsRetired id (with_bindings bs)
      → Keeping (add_binding service e bs request prepared new generation bytes)
  unfolding add_binding make_binding
  add_binding-Keeping e bs request prepared new generation bytes differ r =
      lift-Keeping (generate_token service.crates new generation bytes) _ λ made.
        let added =
          make_binding request prepared new generation (token_hash_of service.crates made.0)
            made.1 in
        secrets-Keeping (write_exact service.backend service.plaintext service.io made.1 made.0) _ (
          swap_or_revoke-Keeping e (sort_bindings (bs ++ added ∷ [])) made.1 _
            (sorted-IsRetired id (bs ++ added ∷ []) (push-IsRetired id bs added differ r))
            λ committed. done-Keeping (ok (provided committed made.1)))
    where
      provided :
          StoreSnapshot GatewayBindingCollection
          → KeychainCredentialReference
          → GatewayBindingProvision
      provided committed reference = record {
        binding_id = new;
        credential_reference = reference;
        generation = generation;
        store_revision = committed.revision;
      }

  pub mark-Keeping : (e : ℕ) (j : String) → Keeping (mark_revocation_pending service e j)
  unfolding mark_revocation_pending
  mark-Keeping e j = loaded-Keeping _ λ snap r. check-Keeping _ _ (
      check-Keeping _ _ (
        swap-Keeping e _ _ (update-IsRetired id j pending snap.value.bindings pending-IsSettling r)
          λ _. done-Keeping _))

  -- where a secret's revocation failed, what comes after it
  pub after_secret-Keeping :
      {B : Type 0} (result : Result B) (m : Step service B)
      → Keeping m
      → (r : Result (Unit {0})) (x : GatewayStores S K) → Settled x
      → Settled (after_secret result m r x).1
        × ((b : B) → (after_secret result m r x).0 ≡ ok b → Unit {0})
  after_secret-Keeping result m k (ok done) x kept = (kept, λ b h. tt)
  after_secret-Keeping result m k (err e) x kept = k x kept

  pub revoke_or_mark-Keeping :
      (e : ℕ) (j : String) (reference : KeychainCredentialReference)
      → Keeping (revoke_or_mark service e j reference)
  unfolding revoke_or_mark
  revoke_or_mark-Keeping e j reference s kept =
      after_secret-Keeping (ok (e, false)) _
        (bind-Triple Settled (mark_revocation_pending service e j) _ (λ a. Unit {0}) (λ b. Unit {0})
          (mark-Keeping e j) (λ marked _. done-Keeping (ok (marked, true))))
        (Credentials.revoke service.backend service.plaintext service.io reference s.secrets).0
        (revoke_secret service reference s).1 kept

  pub revoke_or_mark_locked-Keeping :
      (e : ℕ) (j : String) (reference : KeychainCredentialReference)
      → Keeping (revoke_or_mark_locked service e j reference)
  unfolding revoke_or_mark_locked
  revoke_or_mark_locked-Keeping e j reference s kept =
      after_secret-Keeping (ok tt) _
        (loaded-Keeping _ λ snap r. check-Keeping _ _ (
          swap-Keeping e _ _
            (update-IsRetired id j pending snap.value.bindings pending-IsSettling r)
            λ _. done-Keeping (ok tt)))
        (Credentials.revoke service.backend service.plaintext service.io reference s.secrets).0
        (revoke_secret service reference s).1 kept

  pub if-Keeping :
      {B : Type 0} (b : Bool) (m n : Step service B)
      → Keeping m
      → Keeping n
      → Keeping (if b then m else n)
  if-Keeping true m n k l = k
  if-Keeping false m n k l = l

  pub answer-Keeping :
      {A B : Type 0} (o : Option A) (answer : A → Result B) (m : Step service B)
      → Keeping m
      → Keeping (answer_or o answer m)
  answer-Keeping (some a) answer m k s kept = (kept, λ b h. tt)
  answer-Keeping none answer m k s kept = k s kept
