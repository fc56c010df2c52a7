-- ===== src/Gateway/Binding/Accepted.antt =====
-- The steps that an authentication has passed (services/gateway/binding.rs): `Live` says what they mean.
use lam.Prelude.{
  ℕ, String, Bool, true, false, not, ◌||◌, ◌≡◌, refl, arith, Option, none, some, find, is_some,
}
use lam.Errors.{AppError, Result, ok, guard, ok_or, passed_on}
use lam.Store.{StoreSnapshot}
use lam.Gateway.Binding.{
  GatewayBinding, GatewayBindingCollection, GatewayBindingSnapshot, Crates, snapshot_of,
  parse_timestamp, parse_bearer, holds_token, has_expired, authenticate,
}

pub present : {A : Type 0} (o : Option A) (e : AppError) (a : A) → ok_or o e ≡ ok a → o ≡ some a
present none e a h = ground arith
present (some x) e a h = ground arith

allowed : (b : Bool) (e : AppError) (u : Unit {0}) → guard b e ≡ ok u → b ≡ true
allowed true e u h = refl
allowed false e u h = ground arith

module _ (crates : Crates) {S : Type 0}
    (load : S → Result (StoreSnapshot GatewayBindingCollection)) where
  -- each step of `authenticate` with its result
  pub record IsAccepted (authorization now : String) (s : S) (snap : GatewayBindingSnapshot)
      : Type 0 where
    pub instant : ℕ
    pub instant_lem : parse_timestamp crates now ≡ ok instant
    pub token : String
    pub token_lem : parse_bearer authorization ≡ ok token
    pub stored : StoreSnapshot GatewayBindingCollection
    pub read : load s ≡ ok stored
    pub binding : GatewayBinding
    pub found : find (holds_token crates token) stored.value.bindings ≡ some binding
    pub unrevoked : is_some binding.revoked_at ≡ false
    pub settled : binding.revocation_pending ≡ false
    pub unexpired : has_expired crates instant binding.expires_at ≡ ok false
    pub same : snapshot_of binding ≡ snap

  pub authenticate-IsAccepted :
      (authorization now : String) (s : S) (snap : GatewayBindingSnapshot)
      → authenticate crates load authorization now s ≡ ok snap
      → IsAccepted authorization now s snap
  unfolding authenticate
  authenticate-IsAccepted authorization now s snap h =
      let (instant, i, h1) = passed_on _ (parse_timestamp crates now) _ h in
      let (token, t, h2) = passed_on _ (parse_bearer authorization) _ h1 in
      let (stored, read, h3) = passed_on _ (load s) _ h2 in
      let (b, f, h4) =
        passed_on _ (ok_or (find (holds_token crates token) stored.value.bindings) _) _ h3 in
      let (u, g, h5) =
        passed_on _ (guard (not (is_some b.revoked_at || b.revocation_pending)) _) _ h4 in
      let (e, x, h6) = passed_on _ (has_expired crates instant b.expires_at) _ h5 in
      let (u', n, h7) = passed_on _ (guard (not e) _) _ h6 in
      let free : not (is_some b.revoked_at || b.revocation_pending) ≡ true = allowed _ _ u g in
      let later : not e ≡ true = allowed _ _ u' n in
      record {
        instant = instant;
        instant_lem = i;
        token = token;
        token_lem = t;
        stored = stored;
        read = read;
        binding = b;
        found = present _ _ b f;
        unrevoked = ground arith;
        settled = ground arith;
        unexpired = ground arith;
        same = ground arith;
      }
