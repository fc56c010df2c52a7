-- ===== src/Gateway/Binding/Live.antt =====
-- Which bearer tokens authenticate (services/gateway/binding.rs).
use Prim.Native.String.{len}
use lam.Prelude.{
  ◌≢◌, ℕ, String, Bool, true, false, ◌==◌, nat_eq, leb, ◌≤◌, ◌<◌, ◌≡◌, ◌↔◌, refl, ◌∙◌, ap, arith,
  Option, none, some, List, [], ◌∷◌, ◌++◌, length, find, is_some, All, Bool-cases, inl, inr,
}
use lam.Prelude.Text.{strip_prefix, has_prefix, any_char, is_whitespace}
use lam.Errors.{Result, ok, ok_or, passed_on}
use lam.Store.{StoreSnapshot}
use lam.Gateway.Binding.{
  GatewayBinding, GatewayBindingCollection, GatewayBindingSnapshot, Crates, snapshot_of,
  decode_hash, parse_timestamp, parse_bearer, holds_token, has_expired, authenticate,
}
use lam.Gateway.Binding.Accepted.{present, authenticate-IsAccepted}
use lam.Gateway.Binding.Digest.{same_of_constant_time_eq, constant_time_eq_own}

-- the first element of a list that satisfies a test
module _ {A : Type 0} (p : A → Bool) where
  pub record IsFirst (xs : List A) (x : A) : Type 0 where
    pub earlier : List A
    pub later : List A
    pub placed : xs ≡ earlier ++ x ∷ later
    pub holds : p x ≡ true
    pub others : All (λ y. p y ≡ false) earlier

  find-IsFirst : (xs : List A) (x : A) → find p xs ≡ some x → IsFirst xs x
  find-IsFirst [] x h = absurd (ground arith)
  find-IsFirst (y ∷ xs) x h = elim (Bool-cases (p y)) [
    | inl e ↦
        let same : y ≡ x = ground arith in
        record {
          earlier = [];
          later = xs;
          placed = ap (λ t. t ∷ xs) same;
          holds = rw (← same) e;
          others = tt;
        }
    | inr e ↦
        let f = find-IsFirst xs x (ground arith) in
        record {
          earlier = y ∷ f.earlier;
          later = f.later;
          placed = ap (λ t. y ∷ t) f.placed;
          holds = f.holds;
          others = (e, f.others);
        }
  ]

  found_after :
      (earlier : List A) (x : A) (later : List A)
      → All (λ y. p y ≡ false) earlier
      → p x ≡ true
      → find p (earlier ++ x ∷ later) ≡ some x
  found_after [] x later others h = rw h refl
  found_after (y ∷ earlier) x later others h =
      ground (arith, others.0, found_after earlier x later others.1 h)

  IsFirst-find : (xs : List A) (x : A) → IsFirst xs x → find p xs ≡ some x
  IsFirst-find xs x f = ap (find p) f.placed ∙ found_after f.earlier x f.later f.others f.holds

weaken :
    {A : Type 0} {P Q : A → Type 0} → ((x : A) → P x → Q x) → (xs : List A) → All P xs → All Q xs
weaken f [] h = tt
weaken f (x ∷ xs) h = (f x h.0, weaken f xs h.1)

module _ (crates : Crates) (sha_bytes : (t : String) → length (crates.sha256 t) ≡ 32) where
  -- The binding's stored hash decodes to the digest of the token.
  abbrev pub IsHeldBy : String → GatewayBinding → Type 0
  IsHeldBy token b = crates.decode b.token_hash ≡ some (crates.sha256 token)

  abbrev pub IsNotHeldBy : String → GatewayBinding → Type 0
  IsNotHeldBy token b = crates.decode b.token_hash ≢ some (crates.sha256 token)

  -- The header is `Bearer ` and a token: 71 characters or more that begin with `lam_gw_`, without a space.
  pub record IsBearer (authorization token : String) : Type 0 where
    pub stripped : strip_prefix "Bearer " authorization ≡ some token
    pub long : 71 ≤ len token
    pub prefixed : has_prefix "lam_gw_" token ≡ true
    pub unspaced : any_char is_whitespace token ≡ false

  -- an expiry that is a time after `now`, or none
  abbrev pub IsUnexpired : ℕ → Option String → Type 0
  IsUnexpired now none = Unit {0}
  IsUnexpired now (some text) = (expiry : ℕ) × (crates.instant text ≡ some expiry) × (now < expiry)

  holds-IsHeldBy :
      (token : String) (b : GatewayBinding) → holds_token crates token b ≡ true → IsHeldBy token b
  unfolding holds_token decode_hash
  holds-IsHeldBy token b h = go (crates.decode b.token_hash) refl
    where
      go : (o : Option (List ℕ)) → crates.decode b.token_hash ≡ o → IsHeldBy token b
      go none e = absurd (ground arith)
      go (some bytes) e = elim (Bool-cases (length bytes == 32)) [
        | inl f ↦
            let sized : length bytes ≡ length (crates.sha256 token) =
              ground (arith, sha_bytes token) in
            e
            ∙ ap some
                (same_of_constant_time_eq bytes (crates.sha256 token) sized (ground (arith, f)))
        | inr f ↦ absurd (ground (arith, f))
      ]

  IsHeldBy-holds :
      (token : String) (b : GatewayBinding) → IsHeldBy token b → holds_token crates token b ≡ true
  unfolding holds_token decode_hash
  IsHeldBy-holds token b h =
      ground (arith, sha_bytes token, constant_time_eq_own (crates.sha256 token))

  not_held :
      (token : String) (b : GatewayBinding)
      → holds_token crates token b ≡ false
      → IsNotHeldBy token b
  not_held token b h e = ground (arith, IsHeldBy-holds token b e)

  not_holds :
      (token : String) (b : GatewayBinding)
      → IsNotHeldBy token b
      → holds_token crates token b ≡ false
  not_holds token b h = elim (Bool-cases (holds_token crates token b)) [
    | inl e ↦ absurd (h (holds-IsHeldBy token b e))
    | inr e ↦ e
  ]

  parse-IsBearer :
      (authorization token : String)
      → parse_bearer authorization ≡ ok token
      → IsBearer authorization token
  unfolding parse_bearer
  parse-IsBearer authorization token h =
      let (t, found, h1) = passed_on _ (ok_or (strip_prefix "Bearer " authorization) _) _ h in
      let same : t ≡ token = ground arith in
      rw (← same) (record {
        stripped = present _ _ t found;
        long = ground arith;
        prefixed = ground arith;
        unspaced = ground arith;
      })

  IsBearer-parse :
      (authorization token : String)
      → IsBearer authorization token
      → parse_bearer authorization ≡ ok token
  unfolding parse_bearer
  IsBearer-parse authorization token b = ground (arith, b.stripped, b.long, b.prefixed, b.unspaced)

  expired-IsUnexpired :
      (now : ℕ) (o : Option String) → has_expired crates now o ≡ ok false → IsUnexpired now o
  unfolding has_expired parse_timestamp
  expired-IsUnexpired now none h = tt
  expired-IsUnexpired now (some text) h =
      let (expiry, read, later) =
        passed_on (λ (t : ℕ). ok (leb t now)) (ok_or (crates.instant text) _) _ h in
      (expiry, present _ _ expiry read, ground arith)

  IsUnexpired-expired :
      (now : ℕ) (o : Option String) → IsUnexpired now o → has_expired crates now o ≡ ok false
  unfolding has_expired parse_timestamp
  IsUnexpired-expired now none h = refl
  IsUnexpired-expired now (some text) (expiry, read, later) = ground arith

  unset : {A : Type 0} (o : Option A) → is_some o ≡ false → o ≡ none
  unset none h = refl
  unset (some x) h = absurd (ground arith)

  module _ {S : Type 0} (load : S → Result (StoreSnapshot GatewayBindingCollection)) where
    -- The header carries a token, the first stored binding that holds it is not revoked, waits for no
    -- revocation and has not expired at `now`, and `snap` is what is told of it.
    pub record IsLive (authorization now : String) (s : S) (snap : GatewayBindingSnapshot)
        : Type 0 where
      pub instant : ℕ
      pub instant_lem : crates.instant now ≡ some instant
      pub token : String
      pub bearer : IsBearer authorization token
      pub stored : StoreSnapshot GatewayBindingCollection
      pub read : load s ≡ ok stored
      pub binding : GatewayBinding
      pub earlier : List GatewayBinding
      pub later : List GatewayBinding
      pub placed : stored.value.bindings ≡ earlier ++ binding ∷ later
      pub held : IsHeldBy token binding
      pub others : All (IsNotHeldBy token) earlier
      pub unrevoked : binding.revoked_at ≡ none
      pub settled : binding.revocation_pending ≡ false
      pub unexpired : IsUnexpired instant binding.expires_at
      pub same : snapshot_of binding ≡ snap

    authenticate-IsLive :
        (authorization now : String) (s : S) (snap : GatewayBindingSnapshot)
        → authenticate crates load authorization now s ≡ ok snap
        → IsLive authorization now s snap
    unfolding parse_timestamp
    authenticate-IsLive authorization now s snap h =
        let l = authenticate-IsAccepted crates load authorization now s snap h in
        let first =
          find-IsFirst (holds_token crates l.token) l.stored.value.bindings l.binding l.found in
        record {
          instant = l.instant;
          instant_lem = present _ _ l.instant l.instant_lem;
          token = l.token;
          bearer = parse-IsBearer authorization l.token l.token_lem;
          stored = l.stored;
          read = l.read;
          binding = l.binding;
          earlier = first.earlier;
          later = first.later;
          placed = first.placed;
          held = holds-IsHeldBy l.token l.binding first.holds;
          others = weaken (not_held l.token) first.earlier first.others;
          unrevoked = unset l.binding.revoked_at l.unrevoked;
          settled = l.settled;
          unexpired = expired-IsUnexpired l.instant l.binding.expires_at l.unexpired;
          same = l.same;
        }

    IsLive-authenticate :
        (authorization now : String) (s : S) (snap : GatewayBindingSnapshot)
        → IsLive authorization now s snap
        → authenticate crates load authorization now s ≡ ok snap
    unfolding authenticate parse_timestamp
    IsLive-authenticate authorization now s snap l =
        let found : find (holds_token crates l.token) l.stored.value.bindings ≡ some l.binding =
          IsFirst-find (holds_token crates l.token) l.stored.value.bindings l.binding (record {
            earlier = l.earlier;
            later = l.later;
            placed = l.placed;
            holds = IsHeldBy-holds l.token l.binding l.held;
            others = weaken (not_holds l.token) l.earlier l.others;
          }) in
        ground (
          arith,
          l.instant_lem,
          IsBearer-parse authorization l.token l.bearer,
          l.read,
          found,
          l.unrevoked,
          l.settled,
          IsUnexpired-expired l.instant l.binding.expires_at l.unexpired,
          l.same,
        )

    -- A request is authenticated exactly if the time is one, its header carries a token, the stored bindings
    -- are read, the first of them whose hash decodes to the token's SHA-256 is not revoked, waits for
    -- no revocation and expires after the time or never, and the answer describes that binding. A
    -- SHA-256 has 32 bytes.
    pub authenticate-IsLive_iff :
        (authorization now : String) (s : S) (snap : GatewayBindingSnapshot)
        → (authenticate crates load authorization now s ≡ ok snap) ↔ IsLive authorization now s snap
    authenticate-IsLive_iff authorization now s snap =
        (authenticate-IsLive authorization now s snap, IsLive-authenticate authorization now s snap)
