-- ===== src/Gateway/Control/Replay.antt =====
-- No message is accepted twice, however the connections' handlers interleave (services/gateway/sidecar.rs).
use lam.Prelude.{
  ℕ, zero, suc, Bool, true, false, ◌==◌, nat_eq, leb, ltb, List, [], ◌∷◌, any, all, distinct, ◌≡◌,
  refl, sym, arith, inl, inr, Bool-cases, subst,
}
use lam.Errors.{is_ok, Result, ok, err}
use lam.Gateway.Control.{
  ControlEnvelope, ControlCrates, AuthenticatedControl, ControlState, Handler, received, loaded,
  refused, answered, is_shutdown, check_mac, verify_and_advance, exchange, advance, turn,
  interleaved,
}

module _ {V : Type 0} (crates : ControlCrates V) (control : AuthenticatedControl) where
  abbrev pub same_nonce : ControlEnvelope V → ControlEnvelope V → Bool
  same_nonce a b = a.request_nonce == b.request_nonce

  abbrev pub is_authentic : ControlEnvelope V → Bool
  is_authentic e = is_ok (check_mac crates control e)

  -- The accepted messages have distinct nonces, none above the last one, and valid MACs, and the gateway
  -- was asked to shut down exactly if one of them says so.
  pub record IsReplayFree (s : ControlState crates control) : Type 0 where
    pub once : distinct same_nonce s.accepted ≡ true
    pub newest : all (λ e. leb e.request_nonce s.last_nonce) s.accepted ≡ true
    pub authentic : all is_authentic s.accepted ≡ true
    pub asked : s.requested ≡ any (λ e. is_shutdown crates control e.command) s.accepted

  verified :
      (peer : ℕ) (e : ControlEnvelope V) (current nonce : ℕ)
      → verify_and_advance crates control peer e current ≡ ok nonce
      → (nonce ≡ e.request_nonce) × (ltb current nonce ≡ true) × (is_authentic e ≡ true)
  unfolding verify_and_advance
  verified peer e current nonce h = (ground arith, ground arith, ground arith)

  below :
      (e : ControlEnvelope V) (n : ℕ) (es : List (ControlEnvelope V))
      → ltb n e.request_nonce ≡ true
      → all (λ x. leb x.request_nonce n) es ≡ true
      → (any (same_nonce e) es ≡ false) × (all (λ x. leb x.request_nonce e.request_nonce) es ≡ true)
  below e n [] l a = (refl, refl)
  below e n (x ∷ es) l a =
      let (rest, lower) = below e n es l (ground arith) in (ground arith, ground arith)

  exchange-IsReplayFree :
      (e : ControlEnvelope V) (current nonce : ℕ) (s : ControlState crates control)
      → nonce ≡ e.request_nonce
      → ltb current nonce ≡ true
      → is_authentic e ≡ true
      → IsReplayFree s
      → IsReplayFree (exchange crates control e current nonce s).1
  unfolding exchange
  exchange-IsReplayFree e current nonce s n l a f = elim (Bool-cases (s.last_nonce == current)) [
    | inr moved ↦ rw moved f
    | inl still ↦
        let (apart, lower) = below e s.last_nonce s.accepted (ground arith) f.newest in
        rw still (record {
          once = ground (arith, f.once, apart);
          newest = ground (arith, lower, n);
          authentic = ground (arith, f.authentic, a);
          asked = ground (arith, f.asked);
        })
  ]

  advance-IsReplayFree :
      (h : Handler crates control) (s : ControlState crates control)
      → IsReplayFree s
      → IsReplayFree (advance crates control h s).1
  unfolding advance
  advance-IsReplayFree (received peer e) s f = f
  advance-IsReplayFree (refused code) s f = f
  advance-IsReplayFree (answered nonce) s f = f
  advance-IsReplayFree (loaded peer e current) s f =
      go (verify_and_advance crates control peer e current) refl
    where
      go :
          (r : Result ℕ)
          → verify_and_advance crates control peer e current ≡ r
          → IsReplayFree (advance crates control (loaded peer e current) s).1
      go (err _) v =
          let same : (advance crates control (loaded peer e current) s).1 ≡ s = ground arith in
          subst IsReplayFree (sym same) f
      go (ok nonce) v =
          let (n, l, a) = verified peer e current nonce v in
          let same : (advance crates control (loaded peer e current) s).1
              ≡ (exchange crates control e current nonce s).1 =
            ground arith in
          subst IsReplayFree (sym same) (exchange-IsReplayFree e current nonce s n l a f)

  turn-IsReplayFree :
      (n : ℕ) (hs : List (Handler crates control)) (s : ControlState crates control)
      → IsReplayFree s
      → IsReplayFree (turn crates control n hs s).1
  unfolding turn
  turn-IsReplayFree n [] s f = f
  turn-IsReplayFree zero (h ∷ hs) s f = advance-IsReplayFree h s f
  turn-IsReplayFree (suc n) (h ∷ hs) s f = turn-IsReplayFree n hs s f

  -- From a state where no message was accepted twice, however the handlers of the connections take turns,
  -- none is: accepted nonces are distinct and no later than the last one, each accepted message has
  -- a valid MAC, and a request to shut down comes from one of them.
  pub interleaved-IsReplayFree :
      (schedule : List ℕ) (hs : List (Handler crates control)) (s : ControlState crates control)
      → IsReplayFree s
      → IsReplayFree (interleaved crates control schedule hs s).1
  unfolding interleaved
  interleaved-IsReplayFree [] hs s f = f
  interleaved-IsReplayFree (n ∷ schedule) hs s f =
      interleaved-IsReplayFree schedule (turn crates control n hs s).0
        (turn crates control n hs s).1 (turn-IsReplayFree n hs s f)
