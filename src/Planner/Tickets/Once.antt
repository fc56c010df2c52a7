-- ===== src/Planner/Tickets/Once.antt =====
-- A ticket is spent once (services/provider_planner.rs).
use lam.Prelude.{
  ℕ, String, ◌≡◌, ◌≢◌, refl, sym, Bool, true, false, not, ◌==◌, string_eq, eq_iff, Option, none,
  some, List, [], ◌∷◌, any, any-append, ◌&&◌, ◌∙◌, arith,
}
use lam.Prelude.Keyed.{get, has, update, IsUnique}
use lam.Errors.{ok}
use lam.Planner.Tickets.{
  IssuedPlan, DryRunRegistry, evict, issue_fingerprint, ticket_of, spend, validate, consume,
  validate_entry,
}

-- Validating a ticket answers exactly what consuming it would, and nothing else decides.
pub validate-consume :
    (t presented current : String) (now : ℕ) (r : DryRunRegistry)
    → validate t presented current now r ≡ (consume t presented current now r).0
unfolding validate consume
validate-consume t presented current now r = ground arith

-- an entry under the ticket that can still be spent
abbrev pub unspent : String → List IssuedPlan → Bool
unspent t es = any (λ e. e.ticket == t && not e.consumed) es

record Found (t presented current : String) (now : ℕ) (r : DryRunRegistry) (x : IssuedPlan)
    : Type 0 where
  entry : get ticket_of t r.entries ≡ some x
  fresh : x.consumed ≡ false
  after : (consume t presented current now r).1.entries ≡ update ticket_of t spend r.entries

consume-Found :
    (t presented current : String) (now : ℕ) (r : DryRunRegistry) (f : String)
    → (consume t presented current now r).0 ≡ ok f
    → (x : IssuedPlan) × Found t presented current now r x
consume-Found t presented current now r f h = go (get ticket_of t r.entries) refl
  where
    go :
        (o : Option IssuedPlan)
        → get ticket_of t r.entries ≡ o
        → (x : IssuedPlan) × Found t presented current now r x
    go none e = unfold consume in ground arith
    go (some x) e = (
      x,
      record {
        entry = e;
        fresh = unfold consume validate_entry in ground arith;
        after = unfold consume validate_entry in ground arith;
      },
    )

unspent-absent :
    (t : String) (es : List IssuedPlan) → has ticket_of t es ≡ false → unspent t es ≡ false
unspent-absent t [] h = refl
unspent-absent t (e ∷ es) h = ground (arith, unspent-absent t es)

unspent-update :
    (t : String) (es : List IssuedPlan)
    → IsUnique ticket_of es
    → unspent t (update ticket_of t spend es) ≡ false
unspent-update t [] u = refl
unspent-update t (e ∷ es) u =
    ground (arith, unspent-update t es, unspent-absent t es, eq_iff e.ticket t)

unspent-spend :
    (t v : String) (es : List IssuedPlan)
    → unspent t es ≡ false
    → unspent t (update ticket_of v spend es) ≡ false
unspent-spend t v [] h = refl
unspent-spend t v (e ∷ es) h = ground (arith, unspent-spend t v es)

unspent-evict :
    (t : String) (capacity : ℕ) (es : List IssuedPlan)
    → unspent t es ≡ false
    → unspent t (evict capacity es) ≡ false
unfolding evict
unspent-evict t capacity [] h = refl
unspent-evict t capacity (e ∷ es) h = ground (arith, unspent-evict t capacity es)

unspent-get :
    (t : String) (es : List IssuedPlan) (x : IssuedPlan)
    → get ticket_of t es ≡ some x
    → x.consumed ≡ false
    → unspent t es ≡ true
unspent-get t [] x h c = ground arith
unspent-get t (e ∷ es) x h c = ground (arith, unspent-get t es x)

-- What else happens to a registry: plans are issued with tickets other than `t`, and tickets are
-- presented, whether they are accepted or not.
pub data Later (t : String) : DryRunRegistry → DryRunRegistry → Type 0 where
  here : (r : DryRunRegistry) → Later t r r
  issued :
      (r : DryRunRegistry) {r' : DryRunRegistry} (u f : String) (now : ℕ)
      → u ≢ t
      → Later t (issue_fingerprint u f now r).1 r'
      → Later t r r'
  attempted :
      (r : DryRunRegistry) {r' : DryRunRegistry} (u p c : String) (now : ℕ)
      → Later t (consume u p c now r).1 r'
      → Later t r r'

unspent-issue :
    (t u f : String) (now : ℕ) (r : DryRunRegistry)
    → u ≢ t
    → unspent t r.entries ≡ false
    → unspent t (issue_fingerprint u f now r).1.entries ≡ false
unfolding issue_fingerprint
unspent-issue t u f now r other h =
    any-append (λ e. e.ticket == t && not e.consumed) (evict r.capacity r.entries) _
    ∙ ground (arith, unspent-evict t r.capacity r.entries h, eq_iff u t)

unspent-consume :
    (t u p c : String) (now : ℕ) (r : DryRunRegistry)
    → unspent t r.entries ≡ false
    → unspent t (consume u p c now r).1.entries ≡ false
unfolding consume
unspent-consume t u p c now r h = ground (arith, unspent-spend t u r.entries h)

Later-unspent :
    (t : String) (r r' : DryRunRegistry)
    → Later t r r'
    → unspent t r.entries ≡ false
    → unspent t r'.entries ≡ false
Later-unspent t _ _ (here r) h = h
Later-unspent t _ r' (issued r u f now other more) h =
    Later-unspent t _ r' more (unspent-issue t u f now r other h)
Later-unspent t _ r' (attempted r u p c now more) h =
    Later-unspent t _ r' more (unspent-consume t u p c now r h)

-- A ticket that was consumed, from a registry whose tickets are distinct, is never accepted again:
-- whatever plans are issued under other tickets and whatever tickets are presented in between, with
-- any fingerprints and at any time, consuming it does not succeed.
pub consume_once :
    (t presented current : String) (now : ℕ) (r : DryRunRegistry) (f : String)
    → IsUnique ticket_of r.entries
    → (consume t presented current now r).0 ≡ ok f
    → (r' : DryRunRegistry) → Later t (consume t presented current now r).1 r'
    → (p c : String) (at : ℕ) (g : String) → (consume t p c at r').0 ≢ ok g
consume_once t presented current now r f u done r' later p c at g again =
    let (x, found) = consume-Found t presented current now r f done in
    let spent = rw (sym found.after) at (unspent-update t r.entries u) in
    let (y, refound) = consume-Found t p c at r' g again in
    ground (
      arith,
      Later-unspent t _ r' later spent,
      unspent-get t r'.entries y refound.entry refound.fresh,
    )
