-- ===== src/Planner/Tickets/Window.antt =====
-- When a ticket is good, and how many there are (services/provider_planner.rs).
use lam.Prelude.{
  ℕ, ◌+◌, ◌≤◌, ◌<◌, String, ◌≡◌, refl, false, string_eq, eq_iff, eq_refl, some, List, [], ◌∷◌,
  length, length-append, min, arith, ◌↔◌,
}
use lam.Prelude.Keyed.{get, has, get-push}
use lam.Errors.{ok}
use lam.Planner.Tickets.{
  IssuedPlan, DryRunRegistry, u64_max, evict, expiry, issue_fingerprint, ticket_of, validate,
  validate_entry,
}

evict-length :
    (capacity : ℕ) (es : List IssuedPlan) → 1 ≤ capacity → length (evict capacity es) < capacity
unfolding evict
evict-length capacity [] h = omega (arith, h)
evict-length capacity (e ∷ es) h = ground (arith, evict-length capacity es h)

-- With a capacity of at least one, issuing leaves no more entries than the capacity, however many
-- there were.
pub issue-length :
    (u f : String) (now : ℕ) (r : DryRunRegistry)
    → 1 ≤ r.capacity
    → length (issue_fingerprint u f now r).1.entries ≤ r.capacity
unfolding issue_fingerprint
issue-length u f now r h =
    omega (arith, length-append (evict r.capacity r.entries) _, evict-length r.capacity r.entries h)

evict-has :
    (u : String) (capacity : ℕ) (es : List IssuedPlan)
    → has ticket_of u es ≡ false
    → has ticket_of u (evict capacity es) ≡ false
unfolding evict
evict-has u capacity [] h = refl
evict-has u capacity (e ∷ es) h = ground (arith, evict-has u capacity es)

-- A plan that was issued under a new ticket is accepted up to its time to live, and not after: with
-- both fingerprints its own, exactly while the time is at most that of the issue plus the time to
-- live, cut off at the largest u64.
pub issue-validate :
    (u f : String) (now at : ℕ) (r : DryRunRegistry)
    → has ticket_of u r.entries ≡ false
    → (validate u f f at (issue_fingerprint u f now r).1 ≡ ok f)
      ↔ (at ≤ min (now + r.ttl_ms) u64_max)
unfolding issue_fingerprint validate validate_entry expiry
issue-validate u f now at r new =
    let entry : IssuedPlan = record {
      ticket = u;
      fingerprint = f;
      expires_at = expiry now r.ttl_ms;
      consumed = false;
    } in
    let found =
      get-push ticket_of u (evict r.capacity r.entries) entry
        (evict-has u r.capacity r.entries new) in
    rw (found, eq_refl u, eq_refl f) (ground arith)

-- A registered ticket is accepted exactly while it is unspent and in time, and where the fingerprint
-- that is presented and the one of the current state are both the one it was issued for.
pub validate-ok_iff :
    (t presented current : String) (at : ℕ) (r : DryRunRegistry) (x : IssuedPlan)
    → get ticket_of t r.entries ≡ some x
    → (validate t presented current at r ≡ ok x.fingerprint) ↔ (
        (x.consumed ≡ false)
        × (at ≤ x.expires_at)
        × (presented ≡ x.fingerprint)
        × (current ≡ x.fingerprint))
unfolding validate validate_entry
validate-ok_iff t presented current at r x found =
    rw found (ground (arith, eq_iff presented x.fingerprint, eq_iff current x.fingerprint))
