-- ===== src/Planner/Tickets/Examples.antt =====
-- A registry of two tickets that live for a minute (services/provider_planner.rs).
use lam.Prelude.{
  ◌≤◌, String, ◌≡◌, ◌≢◌, ◌↔◌, refl, false, [], ◌∷◌, min, ◌+◌, arith, eq_iff, string_eq,
}
use lam.Errors.{ok}
use lam.Planner.Tickets.{
  IssuedPlan, DryRunRegistry, u64_max, issue_fingerprint, validate, consume, validate_entry,
}
use lam.Planner.Tickets.Once.{here, issued, consume_once}
use lam.Planner.Tickets.Window.{issue-validate}

abbrev entry : String → String → IssuedPlan
entry ticket fingerprint = record {
  ticket = ticket;
  fingerprint = fingerprint;
  expires_at = 70_000;
  consumed = false;
}

abbrev registry : DryRunRegistry
registry = record { ttl_ms = 60_000; capacity = 2; entries = entry "t" "f" ∷ entry "u" "g" ∷ [] }

consumes : (consume "t" "f" "f" 20_000 registry).0 ≡ ok "f"
unfolding consume validate_entry
consumes = refl

other_ticket : ◌≢◌ {A = String} "v" "t"
other_ticket = ground (arith, eq_iff "v" "t")

abbrev after_issue : DryRunRegistry
after_issue = (issue_fingerprint "v" "h" 30_000 (consume "t" "f" "f" 20_000 registry).1).1

consume_once_example : (consume "t" "f" "f" 40_000 after_issue).0 ≢ ok "f"
consume_once_example =
    consume_once "t" "f" "f" 20_000 registry "f" (refl, (refl, tt)) consumes after_issue
      (issued _ "v" "h" 30_000 other_ticket (here _)) "f" "f" 40_000 "f"

issue-validate_example :
    (validate "v" "h" "h" 90_000 (issue_fingerprint "v" "h" 30_000 registry).1 ≡ ok "h")
    ↔ (90_000 ≤ min (30_000 + 60_000) u64_max)
issue-validate_example = issue-validate "v" "h" 30_000 90_000 registry refl
