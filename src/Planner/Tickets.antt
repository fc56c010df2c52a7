-- ===== src/Planner/Tickets.antt =====
-- `DryRunRegistry` of services/provider_planner.rs. A new UUID is an argument of `issue_fingerprint`.
pub mod Once
pub mod Window
mod Examples
use lam.Prelude.{
  ℕ, suc, ◌+◌, ◌-◌, ◌^◌, String, Bool, true, false, not, ◌==◌, string_eq, ltb, leb, if◌then◌else◌,
  min, Option, none, some, List, [], ◌∷◌, ◌++◌, length,
}
use lam.Prelude.Keyed.{get, update}
use lam.Errors.{
  Result, ok, err, error, guard, ok_or, ◌>>=◌, ◌>>◌, attach_plan_unknown, attach_plan_replayed,
  attach_plan_expired, attach_plan_tampered, attach_plan_stale,
}
use lam.Exec.{Exec}

pub record IssuedPlan : Type 0 where
  pub ticket : String
  pub fingerprint : String
  pub expires_at : ℕ
  pub consumed : Bool

pub record DryRunRegistry : Type 0 where
  pub ttl_ms : ℕ
  pub capacity : ℕ
  -- the oldest one first
  pub entries : List IssuedPlan

abbrev pub u64_max : ℕ
u64_max = 2 ^ 64 - 1

-- `DryRunRegistry::new`, with `capacity.max(1)`
unfoldable pub new_registry : ℕ → ℕ → DryRunRegistry
new_registry ttl_ms capacity = record {
  ttl_ms = ttl_ms;
  capacity = if leb capacity 1 then 1 else capacity;
  entries = [];
}

-- `while entries.len() >= capacity { entries.pop_front(); }`, for a capacity of at least one
unfoldable pub evict : ℕ → List IssuedPlan → List IssuedPlan
evict capacity [] = []
evict capacity (x ∷ xs) =
    let rest = evict capacity xs in if leb capacity (length (x ∷ xs)) then rest else x ∷ xs

-- `now_ms.saturating_add(ttl_ms)` on u64
unfoldable pub expiry : ℕ → ℕ → ℕ
expiry now_ms ttl_ms = min (now_ms + ttl_ms) u64_max

unfoldable pub issue_fingerprint : String → String → ℕ → DryRunRegistry → String × DryRunRegistry
unfolding evict expiry
issue_fingerprint new_ticket fingerprint now_ms r = (
  new_ticket,
  record r {
    entries =
        evict r.capacity r.entries
        ++ (record {
          ticket = new_ticket;
          fingerprint = fingerprint;
          expires_at = expiry now_ms r.ttl_ms;
          consumed = false;
        })
          ∷ [];
  },
)

unfoldable pub validate_entry : IssuedPlan → String → String → ℕ → Result (Unit {0})
validate_entry entry presented current now_ms =
    guard (not entry.consumed) (error attach_plan_replayed)
    >> (guard (not (ltb entry.expires_at now_ms)) (error attach_plan_expired)
        >> (guard (presented == entry.fingerprint) (error attach_plan_tampered)
            >> guard (current == entry.fingerprint) (error attach_plan_stale)))

abbrev pub ticket_of : IssuedPlan → String
ticket_of e = e.ticket

unfoldable pub validate : String → String → String → ℕ → DryRunRegistry → Result String
unfolding validate_entry
validate ticket presented current now_ms r =
    ok_or (get ticket_of ticket r.entries) (error attach_plan_unknown) >>= λ entry.
    validate_entry entry presented current now_ms >> ok entry.fingerprint

abbrev pub spend : IssuedPlan → IssuedPlan
spend e = record e { consumed = true }

-- the same checks; then the entry that was found is marked
unfoldable pub consume : String → String → String → ℕ → Exec DryRunRegistry String
unfolding validate_entry
consume ticket presented current now_ms r = elim (get ticket_of ticket r.entries) [
  | none ↦ (err (error attach_plan_unknown), r)
  | some entry ↦ elim (validate_entry entry presented current now_ms) [
    | err e ↦ (err e, r)
    | ok _ ↦ (ok entry.fingerprint, record r { entries = update ticket_of ticket spend r.entries })
  ]
]
