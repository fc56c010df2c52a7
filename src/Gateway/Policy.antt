-- ===== src/Gateway/Policy.antt =====
-- `SupervisorPolicy` of services/gateway/sidecar.rs, and the delays that the supervisor takes from it
-- (`failure_delay` of services/gateway/supervisor.rs). Durations are numbers of nanoseconds.
pub mod Bounds
mod Examples
use lam.Prelude.{
  ℕ, suc, ◌+◌, ◌-◌, ◌*◌, ◌/◌, ◌%◌, ◌^◌, Bool, true, false, ◌||◌, ◌&&◌, ltb, leb, ◌==◌, nat_eq,
  if◌then◌else◌, min, Option, none, some, get_or_else,
}
use lam.Errors.{Result, ok, err, error, gateway_supervisor_policy_invalid, gateway_health_failed}
use lam.Gateway.Supervisor.{saturating_suc}

pub data RestartDecision : Type 0 where
  restart_after : ℕ → RestartDecision
  failed : RestartDecision

pub record SupervisorPolicy : Type 0 where
  pub max_restarts : ℕ
  pub initial_backoff : ℕ
  pub max_backoff : ℕ
  pub idle_grace : ℕ

-- `Duration::MAX`: 2^64 - 1 seconds and 999,999,999 nanoseconds
abbrev pub duration_max : ℕ
duration_max = 2 ^ 64 * 1_000_000_000 - 1

-- `Duration::checked_mul`
unfoldable pub checked_mul : ℕ → ℕ → Option ℕ
checked_mul d k = if leb (d * k) duration_max then some (d * k) else none

-- `SupervisorPolicy::new`
unfoldable pub new_policy : ℕ → ℕ → ℕ → ℕ → Result SupervisorPolicy
new_policy max_restarts initial_backoff max_backoff idle_grace =
    if max_restarts == 0
      || initial_backoff == 0
      || ltb max_backoff initial_backoff
      || idle_grace == 0
    then err (error gateway_supervisor_policy_invalid)
    else ok (record {
      max_restarts = max_restarts;
      initial_backoff = initial_backoff;
      max_backoff = max_backoff;
      idle_grace = idle_grace;
    })

-- `failure_count.saturating_sub(1).min(31)`
abbrev pub exponent : ℕ → ℕ
exponent failure_count = min (failure_count - 1) 31

-- the delay before the jitter
unfoldable pub backoff : SupervisorPolicy → ℕ → ℕ
unfolding checked_mul
backoff p failure_count =
    min (get_or_else (checked_mul p.initial_backoff (2 ^ exponent failure_count)) p.max_backoff)
      p.max_backoff

-- a number of nanoseconds up to a quarter of the delay; `as u64` cuts the quarter to 64 bits
-- (of a quarter that is cut to 2^64 - 1 the source's increment overflows and its remainder panics, and so
-- does a sum of a delay and a jitter beyond `duration_max`: the definitions go on with natural numbers)
unfoldable pub jitter : ℕ → ℕ → ℕ
jitter jitter_cap jitter_seed =
    if jitter_cap == 0 then 0 else jitter_seed % ((jitter_cap % 2 ^ 64 + 1) % 2 ^ 64)

unfoldable pub restart_decision : SupervisorPolicy → ℕ → ℕ → RestartDecision
unfolding backoff jitter
restart_decision p failure_count jitter_seed =
    let base = backoff p failure_count in
    if failure_count == 0 || ltb p.max_restarts failure_count
    then failed
    else restart_after (min (base + jitter (base / 4) jitter_seed) p.max_backoff)

unfoldable pub should_idle_shutdown : SupervisorPolicy → ℕ → ℕ → ℕ → Bool
should_idle_shutdown p attached_bindings inflight_requests idle_for =
    attached_bindings == 0 && inflight_requests == 0 && leb p.idle_grace idle_for

-- `PackagedGatewaySupervisor::failure_delay`: the failures after it, and the delay or the end
unfoldable pub failure_delay : SupervisorPolicy → ℕ → ℕ → ℕ × Result ℕ
unfolding restart_decision saturating_suc
failure_delay p failures jitter_seed =
    let counted = saturating_suc failures in
    (
      counted,
      elim (restart_decision p counted jitter_seed) [
        | restart_after delay ↦ ok delay
        | failed ↦ err (error gateway_health_failed)
      ],
    )
