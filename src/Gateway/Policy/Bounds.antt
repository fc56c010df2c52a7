-- ===== src/Gateway/Policy/Bounds.antt =====
-- How long the supervisor waits, and when it gives up (services/gateway/sidecar.rs).
use lam.Prelude.{ℕ, ◌*◌, ◌^◌, ◌-◌, ◌≤◌, ◌<◌, ◌≡◌, ◌⊎◌, ◌↔◌, min, arith}
use lam.Errors.{err, error, gateway_health_failed}
use lam.Gateway.Supervisor.{u32_max}
use lam.Gateway.Policy.{SupervisorPolicy, restart_after, failed, restart_decision, failure_delay}

module _ (p : SupervisorPolicy) where
  -- The delay of a restart is at least the first backoff doubled for each failure after the first, 31
  -- times at most, or the largest backoff if that is less. It is at most the largest backoff.
  pub restart_decision-bounds :
      (failures seed delay : ℕ)
      → restart_decision p failures seed ≡ restart_after delay
      → (min (p.initial_backoff * 2 ^ min (failures - 1) 31) p.max_backoff ≤ delay)
        × (delay ≤ p.max_backoff)
  unfolding restart_decision
  restart_decision-bounds failures seed delay h = ground arith

  -- The policy restarts exactly from the first failure up to the last that it allows.
  pub restart_decision-failed_iff :
      (failures seed : ℕ)
      → (restart_decision p failures seed ≡ failed) ↔ ((failures ≡ 0) ⊎ (p.max_restarts < failures))
  unfolding restart_decision
  restart_decision-failed_iff failures seed = ground arith

  -- With n failures counted, fewer than the largest u32, the next one ends the supervision exactly if
  -- the policy allows no more.
  pub failure_delay-gives_up_iff :
      (n seed : ℕ)
      → n < u32_max
      → ((failure_delay p n seed).1 ≡ err (error gateway_health_failed)) ↔ (p.max_restarts ≤ n)
  unfolding failure_delay
  failure_delay-gives_up_iff n seed h = ground arith
