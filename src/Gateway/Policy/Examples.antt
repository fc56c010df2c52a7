-- ===== src/Gateway/Policy/Examples.antt =====
-- A policy of three restarts, one second apart at first (services/gateway/sidecar.rs).
use lam.Prelude.{ℕ, ◌-◌, ◌≡◌, refl, ◌≤◌, ◌<◌, ◌↔◌, ◌⊎◌, ◌*◌, ◌^◌, min}
use lam.Gateway.Policy.{SupervisorPolicy, restart_after, failed, restart_decision}
use lam.Gateway.Policy.Bounds.{restart_decision-bounds, restart_decision-failed_iff}

abbrev policy : SupervisorPolicy
policy = record {
  max_restarts = 3;
  initial_backoff = 1_000_000_000;
  max_backoff = 30_000_000_000;
  idle_grace = 60_000_000_000;
}

second_failure : restart_decision policy 2 7 ≡ restart_after 2_000_000_007
unfolding restart_decision
second_failure = refl

restart_decision-bounds_example :
    (min (1_000_000_000 * 2 ^ min (2 - 1) 31) 30_000_000_000 ≤ 2_000_000_007)
    × (2_000_000_007 ≤ 30_000_000_000)
restart_decision-bounds_example = restart_decision-bounds policy 2 7 2_000_000_007 second_failure

restart_decision-failed_iff_example :
    (restart_decision policy 4 7 ≡ failed) ↔ (◌≡◌ {A = ℕ} 4 0 ⊎ (3 < 4))
restart_decision-failed_iff_example = restart_decision-failed_iff policy 4 7
