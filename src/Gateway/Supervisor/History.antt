-- ===== src/Gateway/Supervisor/History.antt =====
-- The failure counter against the history of observations (services/gateway/supervisor.rs).
use lam.Prelude.{ℕ, suc, ◌≤◌, ◌≡◌, refl, ◌∙◌, min, List, [], ◌∷◌, arith}
use lam.Errors.{ok}
use lam.Gateway.Supervisor.{
  GatewaySupervisorObservation, GatewaySupervisorMachine, identity_healthy, identity_unavailable,
  authenticated_identity_mismatch, process_missing, process_identity_mismatch, recovery_completed,
  recover_verified_process, u32_max, new_machine, observe, run,
}

-- Failures in a row, counted without a bound from `n` on: what one observation makes of the count.
abbrev pub count_step : ℕ → GatewaySupervisorObservation → ℕ
count_step n identity_unavailable = suc n
count_step n authenticated_identity_mismatch = suc n
count_step n identity_healthy = 0
count_step n process_missing = 0
count_step n process_identity_mismatch = 0
count_step n recovery_completed = 0
count_step n _ = n

abbrev pub failures_after : ℕ → List GatewaySupervisorObservation → ℕ
failures_after n [] = n
failures_after n (o ∷ os) = failures_after (count_step n o) os

observe-count :
    (m : GatewaySupervisorMachine) (n : ℕ) (o : GatewaySupervisorObservation)
    → m.consecutive_failures ≡ min u32_max n
    → ((observe m o).0.consecutive_failures ≡ min u32_max (count_step n o))
      × ((observe m o).0.recovery_threshold ≡ m.recovery_threshold)
unfolding observe
observe-count m n identity_healthy h = ground arith
observe-count m n o h = ground arith

-- From a machine that has counted n failures, up to the largest u32, the counter stays the number of
-- failures since the last observation that resets it, up to the largest u32, through any history;
-- the threshold never changes.
pub run-failures_after :
    (m : GatewaySupervisorMachine) (n : ℕ) (os : List GatewaySupervisorObservation)
    → m.consecutive_failures ≡ min u32_max n
    → ((run m os).consecutive_failures ≡ min u32_max (failures_after n os))
      × ((run m os).recovery_threshold ≡ m.recovery_threshold)
unfolding run
run-failures_after m n [] h = (h, refl)
run-failures_after m n (o ∷ os) h =
    let (counted, same) = observe-count m n o h in
    let (later, kept) = run-failures_after (observe m o).0 (count_step n o) os counted in
    (later, kept ∙ same)

observe-recover :
    (m : GatewaySupervisorMachine) (n : ℕ) (o : GatewaySupervisorObservation)
    → m.consecutive_failures ≡ min u32_max n
    → (observe m o).1 ≡ recover_verified_process
    → (o ≡ authenticated_identity_mismatch) × (m.recovery_threshold ≤ suc n)
unfolding observe
observe-recover m n identity_healthy h r = cc
observe-recover m n o h r = ground arith

-- A gateway is only recovered, that is killed, on an authenticated mismatch, and with as many
-- failures in a row, this one included, as the threshold says; a new machine's is at least two.
pub recover_needs_failures :
    (threshold : ℕ) (m : GatewaySupervisorMachine) (os : List GatewaySupervisorObservation)
    (o : GatewaySupervisorObservation)
    → new_machine threshold ≡ ok m
    → (observe (run m os) o).1 ≡ recover_verified_process
    → (o ≡ authenticated_identity_mismatch)
      × (threshold ≤ suc (failures_after 0 os))
      × (2 ≤ threshold)
unfolding new_machine
recover_needs_failures threshold m os o made r =
    let fresh : m.consecutive_failures ≡ min u32_max 0 = ground arith in
    let same : m.recovery_threshold ≡ threshold = ground arith in
    let (counted, kept) = run-failures_after m 0 os fresh in
    let (is_mismatch, enough) = observe-recover (run m os) (failures_after 0 os) o counted r in
    (is_mismatch, omega (arith, same, kept, enough), ground arith)
