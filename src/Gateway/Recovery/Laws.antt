-- ===== src/Gateway/Recovery/Laws.antt =====
-- Which processes the gateway code may kill or trust (services/gateway/recovery.rs, supervisor.rs).
use lam.Prelude.{ℕ, String, ◌≡◌, refl, ◌⊎◌, inl, inr, Option, none, some, List, ◌∷◌, arith, eq_iff}
use lam.Errors.{Result, ok, err}
use lam.Gateway.Recovery.{
  GatewayProcessIdentity, GatewayProcessControl, RecoveryOutcome, recover_verified_gateway_process,
}

-- the process is there, is the user's, and runs the verified program
pub record IsOurs (control : GatewayProcessControl) (pid : ℕ) (executable : String) (uid : ℕ)
    (i : GatewayProcessIdentity) : Type 0 where
  pub inspected : control.inspect pid ≡ ok (some i)
  pub owner : i.uid ≡ uid
  pub program : i.executable ≡ executable

module _ (control : GatewayProcessControl) (pid : ℕ) (executable : String) (uid timeout : ℕ)
    (signals : List ℕ) where
  abbrev recovered : Result RecoveryOutcome × List ℕ
  recovered = recover_verified_gateway_process control pid executable uid timeout signals

  -- A signal is sent at most once, to the process that was asked for, and only if that process is
  -- the user's and runs the verified program.
  pub recover_signals :
      (recovered.1 ≡ signals)
      ⊎ ((recovered.1 ≡ pid ∷ signals)
          × ((i : GatewayProcessIdentity) × IsOurs control pid executable uid i))
  recover_signals = go (control.inspect pid) refl
    where
      unsignalled :
          (i : GatewayProcessIdentity)
          → control.inspect pid ≡ ok (some i)
          → (recovered.1 ≡ signals)
            ⊎ ((recovered.1 ≡ pid ∷ signals) × (i.uid ≡ uid) × (i.executable ≡ executable))
      unsignalled i e =
          unfold recover_verified_gateway_process in ground (arith, eq_iff i.executable executable)

      go :
          (r : Result (Option GatewayProcessIdentity))
          → control.inspect pid ≡ r
          → (recovered.1 ≡ signals)
            ⊎ ((recovered.1 ≡ pid ∷ signals)
                × ((i : GatewayProcessIdentity) × IsOurs control pid executable uid i))
      go (err x) e = inl (unfold recover_verified_gateway_process in ground arith)
      go (ok none) e = inl (unfold recover_verified_gateway_process in ground arith)
      go (ok (some i)) e = elim (unsignalled i e) [
        | inl none_sent ↦ inl none_sent
        | inr (sent, o, x) ↦ inr (sent, (i, record { inspected = e; owner = o; program = x }))
      ]
