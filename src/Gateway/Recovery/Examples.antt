-- ===== src/Gateway/Recovery/Examples.antt =====
-- A process that is the user's own gateway (services/gateway/recovery.rs).
use lam.Prelude.{◌≡◌, ◌⊎◌, some, true, [], ◌∷◌}
use lam.Errors.{ok}
use lam.Gateway.Recovery.{
  GatewayProcessIdentity, GatewayProcessControl, recover_verified_gateway_process,
}
use lam.Gateway.Recovery.Laws.{IsOurs, recover_signals}

abbrev gateway : GatewayProcessIdentity
gateway = record { executable = "/opt/lam/gateway"; uid = 501; parent_pid = 40 }

abbrev control : GatewayProcessControl
control = record { inspect = λ pid. ok (some gateway); terminate = λ pid timeout. ok true }

recover_signals_example :
    ((recover_verified_gateway_process control 42 "/opt/lam/gateway" 501 5 []).1 ≡ [])
    ⊎ (((recover_verified_gateway_process control 42 "/opt/lam/gateway" 501 5 []).1 ≡ 42 ∷ [])
        × ((i : GatewayProcessIdentity) × IsOurs control 42 "/opt/lam/gateway" 501 i))
recover_signals_example = recover_signals control 42 "/opt/lam/gateway" 501 5 []
