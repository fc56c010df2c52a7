-- ===== src/Gateway.antt =====
-- services/gateway: the local gateway process, its supervisor and the state that they share.
pub mod Supervisor
pub mod Policy
pub mod Recovery
pub mod State
pub mod Claim
pub mod Binding
pub mod Control
