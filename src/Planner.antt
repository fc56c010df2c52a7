-- ===== src/Planner.antt =====
-- services/provider_planner.rs: what a dry run issues, and what may be executed on it later.
pub mod Tickets
pub mod Route
pub mod Plans
