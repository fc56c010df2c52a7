-- ===== src/Attach.antt =====
-- services/provider_attach_transaction.rs: attaching a profile to a provider changes two files, and a journal
-- tells how far an operation came. `Journal` has the repository of the records, `Config` the file of
-- Codex, and `Coordinator` what the operations share; `Execute` and `Recover` are the operations.
pub mod Journal
pub mod Config
pub mod Coordinator
pub mod Recover
pub mod Unreadable
pub mod Editor
pub mod Prepare
pub mod Execute
pub mod Detach
pub mod Examples
