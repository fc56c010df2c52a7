-- ===== src/Lib.antt =====
-- LAM keeps several Codex profiles on one machine, binds each to a provider, and runs a local gateway
-- process for providers that Codex cannot talk to directly. This library is about the services of its
-- desktop backend, apps/desktop/src-tauri/src/services; the paths below start there.
--
-- The parts, and where they are modelled:
--   Errors       error.rs: `AppError` with its code, flag and details; the message is left out.
--   Exec         a fallible step on a state that keeps the state on an error, as `&mut` code with `?`.
--   Store        storage.rs: `VersionedFileStore`. Store has the reading half and the preparation of a
--                write, Store/Write the write (`atomic_replace` and `compare_and_swap_locked`), Store/Lock
--                the loop of `InstallationLock::acquire`. Store/Interface is what the other services use
--                of it, a record of operations and laws that the file store and Store/Memory provide.
--   Capability   provider_capability.rs: `resolve_capabilities`.
--   Binding      provider_binding.rs: `ProfileBindingRepository` on a versioned store of bindings, and
--                `reconcile_binding`.
--   Gateway      gateway/supervisor.rs (Supervisor, Claim), gateway/recovery.rs (Recovery),
--                gateway/sidecar.rs (State, Policy, Control), gateway/binding.rs (Binding: the bindings
--                and their tokens, on a versioned store and the Keychain's service). The supervisor
--                observes the process that is claimed in the runtime state, its machine asks for an
--                action, and the reconciliation of the claim carries it out on the state and the
--                processes. Control has the handlers of concurrent connections as explicit turns.
--   Relay        provider_relay_compatibility.rs: what of a session's history another route can take.
--   Provider     provider_v2.rs: the data of a provider, Provider/Build `build_provider` and its checks,
--                Provider/Repository `ProviderRepository`; Provider/Credentials provider_credentials.rs:
--                which credential references are valid, and which Codex can use itself.
--   Keychain     provider_keychain.rs and credential_store.rs: secrets under versioned references, in the
--                Keychain or in a private file (Keychain/Service), and their rotation, which the
--                provider's record follows (Keychain/Rotation).
--   Attach       provider_attach_transaction.rs: Journal is the repository of the operations' records,
--                Coordinator the state of `AttachTransactionCoordinator`, Prepare and Execute its
--                `execute_attach`, Detach its `execute_detach` and Recover its `recover_pending`. They
--                work on the stores of providers, bindings and records, on the gateway's bindings and on
--                the files, of which Config has those functions of provider_config_editor.rs that
--                replace one. Injected faults stand for crashes. Editor has the edits of a configuration
--                in that file, which are the coordinator's `ConfigEditor`.
--   Planner      provider_planner.rs: Route is `plan_provider_route`, Tickets is `DryRunRegistry`, which
--                issues a ticket for a dry run and accepts it once; Plans has the plans that a ticket is for.
-- Prelude holds the shared lists, texts and keyed collections.
--
-- What a call outside of this code does is an argument: the results of file operations (`ReadIo`,
-- `WriteIo`, `FileCalls`), of lock polls (`Polls`), of serde (`Codec`, with `IsFaithful` as its
-- documented law), of the process table (`GatewayProcessControl`), of toml_edit (`TomlEdit`), of
-- the Keychain (`KeychainBackend`), of chrono, sha2, hex and uuid (`Crates`), of the url crate's
-- parser, of the http crate's header names, and new UUIDs, random bytes and times. A locked
-- operation runs on a store whose lock is held.
-- Revisions are u64 with the overflow written out, failure counts are saturating u32, durations are
-- numbers of nanoseconds. The lock loop runs on fuel: each poll sleeps a millisecond or more, so that
-- one round for each millisecond of the timeout and one more are enough, which is proved.
--
-- Not modelled: asynchronous I/O (the control socket's calls, the HTTP server and probe), launching
-- processes, the system's Keychain, the parsing and printing of TOML, the user interface, and the
-- adapters between the providers' protocols.
mod Prelude
pub mod Errors
pub mod Exec
pub mod Store
pub mod Capability
pub mod Binding
pub mod Gateway
pub mod Planner
pub mod Relay
pub mod Provider
pub mod Keychain
pub mod Attach
