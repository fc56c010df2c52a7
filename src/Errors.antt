-- ===== src/Errors.antt =====
-- services/error.rs: `AppError` and `Result`.
-- The message is text for people that no code reads; it is left out.
use lam.Prelude.{ℕ, String, Bool, true, false, Option, none, some, List, arith, ◌≡◌, refl}

-- The values of `code` that the modelled code gives; each is the source's string in lower case.
pub data ErrorCode : Type 0 where
  io_error : ErrorCode
  -- services/storage.rs
  store_revision_conflict store_revision_overflow store_too_large store_lock_timeout : ErrorCode
  store_lock_mismatch store_invalid store_future_schema store_schema_migration_required : ErrorCode
  store_serialize store_fault_injected store_unsafe_path store_io : ErrorCode
  -- services/provider_binding.rs
  profile_binding_conflict profile_binding_exists profile_binding_not_found : ErrorCode
  profile_has_provider_binding profile_config_ambiguous profile_config_unmanageable : ErrorCode
  profile_config_auth_unsupported provider_not_found : ErrorCode
  -- services/provider_planner.rs
  attach_plan_unknown attach_plan_replayed attach_plan_expired : ErrorCode
  attach_plan_tampered attach_plan_stale : ErrorCode
  -- services/provider_credentials.rs
  provider_auth_conflict provider_credential_invalid provider_env_invalid : ErrorCode
  provider_auth_header_invalid provider_auth_header_forbidden : ErrorCode
  provider_auth_route_unsupported : ErrorCode
  provider_credential_source_unsupported provider_credential_missing : ErrorCode
  provider_credential_encoding provider_credential_empty provider_query_param_sensitive : ErrorCode
  provider_env_header_invalid provider_env_header_forbidden : ErrorCode
  -- services/provider_v2.rs
  provider_already_exists provider_credential_conflict provider_invalid_id : ErrorCode
  provider_reserved_id provider_url_invalid provider_url_userinfo provider_url_insecure : ErrorCode
  provider_model_duplicate provider_default_model_missing provider_adapter_invalid : ErrorCode
  provider_adapter_unknown provider_adapter_path_invalid provider_compatibility_unknown : ErrorCode
  provider_codex_options_invalid provider_timestamp_invalid provider_invalid : ErrorCode
  provider_store_invalid provider_protocol_unknown provider_credential_unknown : ErrorCode
  -- services/provider_keychain.rs, services/credential_store.rs
  keychain_reference_invalid provider_secret_empty keychain_item_not_found : ErrorCode
  keychain_version_overflow keychain_compensation_failed keychain_failed : ErrorCode
  secret_store_read_failed secret_store_invalid secret_store_write_failed : ErrorCode
  -- services/provider_attach_transaction.rs
  attach_journal_operation_exists attach_journal_profile_active : ErrorCode
  attach_journal_active_limit attach_journal_not_found attach_journal_transition_invalid : ErrorCode
  attach_journal_invalid attach_journal_record_too_large attach_journal_sensitive_data : ErrorCode
  attach_plan_blocked attach_journal_conflict attach_recovery_bound_invalid : ErrorCode
  attach_recovery_ownership_conflict attach_recovery_journal_invalid : ErrorCode
  attach_transaction_interrupted attach_binding_commit_failed : ErrorCode
  gateway_binding_plan_mismatch : ErrorCode
  -- services/provider_config_editor.rs
  codex_config_conflict codex_config_invalid codex_config_ownership_conflict : ErrorCode
  codex_config_secret_conflict codex_config_static_headers_unsupported : ErrorCode
  codex_config_fault_injected codex_config_auth_conflict codex_auth_not_materialized : ErrorCode
  -- services/gateway/binding.rs
  gateway_binding_profile_exists gateway_binding_generation_overflow : ErrorCode
  gateway_operation_id_invalid gateway_operation_conflict gateway_auth_profile_mismatch : ErrorCode
  gateway_auth_expired gateway_auth_invalid gateway_binding_not_found : ErrorCode
  gateway_binding_revoked gateway_binding_expiry_invalid gateway_binding_profile_invalid : ErrorCode
  gateway_binding_model_invalid gateway_binding_timestamp_invalid : ErrorCode
  gateway_binding_id_invalid gateway_binding_id_conflict : ErrorCode
  -- services/gateway
  gateway_supervisor_policy_invalid gateway_supervisor_transition_invalid : ErrorCode
  gateway_process_owner_mismatch gateway_process_executable_mismatch : ErrorCode
  gateway_process_termination_timeout gateway_process_ownership_mismatch : ErrorCode
  gateway_process_id_invalid gateway_already_running gateway_state_not_initialized : ErrorCode
  gateway_port_unchanged gateway_port_plan_stale gateway_port_invalid : ErrorCode
  gateway_upgrade_required gateway_state_timestamp_invalid gateway_health_failed : ErrorCode
  gateway_start_state_claimed gateway_start_port_occupied gateway_start_control_occupied : ErrorCode
  gateway_control_peer_forbidden gateway_control_version_mismatch : ErrorCode
  gateway_control_nonce_replay gateway_control_auth_invalid gateway_control_frame_invalid :
      ErrorCode
  gateway_control_message_limit gateway_identity_key_invalid : ErrorCode

-- `code == "KEYCHAIN_ITEM_NOT_FOUND"`
abbrev pub is_not_found : ErrorCode → Bool
is_not_found keychain_item_not_found = true
is_not_found _ = false

pub record AppError : Type 0 where
  pub code : ErrorCode
  pub recoverable : Bool
  -- the JSON objects that the modelled code attaches hold numbers only
  pub details : Option (List (String × ℕ))

-- `AppError::new`
abbrev pub error : ErrorCode → AppError
error c = record { code = c; recoverable = true; details = none }

pub data Result {ℓ} (A : Type ℓ) : Type ℓ where
  ok : A → Result A
  err : AppError → Result A

-- `is_ok`
abbrev pub is_ok {ℓ} : {A : Type ℓ} → Result A → Bool
is_ok (ok a) = true
is_ok (err e) = false

module _ {ℓ κ} {A : Type ℓ} {B : Type κ} where
  infixl 5 ◌>>=◌
  -- `?`: an error is handed on.
  abbrev pub ◌>>=◌ : Result A → (A → Result B) → Result B
  err e >>= next = err e
  ok a >>= next = next a

module _ {κ} {B : Type κ} where
  infixl 5 ◌>>◌
  -- a check, and what comes after it
  abbrev pub ◌>>◌ : Result (Unit {0}) → Result B → Result B
  check >> next = check >>= λ done. next

-- `if !b { return Err(e) }`
abbrev pub guard : Bool → AppError → Result (Unit {0})
guard true e = ok tt
guard false e = err e

-- `ok_or_else`
abbrev pub ok_or {ℓ} : {A : Type ℓ} → Option A → AppError → Result A
ok_or none e = err e
ok_or (some a) e = ok a

module _ {ℓ κ} {A : Type ℓ} {B : Type κ} (next : A → Result B) where
  -- Where `?` was passed there was a value.
  pub passed_on :
      (r : Result A) (b : B) → (r >>= next) ≡ ok b → (a : A) × (r ≡ ok a) × (next a ≡ ok b)
  passed_on (err e) b h = ground arith
  passed_on (ok a) b h = (a, refl, h)
