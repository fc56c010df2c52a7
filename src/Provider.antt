-- ===== src/Provider.antt =====
-- The data of services/provider_v2.rs and services/provider_credentials.rs: what LAM knows of a provider.
pub mod Credentials
pub mod Build
pub mod Repository
use lam.Prelude.{ℕ, String, Bool, Option, List}
use lam.Capability.{CapabilityDeclaration}
use lam.Binding.{BTreeMap}

pub data ProviderProtocol : Type 0 where
  responses chat_completions : ProviderProtocol

-- an i64; `negsuc n` is -(n + 1)
pub data ℤ : Type 0 where
  pos : ℕ → ℤ
  negsuc : ℕ → ℤ

pub record ProviderModel : Type 0 where
  pub id : String
  pub label : String
  pub capabilities : Option CapabilityDeclaration
  pub context_window : Option ℤ

pub data AdapterConfig : Type 0 where
  no_adapter : AdapterConfig
  -- the adapter's id and the upstream path
  local_adapter : String → String → AdapterConfig

pub data CredentialSource : Type 0 where
  env : String → CredentialSource
  -- service, account and version
  keychain : String → String → ℕ → CredentialSource
  auth_command : String → CredentialSource
  codex_profile : String → CredentialSource
  no_source : CredentialSource

pub data UpstreamAuth : Type 0 where
  bearer : CredentialSource → UpstreamAuth
  header : String → CredentialSource → UpstreamAuth
  no_auth : UpstreamAuth

pub record CodexProviderOptions : Type 0 where
  pub display_name : Option String
  pub stream_idle_timeout_ms : Option ℕ
  pub direct_request_max_retries : Option ℕ
  pub direct_stream_max_retries : Option ℕ
  pub route_via_gateway : Bool
  pub query_params : BTreeMap String
  pub env_http_headers : BTreeMap String
  pub reasoning_effort : Option String

pub record ProviderProfileV2 : Type 0 where
  pub id : String
  pub name : String
  pub protocol : ProviderProtocol
  pub base_url : String
  pub default_model : String
  pub models : List ProviderModel
  pub upstream_auth : UpstreamAuth
  pub capabilities : CapabilityDeclaration
  pub adapter : AdapterConfig
  pub compatibility_profile : Option String
  pub codex : CodexProviderOptions
  pub created_at : String
  pub updated_at : String

pub record ProviderCollection : Type 0 where
  pub providers : List ProviderProfileV2
