-- ===== src/Capability.antt =====
-- services/provider_capability.rs: what a provider model can do, from what the user declared,
-- what the adapter supports, the evidence of a test run and the user's override.
pub mod Resolution
mod Examples
use lam.Prelude.{
  ℕ, String, Bool, true, false, Option, none, some, List, [], ◌&&◌, ◌==◌, ltb, leb, if◌then◌else◌,
  is_some, get_or_else, string_eq,
}
use mathlib.Core.Option

pub data CapabilitySupport : Type 0 where
  supported partial unsupported unknown : CapabilitySupport

pub record CapabilityDeclaration : Type 0 where
  pub streaming : CapabilitySupport
  pub function_tools : CapabilitySupport
  pub structured_outputs : CapabilitySupport
  pub reasoning : CapabilitySupport

-- `CapabilityDeclaration::default`
abbrev pub default_declaration : CapabilityDeclaration
default_declaration = record {
  streaming = unknown;
  function_tools = unknown;
  structured_outputs = unknown;
  reasoning = unknown;
}

pub record CapabilityVerificationKey : Type 0 where
  pub provider_id : String
  pub model_id : String
  pub endpoint_hash : String
  pub adapter_id : String
  pub policy_id : String
  pub suite_version : String
  pub fingerprint : String

-- the derived `PartialEq`
unfoldable pub key_eq : CapabilityVerificationKey → CapabilityVerificationKey → Bool
key_eq a b =
    a.provider_id == b.provider_id
    && a.model_id == b.model_id
    && a.endpoint_hash == b.endpoint_hash
    && a.adapter_id == b.adapter_id
    && a.policy_id == b.policy_id
    && a.suite_version == b.suite_version
    && a.fingerprint == b.fingerprint

pub data EvidenceVerdict : Type 0 where
  passed failed : EvidenceVerdict

pub record CapabilityEvidence : Type 0 where
  pub key : CapabilityVerificationKey
  pub verdict : EvidenceVerdict
  pub verified : CapabilityDeclaration
  pub fixture_ids : List String
  pub observed_at_ms : ℕ
  pub expires_at_ms : ℕ

pub record CapabilityResolutionInput : Type 0 where
  pub declared : CapabilityDeclaration
  pub adapter_supported : CapabilityDeclaration
  pub user_override : Option CapabilityDeclaration
  pub expected_key : CapabilityVerificationKey
  pub evidence : Option CapabilityEvidence
  pub now_ms : ℕ

pub data EffectiveCapability : Type 0 where
  supported partial unsupported unknown : EffectiveCapability

-- `impl From<CapabilitySupport> for EffectiveCapability`
unfoldable pub effective_of : CapabilitySupport → EffectiveCapability
effective_of CapabilitySupport.supported = EffectiveCapability.supported
effective_of CapabilitySupport.partial = EffectiveCapability.partial
effective_of CapabilitySupport.unsupported = EffectiveCapability.unsupported
effective_of CapabilitySupport.unknown = EffectiveCapability.unknown

pub record ResolvedCapability : Type 0 where
  pub effective : EffectiveCapability
  pub provenance : String

pub record EffectiveCapabilities : Type 0 where
  pub streaming : ResolvedCapability
  pub function_tools : ResolvedCapability
  pub structured_outputs : ResolvedCapability
  pub reasoning : ResolvedCapability
  pub evidence_current : Bool
  pub evidence_fingerprint : Option String
  pub evidence_fixture_ids : List String

unfoldable pub support_rank : CapabilitySupport → ℕ
support_rank CapabilitySupport.unsupported = 0
support_rank CapabilitySupport.unknown = 1
support_rank CapabilitySupport.partial = 2
support_rank CapabilitySupport.supported = 3

unfoldable pub is_more_restrictive : CapabilitySupport → CapabilitySupport → Bool
unfolding support_rank
is_more_restrictive candidate current = ltb (support_rank candidate) (support_rank current)

unfoldable pub resolved : CapabilitySupport → String → ResolvedCapability
unfolding effective_of
resolved value provenance = record { effective = effective_of value; provenance = provenance }

-- the two variables that `resolve_one` assigns to
abbrev pub Current : Type 0
Current = CapabilitySupport × String

unfoldable pub start : CapabilitySupport → Option CapabilitySupport → Current
start declared none = (declared, "declared")
start declared (some verified) = (verified, "evidence")

unfoldable pub restrict : CapabilitySupport → String → Current → Current
unfolding is_more_restrictive
restrict candidate source (value, from) =
    if is_more_restrictive candidate value then (candidate, source) else (value, from)

unfoldable pub restrict_by_user : Option CapabilitySupport → Current → Current
unfolding restrict
restrict_by_user none current = current
restrict_by_user (some candidate) current = restrict candidate "user_override" current

unfoldable pub is_unsupported : CapabilitySupport → Bool
is_unsupported CapabilitySupport.unsupported = true
is_unsupported _ = false

unfoldable pub resolve_one :
    CapabilitySupport
    → CapabilitySupport
    → Option CapabilitySupport
    → Option CapabilitySupport
    → ResolvedCapability
unfolding start restrict_by_user resolved is_unsupported
resolve_one declared adapter verified user_override =
    if is_unsupported adapter
    then resolved CapabilitySupport.unsupported "adapter"
    else (let (value, from) =
          restrict_by_user user_override (restrict adapter "adapter" (start declared verified)) in
        resolved value from)

unfoldable pub has_passed : EvidenceVerdict → Bool
has_passed passed = true
has_passed failed = false

-- the closure given to `filter`
unfoldable pub is_current : CapabilityVerificationKey → ℕ → CapabilityEvidence → Bool
unfolding key_eq has_passed
is_current expected_key now_ms evidence =
    has_passed evidence.verdict
    && key_eq evidence.key expected_key
    && leb evidence.observed_at_ms now_ms
    && leb now_ms evidence.expires_at_ms

unfoldable pub current_evidence : CapabilityResolutionInput → Option CapabilityEvidence
unfolding is_current
current_evidence input = elim input.evidence [
  | none ↦ none
  | some evidence ↦
      if is_current input.expected_key input.now_ms evidence then some evidence else none
]

-- `resolve_capabilities` from its second statement on
unfoldable pub resolve_with :
    CapabilityResolutionInput → Option CapabilityEvidence → EffectiveCapabilities
unfolding resolve_one
resolve_with input found = record {
  streaming = resolve (λ d. d.streaming);
  function_tools = resolve (λ d. d.function_tools);
  structured_outputs = resolve (λ d. d.structured_outputs);
  reasoning = resolve (λ d. d.reasoning);
  evidence_current = is_some found;
  evidence_fingerprint = Option.map (λ e. e.key.fingerprint) found;
  evidence_fixture_ids = get_or_else (Option.map (λ e. e.fixture_ids) found) [];
}
  where
    resolve : (CapabilityDeclaration → CapabilitySupport) → ResolvedCapability
    resolve field =
        resolve_one (field input.declared) (field input.adapter_supported)
          (Option.map (λ e. field e.verified) found) (Option.map field input.user_override)

unfoldable pub resolve_capabilities : CapabilityResolutionInput → EffectiveCapabilities
unfolding current_evidence resolve_with
resolve_capabilities input = resolve_with input (current_evidence input)
