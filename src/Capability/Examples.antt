-- ===== src/Capability/Examples.antt =====
-- Checks at concrete inputs: a model that its provider declares able to stream, with a passed test
-- run that found tools to be partial, and a user who forbids them.
use lam.Prelude.{ℕ, ◌≡◌, refl, false, none, some, [], ◌∷◌}
use lam.Capability.{
  CapabilitySupport, CapabilityDeclaration, CapabilityVerificationKey, CapabilityEvidence,
  CapabilityResolutionInput, EffectiveCapability, passed, default_declaration, support_rank,
  resolve_one, resolve_capabilities,
}
use lam.Capability.Resolution.{effective_rank, resolve_one-min}

abbrev key : CapabilityVerificationKey
key = record {
  provider_id = "p";
  model_id = "m";
  endpoint_hash = "e";
  adapter_id = "a";
  policy_id = "y";
  suite_version = "1";
  fingerprint = "f";
}

abbrev all_supported : CapabilityDeclaration
all_supported = record {
  streaming = CapabilitySupport.supported;
  function_tools = CapabilitySupport.supported;
  structured_outputs = CapabilitySupport.supported;
  reasoning = CapabilitySupport.supported;
}

abbrev test_run : CapabilityEvidence
test_run = record {
  key = key;
  verdict = passed;
  verified = record all_supported { function_tools = CapabilitySupport.partial };
  fixture_ids = "tools" ∷ [];
  observed_at_ms = 10;
  expires_at_ms = 20;
}

abbrev at_time : ℕ → CapabilityResolutionInput
at_time now = record {
  declared = default_declaration;
  adapter_supported = all_supported;
  user_override = none;
  expected_key = key;
  evidence = some test_run;
  now_ms = now;
}

fresh_tools :
    (resolve_capabilities (at_time 15)).function_tools.effective ≡ EffectiveCapability.partial
unfolding resolve_capabilities
fresh_tools = refl

stale_tools :
    (resolve_capabilities (at_time 21)).function_tools.effective ≡ EffectiveCapability.unknown
unfolding resolve_capabilities
stale_tools = refl

resolve_one-min_example :
    effective_rank
      (resolve_one CapabilitySupport.supported CapabilitySupport.partial none
        (some CapabilitySupport.unknown)).effective
    ≡ 1
unfolding support_rank
resolve_one-min_example =
    resolve_one-min CapabilitySupport.supported CapabilitySupport.partial none
      (some CapabilitySupport.unknown)

stale : (resolve_capabilities (at_time 21)).evidence_current ≡ false
unfolding resolve_capabilities
stale = refl
