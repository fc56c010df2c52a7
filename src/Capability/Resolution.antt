-- ===== src/Capability/Resolution.antt =====
-- What the resolution of capabilities guarantees (services/provider_capability.rs).
use lam.Prelude.{
  ℕ, ◌≤◌, ◌≡◌, refl, ◌↔◌, true, false, Option, none, some, arith, min, eq_iff, eq_refl, is_some,
}
use lam.Capability.{
  CapabilitySupport, EffectiveCapability, CapabilityVerificationKey, CapabilityEvidence, passed,
  CapabilityResolutionInput, key_eq, is_current, current_evidence, resolve_capabilities,
  support_rank, resolve_one,
}

-- the rank of what is resolved, on the scale of `support_rank`
abbrev pub effective_rank : EffectiveCapability → ℕ
effective_rank EffectiveCapability.unsupported = 0
effective_rank EffectiveCapability.unknown = 1
effective_rank EffectiveCapability.partial = 2
effective_rank EffectiveCapability.supported = 3

abbrev base : CapabilitySupport → Option CapabilitySupport → CapabilitySupport
base declared none = declared
base declared (some verified) = verified

abbrev cap : Option CapabilitySupport → ℕ
cap none = 3
cap (some user) = support_rank user

-- The resolved rank is the least of three: the adapter's; the evidence's, or what was declared
-- where there is none; and the user's override, where there is one.
pub resolve_one-min :
    (declared adapter : CapabilitySupport) (verified user : Option CapabilitySupport)
    → effective_rank (resolve_one declared adapter verified user).effective
      ≡ min (support_rank adapter) (min (support_rank (base declared verified)) (cap user))
unfolding resolve_one support_rank
resolve_one-min declared adapter verified user = ground arith

-- An override only ever takes away: with one, nothing ranks above what there is without it.
pub resolve_one-override_le :
    (declared adapter : CapabilitySupport) (verified : Option CapabilitySupport)
    (user : CapabilitySupport)
    → effective_rank (resolve_one declared adapter verified (some user)).effective
      ≤ effective_rank (resolve_one declared adapter verified none).effective
unfolding resolve_one
resolve_one-override_le declared adapter verified user = ground arith

key_eq_sound : (a b : CapabilityVerificationKey) → key_eq a b ≡ true → a ≡ b
unfolding key_eq
key_eq_sound a b h = ground (
  arith,
  eq_iff a.provider_id b.provider_id,
  eq_iff a.model_id b.model_id,
  eq_iff a.endpoint_hash b.endpoint_hash,
  eq_iff a.adapter_id b.adapter_id,
  eq_iff a.policy_id b.policy_id,
  eq_iff a.suite_version b.suite_version,
  eq_iff a.fingerprint b.fingerprint,
)

key_eq_self : (a : CapabilityVerificationKey) → key_eq a a ≡ true
unfolding key_eq
key_eq_self a = simp eq_refl

-- the evidence that may be used at a time
pub record IsUsable (expected : CapabilityVerificationKey) (now : ℕ) (e : CapabilityEvidence)
    : Type 0 where
  pub verdict : e.verdict ≡ passed
  pub key : e.key ≡ expected
  pub not_from_future : e.observed_at_ms ≤ now
  pub not_expired : now ≤ e.expires_at_ms

is_current-IsUsable :
    (k : CapabilityVerificationKey) (now : ℕ) (e : CapabilityEvidence)
    → is_current k now e ≡ true
    → IsUsable k now e
unfolding is_current
is_current-IsUsable k now e h = ground (arith, key_eq_sound e.key k)

IsUsable-is_current :
    (k : CapabilityVerificationKey) (now : ℕ) (e : CapabilityEvidence)
    → IsUsable k now e
    → is_current k now e ≡ true
unfolding is_current
IsUsable-is_current k now e h = rw (h.verdict, h.key, key_eq_self) (ground arith)

-- Evidence counts exactly while it is usable: it passed, it is for the expected key in every
-- field, it was not observed in the future and it has not expired.
pub evidence_current_iff :
    (input : CapabilityResolutionInput) (e : CapabilityEvidence)
    → input.evidence ≡ some e
    → ((resolve_capabilities input).evidence_current ≡ true)
      ↔ IsUsable input.expected_key input.now_ms e
unfolding resolve_capabilities current_evidence
evidence_current_iff input e h = (
  λ c. is_current-IsUsable input.expected_key input.now_ms e (ground arith),
  λ u. ground (arith, IsUsable-is_current input.expected_key input.now_ms e u),
)

-- Evidence that is not current changes nothing: the result is the one without any evidence.
pub stale_evidence_ignored :
    (input : CapabilityResolutionInput)
    → (resolve_capabilities input).evidence_current ≡ false
    → resolve_capabilities input ≡ resolve_capabilities (record input { evidence = none })
unfolding resolve_capabilities
stale_evidence_ignored input h = rw (none_current (current_evidence input) h)
  where
    none_current : (o : Option CapabilityEvidence) → is_some o ≡ false → o ≡ none
    none_current none e = refl
    none_current (some x) e = cc e
