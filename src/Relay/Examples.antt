-- ===== src/Relay/Examples.antt =====
-- A history with one call and its result (services/provider_relay_compatibility.rs).
use lam.Prelude.{◌≡◌, ◌≢◌, ◌↔◌, true, false, List, [], ◌∷◌, all}
use lam.Relay.{
  RelayHistoryItem, RelayTargetCapabilities, function_call, function_result, text,
  representation_metadata, blocked, analyze_relay_compatibility,
}
use lam.Relay.Counts.{portable}
use lam.Relay.Verdict.{IsPaired, analyze-blocked_iff}

abbrev history : List RelayHistoryItem
history =
    record { id = "line-1"; kind = representation_metadata }
    ∷ record { id = "line-2"; kind = text }
    ∷ record { id = "line-3"; kind = function_call "c" true }
    ∷ record { id = "line-4"; kind = function_result "c" }
    ∷ []

abbrev target : RelayTargetCapabilities
target = record { function_tools = true; representation_metadata = false }

analyze-blocked_iff_example :
    ((analyze_relay_compatibility history target).disposition ≢ blocked)
    ↔ ((all (portable target) history ≡ true) × IsPaired history)
analyze-blocked_iff_example = analyze-blocked_iff history target
