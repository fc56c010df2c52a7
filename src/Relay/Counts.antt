-- ===== src/Relay/Counts.antt =====
-- What the loop over a history collects, by counting (services/provider_relay_compatibility.rs).
use lam.Prelude.{
  ℕ, ◌+◌, String, ◌≡◌, refl, Bool, true, false, not, ◌==◌, nat_eq, string_eq, ◌&&◌, ◌||◌,
  if◌then◌else◌, List, [], ◌∷◌, ◌++◌, length, any, all, arith,
}
use lam.Relay.{
  RelayHistoryItem, RelayHistoryItemKind, RelayTargetCapabilities, Scan, function_call,
  function_result, text, representation_metadata, push_entry, items_of, scan_kind, scan_items,
  scan_call, scan_result, scan_metadata,
}
use lam.Relay.Groups.{IsSound, IsSound-push_entry, length-push_entry}

abbrev pub is_nil {ℓ} : {A : Type ℓ} → List A → Bool
is_nil [] = true
is_nil (x ∷ xs) = false

-- An item that the target route can take by itself: texts, what is only shown, and, on a route with
-- function tools, verified calls and their results.
abbrev pub is_portable : RelayTargetCapabilities → RelayHistoryItemKind → Bool
is_portable target text = true
is_portable target representation_metadata = true
is_portable target (function_call call_id verified) = target.function_tools && verified
is_portable target (function_result call_id) = target.function_tools
is_portable target _ = false

abbrev is_metadata_kind : RelayHistoryItemKind → Bool
is_metadata_kind representation_metadata = true
is_metadata_kind _ = false

-- an item that is only shown
abbrev pub is_metadata : RelayHistoryItem → Bool
is_metadata item = is_metadata_kind item.kind

abbrev call_count : String → RelayHistoryItemKind → ℕ
call_count k (function_call call_id verified) = if call_id == k then 1 else 0
call_count k _ = 0

abbrev result_count : String → RelayHistoryItemKind → ℕ
result_count k (function_result call_id) = if call_id == k then 1 else 0
result_count k _ = 0

-- how many calls of a history have the id, and how many results
abbrev pub calls_in : String → List RelayHistoryItem → ℕ
calls_in k [] = 0
calls_in k (item ∷ items) = call_count k item.kind + calls_in k items

abbrev pub results_in : String → List RelayHistoryItem → ℕ
results_in k [] = 0
results_in k (item ∷ items) = result_count k item.kind + results_in k items

pub is_nil-snoc : {A : Type 0} (xs : List A) (y : A) → is_nil (xs ++ y ∷ []) ≡ false
is_nil-snoc [] y = refl
is_nil-snoc (x ∷ xs) y = refl

module _ (target : RelayTargetCapabilities) where
  abbrev pub portable : RelayHistoryItem → Bool
  portable item = is_portable target item.kind

  scan_kind-issues :
      (item : RelayHistoryItem) (kind : RelayHistoryItemKind) (s : Scan)
      → is_nil (scan_kind target item kind s).issues ≡ (is_nil s.issues && is_portable target kind)
  unfolding scan_kind
  scan_kind-issues item text s = ground arith
  scan_kind-issues item kind s = ground arith

  pub scan_items-issues :
      (items : List RelayHistoryItem) (s : Scan)
      → is_nil (scan_items target items s).issues ≡ (is_nil s.issues && all portable items)
  unfolding scan_items
  scan_items-issues [] s = ground arith
  scan_items-issues (item ∷ items) s = ground (
    arith,
    scan_items-issues items (scan_kind target item item.kind s),
    scan_kind-issues item item.kind s,
  )

  -- what the groups say about ids, besides what they said before the scan
  pub record Grouped (s s' : Scan) (calls results : String → ℕ) : Type 0 where
    pub sound_calls : IsSound s.calls → IsSound s'.calls
    pub sound_results : IsSound s.results → IsSound s'.results
    pub more_calls :
        (k : String) → length (items_of k s'.calls) ≡ length (items_of k s.calls) + calls k
    pub more_results :
        (k : String) → length (items_of k s'.results) ≡ length (items_of k s.results) + results k

  ungrouped :
      (s s' : Scan) → s'.calls ≡ s.calls → s'.results ≡ s.results → Grouped s s' (λ k. 0) (λ k. 0)
  ungrouped s s' c r = record {
    sound_calls = λ h. rw c h;
    sound_results = λ h. rw r h;
    more_calls = λ k. rw c (omega arith);
    more_results = λ k. rw r (omega arith);
  }

  Grouped-scan_call :
      (item : RelayHistoryItem) (id : String) (verified : Bool) (s : Scan)
      → Grouped s
          (scan_call target item id verified s)
          (λ k. call_count k (function_call id verified))
          (λ k. 0)
  Grouped-scan_call item id verified s =
      let c : (scan_call target item id verified s).calls ≡ push_entry id item s.calls =
        unfold scan_call in ground arith in
      let r : (scan_call target item id verified s).results ≡ s.results =
        unfold scan_call in ground arith in
      record {
        sound_calls = λ h. rw c (IsSound-push_entry id item s.calls h);
        sound_results = λ h. rw r h;
        more_calls = λ k. rw c (length-push_entry id item s.calls k);
        more_results = λ k. rw r (omega arith);
      }

  Grouped-scan_result :
      (item : RelayHistoryItem) (id : String) (s : Scan)
      → Grouped s (scan_result target item id s) (λ k. 0) (λ k. result_count k (function_result id))
  Grouped-scan_result item id s =
      let r : (scan_result target item id s).results ≡ push_entry id item s.results =
        unfold scan_result in ground arith in
      let c : (scan_result target item id s).calls ≡ s.calls = unfold scan_result in ground arith in
      record {
        sound_results = λ h. rw r (IsSound-push_entry id item s.results h);
        sound_calls = λ h. rw c h;
        more_results = λ k. rw r (length-push_entry id item s.results k);
        more_calls = λ k. rw c (omega arith);
      }

  Grouped-scan_kind :
      (item : RelayHistoryItem) (kind : RelayHistoryItemKind) (s : Scan)
      → Grouped s (scan_kind target item kind s) (λ k. call_count k kind) (λ k. result_count k kind)
  unfolding scan_kind
  Grouped-scan_kind item text s = ungrouped s _ refl refl
  Grouped-scan_kind item (function_call id verified) s = Grouped-scan_call item id verified s
  Grouped-scan_kind item (function_result id) s = Grouped-scan_result item id s
  Grouped-scan_kind item representation_metadata s =
      ungrouped s (scan_metadata target item s) (unfold scan_metadata in ground arith)
        (unfold scan_metadata in ground arith)
  Grouped-scan_kind item _ s = ungrouped s _ refl refl

  pub Grouped-scan_items :
      (items : List RelayHistoryItem) (s : Scan)
      → Grouped s (scan_items target items s) (λ k. calls_in k items) (λ k. results_in k items)
  unfolding scan_items
  Grouped-scan_items [] s = ungrouped s s refl refl
  Grouped-scan_items (item ∷ items) s =
      let one = Grouped-scan_kind item item.kind s in
      let rest = Grouped-scan_items items (scan_kind target item item.kind s) in
      record {
        sound_calls = λ h. rest.sound_calls (one.sound_calls h);
        sound_results = λ h. rest.sound_results (one.sound_results h);
        more_calls = λ k. omega (arith, one.more_calls k, rest.more_calls k);
        more_results = λ k. omega (arith, one.more_results k, rest.more_results k);
      }

  scan_kind-transformations :
      (item : RelayHistoryItem) (kind : RelayHistoryItemKind) (s : Scan)
      → is_nil (scan_kind target item kind s).transformations ≡ (
          is_nil s.transformations
          && (target.representation_metadata || not (is_metadata_kind kind)))
  unfolding scan_kind
  scan_kind-transformations item text s = ground arith
  scan_kind-transformations item kind s = ground arith

  pub scan_items-transformations :
      (items : List RelayHistoryItem) (s : Scan)
      → is_nil (scan_items target items s).transformations ≡ (
          is_nil s.transformations
          && (target.representation_metadata || not (any is_metadata items)))
  unfolding scan_items
  scan_items-transformations [] s = ground arith
  scan_items-transformations (item ∷ items) s = ground (
    arith,
    scan_items-transformations items (scan_kind target item item.kind s),
    scan_kind-transformations item item.kind s,
  )
