-- ===== src/Relay/Verdict.antt =====
-- Which histories can be resumed elsewhere (services/provider_relay_compatibility.rs).
use lam.Prelude.{
  ℕ, ◌≤◌, String, ◌≡◌, ◌≢◌, ◌↔◌, refl, ◌∙◌, Bool, true, false, ◌==◌, nat_eq, string_eq, ◌&&◌, ◌||◌,
  Option, none, some, List, [], ◌∷◌, ◌++◌, length, length-append, any, all, arith, is_some-find,
}
use lam.Prelude.Keyed.{get, has, all-get, all_of_get, get-key}
use lam.Relay.{
  RelayHistoryItem, RelayTargetCapabilities, RelayCompatibilityIssue, Groups, Scan, blocked,
  nothing_yet, group_key, items_of, scan_items, report_items, pair_calls, pair_results,
  disposition_of, analyze_relay_compatibility,
}
use lam.Relay.Groups.{IsSound}
use lam.Relay.Counts.{
  is_nil, portable, calls_in, results_in, scan_items-issues, Grouped-scan_items,
  scan_items-transformations, is_metadata,
}

report_items-quiet :
    (reason : String) (items : List RelayHistoryItem) (issues : List RelayCompatibilityIssue)
    → is_nil (report_items reason items issues) ≡ (is_nil issues && is_nil items)
unfolding report_items
report_items-quiet reason [] issues = ground arith
report_items-quiet reason (item ∷ items) [] = report_items-quiet reason items _
report_items-quiet reason (item ∷ items) (i ∷ issues) =
    report_items-quiet reason items _ ∙ ground arith

-- no issue is raised for a group of calls, and none for a group of results
abbrev paired : Groups → String × List RelayHistoryItem → Bool
paired results g =
    length g.1 == 1 && length (items_of g.0 results) == 1 || is_nil (g.1 ++ items_of g.0 results)

abbrev claimed : Groups → String × List RelayHistoryItem → Bool
claimed calls g = has group_key g.0 calls || is_nil g.1

pair_calls-quiet :
    (results calls : Groups) (issues : List RelayCompatibilityIssue)
    → is_nil (pair_calls results calls issues) ≡ (is_nil issues && all (paired results) calls)
unfolding pair_calls
pair_calls-quiet results [] issues = ground arith
pair_calls-quiet results ((k, items) ∷ calls) issues =
    pair_calls-quiet results calls _
    ∙ ground (
      arith,
      report_items-quiet "function tool state is incomplete or ambiguous"
          (items ++ items_of k results) issues,
    )

pair_results-quiet :
    (calls results : Groups) (issues : List RelayCompatibilityIssue)
    → is_nil (pair_results calls results issues) ≡ (is_nil issues && all (claimed calls) results)
unfolding pair_results
pair_results-quiet calls [] issues = ground arith
pair_results-quiet calls ((k, items) ∷ results) issues =
    pair_results-quiet calls results _
    ∙ ground (arith, report_items-quiet "function result has no matching call" items issues)

-- every id has as many calls as results, and at most one
abbrev IsMatched : (String → ℕ) → (String → ℕ) → Type 0
IsMatched calls results = (k : String) → (calls k ≡ results k) × (calls k ≤ 1)

abbrev size : Groups → String → ℕ
size g k = length (items_of k g)

module _ (calls results : Groups) (sc : IsSound calls) (sr : IsSound results) where
  IsMatched-quiet :
      all (paired results) calls ≡ true
      → all (claimed calls) results ≡ true
      → IsMatched (size calls) (size results)
  IsMatched-quiet p c k = go (get group_key k calls) refl (get group_key k results) refl
    where
      go :
          (o : Option (String × List RelayHistoryItem))
          → get group_key k calls ≡ o
          → (o' : Option (String × List RelayHistoryItem)) → get group_key k results ≡ o'
          → (size calls k ≡ size results k) × (size calls k ≤ 1)
      go none e none e' = unfold items_of in ground (arith, e, e')
      go none e (some g) e' =
          unfold items_of in
          ground (
            arith,
            e,
            e',
            get-key group_key k results g e',
            is_some-find (λ x. group_key x == k) calls,
            all-get group_key (claimed calls) results k g c e',
          )
      go (some g) e o' e' =
          unfold items_of in
          ground (
            arith,
            e,
            e',
            get-key group_key k calls g e,
            is_some-find (λ x. group_key x == k) calls,
            sc.filled k,
            all-get group_key (paired results) calls k g p e,
            length-append g.1 (items_of k results),
          )

  quiet-IsMatched :
      IsMatched (size calls) (size results)
      → (all (paired results) calls ≡ true) × (all (claimed calls) results ≡ true)
  quiet-IsMatched m = (
    all_of_get group_key (paired results) calls sc.unique (λ k g e. call_paired k g e),
    all_of_get group_key (claimed calls) results sr.unique (λ k g e. result_claimed k g e),
  )
    where
      call_paired :
          (k : String) (g : String × List RelayHistoryItem)
          → get group_key k calls ≡ some g
          → paired results g ≡ true
      call_paired k g e =
          unfold items_of in
          ground (
            arith,
            e,
            m k,
            get-key group_key k calls g e,
            is_some-find (λ x. group_key x == k) calls,
            sc.filled k,
          )

      result_claimed :
          (k : String) (g : String × List RelayHistoryItem)
          → get group_key k results ≡ some g
          → claimed calls g ≡ true
      result_claimed k g e =
          unfold items_of in
          ground (
            arith,
            e,
            m k,
            get-key group_key k results g e,
            is_some-find (λ x. group_key x == k) results,
            sr.filled k,
            sc.filled k,
          )

-- every call of a history has one result, and every result one call
abbrev pub IsPaired : List RelayHistoryItem → Type 0
IsPaired items = IsMatched (λ k. calls_in k items) (λ k. results_in k items)

module _ (items : List RelayHistoryItem) (target : RelayTargetCapabilities) where
  abbrev scanned : Scan
  scanned = scan_items target items nothing_yet

  scanned_paired_iff :
      (all (paired scanned.results) scanned.calls ≡ true
        × all (claimed scanned.calls) scanned.results ≡ true)
      ↔ IsPaired items
  scanned_paired_iff =
      let grouped = Grouped-scan_items target items nothing_yet in
      let sound : IsSound [] = record { unique = tt; filled = λ k. unfold items_of in refl } in
      let empty : (k : String) → size [] k ≡ 0 = λ k. unfold items_of in refl in
      let sc = grouped.sound_calls sound in
      let sr = grouped.sound_results sound in
      (
        λ q k.
            let (same, one) = IsMatched-quiet scanned.calls scanned.results sc sr q.0 q.1 k in
            ground (arith, same, one, empty k, grouped.more_calls k, grouped.more_results k),
        λ m.
            quiet-IsMatched scanned.calls scanned.results sc sr
              (λ k. ground (arith, m k, empty k, grouped.more_calls k, grouped.more_results k)),
      )

  report_quiet : is_nil (analyze_relay_compatibility items target).issues ≡ (
      all (portable target) items
      && all (paired scanned.results) scanned.calls
      && all (claimed scanned.calls) scanned.results)
  unfolding analyze_relay_compatibility
  report_quiet =
      pair_results-quiet scanned.calls scanned.results _
      ∙ ground (
        arith,
        pair_calls-quiet scanned.results scanned.calls scanned.issues,
        scan_items-issues target items nothing_yet,
      )

  blocked-quiet :
      ((analyze_relay_compatibility items target).disposition ≢ blocked)
      ↔ (is_nil (analyze_relay_compatibility items target).issues ≡ true)
  unfolding analyze_relay_compatibility disposition_of
  blocked-quiet = ground arith

  -- A history is not blocked exactly if the target takes each of its items by itself, and each call id
  -- has as many calls as results in it, and at most one.
  pub analyze-blocked_iff :
      ((analyze_relay_compatibility items target).disposition ≢ blocked)
      ↔ ((all (portable target) items ≡ true) × IsPaired items)
  analyze-blocked_iff =
      let (to, from) = scanned_paired_iff in
      let (unblocked, quiet) = blocked-quiet in
      (
        λ h. (
          ground (arith, unblocked h, report_quiet),
          to (ground (arith, unblocked h, report_quiet)),
        ),
        λ h. quiet (report_quiet ∙ ground (arith, h.0, from h.1)),
      )

  confirmed-quiet : ((analyze_relay_compatibility items target).confirmation_required ≡ true) ↔ (
      (is_nil (analyze_relay_compatibility items target).issues ≡ true)
      × (is_nil (analyze_relay_compatibility items target).transformations ≡ false))
  unfolding analyze_relay_compatibility disposition_of
  confirmed-quiet = ground arith

  -- A confirmation is asked for exactly where the target takes each item by itself, each call id has
  -- as many calls as results, and at most one, and there are items that are only shown, which the
  -- target does not show.
  pub analyze-confirmation_iff :
      ((analyze_relay_compatibility items target).confirmation_required ≡ true) ↔ (
        (all (portable target) items ≡ true)
        × IsPaired items
        × (target.representation_metadata ≡ false)
        × (any is_metadata items ≡ true))
  unfolding analyze_relay_compatibility
  analyze-confirmation_iff =
      let (to, from) = scanned_paired_iff in
      let shown = scan_items-transformations target items nothing_yet in
      (
        λ h.
            let (quiet, lossy) = confirmed-quiet.0 h in
            (
              ground (arith, quiet, report_quiet),
              to (ground (arith, quiet, report_quiet)),
              ground (arith, lossy, shown),
              ground (arith, lossy, shown),
            ),
        λ h.
            confirmed-quiet.1
              (report_quiet ∙ ground (arith, h.0, from h.1), ground (arith, h, shown)),
      )
