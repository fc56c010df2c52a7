-- ===== src/Relay.antt =====
-- `analyze_relay_compatibility` of services/provider_relay_compatibility.rs: whether another route
-- can take over the history of a session.
pub mod Groups
pub mod Counts
pub mod Verdict
mod Examples
use lam.Prelude.{
  ℕ, String, Bool, true, false, not, ◌==◌, nat_eq, string_eq, ◌&&◌, ◌||◌, if◌then◌else◌, Option,
  none, some, List, [], ◌∷◌, ◌++◌, length, any, find, get_or_else, is_some,
}
use lam.Prelude.Keyed.{get, has, update, insert_sorted}

pub data RelayCompatibilityDisposition : Type 0 where
  compatible compatible_with_loss blocked : RelayCompatibilityDisposition

pub data RelayHistoryItemKind : Type 0 where
  text : RelayHistoryItemKind
  function_call : String → Bool → RelayHistoryItemKind
  function_result : String → RelayHistoryItemKind
  representation_metadata previous_response_state encrypted_reasoning : RelayHistoryItemKind
  hosted_tool mcp_tool computer_use image audio file unknown corrupt : RelayHistoryItemKind

-- `RelayHistoryItemKind::label`
unfoldable pub label : RelayHistoryItemKind → String
label text = "text"
label (function_call call_id verified) = "function_call"
label (function_result call_id) = "function_result"
label representation_metadata = "representation_metadata"
label previous_response_state = "previous_response_state"
label encrypted_reasoning = "encrypted_reasoning"
label hosted_tool = "hosted_tool"
label mcp_tool = "mcp_tool"
label computer_use = "computer_use"
label image = "image"
label audio = "audio"
label file = "file"
label unknown = "unknown"
label corrupt = "corrupt"

pub record RelayHistoryItem : Type 0 where
  pub id : String
  pub kind : RelayHistoryItemKind

pub record RelayTargetCapabilities : Type 0 where
  pub function_tools : Bool
  pub representation_metadata : Bool

pub record RelayCompatibilityIssue : Type 0 where
  pub item_id : String
  pub item_type : String
  pub reason : String
  pub recovery_action : String

pub record RelayTransformation : Type 0 where
  pub item_id : String
  pub item_type : String
  pub action : String
  pub warning : String

pub record RelayCompatibilityReport : Type 0 where
  pub disposition : RelayCompatibilityDisposition
  pub confirmation_required : Bool
  pub issues : List RelayCompatibilityIssue
  pub transformations : List RelayTransformation

unfoldable pub blocked_reason : RelayHistoryItemKind → String
blocked_reason previous_response_state =
    "previous-response state cannot be reconstructed without a response store"
blocked_reason encrypted_reasoning = "encrypted reasoning is bound to the original runtime"
blocked_reason hosted_tool = "hosted tool state is not portable"
blocked_reason mcp_tool = "MCP tool state is not portable"
blocked_reason computer_use = "computer-use state is not portable"
blocked_reason image = "image history has no verified target mapping"
blocked_reason audio = "audio history has no verified target mapping"
blocked_reason file = "file history has no verified target mapping"
blocked_reason unknown = "unknown session item fails closed"
blocked_reason corrupt = "corrupt session item fails closed"
blocked_reason _ = "session item is unsupported by the target route"

unfoldable pub issue : RelayHistoryItem → String → RelayCompatibilityIssue
unfolding label
issue item reason = record {
  item_id = item.id;
  item_type = label item.kind;
  reason = reason;
  recovery_action = "resume on the original Provider or start a new target session";
}

-- `BTreeMap<&str, Vec<&RelayHistoryItem>>`, in the order of its keys
abbrev pub Groups : Type 0
Groups = List (String × List RelayHistoryItem)

abbrev pub group_key : String × List RelayHistoryItem → String
group_key g = g.0

-- `entry(call_id).or_default().push(item)`: into the entry that is there, or into a new one
unfoldable pub push_entry : String → RelayHistoryItem → Groups → Groups
push_entry k item groups =
    if has group_key k groups
    then update group_key k (λ g. (g.0, g.1 ++ item ∷ [])) groups
    else insert_sorted group_key (k, item ∷ []) groups

-- what the loop over the items collects
pub record Scan : Type 0 where
  pub issues : List RelayCompatibilityIssue
  pub transformations : List RelayTransformation
  pub calls : Groups
  pub results : Groups

unfoldable pub drop_metadata : RelayHistoryItem → RelayTransformation
unfolding label
drop_metadata item = record {
  item_id = item.id;
  item_type = label item.kind;
  action = "drop_non_protocol_metadata";
  warning = "display-only metadata is unavailable on the target route";
}

abbrev pub add_issue : RelayHistoryItem → String → Scan → Scan
add_issue item reason s = record s { issues = s.issues ++ issue item reason ∷ [] }

unfoldable pub scan_call : RelayTargetCapabilities → RelayHistoryItem → String → Bool → Scan → Scan
unfolding push_entry issue
scan_call target item call_id verified s =
    let s' : Scan = record s { calls = push_entry call_id item s.calls } in
    if not target.function_tools
    then add_issue item "target route has no verified function-tool mapping" s'
    else if not verified
    then add_issue item "function call mapping is not verified" s'
    else s'

unfoldable pub scan_result : RelayTargetCapabilities → RelayHistoryItem → String → Scan → Scan
unfolding push_entry issue
scan_result target item call_id s =
    let s' : Scan = record s { results = push_entry call_id item s.results } in
    if not target.function_tools
    then add_issue item "target route has no verified function-tool mapping" s'
    else s'

unfoldable pub scan_metadata : RelayTargetCapabilities → RelayHistoryItem → Scan → Scan
unfolding drop_metadata
scan_metadata target item s =
    if not target.representation_metadata
    then record s { transformations = s.transformations ++ drop_metadata item ∷ [] }
    else s

-- the `match` on the item's kind
unfoldable pub scan_kind :
    RelayTargetCapabilities → RelayHistoryItem → RelayHistoryItemKind → Scan → Scan
unfolding scan_call scan_result scan_metadata issue blocked_reason
scan_kind target item text s = s
scan_kind target item (function_call call_id verified) s = scan_call target item call_id verified s
scan_kind target item (function_result call_id) s = scan_result target item call_id s
scan_kind target item representation_metadata s = scan_metadata target item s
scan_kind target item kind s = add_issue item (blocked_reason kind) s

unfoldable pub scan_items : RelayTargetCapabilities → List RelayHistoryItem → Scan → Scan
unfolding scan_kind
scan_items target [] s = s
scan_items target (item ∷ items) s = scan_items target items (scan_kind target item item.kind s)

-- an issue for each item that has none yet
unfoldable pub report_items :
    String → List RelayHistoryItem → List RelayCompatibilityIssue → List RelayCompatibilityIssue
unfolding issue
report_items reason [] issues = issues
report_items reason (item ∷ items) issues =
    report_items reason items
      (if any (λ i. i.item_id == item.id) issues then issues else issues ++ issue item reason ∷ [])

-- `map(Vec::as_slice).unwrap_or_default()`
abbrev pub members : Option (String × List RelayHistoryItem) → List RelayHistoryItem
members none = []
members (some g) = g.1

-- `results.get(call_id)`, with the empty slice where there is none
unfoldable pub items_of : String → Groups → List RelayHistoryItem
items_of k groups = members (get group_key k groups)

unfoldable pub pair_calls :
    Groups → Groups → List RelayCompatibilityIssue → List RelayCompatibilityIssue
unfolding report_items items_of
pair_calls results [] issues = issues
pair_calls results ((call_id, call_items) ∷ calls) issues =
    let result_items = items_of call_id results in
    pair_calls results calls (
      if not (length call_items == 1) || not (length result_items == 1)
      then report_items "function tool state is incomplete or ambiguous"
          (call_items ++ result_items) issues
      else issues)

unfoldable pub pair_results :
    Groups → Groups → List RelayCompatibilityIssue → List RelayCompatibilityIssue
unfolding report_items
pair_results calls [] issues = issues
pair_results calls ((call_id, result_items) ∷ results) issues = pair_results calls results (
    if not (has group_key call_id calls)
    then report_items "function result has no matching call" result_items issues
    else issues)

unfoldable pub disposition_of :
    List RelayCompatibilityIssue → List RelayTransformation → RelayCompatibilityDisposition
disposition_of (i ∷ issues) transformations = blocked
disposition_of [] (t ∷ transformations) = compatible_with_loss
disposition_of [] [] = compatible

abbrev pub is_lossy : RelayCompatibilityDisposition → Bool
is_lossy d = elim d [ compatible ↦ false | compatible_with_loss ↦ true | blocked ↦ false ]

abbrev pub nothing_yet : Scan
nothing_yet = record { issues = []; transformations = []; calls = []; results = [] }

unfoldable pub analyze_relay_compatibility :
    List RelayHistoryItem → RelayTargetCapabilities → RelayCompatibilityReport
unfolding scan_items pair_calls pair_results disposition_of
analyze_relay_compatibility items target =
    let s = scan_items target items nothing_yet in
    let issues = pair_results s.calls s.results (pair_calls s.results s.calls s.issues) in
    let disposition = disposition_of issues s.transformations in
    record {
      disposition = disposition;
      confirmation_required = is_lossy disposition;
      issues = issues;
      transformations = s.transformations;
    }
