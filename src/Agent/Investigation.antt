-- ===== src/Agent/Investigation.antt =====
-- What the investigating nodes of src/incidentpilot/agent/graph.py share, and the routes between
-- them: Collect has collect_evidence_node, Verify form_hypothesis_node and verify_hypothesis_node. A
-- node takes the state of the graph and the gateway, whose budget it uses.
pub mod Collect
pub mod Verify
pub mod Steps
pub mod Grounds
use incidentpilot.Base.{
  ℕ, zero, suc, String, ◌+◌, ◌-◌, ◌≡◌, Bool, true, false, ◌&&◌, ◌||◌, not, Option, none, some, List,
  [], ◌∷◌, ◌++◌, map, ◌==◌, string_eq, nat_eq, if◌then◌else◌, ltb, leb, is_null, length, Result, ok,
  err, Exception, is_just, ◌>>=◌, count_where,
}
use incidentpilot.Base.Exec.{Exec, pure, lift, bind}
use incidentpilot.Json.{
  Json, null, bool, num, str, arr, obj, Items, nil, cons, Dict, end, field, put,
}
use incidentpilot.Enums.{
  RunStatus, WorkflowState, ToolCallStatus, status_eq, call_status_eq, contains,
}
use incidentpilot.Tools.Gateway.{ToolResult, Gateway, can_step, record_step, call, BudgetTracker}
use incidentpilot.Agent.Evidence.{Evidence, valid_evidence}
use incidentpilot.Agent.State.{
  Settings, Strategy, Confidence, HypothesisStatus, Hypothesis, RootCauseConclusion, RootCause,
  ToolSelection, Action, NextAction, VerificationDecision, AgentState, Decisions, Runtime, ids_of,
  subset, stopped, insufficient, with_human, noted,
}

abbrev pub readonly_tools : List String
readonly_tools =
    "read_metrics" ∷ "read_logs" ∷ "inspect_git_history" ∷ "inspect_git_diff" ∷ "read_source_code"
    ∷ "query_database_readonly" ∷ []

abbrev pub as_dict : Json → Dict
as_dict (obj d) = d
as_dict _ = end

abbrev pub get_elem? : {A : Type 0} → List A → ℕ → Option A
get_elem? [] n = none
get_elem? (x ∷ xs) zero = some x
get_elem? (x ∷ xs) (suc n) = get_elem? xs n

abbrev pub last? : {A : Type 0} → List A → Option A
last? [] = none
last? (x ∷ []) = some x
last? (x ∷ y ∷ xs) = last? (y ∷ xs)

-- xs[:-1] + [y]
abbrev pub replace_last : {A : Type 0} → A → List A → List A
replace_last y [] = y ∷ []
replace_last y (x ∷ []) = y ∷ []
replace_last y (x ∷ z ∷ xs) = x ∷ replace_last y (z ∷ xs)

-- len(set(xs))
abbrev pub distinct_count : List String → ℕ
distinct_count [] = 0
distinct_count (x ∷ xs) = (if contains x xs then 0 else 1) + distinct_count xs

abbrev pub is_rejected : Hypothesis → Bool
is_rejected h = elim h.status [ HypothesisStatus.rejected ↦ true | _ ↦ false ]

abbrev pub selection : String → Dict → String → ToolSelection
selection tool arguments reason = record {
  tool_name = tool;
  arguments = arguments;
  reason = reason;
}

abbrev pub fixed_reason : String
fixed_reason = "fixed baseline observation"

-- The observations of the two baselines, in their order.
abbrev pub fixed_plan : AgentState → List ToolSelection
fixed_plan s =
    selection "read_metrics" (field "service" (str s.service) end) fixed_reason
    ∷ selection "read_logs" (field "service" (str s.service) end) fixed_reason
    ∷ selection "inspect_git_history"
        (field "repository" (str s.repository) (field "limit" (num 5) end)) fixed_reason
    ∷ []

abbrev pub source_reading : String → AgentState → ToolSelection
source_reading reason s =
    selection "read_source_code"
      (field "repository" (str s.repository) (field "path" (str "app.py") end)) reason

abbrev pub planned : Option ToolSelection → NextAction
planned none = record { action = Action.form_hypothesis; tool_selection = none; reason = "" }
planned (some t) = record { action = Action.collect_evidence; tool_selection = some t; reason = "" }

-- The locals of the collecting loop.
pub record Collected : Type 0 where
  pub s : AgentState
  pub tool_calls : List ToolResult
  pub evidence : List Evidence

abbrev pub stepped : Gateway → Gateway
stepped g = record g { budget = record_step g.budget }

abbrev pub unregistered : Collected → ToolResult → Bool × Collected
unregistered c r = (
  false,
  record c {
    tool_calls = c.tool_calls ++ r ∷ [];
    s = noted "stop_reason" (str "model selected an unregistered tool") (with_human c.s);
  },
)

abbrev pub collected_state : Collected → BudgetTracker → AgentState
collected_state c b =
    let s = record c.s { tool_calls = c.tool_calls; evidence = c.evidence } in
    let s' = noted "investigation_steps" (num b.step_count) s in
    if not (can_step b) && s'.status == RunStatus.running then with_human s' else s'

abbrev pub empty_handed : AgentState → AgentState
empty_handed s = elim s.evidence [
  | [] ↦ record (insufficient s) { result = field "message" (str "no evidence collected") end }
  | _ ∷ _ ↦ s
]

-- Without exactly the given ids, or with an unknown one, nothing is bound.
abbrev pub cites_known : List String → List Evidence → Bool
cites_known [] known = false
cites_known (i ∷ ids) known = subset (i ∷ ids) (ids_of known)

abbrev pub concluded : Bool → RootCauseConclusion → RootCause
concluded verified c = record {
  summary = c.statement;
  fault_category = c.fault_category;
  affected_component = c.affected_component;
  causal_facts = c.causal_facts;
  evidence_ids = c.supporting_evidence_ids;
  confidence = c.confidence;
  verified = verified;
}

abbrev pub direct_result : AgentState → RootCauseConclusion → AgentState
direct_result s c =
    if cites_known c.supporting_evidence_ids s.evidence
    then stopped RunStatus.investigation_complete WorkflowState.root_cause_found
        (record s { root_cause = some (concluded false c) })
    else insufficient s

abbrev pub proposed : AgentState → Hypothesis → AgentState
proposed s h =
    if cites_known h.evidence_ids s.evidence
    then record s {
      hypotheses =
          s.hypotheses ++ record h { status = HypothesisStatus.open_; verified = false } ∷ [];
    }
    else record (insufficient s) {
      result = field "message" (str "model hypothesis cited unknown or no evidence") end;
    }

abbrev pub too_little : AgentState → AgentState
too_little s = record (insufficient s) {
  result =
      field "message" (str "insufficient evidence")
        (field "evidence_count" (num (length s.evidence)) end);
}

abbrev pub str_items : List String → Items
str_items [] = nil
str_items (x ∷ xs) = cons (str x) (str_items xs)

abbrev pub confidence_text : Confidence → String
confidence_text Confidence.low = "LOW"
confidence_text Confidence.medium = "MEDIUM"
confidence_text Confidence.high = "HIGH"

abbrev pub hypothesis_text : HypothesisStatus → String
hypothesis_text HypothesisStatus.open_ = "OPEN"
hypothesis_text HypothesisStatus.verified = "VERIFIED"
hypothesis_text HypothesisStatus.rejected = "REJECTED"

abbrev pub hypothesis_dict : Hypothesis → Dict
hypothesis_dict h = field "statement" (str h.statement) (
    field "evidence_ids" (arr (str_items h.evidence_ids)) (
      field "confidence" (str (confidence_text h.confidence)) (
        field "status" (str (hypothesis_text h.status)) (
          field "verified" (bool h.verified)
            (field "verification_notes" (str h.verification_notes) end)))))

abbrev pub judged : VerificationDecision → List Evidence → Hypothesis → Hypothesis
judged v evidence h = record h {
  evidence_ids = ids_of evidence;
  verified = v.hypothesis_supported;
  status = if v.hypothesis_supported then HypothesisStatus.verified else HypothesisStatus.rejected;
  verification_notes = v.notes;
}

abbrev pub rejected_count : AgentState → ℕ
rejected_count s = count_where is_rejected s.hypotheses

abbrev pub rejected_state : AgentState → Hypothesis → Gateway → AgentState
rejected_state s h g =
    let s' = record s {
      result =
          field "message" (str h.verification_notes)
            (field "hypothesis" (obj (hypothesis_dict h)) end);
    } in
    if leb 3 (rejected_count s) || not (can_step g.budget) then insufficient s' else s'

abbrev pub sources_cited : List String → List Evidence → List String
sources_cited ids [] = []
sources_cited ids (e ∷ es) =
    if contains e.evidence_id ids then e.source ∷ sources_cited ids es else sources_cited ids es

abbrev pub fault_categories : List String
fault_categories =
    "database_performance" ∷ "application_bug" ∷ "dependency" ∷ "data_contract" ∷ "configuration"
    ∷ "code_regression" ∷ []

abbrev pub cites_last : List String → List Evidence → Bool
cites_last ids evidence = elim (last? evidence) [
  | none ↦ false
  | some e ↦ contains e.evidence_id ids
]

-- Where the graph goes next.
pub data Node : Type 0 where
  plan collect_evidence form_hypothesis verify_hypothesis create_sandbox generate_patch : Node
  run_tests reflect export_patch_artifact wait_for_approval needs_human finished : Node

abbrev pub route_after_collect : AgentState → Node
route_after_collect s =
    if s.status == RunStatus.running then Node.form_hypothesis else Node.finished

abbrev pub route_after_form : AgentState → Node
route_after_form s = if s.status == RunStatus.running then Node.verify_hypothesis else Node.finished

abbrev pub another_round : ℕ → BudgetTracker → Node
another_round rejected b =
    if not (rejected == 0) && (can_step b && ltb rejected 3)
    then Node.collect_evidence
    else Node.finished

abbrev pub route_after_verify : AgentState → BudgetTracker → Node
route_after_verify s b =
    if s.status == RunStatus.running
    then (if is_null s.root_cause
        then another_round (count_where is_rejected s.hypotheses) b
        else Node.create_sandbox)
    else Node.finished
