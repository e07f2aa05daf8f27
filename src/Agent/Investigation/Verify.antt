-- ===== src/Agent/Investigation/Verify.antt =====
-- form_hypothesis_node and verify_hypothesis_node of src/incidentpilot/agent/graph.py. `decide` is the
-- decision model.
use incidentpilot.Base.{
  Bool, true, false, ◌&&◌, ◌||◌, not, Option, none, some, List, [], ◌∷◌, ◌++◌, map, ◌==◌, string_eq,
  nat_eq, if◌then◌else◌, ltb, leb, length, Result, ok, ◌>>=◌,
}
use incidentpilot.Base.Exec.{Exec, pure, lift, bind}
use incidentpilot.Json.{str}
use incidentpilot.Enums.{
  RunStatus, WorkflowState, ToolCallStatus, status_eq, call_status_eq, contains,
}
use incidentpilot.Tools.Gateway.{ToolResult, Gateway}
use incidentpilot.Agent.Evidence.{Evidence, valid_evidence}
use incidentpilot.Agent.State.{
  Settings, Strategy, Hypothesis, RootCauseConclusion, ToolSelection, VerificationDecision,
  AgentState, Decisions, Runtime, insufficient, noted,
}
use incidentpilot.Agent.Investigation.{
  as_dict, last?, replace_last, distinct_count, source_reading, cites_known, concluded,
  direct_result, proposed, too_little, judged, rejected_state, sources_cited, fault_categories,
  cites_last,
}
use incidentpilot.Agent.Investigation.Collect.{call_tool}

module _ (settings : Settings) (decide : Decisions) (runtime : Runtime) where
  -- With at least two items of valid evidence.
  abbrev pub hypothesize : Strategy → AgentState → Result AgentState
  hypothesize Strategy.direct s =
      decide.direct_conclusion s s.evidence >>= λ c. ok (direct_result s c)
  hypothesize _ s = decide.propose_hypothesis s s.evidence >>= λ h. ok (proposed s h)

  unfoldable pub form_hypothesis_node : AgentState → Exec Gateway AgentState
  form_hypothesis_node s =
      let s0 = record s { workflow_state = WorkflowState.form_hypothesis } in
      let s1 = record s0 {
        evidence = valid_evidence runtime.content_hash s0.evidence s0.tool_calls s0.run_id;
      } in
      elim (s.status == RunStatus.running) [
        | false ↦ pure s0
        | true ↦ elim (ltb (length s1.evidence) 2) [
          | true ↦ pure (too_little s1)
          | false ↦ lift (hypothesize settings.evaluation_strategy s1)
        ]
      ]

  abbrev pub verification_item : AgentState → ToolSelection → ToolResult → Evidence
  verification_item s t r = record {
    evidence_id = runtime.evidence_id (length s.tool_calls);
    run_id = s.run_id;
    source = t.tool_name;
    source_type = "verification";
    tool_call_id = r.tool_call_id;
    content = runtime.printed r.output;
    summary = t.reason;
    hash = runtime.content_hash (as_dict r.output);
    result = as_dict r.output;
  }

  -- The observation failed, or its digest is already known.
  abbrev pub uninformative : AgentState → ToolResult → Bool
  uninformative s r =
      not (r.status == ToolCallStatus.succeeded)
      || contains (runtime.content_hash (as_dict r.output)) (map (λ e. e.hash) s.evidence)

  -- The negation of the long refusal test.
  abbrev pub accepted : RootCauseConclusion → List Evidence → Bool
  accepted c evidence =
      cites_known c.supporting_evidence_ids evidence
      && (cites_last c.supporting_evidence_ids evidence
          && (leb 2 (distinct_count (sources_cited c.supporting_evidence_ids evidence))
              && (decide.deterministic || contains c.fault_category fault_categories)))

  abbrev pub found : AgentState → RootCauseConclusion → AgentState
  found s c =
      let s' = record s {
        root_cause = some (concluded true c);
        workflow_state = WorkflowState.root_cause_found;
      } in
      if settings.investigation_only
      then record s' { status = RunStatus.investigation_complete }
      else s'

  abbrev pub conclusion_state : AgentState → RootCauseConclusion → AgentState
  conclusion_state s c = if accepted c s.evidence then found s c else insufficient s

  -- After the decision; `s` holds the judged hypothesis `h`.
  abbrev pub after_verdict : (supported : Bool) → AgentState → Hypothesis → Exec Gateway AgentState
  after_verdict false s h g = (ok (rejected_state s h g), g)
  after_verdict true s h g = (decide.conclude s h s.evidence >>= λ c. ok (conclusion_state s c), g)

  abbrev pub verdict : AgentState → Hypothesis → VerificationDecision → Exec Gateway AgentState
  verdict s proposal v =
      let h = judged v s.evidence proposal in
      after_verdict v.hypothesis_supported (record s { hypotheses = replace_last h s.hypotheses }) h

  -- `s` holds the new call.
  abbrev pub informed : AgentState → List Evidence → Hypothesis → Exec Gateway AgentState
  informed s evidence proposal =
      let kept = valid_evidence runtime.content_hash evidence s.tool_calls s.run_id in
      bind (lift (decide.verify proposal kept)) (verdict (record s { evidence = kept }) proposal)

  abbrev pub observe :
      AgentState → ToolSelection → Hypothesis → ToolResult → Exec Gateway AgentState
  observe s t proposal r =
      let s1 = record s { tool_calls = s.tool_calls ++ r ∷ [] } in
      elim (uninformative s r) [
        | true ↦ pure (
            noted "stop_reason" (str "verification failed or supplied no independent observation")
              (insufficient s1))
        | false ↦ informed s1 (s.evidence ++ verification_item s t r ∷ []) proposal
      ]

  abbrev pub verification_selection : Strategy → AgentState → Hypothesis → Result ToolSelection
  verification_selection Strategy.fixed s proposal =
      ok (source_reading "fixed independent verification" s)
  verification_selection _ s proposal = decide.verification_action s s.evidence proposal

  abbrev pub check_last : AgentState → Option Hypothesis → Exec Gateway AgentState
  check_last s none = pure (insufficient s)
  check_last s (some proposal) =
      bind (lift (verification_selection settings.evaluation_strategy s proposal))
        (λ t. bind (call_tool settings decide runtime s s.tool_calls t) (observe s t proposal))

  unfoldable pub verify_hypothesis_node : AgentState → Exec Gateway AgentState
  verify_hypothesis_node s =
      let s0 = record s { workflow_state = WorkflowState.verify_hypothesis } in
      elim (s.status == RunStatus.running) [
        | false ↦ pure s0
        | true ↦ check_last s0 (last? s0.hypotheses)
      ]
