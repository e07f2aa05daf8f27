-- ===== src/Agent/State.antt =====
-- AgentState of src/incidentpilot/agent/graph.py, the schemas of src/incidentpilot/llm/schemas.py
-- that its nodes read, and what the nodes take from outside: the answers of the decision model and
-- fresh identifiers. Timestamps of evidence are not modelled.
use incidentpilot.Base.{
  ℕ, String, Bool, true, false, ◌&&◌, Option, List, [], ◌∷◌, map, string_eq, Result,
}
use incidentpilot.Json.{Json, Dict, put}
use incidentpilot.Enums.{RunStatus, WorkflowState, status_eq, contains}
use incidentpilot.Tools.Gateway.{ToolResult, Outside, Registry}
use incidentpilot.Agent.Evidence.{Evidence}

pub data Strategy : Type 0 where
  autonomous fixed direct : Strategy

-- The settings that the nodes read.
pub record Settings : Type 0 where
  pub evaluation_strategy : Strategy
  pub investigation_only : Bool
  pub max_tool_calls : ℕ
  pub max_patch_attempts : ℕ

pub data Confidence : Type 0 where
  low medium high : Confidence

pub data HypothesisStatus : Type 0 where
  open_ verified rejected : HypothesisStatus

-- A HypothesisProposal, with the keys that the nodes add to it.
pub record Hypothesis : Type 0 where
  pub statement : String
  pub evidence_ids : List String
  pub confidence : Confidence
  pub status : HypothesisStatus
  pub verified : Bool
  pub verification_notes : String

pub record RootCauseConclusion : Type 0 where
  pub statement : String
  pub fault_category : String
  pub affected_component : String
  pub causal_facts : List String
  pub supporting_evidence_ids : List String
  pub confidence : Confidence

pub record RootCause : Type 0 where
  pub summary : String
  pub fault_category : String
  pub affected_component : String
  pub causal_facts : List String
  pub evidence_ids : List String
  pub confidence : Confidence
  pub verified : Bool

pub record ToolSelection : Type 0 where
  pub tool_name : String
  pub reason : String
  pub arguments : Dict

pub data Action : Type 0 where
  collect_evidence form_hypothesis verify_hypothesis declare_root_cause : Action
  insufficient_evidence needs_human : Action

pub record NextAction : Type 0 where
  pub action : Action
  pub tool_selection : Option ToolSelection
  pub reason : String

pub record VerificationDecision : Type 0 where
  pub hypothesis_supported : Bool
  pub notes : String

pub data AttemptStatus : Type 0 where
  created applied apply_failed tests_passed tests_failed : AttemptStatus

abbrev pub attempt_status_beq : AttemptStatus → AttemptStatus → Bool
attempt_status_beq created created = true
attempt_status_beq applied applied = true
attempt_status_beq apply_failed apply_failed = true
attempt_status_beq tests_passed tests_passed = true
attempt_status_beq tests_failed tests_failed = true
attempt_status_beq _ _ = false

pub record PatchAttempt : Type 0 where
  pub attempt : ℕ
  pub summary : String
  pub patch_diff : String
  pub status : AttemptStatus
  pub base_commit_sha : Option String
  pub test_run_id : Option String
  pub test_ok : Bool
  pub reflection : String
  pub error : Option String

-- The exported artifact.
pub record Exported : Type 0 where
  pub patch_artifact_id : String
  pub patch_hash : String
  pub base_commit_sha : String
  pub patch_diff : String
  pub test_run_id : String

pub record AgentState : Type 0 where
  pub run_id : String
  pub service : String
  pub repository : String
  pub workflow_state : WorkflowState
  pub evidence : List Evidence
  pub hypotheses : List Hypothesis
  pub root_cause : Option RootCause
  pub tool_calls : List ToolResult
  pub patch_attempts : List PatchAttempt
  pub patch_artifact : Option Exported
  pub approval_required : Bool
  pub status : RunStatus
  pub error : Option String
  pub result : Dict
  pub trace_id : String

-- The decision model, as it answers on what the nodes hand to it; any of its calls may raise.
pub record Decisions : Type 0 where
  pub deterministic : Bool
  pub next_action : AgentState → List ToolResult → List Evidence → Result NextAction
  pub propose_hypothesis : AgentState → List Evidence → Result Hypothesis
  pub direct_conclusion : AgentState → List Evidence → Result RootCauseConclusion
  pub verification_action : AgentState → List Evidence → Hypothesis → Result ToolSelection
  pub verify : Hypothesis → List Evidence → Result VerificationDecision
  pub conclude : AgentState → Hypothesis → List Evidence → Result RootCauseConclusion

-- Fresh identifiers, by the number of the call in the run, and the digest of an output. `registry`
-- gives the tools as they answer at that call.
pub record Runtime : Type 0 where
  pub outside : Outside
  pub registry : ℕ → Registry
  pub call_id : ℕ → String
  pub evidence_id : ℕ → String
  pub dumped : Json → String
  pub printed : Json → String
  pub content_hash : Dict → String
  pub source_type : String → String

abbrev pub ids_of : List Evidence → List String
ids_of = map (λ e. e.evidence_id)

-- set(xs).issubset(ys)
abbrev pub subset : List String → List String → Bool
subset [] ys = true
subset (x ∷ xs) ys = contains x ys && subset xs ys

abbrev pub stopped : RunStatus → WorkflowState → AgentState → AgentState
stopped status workflow s = record s { status = status; workflow_state = workflow }

abbrev pub insufficient : AgentState → AgentState
insufficient = stopped RunStatus.insufficient_evidence WorkflowState.insufficient_evidence

abbrev pub with_human : AgentState → AgentState
with_human = stopped RunStatus.needs_human_intervention WorkflowState.needs_human_intervention

-- {**(s.get("result") or {}), k: v}
abbrev pub noted : String → Json → AgentState → AgentState
noted k v s = record s { result = put k v s.result }
