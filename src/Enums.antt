-- ===== src/Enums.antt =====
-- src/incidentpilot/models/enums.py: the status enumerations of a run and the transition table.
-- A StrEnum member is a constructor; `value` strings are only ever compared for equality.
pub mod Transitions
use incidentpilot.Base.{
  ℕ, String, ◌≡◌, Bool, true, false, ◌||◌, List, [], ◌∷◌, ◌++◌, arith, ◌↔◌, Eq, ◌==◌,
}

pub data RunStatus : Type 0 where
  pending running investigation_complete waiting_approval : RunStatus
  resolved insufficient_evidence needs_human_intervention failed : RunStatus

abbrev pub status_beq : RunStatus → RunStatus → Bool
status_beq pending pending = true
status_beq running running = true
status_beq investigation_complete investigation_complete = true
status_beq waiting_approval waiting_approval = true
status_beq resolved resolved = true
status_beq insufficient_evidence insufficient_evidence = true
status_beq needs_human_intervention needs_human_intervention = true
status_beq failed failed = true
status_beq _ _ = false

pub status_beq_iff : (a b : RunStatus) → (status_beq a b ≡ true) ↔ (a ≡ b)
status_beq_iff a b = ground arith

instance abbrev pub status_eq : Eq RunStatus
status_eq = record { same = status_beq; same_iff = status_beq_iff }

pub data WorkflowState : Type 0 where
  incident_received plan collect_evidence form_hypothesis verify_hypothesis : WorkflowState
  root_cause_found insufficient_evidence create_sandbox generate_patch run_tests : WorkflowState
  reflect export_patch_artifact destroy_sandbox wait_for_approval : WorkflowState
  create_pull_request resolved needs_human_intervention failed : WorkflowState

pub data ApprovalDecision : Type 0 where
  approve reject : ApprovalDecision

abbrev pub decision_beq : ApprovalDecision → ApprovalDecision → Bool
decision_beq approve approve = true
decision_beq reject reject = true
decision_beq _ _ = false

pub decision_beq_iff : (a b : ApprovalDecision) → (decision_beq a b ≡ true) ↔ (a ≡ b)
decision_beq_iff a b = ground arith

instance abbrev pub decision_eq : Eq ApprovalDecision
decision_eq = record { same = decision_beq; same_iff = decision_beq_iff }

pub data IncidentStatus : Type 0 where
  received investigating waiting_approval resolved : IncidentStatus
  insufficient_evidence needs_human_intervention failed : IncidentStatus

pub data ToolCallStatus : Type 0 where
  pending succeeded failed timeout denied : ToolCallStatus

abbrev pub call_status_beq : ToolCallStatus → ToolCallStatus → Bool
call_status_beq pending pending = true
call_status_beq succeeded succeeded = true
call_status_beq failed failed = true
call_status_beq timeout timeout = true
call_status_beq denied denied = true
call_status_beq _ _ = false

pub call_status_beq_iff : (a b : ToolCallStatus) → (call_status_beq a b ≡ true) ↔ (a ≡ b)
call_status_beq_iff a b = ground arith

instance abbrev pub call_status_eq : Eq ToolCallStatus
call_status_eq = record { same = call_status_beq; same_iff = call_status_beq_iff }

pub data TestRunStatus : Type 0 where
  pending passed failed error timeout : TestRunStatus

abbrev pub test_status_beq : TestRunStatus → TestRunStatus → Bool
test_status_beq pending pending = true
test_status_beq passed passed = true
test_status_beq failed failed = true
test_status_beq error error = true
test_status_beq timeout timeout = true
test_status_beq _ _ = false

pub test_status_beq_iff : (a b : TestRunStatus) → (test_status_beq a b ≡ true) ↔ (a ≡ b)
test_status_beq_iff a b = ground arith

instance abbrev pub test_status_eq : Eq TestRunStatus
test_status_eq = record { same = test_status_beq; same_iff = test_status_beq_iff }

-- `x in {...}` and `x in [...]`
abbrev pub contains {ℓ} : {A : Type ℓ} ⦃e : Eq A⦄ → A → List A → Bool
contains a [] = false
contains a (x ∷ xs) = a == x || contains a xs

-- TERMINAL_RUN_STATUSES
abbrev pub terminal_run_statuses : List RunStatus
terminal_run_statuses =
    RunStatus.investigation_complete ∷ RunStatus.resolved ∷ RunStatus.insufficient_evidence
    ∷ RunStatus.needs_human_intervention ∷ RunStatus.failed ∷ []

-- RUN_TRANSITIONS: the targets that a status permits.
abbrev pub run_transitions : RunStatus → List RunStatus
run_transitions pending = RunStatus.running ∷ RunStatus.failed ∷ []
run_transitions running =
    RunStatus.running ∷ RunStatus.pending ∷ RunStatus.waiting_approval ∷ terminal_run_statuses
run_transitions waiting_approval =
    RunStatus.pending ∷ RunStatus.running ∷ RunStatus.needs_human_intervention ∷ []
run_transitions s = s ∷ []
