-- ===== src/Executor.antt =====
-- src/incidentpilot/agent/executor.py: RunExecutor. The two workflows of agent/graph.py and
-- agent/approval_resume.py are arguments that change the world and return a dict or raise; the
-- timeout of asyncio.wait_for is their raising TimeoutError. `by` is the claim of the surrounding
-- worker, if there is one. Tasks, spans and log lines are left out.
pub mod Steps
pub mod Approved
use incidentpilot.Base.{
  ℕ, String, Bool, true, false, ◌&&◌, not, Option, none, some, List, [], ◌∷◌, ◌++◌, map, ◌==◌,
  string_eq, nat_eq, if◌then◌else◌, count_where, find_where, is_just, Result, ok, err, Exception,
  value_error, timeout_error, structured_output_error,
}
use incidentpilot.Base.Exec.{Exec, continue}
use incidentpilot.Enums.{
  RunStatus, WorkflowState, ApprovalDecision, approve, status_eq, decision_eq, contains,
  run_transitions,
}
use incidentpilot.Json.{Dict, field, end, str}
use incidentpilot.Store.{AgentRun, Approval}
use incidentpilot.Jobs.{ClaimedRun}
use incidentpilot.Services.{mark_running, mark_status, Marks}
use incidentpilot.Tools.Gateway.{first_chars}
use incidentpilot.System.{World}
use Prim.Native.String.{◌++◌ as str_append}

-- RunService.get
abbrev pub run_named : String → List AgentRun → Option AgentRun
run_named run_id runs = find_where (λ r. r.run_id == run_id) runs

-- A service call that commits the new agent_runs table or rolls back.
abbrev pub store_runs : Result (List AgentRun) → World → Result (Unit {0}) × World
store_runs (ok runs) w = (ok tt, record w { runs = runs })
store_runs (err e) w = (err e, w)

abbrev pub has_run : List AgentRun → String → String → Bool
has_run runs run_pk run_id = not (count_where (λ r. r.id == run_pk && r.run_id == run_id) runs == 0)

-- The persisted APPROVE of the run, by the join of approvals and agent_runs.
abbrev pub decision_of : Option Approval → Option ApprovalDecision
decision_of none = none
decision_of (some a) = a.decision

unfoldable pub approved_decision : World → String → Option ApprovalDecision
approved_decision w run_id =
    decision_of
      (find_where (λ a. has_run w.runs a.run_pk run_id && is_just a.decision approve) w.approvals)

-- What recover_non_terminal submits.
pub data Submission : Type 0 where
  submit : (incident_pk run_id : String) → (recover : Bool) → Submission
  submit_resume : (run_id : String) → ApprovalDecision → Submission

abbrev pub submission : AgentRun → Option ApprovalDecision → Submission
submission r (some d) = submit_resume r.run_id d
submission r none = submit r.incident_pk r.run_id (r.status == RunStatus.running)

abbrev pub non_terminal : AgentRun → Bool
non_terminal r = contains r.status (RunStatus.pending ∷ RunStatus.running ∷ [])

abbrev pub submissions : World → List AgentRun → List Submission
submissions w [] = []
submissions w (r ∷ rs) =
    (if non_terminal r then submission r (approved_decision w r.run_id) ∷ [] else [])
    ++ submissions w rs

pub recover_non_terminal : World → List Submission
recover_non_terminal w = submissions w w.runs

abbrev pub halt_state : RunStatus → WorkflowState
halt_state target =
    if target == RunStatus.failed
    then WorkflowState.failed
    else WorkflowState.needs_human_intervention

abbrev pub halt_marks : RunStatus → String → Marks
halt_marks target error = record {
  workflow_state = some (halt_state target);
  error = some (first_chars 2000 error);
  result = none;
  root_cause = none;
  finished = true;
}

module _ (by : Option ClaimedRun) (current : ℕ) where
  abbrev pub halt_if : RunStatus → String → AgentRun → Bool → Exec World (Unit {0})
  halt_if target error run false w = (ok tt, w)
  halt_if target error run true w =
      store_runs (mark_status by w.runs run target (halt_marks target error) current) w

  abbrev pub halt_run : RunStatus → String → Option AgentRun → Exec World (Unit {0})
  halt_run target error none w = (ok tt, w)
  halt_run target error (some run) w =
      halt_if target error run (contains target (run_transitions run.status)) w

  -- _halt
  unfoldable pub halt : String → RunStatus → String → Exec World (Unit {0})
  halt run_id target error w = halt_run target error (run_named run_id w.runs) w

  -- _halted
  abbrev pub halted : String → Dict
  halted run_id = field "run_id" (str run_id) (field "status" (str "NEEDS_HUMAN_INTERVENTION") end)

  abbrev pub halt_and_report : String → String → Exec World Dict
  halt_and_report run_id error w =
      let (r, v) = halt run_id RunStatus.needs_human_intervention error w in
      continue r (λ done v. (ok (halted run_id), v)) v

  -- The handlers of execute.
  abbrev pub after_execute : String → Result Dict → Exec World Dict
  after_execute run_id (err (timeout_error s)) w =
      halt_and_report run_id "run timeout budget exhausted" w
  after_execute run_id (err (structured_output_error s)) w = halt_and_report run_id s w
  after_execute run_id r w = (r, w)

  -- The handler of resume.
  abbrev pub after_resume : String → Result Dict → Exec World Dict
  after_resume run_id (err (timeout_error s)) w =
      halt_and_report run_id "run timeout budget exhausted" w
  after_resume run_id r w = (r, w)

  -- The handlers of _run_safe and _resume_safe: the exception ends here, unless halting raises.
  abbrev pub after_crash : String → RunStatus → String → Result Dict → Exec World (Unit {0})
  after_crash run_id target error (ok d) w = (ok tt, w)
  after_crash run_id target error (err e) w = halt run_id target error w

module _ (run_agent_workflow : (incident_pk run_id : String) → (recover : Bool) → Exec World Dict)
    (resume_agent_workflow : (run_id : String) → ApprovalDecision → Exec World Dict)
    (by : Option ClaimedRun) (current later : ℕ) where
  unfoldable pub execute : (incident_pk run_id : String) → (recover : Bool) → Exec World Dict
  execute incident_pk run_id recover w =
      let (r, v) = run_agent_workflow incident_pk run_id recover w in
      after_execute by later run_id r v

  abbrev pub resume_started : String → ApprovalDecision → Result (Unit {0}) → Exec World Dict
  resume_started run_id decision (err e) w = (err e, w)
  resume_started run_id decision (ok _) w =
      let (r, v) = resume_agent_workflow run_id decision w in after_resume by later run_id r v

  abbrev pub resume_run : String → ApprovalDecision → Option AgentRun → Exec World Dict
  resume_run run_id decision none w = (err (value_error (str_append "run not found: " run_id)), w)
  resume_run run_id decision (some run) w =
      let (r, v) = store_runs (mark_running by w.runs run current) w in
      resume_started run_id decision r v

  unfoldable pub resume : String → ApprovalDecision → Exec World Dict
  resume run_id decision w = resume_run run_id decision (run_named run_id w.runs) w

  -- _run_safe
  pub run_safe : (incident_pk run_id : String) → (recover : Bool) → Exec World (Unit {0})
  run_safe incident_pk run_id recover w =
      let (r, v) = execute incident_pk run_id recover w in
      after_crash by later run_id RunStatus.failed "executor crashed" r v

  -- _resume_safe
  pub resume_safe : String → ApprovalDecision → Exec World (Unit {0})
  resume_safe run_id decision w =
      let (r, v) = resume run_id decision w in
      after_crash by later run_id RunStatus.needs_human_intervention "approval resume crashed" r v
