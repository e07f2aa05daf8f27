-- ===== src/Services.antt =====
-- RunService and ApprovalService of src/incidentpilot/services/incidents.py, over the tables that
-- they touch. A refusal rolls back, so it leaves no new table. `run` is the row as the caller read
-- it, which the stored row may have left behind. Refreshing a row is reading the new table.
pub mod Keeps
pub mod Approvals
use incidentpilot.Base.{
  ℕ, String, ◌≡◌, Bool, true, false, ◌&&◌, ◌||◌, not, Option, none, some, List, [], ◌∷◌, ◌==◌,
  string_eq, nat_eq, if◌then◌else◌, count_where, update_where, find_where, is_null, absent_or,
  Result, ok, err, guard, or_raise, value_error, runtime_error, approval_conflict, ◌>>=◌, ◌>>◌,
  Exception,
}
use incidentpilot.Enums.{
  RunStatus, WorkflowState, ApprovalDecision, IncidentStatus, status_eq, decision_eq, contains,
  run_transitions,
}
use incidentpilot.Json.{Dict}
use incidentpilot.Store.{AgentRun, Incident, PatchArtifact, TestRun, Approval}
use incidentpilot.Jobs.{ClaimedRun}
use incidentpilot.Ownership.{fence}
use incidentpilot.Artifacts.{validated_artifact, binding}

abbrev pub startable : AgentRun → AgentRun → Bool
startable run r = r.id == run.id && contains r.status (RunStatus.pending ∷ RunStatus.running ∷ [])

abbrev pub start_row : AgentRun → AgentRun
start_row r = record r { status = RunStatus.running }

pub mark_running :
    Option ClaimedRun → List AgentRun → AgentRun → (current : ℕ) → Result (List AgentRun)
mark_running claim runs run current = do
  fenced ← fence claim runs run.run_id current
  guard (not (count_where (startable run) fenced == 0))
      (runtime_error "terminal run cannot return to RUNNING")
  ok (update_where (startable run) start_row fenced)

-- The keyword arguments of mark_status.
pub record Marks : Type 0 where
  pub workflow_state : Option WorkflowState
  pub error : Option String
  pub result : Option Dict
  pub root_cause : Option Dict
  pub finished : Bool

abbrev pub or_keep {ℓ} : {A : Type ℓ} → Option A → A → A
or_keep none a = a
or_keep (some b) a = b

abbrev pub or_keep_null {ℓ} : {A : Type ℓ} → Option A → Option A → Option A
or_keep_null none a = a
or_keep_null (some b) a = some b

-- The SET list: the columns that are given, and the lease columns of a finished run.
abbrev pub marked_row : RunStatus → Marks → ℕ → AgentRun → AgentRun
marked_row status m now r = record r {
  status = status;
  workflow_state = or_keep m.workflow_state r.workflow_state;
  error = or_keep_null m.error r.error;
  result = or_keep m.result r.result;
  root_cause = or_keep_null m.root_cause r.root_cause;
  finished_at = if m.finished then some now else r.finished_at;
  worker_id = if m.finished then none else r.worker_id;
  lease_expires_at = if m.finished then none else r.lease_expires_at;
  last_heartbeat_at = if m.finished then none else r.last_heartbeat_at;
}

abbrev pub unchanged_since : AgentRun → AgentRun → Bool
unchanged_since run r = r.id == run.id && r.status == run.status

pub mark_status :
    Option ClaimedRun
    → List AgentRun
    → AgentRun
    → RunStatus
    → Marks
    → (current : ℕ) → Result (List AgentRun)
mark_status claim runs run status m current = do
  fenced ← fence claim runs run.run_id current
  guard (contains status (run_transitions run.status))
      (runtime_error "terminal run transition denied")
  guard (count_where (unchanged_since run) fenced == 1)
      (runtime_error "concurrent run status transition")
  ok (update_where (unchanged_since run) (marked_row status m current) fenced)

abbrev pub is_reject : ApprovalDecision → Bool
is_reject d = d == ApprovalDecision.reject

abbrev pub undecided : AgentRun → AgentRun → Bool
undecided run r = r.id == run.id && r.status == RunStatus.waiting_approval

-- REJECT ends the run; APPROVE queues it for a worker.
abbrev pub decided_row : ApprovalDecision → ℕ → AgentRun → AgentRun
decided_row d now r = record r {
  status = if is_reject d then RunStatus.needs_human_intervention else RunStatus.pending;
  workflow_state =
      if is_reject d
      then WorkflowState.needs_human_intervention
      else WorkflowState.create_pull_request;
  worker_id = none;
  last_heartbeat_at = none;
  lease_expires_at = none;
  next_attempt_at = if is_reject d then none else some now;
}

-- The request's fields.
pub record Verdict : Type 0 where
  pub decision : ApprovalDecision
  pub actor : String
  pub reason : String
  pub patch_artifact_id : Option String
  pub patch_hash : Option String

abbrev pub approval_row : AgentRun → Verdict → PatchArtifact → ℕ → Approval
approval_row run v a now = record {
  run_pk = run.id;
  patch_artifact_id = some a.patch_artifact_id;
  decision = some v.decision;
  actor = v.actor;
  reason = v.reason;
  payload = binding a;
  decided_at = some now;
}

-- `except ValueError as exc: raise ApprovalConflict(str(exc))`
abbrev pub as_conflict {ℓ} : {A : Type ℓ} → Result A → Result A
as_conflict (err (value_error s)) = err (approval_conflict s)
as_conflict r = r

module _ (hash_patch : String → String) where
  abbrev pub approved_artifact :
      List PatchArtifact → List TestRun → AgentRun → Verdict → Result PatchArtifact
  approved_artifact artifacts tests run v = do
    artifact ← validated_artifact hash_patch artifacts tests run v.patch_artifact_id
    guard (absent_or (λ h. h == artifact.patch_hash) v.patch_hash)
        (value_error "approval patch hash mismatch")
    ok artifact

  -- ApprovalService.decide. The unique index on approvals.run_pk refuses a second row.
  unfoldable pub decide :
      List AgentRun
      → List Approval
      → List PatchArtifact
      → List TestRun
      → AgentRun
      → Verdict
      → (now : ℕ) → Result (List AgentRun × List Approval)
  decide runs approvals artifacts tests run v now = do
    artifact ← as_conflict (approved_artifact artifacts tests run v)
    guard (not (count_where (undecided run) runs == 0))
        (approval_conflict "approval was already decided")
    guard (count_where (λ a. a.run_pk == run.id) approvals == 0)
        (approval_conflict "approval was already decided")
    ok (
      update_where (undecided run) (decided_row v.decision now) runs,
      approval_row run v artifact now ∷ approvals,
    )

-- update_incident_for_decision
unfoldable pub update_incident_for_decision :
    List Incident → Incident → ApprovalDecision → List Incident
update_incident_for_decision incidents incident d =
    if is_reject d
    then update_where (λ i. i.id == incident.id)
        (λ i. record i { status = IncidentStatus.needs_human_intervention }) incidents
    else incidents
