-- ===== src/Api.antt =====
-- The handlers of src/incidentpilot/api/app.py that read or change a run. A handler's answer is its
-- response, an HTTPException, or another exception that leaves it. A request that is not answered
-- leaves the tables as they are. The views of response models are left out.
pub mod Replies
pub mod Approving
pub mod Creating
use incidentpilot.Base.{
  ℕ, String, Bool, true, false, ◌&&◌, not, Option, none, some, List, [], ◌∷◌, ◌==◌, if◌then◌else◌,
  string_eq, find_where, Exception, other, approval_conflict, Result, ok, err,
}
use incidentpilot.Enums.{
  RunStatus, WorkflowState, ApprovalDecision, status_eq, approve, decision_eq,
}
use incidentpilot.Store.{AgentRun, Incident, PatchArtifact, TestRun, Approval}
use incidentpilot.Access.{Principal, Answer, granted, refused, access, require_role}
use incidentpilot.Jobs.Admission.{
  IncidentData, Fresh, Admitted, queue_full, admitted, create_incident_and_run, new_incident,
  new_run,
}
use incidentpilot.Services.{Verdict, decide, update_incident_for_decision}
use incidentpilot.Executor.{Submission, submit, submit_resume}

pub data Reply {ℓ} (A : Type ℓ) : Type ℓ where
  answered : A → Reply A
  http_error : ℕ → Reply A
  raised : Exception → Reply A

abbrev pub when_granted {ℓ} : {A : Type ℓ} → Answer → Reply A → Reply A
when_granted granted r = r
when_granted (refused n) r = http_error n

abbrev pub run_called : String → AgentRun → Bool
run_called run_id r = r.run_id == run_id

abbrev pub incident_of : List Incident → AgentRun → Option Incident
incident_of incidents run = find_where (λ i. i.id == run.incident_pk) incidents

abbrev pub owner_of : Option Incident → Option String
owner_of none = none
owner_of (some i) = i.owner_id

abbrev pub authorize_run : List Incident → AgentRun → Principal → Answer
authorize_run incidents run p = access p (owner_of (incident_of incidents run))

abbrev pub serve {ℓ} :
    {A : Type ℓ} → List Incident → Principal → (AgentRun → Reply A) → Option AgentRun → Reply A
serve incidents p k none = http_error 404
serve incidents p k (some run) = when_granted (authorize_run incidents run p) (k run)

-- The run of the path, or 404, and its authorization.
abbrev pub with_run {ℓ} :
    {A : Type ℓ}
    → List Incident
    → List AgentRun
    → Principal
    → (run_id : String) → (AgentRun → Reply A)
    → Reply A
with_run incidents runs p run_id k = serve incidents p k (find_where (run_called run_id) runs)

abbrev found_incident : Principal → Option Incident → Reply Incident
found_incident p none = http_error 404
found_incident p (some i) = when_granted (access p i.owner_id) (answered i)

unfoldable pub get_incident : List Incident → Principal → (incident_id : String) → Reply Incident
get_incident incidents p incident_id =
    found_incident p (find_where (λ i. i.incident_id == incident_id) incidents)

-- An administrator's request for a run without an incident fails on `incident.incident_id`.
abbrev run_view : AgentRun → Option Incident → Reply (AgentRun × String)
run_view run none = raised (other "'NoneType' object has no attribute 'incident_id'")
run_view run (some i) = answered (run, i.incident_id)

unfoldable pub get_run :
    List Incident → List AgentRun → Principal → (run_id : String) → Reply (AgentRun × String)
get_run incidents runs p run_id =
    with_run incidents runs p run_id (λ run. run_view run (incident_of incidents run))

abbrev rows_of {ℓ} : {Row : Type ℓ} → (Row → String) → List Row → AgentRun → List Row
rows_of key [] run = []
rows_of key (r ∷ rs) run =
    let rest = rows_of key rs run in if key r == run.id then r ∷ rest else rest

pub list_patch_artifacts :
    List Incident
    → List AgentRun
    → List PatchArtifact
    → Principal
    → (run_id : String) → Reply (List PatchArtifact)
list_patch_artifacts incidents runs artifacts p run_id =
    with_run incidents runs p run_id (λ run. answered (rows_of (λ a. a.run_pk) artifacts run))

pub list_tests :
    List Incident
    → List AgentRun
    → List TestRun
    → Principal
    → (run_id : String) → Reply (List TestRun)
list_tests incidents runs tests p run_id =
    with_run incidents runs p run_id (λ run. answered (rows_of (λ t. t.run_pk) tests run))

pub get_approval :
    List Incident
    → List AgentRun
    → List Approval
    → Principal
    → (run_id : String) → Reply (Option Approval)
get_approval incidents runs approvals p run_id =
    with_run incidents runs p run_id
      (λ run. answered (find_where (λ a. a.run_pk == run.id) approvals))

-- The tables after a request, and what it hands to the embedded worker.
pub record Created : Type 0 where
  pub incidents : List Incident
  pub runs : List AgentRun
  pub incident : Incident
  pub run : AgentRun
  pub submitted : Option Submission

abbrev pub taken : List Incident → Option String → Bool
taken incidents none = false
taken incidents (some s) = not (s == "") && is_just (find_where (λ i. i.incident_id == s) incidents)
  where
    is_just : Option Incident → Bool
    is_just none = false
    is_just (some i) = true

abbrev pub accepted :
    (embedded_worker_enabled : Bool) → Incident → AgentRun → Admitted → Reply Created
accepted embedded i r queue_full = http_error 429
accepted embedded i r (admitted incidents runs) = answered (record {
  incidents = incidents;
  runs = runs;
  incident = i;
  run = r;
  submitted = if embedded then some (submit i.id r.run_id false) else none;
})

-- The owner of a new incident is the principal, whatever the body says.
abbrev pub owned_data : IncidentData → Principal → IncidentData
owned_data body p = record body { owner_id = some p.subject }

abbrev pub create_new :
    (embedded_worker_enabled : Bool)
    → (max_queued_runs : ℕ) → List Incident
    → List AgentRun
    → IncidentData
    → Fresh
    → Reply Created
create_new embedded bound incidents runs d f =
    accepted embedded (new_incident d f) (new_run f)
      (create_incident_and_run incidents runs d f bound)

unfoldable pub create_incident :
    (embedded_worker_enabled : Bool)
    → (max_queued_runs : ℕ) → List Incident
    → List AgentRun
    → Principal
    → IncidentData
    → Fresh
    → Reply Created
create_incident embedded bound incidents runs p body f =
    when_granted (require_role p ("initiator" ∷ [])) (
      if taken incidents body.incident_id
      then http_error 409
      else create_new embedded bound incidents runs (owned_data body p) f)

pub record Decided : Type 0 where
  pub incidents : List Incident
  pub runs : List AgentRun
  pub approvals : List Approval
  pub submitted : Option Submission

abbrev updated : List Incident → Option Incident → ApprovalDecision → List Incident
updated incidents none d = incidents
updated incidents (some i) d = update_incident_for_decision incidents i d

abbrev pub is_conflict : Exception → Bool
is_conflict (approval_conflict s) = true
is_conflict e = false

abbrev pub after_decide :
    (embedded_worker_enabled : Bool)
    → List Incident
    → AgentRun
    → ApprovalDecision
    → Result (List AgentRun × List Approval)
    → Reply Decided
after_decide embedded incidents run d (ok (runs, approvals)) = answered (record {
  incidents = updated incidents (incident_of incidents run) d;
  runs = runs;
  approvals = approvals;
  submitted = if d == approve && embedded then some (submit_resume run.run_id d) else none;
})
after_decide embedded incidents run d (err e) = if is_conflict e then http_error 409 else raised e

-- The fields of ApprovalRequest that count; the actor is the principal.
pub record ApprovalRequest : Type 0 where
  pub decision : ApprovalDecision
  pub reason : String
  pub patch_artifact_id : Option String
  pub patch_hash : Option String

abbrev pub verdict_of : ApprovalRequest → Principal → Verdict
verdict_of b p = record {
  decision = b.decision;
  actor = p.subject;
  reason = b.reason;
  patch_artifact_id = b.patch_artifact_id;
  patch_hash = b.patch_hash;
}

module _ (hash_patch : String → String) (embedded_worker_enabled : Bool)
    (artifacts : List PatchArtifact) (tests : List TestRun) (now : ℕ) (incidents : List Incident)
    (runs : List AgentRun) (approvals : List Approval) (p : Principal) where
  abbrev pub decide_waiting : ApprovalRequest → AgentRun → Reply Decided
  decide_waiting body run =
      if not (run.status == RunStatus.waiting_approval)
      then http_error 409
      else after_decide embedded_worker_enabled incidents run body.decision
          (decide hash_patch runs approvals artifacts tests run (verdict_of body p) now)

  unfoldable pub submit_approval : (run_id : String) → ApprovalRequest → Reply Decided
  submit_approval run_id body =
      when_granted (require_role p ("approver" ∷ []))
        (with_run incidents runs p run_id (decide_waiting body))
