-- ===== src/Jobs/Admission.antt =====
-- create_incident_and_run of src/incidentpilot/persistence/jobs.py. The advisory lock makes the
-- count and the two inserts one step. Fresh ids and the clock are arguments.
use incidentpilot.Base.{
  ℕ, String, ◌+◌, ◌≤◌, ◌≡◌, ◌↔◌, Bool, Option, none, some, List, [], ◌∷◌, arith, ◌==◌,
  if◌then◌else◌, leb, count_where, string_eq,
}
use incidentpilot.Enums.{RunStatus, WorkflowState, IncidentStatus, status_eq}
use incidentpilot.Json.{Dict, end}
use incidentpilot.Store.{AgentRun, Incident}

-- The keys of `incident_data`; a key that is missing is `none`.
pub record IncidentData : Type 0 where
  pub incident_id : Option String
  pub title : String
  pub service : String
  pub severity : Option String
  pub symptom : String
  pub start_time : Option ℕ
  pub repository : Option String
  pub environment : Option String
  pub payload : Option Dict
  pub owner_id : Option String

-- What repo.new_id, the primary-key defaults and utcnow() give.
pub record Fresh : Type 0 where
  pub incident_pk : String
  pub incident_id : String
  pub run_pk : String
  pub run_id : String
  pub trace_id : String
  pub now : ℕ

abbrev or_else {ℓ} : {A : Type ℓ} → Option A → A → A
or_else none a = a
or_else (some b) a = b

-- `x or default` on a text: the empty text is false.
abbrev or_new : Option String → String → String
or_new none a = a
or_new (some s) a = if s == "" then a else s

abbrev pub new_incident : IncidentData → Fresh → Incident
new_incident d f = record {
  id = f.incident_pk;
  incident_id = or_new d.incident_id f.incident_id;
  title = d.title;
  service = d.service;
  severity = or_else d.severity "SEV3";
  symptom = d.symptom;
  start_time = or_else d.start_time f.now;
  repository = or_else d.repository "";
  environment = or_else d.environment "reference-production";
  owner_id = d.owner_id;
  status = IncidentStatus.received;
  payload = or_else d.payload end;
}

abbrev pub new_run : Fresh → AgentRun
new_run f = record {
  id = f.run_pk;
  run_id = f.run_id;
  incident_pk = f.incident_pk;
  status = RunStatus.pending;
  workflow_state = WorkflowState.incident_received;
  plan = [];
  root_cause = none;
  tool_call_count = 0;
  patch_attempt_count = 0;
  trace_id = f.trace_id;
  error = none;
  result = end;
  worker_id = none;
  lease_expires_at = none;
  attempt_count = 0;
  next_attempt_at = none;
  last_heartbeat_at = none;
  failure_category = none;
  started_at = f.now;
  finished_at = none;
}

abbrev pub is_pending : AgentRun → Bool
is_pending r = r.status == RunStatus.pending

-- QueueFullError, or the tables with the two rows inserted.
pub data Admitted : Type 0 where
  queue_full : Admitted
  admitted : List Incident → List AgentRun → Admitted

unfoldable pub create_incident_and_run :
    List Incident → List AgentRun → IncidentData → Fresh → (max_queued_runs : ℕ) → Admitted
create_incident_and_run incidents runs d f max_queued_runs =
    if leb max_queued_runs (count_where is_pending runs)
    then queue_full
    else admitted (new_incident d f ∷ incidents) (new_run f ∷ runs)

abbrev pub queued : List AgentRun → ℕ
queued = count_where is_pending

-- A request is refused exactly when the queue is full.
pub create-queue_full_iff :
    (incidents : List Incident) (runs : List AgentRun) (d : IncidentData) (f : Fresh) (bound : ℕ)
    → (create_incident_and_run incidents runs d f bound ≡ queue_full) ↔ (bound ≤ queued runs)
unfolding create_incident_and_run
create-queue_full_iff incidents runs d f bound = ground arith

-- Admission adds one run to the queue and never takes the queue past its bound.
pub create-queue_bound :
    (incidents : List Incident) (runs : List AgentRun) (d : IncidentData) (f : Fresh) (bound : ℕ)
    {incidents' : List Incident} {runs' : List AgentRun}
    → create_incident_and_run incidents runs d f bound ≡ admitted incidents' runs'
    → (queued runs' ≡ queued runs + 1)
      × (queued runs' ≤ bound)
      × (incidents' ≡ new_incident d f ∷ incidents)
unfolding create_incident_and_run
create-queue_bound incidents runs d f bound h = ground arith

-- The tables after an admission.
pub create-admitted :
    (incidents : List Incident) (runs : List AgentRun) (d : IncidentData) (f : Fresh) (bound : ℕ)
    {incidents' : List Incident} {runs' : List AgentRun}
    → create_incident_and_run incidents runs d f bound ≡ admitted incidents' runs'
    → (runs' ≡ new_run f ∷ runs) × (incidents' ≡ new_incident d f ∷ incidents)
unfolding create_incident_and_run
create-admitted incidents runs d f bound h = ground arith
