-- ===== src/Store.antt =====
-- src/incidentpilot/models/db.py: the rows of the control-plane tables, and one transaction's view
-- of them. Identifiers are texts. A point of time is a number of microseconds. A table is the list
-- of its rows; a transaction that commits is a function to the new tables, one that rolls back
-- leaves them alone.
pub mod Rows
pub mod Keeps
use incidentpilot.Base.{ℕ, String, ◌*◌, Bool, Option, List}
use incidentpilot.Enums.{RunStatus, WorkflowState, ApprovalDecision, IncidentStatus, TestRunStatus}
use incidentpilot.Json.{Dict}

abbrev pub seconds : ℕ → ℕ
seconds n = n * 1_000_000

pub record AgentRun : Type 0 where
  pub id : String
  pub run_id : String
  pub incident_pk : String
  pub status : RunStatus
  pub workflow_state : WorkflowState
  pub plan : List String
  pub root_cause : Option Dict
  pub tool_call_count : ℕ
  pub patch_attempt_count : ℕ
  pub trace_id : String
  pub error : Option String
  pub result : Dict
  pub worker_id : Option String
  pub lease_expires_at : Option ℕ
  pub attempt_count : ℕ
  pub next_attempt_at : Option ℕ
  pub last_heartbeat_at : Option ℕ
  pub failure_category : Option String
  pub started_at : ℕ
  pub finished_at : Option ℕ

pub record Incident : Type 0 where
  pub id : String
  pub incident_id : String
  pub title : String
  pub service : String
  pub severity : String
  pub symptom : String
  pub start_time : ℕ
  pub repository : String
  pub environment : String
  pub owner_id : Option String
  pub status : IncidentStatus
  pub payload : Dict

pub record PatchArtifact : Type 0 where
  pub patch_artifact_id : String
  pub run_pk : String
  pub base_commit_sha : String
  pub patch_diff : String
  pub patch_hash : String
  pub test_run_id : Option String
  pub immutable : Bool

pub record TestRun : Type 0 where
  pub test_run_id : String
  pub run_pk : String
  pub status : TestRunStatus
  pub exit_code : Option ℕ
  pub patch_hash : String
  pub base_commit_sha : String

pub record Approval : Type 0 where
  pub run_pk : String
  pub patch_artifact_id : Option String
  pub decision : Option ApprovalDecision
  pub actor : String
  pub reason : String
  pub payload : Dict
  pub decided_at : Option ℕ

pub data EffectStatus : Type 0 where
  pending in_progress completed failed : EffectStatus

pub record ExternalSideEffect : Type 0 where
  pub run_pk : String
  pub effect_type : String
  pub idempotency_key : String
  pub status : EffectStatus
  pub attempt_count : ℕ
  pub result : Dict
  pub error : Option String
