-- ===== src/Examples/Data.antt =====
-- Rows that the examples share. The hash of a patch is the patch itself here.
use incidentpilot.Base.{String, none, some, true}
use incidentpilot.Enums.{RunStatus, ApprovalDecision, TestRunStatus}
use incidentpilot.Json.{end, field, str}
use incidentpilot.Store.{AgentRun, PatchArtifact, TestRun}
use incidentpilot.Jobs.{ClaimedRun}
use incidentpilot.Jobs.Admission.{IncidentData, Fresh, new_run}
use incidentpilot.Services.{Verdict}

abbrev pub plain_hash : String → String
plain_hash s = s

abbrev pub incident_data : IncidentData
incident_data = record {
  incident_id = none;
  title = "slow orders";
  service = "orders";
  severity = none;
  symptom = "latency";
  start_time = none;
  repository = some "orders_api";
  environment = none;
  payload = none;
  owner_id = some "ann";
}

abbrev pub fresh : Fresh
fresh = record {
  incident_pk = "I1";
  incident_id = "INC-1";
  run_pk = "K1";
  run_id = "RUN-1";
  trace_id = "T1";
  now = 5;
}

abbrev pub pending_run : AgentRun
pending_run = new_run fresh

-- Claimed by a worker, with a lease until 100.
abbrev pub leased_run : AgentRun
leased_run = record pending_run {
  status = RunStatus.running;
  worker_id = some "w1";
  attempt_count = 1;
  lease_expires_at = some 100;
}

abbrev pub lease_claim : ClaimedRun
lease_claim = record {
  incident_pk = "I1";
  run_id = "RUN-1";
  worker_id = "w1";
  attempt_count = 1;
  recover = true;
}

abbrev pub waiting_run : AgentRun
waiting_run = record pending_run {
  status = RunStatus.waiting_approval;
  attempt_count = 1;
  result = field "patch_artifact_id" (str "PA-1") end;
}

abbrev pub artifact : PatchArtifact
artifact = record {
  patch_artifact_id = "PA-1";
  run_pk = "K1";
  base_commit_sha = "b0";
  patch_diff = "diff";
  patch_hash = "diff";
  test_run_id = some "TR-1";
  immutable = true;
}

abbrev pub test_run : TestRun
test_run = record {
  test_run_id = "TR-1";
  run_pk = "K1";
  status = TestRunStatus.passed;
  exit_code = some 0;
  patch_hash = "diff";
  base_commit_sha = "b0";
}

abbrev pub approval_verdict : Verdict
approval_verdict = record {
  decision = ApprovalDecision.approve;
  actor = "bob";
  reason = "tests pass";
  patch_artifact_id = none;
  patch_hash = some "diff";
}
