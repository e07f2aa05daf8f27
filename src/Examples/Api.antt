-- ===== src/Examples/Api.antt =====
-- The request handlers: an accepted incident, and an approver's decision on a waiting run.
use incidentpilot.Base.{◌≡◌, refl, true, false, none, some, List, [], ◌∷◌, ◌⊎◌, In, ok, ◌==◌}
use incidentpilot.Enums.{RunStatus, status_eq, approve}
use incidentpilot.Store.{AgentRun, Incident}
use incidentpilot.Access.{Principal, MayAccess}
use incidentpilot.Artifacts.{validated_artifact}
use incidentpilot.Jobs.Admission.{new_incident, create_incident_and_run}
use incidentpilot.Services.{decide, update_incident_for_decision, decided_row, approval_row}
use incidentpilot.Executor.{submit, submit_resume}
use incidentpilot.Api.Creating.{create_incident-get}
use incidentpilot.Api.{
  answered, Created, create_incident, get_incident, get_run, ApprovalRequest, Decided, verdict_of,
  submit_approval, owner_of, incident_of,
}
use incidentpilot.Api.Approving.{submit_approval-Allowed}
use incidentpilot.Examples.Data.{
  plain_hash, incident_data, fresh, waiting_run, pending_run, artifact, test_run, approval_verdict,
}

abbrev bob : Principal
bob = record { subject = "bob"; role = "approver" }

abbrev request : ApprovalRequest
request = record {
  decision = approve;
  reason = "tests pass";
  patch_artifact_id = none;
  patch_hash = some "diff";
}

abbrev incidents : List Incident
incidents = new_incident incident_data fresh ∷ []

abbrev outcome : Decided
outcome = record {
  incidents = incidents;
  runs = decided_row approve 7 waiting_run ∷ [];
  approvals = approval_row waiting_run approval_verdict artifact 7 ∷ [];
  submitted = some (submit_resume "RUN-1" approve);
}

approved :
    submit_approval plain_hash true
      (artifact ∷ [])
      (test_run ∷ [])
      7
      incidents
      (waiting_run ∷ [])
      []
      bob
      "RUN-1"
      request
    ≡ answered outcome
unfolding submit_approval decide validated_artifact update_incident_for_decision
approved = refl

submit_approval-Allowed_example :
    (run : AgentRun) × In run (waiting_run ∷ [])
    × (run.run_id ≡ "RUN-1")
    × ((bob.role ≡ "approver") ⊎ (bob.role ≡ "admin"))
    × MayAccess bob (owner_of (incident_of incidents run))
    × ((run.status == RunStatus.waiting_approval) ≡ true)
    × (decide plain_hash
          (waiting_run ∷ [])
          []
          (artifact ∷ [])
          (test_run ∷ [])
          run
          (verdict_of request bob)
          7
        ≡ ok (outcome.runs, outcome.approvals))
submit_approval-Allowed_example =
    submit_approval-Allowed plain_hash true (artifact ∷ []) (test_run ∷ []) 7 incidents
      (waiting_run ∷ []) [] bob request "RUN-1" outcome approved

abbrev ann : Principal
ann = record { subject = "ann"; role = "initiator" }

abbrev creation : Created
creation = record {
  incidents = incidents;
  runs = pending_run ∷ [];
  incident = new_incident incident_data fresh;
  run = pending_run;
  submitted = some (submit "I1" "RUN-1" false);
}

accepted_request : create_incident true 2 [] [] ann incident_data fresh ≡ answered creation
unfolding create_incident create_incident_and_run
accepted_request = refl

create_incident-get_example :
    (get_incident incidents ann "INC-1" ≡ answered (new_incident incident_data fresh))
    × (get_run incidents (pending_run ∷ []) ann "RUN-1" ≡ answered (pending_run, "INC-1"))
create_incident-get_example =
    create_incident-get true 2 [] [] ann incident_data fresh creation accepted_request
