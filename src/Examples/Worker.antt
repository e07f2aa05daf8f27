-- ===== src/Examples/Worker.antt =====
-- The worker: its heartbeat, its polling, and a claim from its execution to its end.
use incidentpilot.Base.{
  ◌+◌, ◌-◌, ◌≤◌, ◌≡◌, String, Bool, ok, false, List, [], ◌∷◌, arith, Exception, connection_error,
  length,
}
use incidentpilot.Enums.{ApprovalDecision, approve}
use incidentpilot.Jobs.{ClaimedRun}
use incidentpilot.Services.{decided_row, approval_row}
use incidentpilot.System.{World, empty, Reach}
use incidentpilot.Worker.Resuming.{Goes, resume_or_execute-Goes}
use incidentpilot.Base.Exec.{Exec}
use incidentpilot.Json.{Dict, str, end, field}
use incidentpilot.Worker.{
  Settings, Beat, round, renewed, lost, transient, raised, tolerance, heartbeat, poll_round,
  resume_or_execute,
}
use incidentpilot.Worker.Heartbeat.{
  Paced, WithinLease, IsRenewal, confirmed, heartbeat-WithinLease, heartbeat_overruns,
}
use incidentpilot.Worker.Polling.{Fills, after_sweep, poll_round-Fills}
use incidentpilot.Examples.Data.{
  plain_hash, lease_claim, pending_run, waiting_run, artifact, approval_verdict,
}

abbrev rounds : List Beat
rounds = round 16 renewed ∷ round 35 (transient (connection_error "restart")) ∷ round 51 lost ∷ []

heartbeat-WithinLease_example :
    WithinLease 60 15 5 (heartbeat (tolerance 60 15) 0 0 rounds)
    × IsRenewal 0 rounds (confirmed (heartbeat (tolerance 60 15) 0 0 rounds))
heartbeat-WithinLease_example =
    heartbeat-WithinLease 60 15 5 rounds 0 (omega arith)
      (omega arith, omega arith, (omega arith, omega arith, (omega arith, omega arith, tt)))

heartbeat_overruns_example :
    (bs : List Beat) × (e : Exception) × Paced 15 29 0 bs
    × (heartbeat (tolerance 60 15) 0 0 bs ≡ raised e (60 - 1 + 29) 0)
heartbeat_overruns_example = heartbeat_overruns 60 15 29 (omega arith) (omega arith) (omega arith)

abbrev settings : Settings
settings = record { worker_concurrency = 2; job_lease_seconds = 60; max_job_attempts = 3 }

abbrev queue_world : World
queue_world = record empty { runs = pending_run ∷ [] }

abbrev first_round : List ClaimedRun × World
first_round = poll_round settings "w1" (λ _. 50) (λ _ _. false) (λ _. false) 1 40 queue_world

poll_round-Fills_example :
    (1 + length first_round.0 ≤ 2)
    × Reach plain_hash queue_world first_round.1
    × Fills plain_hash settings "w1"
        (λ _. 50)
        (λ _ _. false)
        (λ _. false)
        (2 - 1)
        (after_sweep plain_hash settings "w1" (λ _. 50) (λ _ _. false) (λ _. false) 40 queue_world)
        first_round
poll_round-Fills_example =
    poll_round-Fills plain_hash settings "w1" (λ _. 50) (λ _ _. false) (λ _. false) 1 40 queue_world
      (omega arith)

abbrev approved_world : World
approved_world = record empty {
  runs = decided_row approve 7 waiting_run ∷ [];
  approvals = approval_row waiting_run approval_verdict artifact 7 ∷ [];
}

abbrev executes_it : (incident_pk run_id : String) → (recover : Bool) → Exec World Dict
executes_it incident_pk run_id recover w = (ok end, w)

abbrev resumes_it : String → ApprovalDecision → Exec World Dict
resumes_it run_id d w = (ok (field "status" (str "RESOLVED") end), w)

resume_or_execute-Goes_example :
    Goes executes_it resumes_it lease_claim approved_world
      (resume_or_execute executes_it resumes_it lease_claim approved_world)
resume_or_execute-Goes_example =
    resume_or_execute-Goes executes_it resumes_it lease_claim approved_world
