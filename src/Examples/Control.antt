-- ===== src/Examples/Control.antt =====
-- The control plane: admission, leases, fences, approval, and the system as a whole.
use incidentpilot.Base.{
  ℕ, String, ◌+◌, ◌≤◌, ◌<◌, ◌≡◌, ◌≢◌, refl, Bool, true, false, inl, Option, none, some, List, [],
  ◌∷◌, arith, In, absent_or, ok, count_where, update_where, ◌==◌, string_eq,
}
use incidentpilot.Enums.{RunStatus, WorkflowState, approve}
use incidentpilot.Store.{seconds, AgentRun, PatchArtifact, Approval}
use incidentpilot.Jobs.{
  ClaimedRun, claim_next_run, renew_lease, release_claim, retry_claim, expire_exhausted_runs,
  lost_lease, run_is, claimable, expired_out, better, first_by_order,
}
use incidentpilot.Jobs.Admission.{create_incident_and_run, create-queue_bound, queued, new_incident}
use incidentpilot.Jobs.Claiming.{claim_next_run-Claims, Claims}
use incidentpilot.Jobs.Leases.{
  Requeued, stale_claim_inert, retry_claim-claimed_again, expire-claim_reclaims,
}
use incidentpilot.Ownership.{fence}
use incidentpilot.Ownership.Fencing.{fence-Held, Held}
use incidentpilot.Artifacts.{validated_artifact, IsTested}
use incidentpilot.Artifacts.Tested.{validated_artifact-IsTested}
use incidentpilot.Services.{decide, undecided, approval_row, decided_row}
use incidentpilot.Services.Approvals.{decide_guarded, approve_last_attempt_stranded}
use incidentpilot.System.{World, empty, issue, Reach, here, next, admit, claim, expire, renew}
use incidentpilot.System.Invariant.{Inv, empty-Inv, Reach-Inv}
use incidentpilot.System.Terminal.{terminal_stays_terminal}
use incidentpilot.System.Exclusion.{fence_exclusive}
use incidentpilot.Base.{Exception, err, timeout_error, value_error, type_error}
use incidentpilot.Worker.{Settings, Race, executed, execute_claim}
use incidentpilot.Jobs.Turns.{Turn}
use incidentpilot.Worker.Steps.{execute_claim-claimed_again}
use incidentpilot.Examples.Data.{
  plain_hash, incident_data, fresh, pending_run, leased_run, lease_claim, waiting_run, artifact,
  test_run, approval_verdict,
}

create-queue_bound_example :
    (queued (pending_run ∷ []) ≡ queued [] + 1)
    × (queued (pending_run ∷ []) ≤ 2)
    × (new_incident incident_data fresh ∷ [] ≡ new_incident incident_data fresh ∷ [])
unfolding create_incident_and_run
create-queue_bound_example = create-queue_bound [] [] incident_data fresh 2 refl

claim_next_run-Claims_example :
    Claims
      (leased_run ∷ pending_run ∷ [])
      "w2"
      60
      3
      50
      none
      (λ _. false)
      (claim_next_run (leased_run ∷ pending_run ∷ []) "w2" 60 3 50 none (λ _. false))
claim_next_run-Claims_example =
    claim_next_run-Claims (leased_run ∷ pending_run ∷ []) "w2" 60 3 50 none (λ _. false)

stale_claim_inert_example :
    (renew_lease (leased_run ∷ []) "RUN-1" "w0" 60 50 (some 0) ≡ (false, leased_run ∷ []))
    × (release_claim (leased_run ∷ []) "RUN-1" "w0" (some 0) ≡ (false, leased_run ∷ []))
    × (retry_claim (leased_run ∷ []) "RUN-1" "w0" 3 "timeout" 10 50 (some 0)
        ≡ (lost_lease, leased_run ∷ []))
stale_claim_inert_example =
    stale_claim_inert "RUN-1" "w0" 0 (leased_run ∷ []) 60 3 50 10 "timeout" ((λ _. omega arith), tt)

abbrev requeued : List AgentRun
requeued = (retry_claim (leased_run ∷ []) "RUN-1" "w1" 3 "timeout" 10 50 (some 1)).1

retry_claim-claimed_again_example :
    ((retry_claim (leased_run ∷ []) "RUN-1" "w1" 3 "timeout" 10 50 (some 1)).0
      ≡ run_is RunStatus.pending)
    × (q : AgentRun) × Requeued
        (leased_run ∷ [])
        "RUN-1"
        "w1"
        1
        3
        "timeout"
        10
        50
        leased_run
        refl
        (refl, refl)
        (omega arith)
        q
    × Turn requeued "w2" 60 3 60 (λ _. false) q
retry_claim-claimed_again_example =
    retry_claim-claimed_again (leased_run ∷ []) "RUN-1" "w1" 1 3 "timeout" 10 50 leased_run refl
      (refl, refl) (omega arith) 60 "w2" 60 (λ _. false) (omega arith) refl

expire-claim_reclaims_example :
    (leased_run.attempt_count < 3)
    × Turn (expire_exhausted_runs (leased_run ∷ []) 3 200).1 "w2" 60 3 200 (λ _. false) leased_run
unfolding expire_exhausted_runs
expire-claim_reclaims_example =
    expire-claim_reclaims 3 200 (leased_run ∷ []) "w2" 60 (λ _. false) leased_run (inl refl) refl
      refl refl

fence-Held_example :
    (lease_claim.run_id ≡ "RUN-1")
    × Held lease_claim 50 (leased_run ∷ [])
    × (leased_run ∷ [] ≡ leased_run ∷ [])
unfolding fence
fence-Held_example = fence-Held lease_claim (leased_run ∷ []) "RUN-1" 50 refl

validated_artifact-IsTested_example :
    IsTested plain_hash (artifact ∷ []) (test_run ∷ []) waiting_run artifact
unfolding validated_artifact
validated_artifact-IsTested_example =
    validated_artifact-IsTested plain_hash (artifact ∷ []) (test_run ∷ []) waiting_run none artifact
      refl

abbrev approved_runs : List AgentRun
approved_runs = decided_row approve 7 waiting_run ∷ []

abbrev approvals : List Approval
approvals = approval_row waiting_run approval_verdict artifact 7 ∷ []

decided :
    decide plain_hash
      (waiting_run ∷ [])
      []
      (artifact ∷ [])
      (test_run ∷ [])
      waiting_run
      approval_verdict
      7
    ≡ ok (approved_runs, approvals)
unfolding decide validated_artifact
decided = refl

decide_guarded_example :
    (a : PatchArtifact) × IsTested plain_hash (artifact ∷ []) (test_run ∷ []) waiting_run a
    × (absent_or (λ h. h == a.patch_hash) (some "diff") ≡ true)
    × (0 < count_where (undecided waiting_run) (waiting_run ∷ []))
    × (count_where (λ (b : Approval). b.run_pk == "K1") [] ≡ 0)
    × (approvals ≡ approval_row waiting_run approval_verdict a 7 ∷ [])
    × (approved_runs
        ≡ update_where (undecided waiting_run) (decided_row approve 7) (waiting_run ∷ []))
decide_guarded_example =
    decide_guarded plain_hash (waiting_run ∷ []) [] (artifact ∷ []) (test_run ∷ []) waiting_run
      approval_verdict 7 approved_runs approvals decided

approve_last_attempt_stranded_example :
    (s : AgentRun) × In s approved_runs
    × (s.id ≡ "K1")
    × (s.status ≡ RunStatus.pending)
    × ((current : ℕ) (run_id : Option String) (locked : String → Bool)
        → (claimable current 1 run_id locked s ≡ false) × (expired_out 1 current s ≡ false))
approve_last_attempt_stranded_example =
    approve_last_attempt_stranded plain_hash (waiting_run ∷ []) [] (artifact ∷ []) (test_run ∷ [])
      waiting_run approval_verdict 7 approved_runs approvals waiting_run 1 decided refl (inl refl)
      refl (omega arith)

-- The run is admitted, claimed, and swept when its only attempt has run out of its lease.
abbrev admitted_world : World
admitted_world = record empty {
  incidents = new_incident incident_data fresh ∷ [];
  runs = pending_run ∷ [];
}

abbrev poll : Option ClaimedRun × List AgentRun
poll = claim_next_run (pending_run ∷ []) "w1" 60 1 10 none (λ _. false)

abbrev claimed_world : World
claimed_world = record admitted_world { runs = poll.1; issued = issue poll.0 [] }

abbrev swept_world : World
swept_world = record claimed_world {
  runs = (expire_exhausted_runs claimed_world.runs 1 60_000_010).1;
}

Reach-admitted : Reach plain_hash empty admitted_world
unfolding create_incident_and_run
Reach-admitted =
    next here
      (admit incident_data fresh 10 _ _ (record { run_pk = tt; run_id = tt; unclaimed = tt }) refl)

Reach-claimed : Reach plain_hash empty claimed_world
Reach-claimed = next Reach-admitted (claim "w1" 60 1 10 none (λ _. false) poll.0 poll.1 refl)

Reach-swept : Reach plain_hash empty swept_world
Reach-swept = next Reach-claimed (expire 1 60_000_010)

abbrev first_claim : ClaimedRun
first_claim = record {
  incident_pk = "I1";
  run_id = "RUN-1";
  worker_id = "w1";
  attempt_count = 1;
  recover = false;
}

fence_exclusive_example : first_claim ≡ first_claim
unfolding fence claim_next_run first_by_order better
fence_exclusive_example =
    fence_exclusive plain_hash first_claim first_claim "RUN-1" 20 30 _ _ Reach-claimed (inl refl)
      (inl refl) refl refl

abbrev swept_run : AgentRun
swept_run = record pending_run {
  status = RunStatus.needs_human_intervention;
  workflow_state = WorkflowState.needs_human_intervention;
  attempt_count = 1;
  failure_category = some "lease_expired";
  error = some "job attempts exhausted after lease expiration";
  finished_at = some 60_000_010;
}

abbrev renewed_world : World
renewed_world = record swept_world {
  runs = (renew_lease swept_world.runs "RUN-1" "w1" 60 20 (some 1)).1;
}

terminal_stays_terminal_example :
    (s : AgentRun) × In s renewed_world.runs
    × (s.id ≡ "K1")
    × (s.status ≡ RunStatus.needs_human_intervention)
    × ((t : AgentRun)
        → In t renewed_world.runs
        → t.id ≡ "K1"
        → t.status ≡ RunStatus.needs_human_intervention)
unfolding claim_next_run first_by_order better expire_exhausted_runs
terminal_stays_terminal_example =
    terminal_stays_terminal plain_hash swept_run Reach-swept
      (next here (renew "RUN-1" "w1" 60 20 (some 1))) (inl refl) refl

Reach-Inv_example : Inv swept_world
Reach-Inv_example = Reach-Inv plain_hash Reach-swept empty-Inv

-- The workflow runs into its timeout.
abbrev shown : Exception → String
shown x = "timed out"

abbrev class_of : Exception → String
class_of x = "TimeoutError"

abbrev settings : Settings
settings = record { worker_concurrency = 2; job_lease_seconds = 60; max_job_attempts = 3 }

abbrev leased_world : World
leased_world = record empty { runs = leased_run ∷ [] }

abbrev times_out : World → Race × World
times_out w = (executed (err (timeout_error "timed out")), w)

abbrev after_claim : World
after_claim = (execute_claim shown class_of settings "w1" lease_claim 50 times_out leased_world).1

no_value : (s : String) → timeout_error "timed out" ≢ value_error s
no_value s e = cc

no_type : (s : String) → timeout_error "timed out" ≢ type_error s
no_type s e = cc

execute_claim-claimed_again_example :
    (q : AgentRun) × In q after_claim.runs
    × (q.run_id ≡ "RUN-1")
    × (q.status ≡ RunStatus.pending)
    × (q.worker_id ≡ none)
    × Turn after_claim.runs "w2" 60 3 (50 + seconds 30) (λ _. false) q
execute_claim-claimed_again_example =
    execute_claim-claimed_again shown class_of settings "w1" lease_claim 50 times_out leased_world
      leased_world (timeout_error "timed out") leased_run (50 + seconds 30) "w2" 60 (λ _. false)
      refl no_value no_type refl (refl, refl) (omega arith) (omega arith) refl
