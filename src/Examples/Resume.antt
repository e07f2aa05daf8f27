-- ===== src/Examples/Resume.antt =====
-- The resume of an approved run, before and after its pull request is recorded.
use incidentpilot.Base.{◌≡◌, refl, inl, none, some, ok, [], ◌∷◌}
use incidentpilot.Enums.{approve}
use incidentpilot.Json.{end, field, str, json_beq}
use incidentpilot.Store.{ExternalSideEffect, EffectStatus, PatchArtifact}
use incidentpilot.Services.{approval_row, decided_row, approved_artifact, decide}
use incidentpilot.Artifacts.{validated_artifact}
use incidentpilot.ApprovalResume.{resume_after_approval, idempotency_key}
use incidentpilot.ApprovalResume.Loading.{Db, load}
use incidentpilot.ApprovalResume.Once.{Quiet, Resumes, resume_calls_guarded}
use incidentpilot.ApprovalResume.Completed.{completed_effect-Quiet}
use incidentpilot.ApprovalResume.RoundTrip.{load-decide}
use incidentpilot.Examples.Data.{
  plain_hash, leased_run, lease_claim, artifact, test_run, approval_verdict, waiting_run,
}

abbrev effect : ExternalSideEffect
effect = record {
  run_pk = "K1";
  effect_type = "pull_request";
  idempotency_key = idempotency_key leased_run artifact;
  status = EffectStatus.completed;
  attempt_count = 1;
  result = field "url" (str "pr/1") end;
  error = none;
}

abbrev approved_db : Db
approved_db = record {
  runs = leased_run ∷ [];
  approvals = approval_row waiting_run approval_verdict artifact 7 ∷ [];
  artifacts = artifact ∷ [];
  tests = test_run ∷ [];
  effects = [];
}

abbrev finished_db : Db
finished_db = record approved_db { effects = effect ∷ [] }

resume_calls_guarded_example :
    Resumes plain_hash
      (some lease_claim)
      (λ i. 50)
      "RUN-1"
      approve
      approved_db
      (λ g.
        resume_after_approval plain_hash (some lease_claim) (λ i. 50) g "RUN-1" approve approved_db)
resume_calls_guarded_example =
    resume_calls_guarded plain_hash (some lease_claim) (λ i. 50) "RUN-1" approve approved_db
      (tt, tt)

completed_effect-Quiet_example : Quiet (λ g.
    resume_after_approval plain_hash (some lease_claim) (λ i. 50) g "RUN-1" approve finished_db)
unfolding load validated_artifact json_beq
completed_effect-Quiet_example =
    completed_effect-Quiet plain_hash (some lease_claim) (λ i. 50) leased_run artifact effect
      finished_db (inl refl) (tt, tt) refl refl "RUN-1" approve refl

abbrev waiting_db : Db
waiting_db = record approved_db { runs = waiting_run ∷ []; approvals = [] }

load-decide_example :
    (a : PatchArtifact) × (approved_artifact plain_hash
        (artifact ∷ [])
        (test_run ∷ [])
        waiting_run
        approval_verdict
      ≡ ok a)
    × (load plain_hash "RUN-1" approve (record waiting_db {
      runs = decided_row approve 7 waiting_run ∷ [];
      approvals = approval_row waiting_run approval_verdict artifact 7 ∷ [];
    })
        ≡ ok (decided_row approve 7 waiting_run, a))
unfolding decide validated_artifact
load-decide_example =
    load-decide plain_hash waiting_db waiting_run approval_verdict 7
      (decided_row approve 7 waiting_run ∷ [])
      (approval_row waiting_run approval_verdict artifact 7 ∷ []) (tt, tt) (tt, tt) (inl refl) refl
