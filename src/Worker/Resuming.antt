-- ===== src/Worker/Resuming.antt =====
-- Which of its two ways a claim goes: _resume_or_execute of src/incidentpilot/worker.py.
use incidentpilot.Base.{String, ◌≡◌, refl, sym, ◌∙◌, ap, Bool, Option, Result, none, some}
use incidentpilot.Base.Exec.{Exec}
use incidentpilot.Enums.{ApprovalDecision, approve}
use incidentpilot.Json.{Dict}
use incidentpilot.Jobs.{ClaimedRun}
use incidentpilot.System.{World}
use incidentpilot.Executor.{approved_decision}
use incidentpilot.Executor.Approved.{IsApproved, approved_decision_iff}
use incidentpilot.Worker.{continue_claim, resume_or_execute}

module _ (execute : (incident_pk run_id : String) → (recover : Bool) → Exec World Dict)
    (resume : String → ApprovalDecision → Exec World Dict) (claim : ClaimedRun) (w : World) where
  -- A claim is resumed with APPROVE, and then the tables hold a persisted APPROVE of a stored run of
  -- its name, or it is executed from its incident, and then they hold none.
  pub data Goes (o : Result Dict × World) : Type 0 where
    resumes : IsApproved w claim.run_id → o ≡ resume claim.run_id approve w → Goes o
    executes :
        ¬ IsApproved w claim.run_id
        → o ≡ execute claim.incident_pk claim.run_id claim.recover w
        → Goes o

  decided_by :
      (o : Option ApprovalDecision)
      → approved_decision w claim.run_id ≡ o
      → Goes (continue_claim execute resume claim o w)
  decided_by (some d) e =
      let (same, y) = (approved_decision_iff w claim.run_id d).0 e in
      resumes y (ap (λ x. resume claim.run_id x w) same)
  decided_by none e =
      executes (λ y. none_some (sym e ∙ (approved_decision_iff w claim.run_id approve).1 (refl, y)))
        refl
    where
      none_some : none ≡ some approve → ⊥
      none_some h = cc

  -- Of the two ways a claim takes the one that the stored approvals tell: it is resumed, with APPROVE,
  -- exactly when a persisted APPROVE of a stored run of its name is there, and executed from its
  -- incident otherwise.
  pub resume_or_execute-Goes : Goes (resume_or_execute execute resume claim w)
  unfolding resume_or_execute
  resume_or_execute-Goes = decided_by (approved_decision w claim.run_id) refl
