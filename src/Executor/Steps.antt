-- ===== src/Executor/Steps.antt =====
-- Refinement: src/incidentpilot/agent/executor.py changes the shared tables by steps of the control
-- plane only, whatever its workflows raise.
use incidentpilot.Base.{
  ℕ, String, ◌≡◌, refl, Bool, true, false, Option, none, some, List, Result, ok, err, timeout_error,
  structured_output_error,
}
use incidentpilot.Base.Exec.{Exec, continue}
use incidentpilot.Enums.{RunStatus, ApprovalDecision}
use incidentpilot.Json.{Dict}
use incidentpilot.Store.{AgentRun}
use incidentpilot.Jobs.{ClaimedRun}
use incidentpilot.Services.{mark_running, mark_status, Marks}
use incidentpilot.System.{World, Reach, here, next, start, mark}
use incidentpilot.Executor.{
  run_named, store_runs, halt_if, halt_run, halt, halted, halt_marks, halt_and_report,
  after_execute, after_resume, after_crash, execute, resume_started, resume_run, resume, run_safe,
  resume_safe,
}

module _ (hash_patch : String → String) where
  pub Reach-trans :
      {u v w : World} → Reach hash_patch u v → Reach hash_patch v w → Reach hash_patch u w
  Reach-trans p here = p
  Reach-trans p (next q s) = next (Reach-trans p q) s

  -- A program that only makes steps of the control plane.
  abbrev pub IsStepwise : {A : Type 0} → Exec World A → Type 0
  IsStepwise m = (w : World) → Reach hash_patch w (m w).1

  module _ (by : Option ClaimedRun) (current : ℕ) where
    pub mark-Reach :
        (run : AgentRun) (target : RunStatus) (m : Marks) (w : World) (r : Result (List AgentRun))
        → mark_status by w.runs run target m current ≡ r
        → Reach hash_patch w (store_runs r w).1
    mark-Reach run target m w (ok runs) e = next here (mark by run target m current runs e)
    mark-Reach run target m w (err x) e = here

    start-Reach :
        (run : AgentRun) (w : World) (r : Result (List AgentRun))
        → mark_running by w.runs run current ≡ r
        → Reach hash_patch w (store_runs r w).1
    start-Reach run w (ok runs) e = next here (start by run current runs e)
    start-Reach run w (err x) e = here

    halt_if-Reach :
        (target : RunStatus) (error : String) (run : AgentRun) (b : Bool) (w : World)
        → Reach hash_patch w (halt_if by current target error run b w).1
    halt_if-Reach target error run false w = here
    halt_if-Reach target error run true w = mark-Reach run target (halt_marks target error) w _ refl

    halt_run-Reach :
        (target : RunStatus) (error : String) (o : Option AgentRun) (w : World)
        → Reach hash_patch w (halt_run by current target error o w).1
    halt_run-Reach target error none w = here
    halt_run-Reach target error (some run) w = halt_if-Reach target error run _ w

    pub halt-Reach :
        (run_id : String) (target : RunStatus) (error : String)
        → IsStepwise (halt by current run_id target error)
    unfolding halt
    halt-Reach run_id target error w = halt_run-Reach target error (run_named run_id w.runs) w

    report-Reach :
        (run_id : String) (w v : World) (r : Result (Unit {0}))
        → Reach hash_patch w v
        → Reach hash_patch w
            (continue r (λ done (v : World). (ok (halted by current run_id), v)) v).1
    report-Reach run_id w v (ok _) p = p
    report-Reach run_id w v (err e) p = p

    halted-Reach : (run_id error : String) → IsStepwise (halt_and_report by current run_id error)
    halted-Reach run_id error w =
        report-Reach run_id w _ _ (halt-Reach run_id RunStatus.needs_human_intervention error w)

    after_execute-Reach :
        (run_id : String) (r : Result Dict) → IsStepwise (after_execute by current run_id r)
    after_execute-Reach run_id (err (timeout_error s)) w = halted-Reach run_id _ w
    after_execute-Reach run_id (err (structured_output_error s)) w = halted-Reach run_id s w
    after_execute-Reach run_id _ w = here

    after_resume-Reach :
        (run_id : String) (r : Result Dict) → IsStepwise (after_resume by current run_id r)
    after_resume-Reach run_id (err (timeout_error s)) w = halted-Reach run_id _ w
    after_resume-Reach run_id _ w = here

    after_crash-Reach :
        (run_id : String) (target : RunStatus) (error : String) (r : Result Dict)
        → IsStepwise (after_crash by current run_id target error r)
    after_crash-Reach run_id target error (ok d) w = here
    after_crash-Reach run_id target error (err e) w = halt-Reach run_id target error w

  module _ (run_agent_workflow : (incident_pk run_id : String) → (recover : Bool) → Exec World Dict)
      (resume_agent_workflow : (run_id : String) → ApprovalDecision → Exec World Dict)
      (by : Option ClaimedRun) (current later : ℕ)
      (runs_stepwise : (incident_pk run_id : String) (recover : Bool)
        → IsStepwise (run_agent_workflow incident_pk run_id recover))
      (resumes_stepwise : (run_id : String) (d : ApprovalDecision)
        → IsStepwise (resume_agent_workflow run_id d)) where
    pub execute-Reach :
        (incident_pk run_id : String) (recover : Bool)
        → IsStepwise (
            execute run_agent_workflow resume_agent_workflow by current later incident_pk run_id
              recover)
    unfolding execute
    execute-Reach incident_pk run_id recover w =
        Reach-trans (runs_stepwise incident_pk run_id recover w)
          (after_execute-Reach by later run_id _ _)

    resume_started-Reach :
        (run_id : String) (d : ApprovalDecision) (r : Result (Unit {0}))
        → IsStepwise
            (resume_started run_agent_workflow resume_agent_workflow by current later run_id d r)
    resume_started-Reach run_id d (ok _) w =
        Reach-trans (resumes_stepwise run_id d w) (after_resume-Reach by later run_id _ _)
    resume_started-Reach run_id d (err e) w = here

    resume_run-Reach :
        (run_id : String) (d : ApprovalDecision) (o : Option AgentRun)
        → IsStepwise
            (resume_run run_agent_workflow resume_agent_workflow by current later run_id d o)
    resume_run-Reach run_id d none w = here
    resume_run-Reach run_id d (some run) w =
        Reach-trans (start-Reach by current run w _ refl) (resume_started-Reach run_id d _ _)

    pub resume-Reach :
        (run_id : String) (d : ApprovalDecision)
        → IsStepwise (resume run_agent_workflow resume_agent_workflow by current later run_id d)
    unfolding resume
    resume-Reach run_id d w = resume_run-Reach run_id d (run_named run_id w.runs) w

    run_safe-Reach :
        (incident_pk run_id : String) (recover : Bool)
        → IsStepwise (
            run_safe run_agent_workflow resume_agent_workflow by current later incident_pk run_id
              recover)
    unfolding run_safe
    run_safe-Reach incident_pk run_id recover w =
        Reach-trans (execute-Reach incident_pk run_id recover w)
          (after_crash-Reach by later _ _ _ _ _)

    resume_safe-Reach :
        (run_id : String) (d : ApprovalDecision)
        → IsStepwise
            (resume_safe run_agent_workflow resume_agent_workflow by current later run_id d)
    unfolding resume_safe
    resume_safe-Reach run_id d w =
        Reach-trans (resume-Reach run_id d w) (after_crash-Reach by later _ _ _ _ _)
