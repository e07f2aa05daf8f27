-- ===== src/Worker/Refines.antt =====
-- A claim from its start to its end: _execute_claim and _resume_or_execute of
-- src/incidentpilot/worker.py with execute and resume of src/incidentpilot/agent/executor.py.
use incidentpilot.Base.{ℕ, String, ◌≡◌, Bool, Option, none, some, In, Result, Exception}
use incidentpilot.Base.Exec.{Exec}
use incidentpilot.Enums.{ApprovalDecision}
use incidentpilot.Enums.Transitions.{IsTerminal}
use incidentpilot.Json.{Dict}
use incidentpilot.Store.{AgentRun}
use incidentpilot.Jobs.{ClaimedRun}
use incidentpilot.System.{World, empty, Reach}
use incidentpilot.System.Terminal.{terminal_stays_terminal}
use incidentpilot.Executor.{execute, resume}
use incidentpilot.Executor.Steps.{IsStepwise, execute-Reach, resume-Reach}
use incidentpilot.Worker.{Settings, race_of, execute_claim, resume_or_execute}
use incidentpilot.Worker.Steps.{execute_claim-Reach, resume_or_execute-Reach}

module _ (hash_patch : String → String) where
  -- What a heartbeat that ended first leaves of the execution that it cut short.
  abbrev pub CutStepwise : Option (Result (Unit {0}) × (World → World)) → Type 0
  CutStepwise none = Unit
  CutStepwise (some (r, cut)) = (w : World) → Reach hash_patch w (cut w)

  race_of-Reach :
      (execution : Exec World Dict) (interrupt : Option (Result (Unit {0}) × (World → World)))
      → IsStepwise hash_patch execution
      → CutStepwise interrupt
      → (w : World) → Reach hash_patch w (race_of execution interrupt w).1
  race_of-Reach execution none stepwise cut w = stepwise w
  race_of-Reach execution (some (r, c)) stepwise cut w = cut w

  module _ (message class_name : Exception → String) (settings : Settings) (worker_id : String)
      (claim : ClaimedRun) (current later : ℕ)
      (run_agent_workflow : (incident_pk run_id : String) → (recover : Bool) → Exec World Dict)
      (resume_agent_workflow : (run_id : String) → ApprovalDecision → Exec World Dict)
      (interrupt : Option (Result (Unit {0}) × (World → World))) where
    abbrev pub execution_of_claim : Exec World Dict
    execution_of_claim =
        resume_or_execute
          (execute run_agent_workflow resume_agent_workflow (some claim) current later)
          (resume run_agent_workflow resume_agent_workflow (some claim) current later) claim

    abbrev pub end_of_claim : World → World
    end_of_claim w =
        (execute_claim message class_name settings worker_id claim current
          (race_of execution_of_claim interrupt) w).1

    -- The worker refines the control plane. If the two workflows and what is left of an execution that
    -- is cut short change the tables by steps of the control plane only, then so does a claim as a
    -- whole: the choice between resuming and executing, the start of the run, the handlers of timeouts
    -- and bad answers, and the release, retry or giving up at its end, however the race between
    -- execution and heartbeat ends. So from every reachable state a run that has ended keeps its
    -- status.
    pub execute_claim_refines :
        ((incident_pk run_id : String) (recover : Bool)
          → IsStepwise hash_patch (run_agent_workflow incident_pk run_id recover))
        → ((run_id : String) (d : ApprovalDecision)
            → IsStepwise hash_patch (resume_agent_workflow run_id d))
        → CutStepwise interrupt
        → (w : World) → Reach hash_patch empty w
        → Reach hash_patch w (end_of_claim w)
          × ((r t : AgentRun)
              → In r w.runs
              → IsTerminal r.status
              → In t (end_of_claim w).runs
              → t.id ≡ r.id
              → t.status ≡ r.status)
    execute_claim_refines runs resumes cut w from =
        let execution =
          resume_or_execute-Reach hash_patch
            (execute run_agent_workflow resume_agent_workflow (some claim) current later)
            (resume run_agent_workflow resume_agent_workflow (some claim) current later)
            (execute-Reach hash_patch run_agent_workflow resume_agent_workflow (some claim) current
              later runs resumes)
            (resume-Reach hash_patch run_agent_workflow resume_agent_workflow (some claim) current
              later runs resumes)
            claim in
        let steps =
          execute_claim-Reach hash_patch message class_name settings worker_id claim current
            (race_of execution_of_claim interrupt)
            (race_of-Reach execution_of_claim interrupt execution cut) w in
        (
          steps,
          (λ r t i done j same.
              let (_, _, _, _, all) = terminal_stays_terminal hash_patch r from steps i done in
              all t j same),
        )
