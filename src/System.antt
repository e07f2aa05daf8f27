-- ===== src/System.antt =====
-- The control plane as a whole: the operations of persistence/jobs.py and services/incidents.py of
-- src/incidentpilot, and what agent/graph.py writes into agent_runs by itself, as steps on the shared tables, in any order, by any workers, at any clock
-- readings. Each step is one committed transaction; a call that fails is no step.
pub mod Invariant
pub mod Terminal
pub mod Exclusion
use incidentpilot.Base.{
  ℕ, String, ◌≡◌, ◌≢◌, Bool, Option, none, some, List, [], ◌∷◌, All, In, Result, ok,
}
use incidentpilot.Enums.{RunStatus}
use incidentpilot.Store.{AgentRun, Incident, PatchArtifact, TestRun, Approval}
use incidentpilot.Jobs.{
  ClaimedRun, claim_next_run, renew_lease, release_claim, retry_claim, expire_exhausted_runs,
}
use incidentpilot.Jobs.Admission.{IncidentData, Fresh, create_incident_and_run, admitted}
use incidentpilot.Agent.Progress.{Progress, store_progress, store_totals}
use incidentpilot.Services.{mark_running, mark_status, decide, Marks, Verdict}

-- `issued` is every claim that a worker was ever given, newest first.
pub record World : Type 0 where
  pub incidents : List Incident
  pub runs : List AgentRun
  pub approvals : List Approval
  pub issued : List ClaimedRun

abbrev pub empty : World
empty = record { incidents = []; runs = []; approvals = []; issued = [] }

abbrev pub issue : Option ClaimedRun → List ClaimedRun → List ClaimedRun
issue none cs = cs
issue (some c) cs = c ∷ cs

-- Ids from uuid4 are new: no row and no claim bears them.
pub record IsFresh (w : World) (f : Fresh) : Type 0 where
  pub run_pk : All (λ (r : AgentRun). r.id ≢ f.run_pk) w.runs
  pub run_id : All (λ (r : AgentRun). r.run_id ≢ f.run_id) w.runs
  pub unclaimed : All (λ (c : ClaimedRun). c.run_id ≢ f.run_id) w.issued

module _ (hash_patch : String → String) where
  pub data Step (w : World) : World → Type 0 where
    admit :
        (d : IncidentData) (f : Fresh) (max_queued_runs : ℕ) (incidents : List Incident)
        (runs : List AgentRun)
        → IsFresh w f
        → create_incident_and_run w.incidents w.runs d f max_queued_runs ≡ admitted incidents runs
        → Step w (record w { incidents = incidents; runs = runs })
    claim :
        (worker_id : String) (lease_seconds max_attempts current : ℕ) (run_id : Option String)
        (locked : String → Bool) (taken : Option ClaimedRun) (runs : List AgentRun)
        → claim_next_run w.runs worker_id lease_seconds max_attempts current run_id locked
          ≡ (taken, runs)
        → Step w (record w { runs = runs; issued = issue taken w.issued })
    renew :
        (run_id worker_id : String) (lease_seconds current : ℕ) (attempt_count : Option ℕ)
        → Step w (record w {
          runs = (renew_lease w.runs run_id worker_id lease_seconds current attempt_count).1;
        })
    release :
        (run_id worker_id : String) (attempt_count : Option ℕ)
        → Step w (record w { runs = (release_claim w.runs run_id worker_id attempt_count).1 })
    retry :
        (run_id worker_id : String) (max_attempts : ℕ) (category : String) (delay current : ℕ)
        (attempt_count : Option ℕ)
        → Step w (record w {
          runs =
              (retry_claim w.runs run_id worker_id max_attempts category delay current
                attempt_count).1;
        })
    expire :
        (max_attempts current : ℕ)
        → Step w (record w { runs = (expire_exhausted_runs w.runs max_attempts current).1 })
    start :
        (by : Option ClaimedRun) (run : AgentRun) (current : ℕ) (runs : List AgentRun)
        → mark_running by w.runs run current ≡ ok runs
        → Step w (record w { runs = runs })
    mark :
        (by : Option ClaimedRun) (run : AgentRun) (status : RunStatus) (m : Marks) (current : ℕ)
        (runs : List AgentRun)
        → mark_status by w.runs run status m current ≡ ok runs
        → Step w (record w { runs = runs })
    progress :
        (by : Option ClaimedRun) (run_id : String) (p : Progress) (current : ℕ)
        (runs : List AgentRun)
        → store_progress by w.runs run_id p current ≡ ok runs
        → Step w (record w { runs = runs })
    totals :
        (run : AgentRun) (plan : List String) (tool_call_count patch_attempt_count : ℕ)
        → Step w
            (record w { runs = store_totals w.runs run plan tool_call_count patch_attempt_count })
    decision :
        (artifacts : List PatchArtifact) (tests : List TestRun) (run : AgentRun) (v : Verdict)
        (now : ℕ) (runs : List AgentRun) (approvals : List Approval)
        → decide hash_patch w.runs w.approvals artifacts tests run v now ≡ ok (runs, approvals)
        → Step w (record w { runs = runs; approvals = approvals })

  pub data Reach (w : World) : World → Type 0 where
    here : Reach w w
    next : {v u : World} → Reach w v → Step v u → Reach w u
