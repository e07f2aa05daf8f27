-- ===== src/Worker.antt =====
-- src/incidentpilot/worker.py: DurableWorker. The two tasks of a claim are an argument that says
-- which of them ended first, and how; `issued` of the world records the claims. Metrics, logging,
-- signals and the process entry point are left out.
pub mod Heartbeat
pub mod Polling
pub mod Resuming
pub mod Steps
pub mod Refines
use incidentpilot.Base.{
  ℕ, String, zero, suc, ◌-◌, ◌^◌, Bool, true, false, Option, none, some, List, [], ◌∷◌, min, ltb,
  Result, ok, err, Exception, value_error, type_error, runtime_error,
}
use incidentpilot.Base.Exec.{Exec, continue}
use incidentpilot.Enums.{RunStatus, WorkflowState, ApprovalDecision}
use incidentpilot.Json.{Dict}
use incidentpilot.Store.{AgentRun, seconds}
use incidentpilot.Jobs.{
  ClaimedRun, claim_next_run, release_claim, retry_claim, expire_exhausted_runs,
}
use incidentpilot.Services.{mark_status, Marks}
use incidentpilot.Tools.Gateway.{first_chars}
use incidentpilot.System.{World, issue}
use incidentpilot.Executor.{run_named, store_runs, approved_decision}

pub record Settings : Type 0 where
  pub worker_concurrency : ℕ
  pub job_lease_seconds : ℕ
  pub max_job_attempts : ℕ

-- What a renewal of the lease answers. SQLAlchemyError and OSError are transient.
pub data Reply : Type 0 where
  renewed lost : Reply
  transient broken : Exception → Reply

-- One round of the heartbeat: the event loop's clock after the renewal, and its answer.
pub data Beat : Type 0 where
  round : (time : ℕ) → Reply → Beat

-- The heartbeat still beats, or it returned, or it raised; with the time of its last round and its
-- variable confirmed_at.
pub data Pulse : Type 0 where
  beating stopped : (time confirmed_at : ℕ) → Pulse
  raised : Exception → (time confirmed_at : ℕ) → Pulse

-- max(0.0, lease - heartbeat)
abbrev pub tolerance : (job_lease_seconds job_heartbeat_seconds : ℕ) → ℕ
tolerance job_lease_seconds job_heartbeat_seconds = job_lease_seconds - job_heartbeat_seconds

abbrev pub next_pulse : Bool → Exception → (time confirmed_at : ℕ) → Pulse → Pulse
next_pulse true e time confirmed_at rest = rest
next_pulse false e time confirmed_at rest = raised e time confirmed_at

-- The loop of _heartbeat over the rounds so far; `time` is the clock of the round before.
unfoldable pub heartbeat : (slack time confirmed_at : ℕ) → List Beat → Pulse
heartbeat slack time confirmed_at [] = beating time confirmed_at
heartbeat slack time confirmed_at (round t renewed ∷ bs) = heartbeat slack t t bs
heartbeat slack time confirmed_at (round t lost ∷ bs) = stopped t confirmed_at
heartbeat slack time confirmed_at (round t (transient e) ∷ bs) =
    next_pulse (ltb (t - confirmed_at) slack) e t confirmed_at (heartbeat slack t confirmed_at bs)
heartbeat slack time confirmed_at (round t (broken e) ∷ bs) = raised e t confirmed_at

-- min(30.0, 2.0 ** max(0, attempt_count - 1)), in seconds
abbrev pub retry_delay : (attempt_count : ℕ) → ℕ
retry_delay attempt_count = min 30 (2 ^ (attempt_count - 1))

-- How the race of the execution and the heartbeat ends. A shutdown cancels the whole task.
pub data Race : Type 0 where
  executed : Result Dict → Race
  heartbeat_first : Result (Unit {0}) → Race
  cancelled : Race

-- asyncio.wait on the two tasks: the execution runs to its end, or the heartbeat ends first, with this
-- result, when the execution has come this far.
abbrev pub race_of :
    Exec World Dict → Option (Result (Unit {0}) × (World → World)) → World → Race × World
race_of execution none w = let (r, v) = execution w in (executed r, v)
race_of execution (some (r, cut)) w = (heartbeat_first r, cut w)

-- What the try block raises or goes on with.
abbrev pub outcome : Race → Option (Result (Unit {0}))
outcome (executed (ok d)) = some (ok tt)
outcome (executed (err e)) = some (err e)
outcome (heartbeat_first (ok _)) =
    some (err (runtime_error "lease ownership lost during execution"))
outcome (heartbeat_first (err e)) = some (err e)
outcome cancelled = none

-- isinstance(exc, (ValueError, TypeError))
abbrev pub is_permanent : Exception → Bool
is_permanent (value_error s) = true
is_permanent (type_error s) = true
is_permanent _ = false

abbrev pub human_marks : String → Marks
human_marks error = record {
  workflow_state = some WorkflowState.needs_human_intervention;
  error = some (first_chars 2000 error);
  result = none;
  root_cause = none;
  finished = true;
}

-- `message` is str(exc) and `class_name` is type(exc).__name__.
module _ (message class_name : Exception → String) (settings : Settings) (worker_id : String)
    (claim : ClaimedRun) (current : ℕ) where
  abbrev pub give_up : Exception → Option AgentRun → Exec World (Unit {0})
  give_up e none w = (ok tt, w)
  give_up e (some run) w =
      store_runs
        (mark_status (some claim) w.runs run RunStatus.needs_human_intervention
          (human_marks (message e)) current)
        w

  abbrev pub retry_later : Exception → Exec World (Unit {0})
  retry_later e w = (
    ok tt,
    record w {
      runs =
          (retry_claim w.runs claim.run_id worker_id settings.max_job_attempts (class_name e)
            (seconds (retry_delay claim.attempt_count)) current (some claim.attempt_count)).1;
    },
  )

  -- The handler of _execute_claim.
  abbrev pub on_failure : Exception → Bool → Exec World (Unit {0})
  on_failure e true w = give_up e (run_named claim.run_id w.runs) w
  on_failure e false w = retry_later e w

  abbrev pub settle : Option (Result (Unit {0})) → Exec World (Unit {0})
  settle none w = (ok tt, w)
  settle (some (ok _)) w = (
    ok tt,
    record w { runs = (release_claim w.runs claim.run_id worker_id (some claim.attempt_count)).1 },
  )
  settle (some (err e)) w = on_failure e (is_permanent e) w

  -- _execute_claim: `race` runs the two tasks until one of them is done.
  unfoldable pub execute_claim : (race : World → Race × World) → Exec World (Unit {0})
  execute_claim race w = let (r, v) = race w in settle (outcome r) v

-- _resume_or_execute
module _ (execute : (incident_pk run_id : String) → (recover : Bool) → Exec World Dict)
    (resume : String → ApprovalDecision → Exec World Dict) where
  abbrev pub continue_claim : ClaimedRun → Option ApprovalDecision → Exec World Dict
  continue_claim claim (some d) w = resume claim.run_id d w
  continue_claim claim none w = execute claim.incident_pk claim.run_id claim.recover w

  pub resume_or_execute : ClaimedRun → Exec World Dict
  resume_or_execute claim w = continue_claim claim (approved_decision w claim.run_id) w

-- One round of run: the sweep, and claims until the worker is full, is told to stop, or finds no run.
-- `clock` and `locked` give the database's time and the rows that others lock at each poll; `stopping`
-- is read before each. `left` is the concurrency less the number of active tasks.
module _ (settings : Settings) (worker_id : String) (clock : ℕ → ℕ) (locked : ℕ → String → Bool)
    (stopping : ℕ → Bool) where
  abbrev pub polled : ℕ → World → Option ClaimedRun × List AgentRun
  polled left w =
      claim_next_run w.runs worker_id settings.job_lease_seconds settings.max_job_attempts
        (clock left) none (locked left)

  abbrev pub took : Option ClaimedRun × List AgentRun → World → World
  took (taken, runs) w = record w { runs = runs; issued = issue taken w.issued }

  abbrev pub after_poll :
      (World → List ClaimedRun × World) → Option ClaimedRun → World → List ClaimedRun × World
  after_poll rest none w = ([], w)
  after_poll rest (some c) w = let (cs, v) = rest w in (c ∷ cs, v)

  abbrev pub poll_unless :
      Bool
      → (World → List ClaimedRun × World)
      → Option ClaimedRun × List AgentRun
      → World
      → List ClaimedRun × World
  poll_unless true rest o w = ([], w)
  poll_unless false rest o w = after_poll rest o.0 (took o w)

  -- The tasks that are started, and the world after them.
  unfoldable pub claim_until_full : (left : ℕ) → World → List ClaimedRun × World
  claim_until_full zero w = ([], w)
  claim_until_full (suc left) w =
      poll_unless (stopping (suc left)) (claim_until_full left) (polled (suc left) w) w

  -- `active` tasks are running when the round begins.
  unfoldable pub poll_round : (active : ℕ) → (swept_at : ℕ) → World → List ClaimedRun × World
  poll_round active swept_at w =
      claim_until_full (settings.worker_concurrency - active)
        (record w { runs = (expire_exhausted_runs w.runs settings.max_job_attempts swept_at).1 })
