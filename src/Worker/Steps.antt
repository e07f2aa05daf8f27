-- ===== src/Worker/Steps.antt =====
-- _execute_claim of src/incidentpilot/worker.py: its transactions are steps of the control plane, and
-- what it leaves of the claim it was given.
use incidentpilot.Base.{
  ℕ, String, ◌+◌, ◌≤◌, ◌<◌, ◌≡◌, ◌≢◌, refl, ap, sym, subst, Bool, true, false, inl, inr, Option,
  none, some, List, [], ◌∷◌, arith, Bool-cases, All, In, if◌then◌else◌, find_where, update_where,
  Result, ok, err, Exception, value_error, type_error, runtime_error, permission_error, lost_lease,
  approval_conflict, integrity_error, structured_output_error, timeout_error, connection_error,
  http_timeout, http_network, other, http_status, string_eq,
}
use incidentpilot.Base.Exec.{Exec}
use incidentpilot.Enums.{RunStatus, ApprovalDecision, status_eq}
use incidentpilot.Json.{Dict}
use incidentpilot.Store.{AgentRun, seconds}
use incidentpilot.Jobs.{ClaimedRun, owned_by, clear_lease, release_claim}
use incidentpilot.Jobs.Turns.{Turn}
use incidentpilot.Jobs.Leases.{IsLive, retry_claim-claimed_again}
use incidentpilot.System.{World, Reach, here, next, release, retry}
use incidentpilot.Executor.{run_named, approved_decision}
use incidentpilot.Executor.Steps.{IsStepwise, Reach-trans, mark-Reach}
use incidentpilot.Worker.{
  Settings, Race, executed, outcome, is_permanent, human_marks, give_up, on_failure, settle,
  execute_claim, continue_claim, resume_or_execute, retry_delay,
}

module _ (hash_patch : String → String) where
  module _ (message class_name : Exception → String) (settings : Settings) (worker_id : String)
      (claim : ClaimedRun) (current : ℕ) where
    give_up-Reach :
        (e : Exception) (o : Option AgentRun)
        → IsStepwise hash_patch (give_up message class_name settings worker_id claim current e o)
    give_up-Reach e none w = here
    give_up-Reach e (some run) w =
        mark-Reach hash_patch (some claim) current run RunStatus.needs_human_intervention
          (human_marks (message e)) w _ refl

    on_failure-Reach :
        (e : Exception) (b : Bool)
        → IsStepwise hash_patch (on_failure message class_name settings worker_id claim current e b)
    on_failure-Reach e true w = give_up-Reach e (run_named claim.run_id w.runs) w
    on_failure-Reach e false w = next here (
        retry claim.run_id worker_id settings.max_job_attempts (class_name e)
          (seconds (retry_delay claim.attempt_count)) current (some claim.attempt_count))

    settle-Reach :
        (o : Option (Result (Unit {0})))
        → IsStepwise hash_patch (settle message class_name settings worker_id claim current o)
    settle-Reach none w = here
    settle-Reach (some (ok _)) w =
        next here (release claim.run_id worker_id (some claim.attempt_count))
    settle-Reach (some (err e)) w = on_failure-Reach e (is_permanent e) w

    pub execute_claim-Reach :
        (race : World → Race × World)
        → ((w : World) → Reach hash_patch w (race w).1)
        → (w : World)
        → Reach hash_patch w
            (execute_claim message class_name settings worker_id claim current race w).1
    unfolding execute_claim
    execute_claim-Reach race stepwise w =
        Reach-trans hash_patch (stepwise w) (settle-Reach (outcome (race w).0) (race w).1)

  module _ (execute : (incident_pk run_id : String) → (recover : Bool) → Exec World Dict)
      (resume : String → ApprovalDecision → Exec World Dict)
      (executes : (incident_pk run_id : String) (recover : Bool)
        → IsStepwise hash_patch (execute incident_pk run_id recover))
      (resumes : (run_id : String) (d : ApprovalDecision)
        → IsStepwise hash_patch (resume run_id d)) where
    continue_claim-Reach :
        (claim : ClaimedRun) (o : Option ApprovalDecision)
        → IsStepwise hash_patch (continue_claim execute resume claim o)
    continue_claim-Reach claim none w = executes claim.incident_pk claim.run_id claim.recover w
    continue_claim-Reach claim (some d) w = resumes claim.run_id d w

    pub resume_or_execute-Reach :
        (claim : ClaimedRun) → IsStepwise hash_patch (resume_or_execute execute resume claim)
    unfolding resume_or_execute
    resume_or_execute-Reach claim w =
        continue_claim-Reach claim (approved_decision w claim.run_id) w

delay_bound : (n : ℕ) → seconds (retry_delay n) ≤ seconds 30
delay_bound n = omega arith

released_row :
    (run_id worker_id : String) (n : Option ℕ) (r : AgentRun)
    → owned_by run_id worker_id n (if◌then◌else◌ (owned_by run_id worker_id n r) (clear_lease r) r)
      ≡ false
released_row run_id worker_id n r = elim (Bool-cases (owned_by run_id worker_id n r)) [
  | inl e ↦ rw e (ground arith)
  | inr e ↦ rw e e
]

released_rows :
    (run_id worker_id : String) (n : Option ℕ) (rs : List AgentRun)
    → All
        (λ r. owned_by run_id worker_id n r ≡ false)
        (update_where (owned_by run_id worker_id n) clear_lease rs)
released_rows run_id worker_id n [] = tt
released_rows run_id worker_id n (r ∷ rs) =
    (released_row run_id worker_id n r, released_rows run_id worker_id n rs)

module _ (message class_name : Exception → String) (settings : Settings) (worker_id : String)
    (claim : ClaimedRun) (current : ℕ) (race : World → Race × World) (w v : World) where
  abbrev left_by_claim : World
  left_by_claim = (execute_claim message class_name settings worker_id claim current race w).1

  execute_claim-settle :
      (o : Race)
      → race w ≡ (o, v)
      → execute_claim message class_name settings worker_id claim current race w
        ≡ settle message class_name settings worker_id claim current (outcome o) v
  unfolding execute_claim
  execute_claim-settle o e =
      ap
        (λ (p : Race × World).
          settle message class_name settings worker_id claim current (outcome p.0) p.1)
        e

  -- A claim whose execution returned, whatever status it returned, leaves no row that the worker
  -- still holds by it.
  pub execute_claim-releases :
      (d : Dict)
      → race w ≡ (executed (ok d), v)
      → All
          (λ r. owned_by claim.run_id worker_id (some claim.attempt_count) r ≡ false)
          left_by_claim.runs
  unfolding release_claim
  execute_claim-releases d e =
      subst
        (λ (o : Result (Unit {0}) × World).
          All (λ r. owned_by claim.run_id worker_id (some claim.attempt_count) r ≡ false) o.1.runs)
        (sym (execute_claim-settle (executed (ok d)) e))
        (released_rows claim.run_id worker_id (some claim.attempt_count) v.runs)

  passing :
      (x : Exception)
      → ((s : String) → x ≢ value_error s)
      → ((s : String) → x ≢ type_error s)
      → is_permanent x ≡ false
  passing (value_error s) h k = absurd (h s refl)
  passing (type_error s) h k = absurd (k s refl)
  passing (runtime_error s) h k = refl
  passing (permission_error s) h k = refl
  passing (lost_lease s) h k = refl
  passing (approval_conflict s) h k = refl
  passing (integrity_error s) h k = refl
  passing (structured_output_error s) h k = refl
  passing (timeout_error s) h k = refl
  passing (connection_error s) h k = refl
  passing (http_timeout s) h k = refl
  passing (http_network s) h k = refl
  passing (other s) h k = refl
  passing (http_status n) h k = refl

  -- A claim whose execution raised what is not a ValueError or a TypeError, at a time when the run
  -- was still leased to the worker and had attempts left, leaves the run PENDING without an owner;
  -- thirty seconds later at most a poll for this run claims it again, and a poll for any run claims
  -- it or a run that stands before it in the queue, unless its row is locked.
  pub execute_claim-claimed_again :
      (x : Exception) (run : AgentRun) (later : ℕ) (poller : String) (lease_seconds : ℕ)
      (locked : String → Bool)
      → race w ≡ (executed (err x), v)
      → ((s : String) → x ≢ value_error s)
      → ((s : String) → x ≢ type_error s)
      → find_where (owned_by claim.run_id worker_id (some claim.attempt_count)) v.runs ≡ some run
      → IsLive current run
      → run.attempt_count < settings.max_job_attempts
      → current + seconds 30 ≤ later
      → locked run.id ≡ false
      → (q : AgentRun) × In q left_by_claim.runs
        × (q.run_id ≡ claim.run_id)
        × (q.status ≡ RunStatus.pending)
        × (q.worker_id ≡ none)
        × Turn left_by_claim.runs poller lease_seconds settings.max_job_attempts later locked q
  execute_claim-claimed_again x run later poller lease_seconds locked e no_value no_type found live
        left due unlocked =
      let (_, q, r, turn) =
        retry_claim-claimed_again v.runs claim.run_id worker_id claim.attempt_count
          settings.max_job_attempts (class_name x) (seconds (retry_delay claim.attempt_count))
          current run found live left later poller lease_seconds locked
          (omega (arith, due, delay_bound claim.attempt_count)) unlocked in
      subst
        (λ (o : Result (Unit {0}) × World).
          (q : AgentRun) × In q o.1.runs
          × (q.run_id ≡ claim.run_id)
          × (q.status ≡ RunStatus.pending)
          × (q.worker_id ≡ none)
          × Turn o.1.runs poller lease_seconds settings.max_job_attempts later locked q)
        (sym (execute_claim-settle (executed (err x)) e))
        (rw (passing x no_value no_type) (q, r.stored, r.same_run, r.pending, r.unowned, turn))
