-- ===== src/Jobs.antt =====
-- src/incidentpilot/persistence/jobs.py: admission, leasing and recovery of runs, over the
-- agent_runs table (admission is in Jobs/Admission). The database's clock is the argument `current`; `locked` says which rows other
-- transactions hold (SKIP LOCKED).
pub mod Claiming
pub mod Turns
pub mod Leases
pub mod Admission
pub mod Keeps
use incidentpilot.Base.{
  ℕ, String, ◌+◌, Bool, true, false, ◌&&◌, ◌||◌, not, Option, none, some, List, [], ◌∷◌, ◌==◌,
  string_eq, nat_eq, if◌then◌else◌, leb, ltb, holds, is_just, is_null, absent_or, update_where,
  count_where, find_where,
}
use incidentpilot.Enums.{RunStatus, WorkflowState, status_eq}
use incidentpilot.Store.{AgentRun, seconds}
use Prim.Native.String.{◌++◌ as str_append}

pub record ClaimedRun : Type 0 where
  pub incident_pk : String
  pub run_id : String
  pub worker_id : String
  pub attempt_count : ℕ
  pub recover : Bool

-- The `eligible` condition of claim_next_run.
abbrev pub eligible : ℕ → AgentRun → Bool
eligible current r =
    (r.status == RunStatus.pending
      && (is_null r.next_attempt_at || holds (λ t. leb t current) r.next_attempt_at))
    || (r.status == RunStatus.running && holds (λ t. leb t current) r.lease_expires_at)

-- The whole WHERE clause, with FOR UPDATE SKIP LOCKED.
abbrev pub claimable : ℕ → ℕ → Option String → (String → Bool) → AgentRun → Bool
claimable current max_attempts run_id locked r =
    (eligible current r && ltb r.attempt_count max_attempts)
    && (absent_or (λ wanted. r.run_id == wanted) run_id && not (locked r.id))

-- ORDER BY next_attempt_at ASC NULLS FIRST, started_at ASC: `a` may stand before `b`.
abbrev pub null_first : Option ℕ → Option ℕ → ℕ → ℕ → Bool
null_first none none s t = leb s t
null_first none (some m) s t = true
null_first (some n) none s t = false
null_first (some n) (some m) s t = ltb n m || (n == m && leb s t)

abbrev pub before : AgentRun → AgentRun → Bool
before a b = null_first a.next_attempt_at b.next_attempt_at a.started_at b.started_at

unfoldable pub better : AgentRun → Option AgentRun → AgentRun
better r none = r
better r (some s) = if before r s then r else s

-- LIMIT 1 of the ordered selection. Of rows that tie, the table's first is taken.
unfoldable pub first_by_order : (AgentRun → Bool) → List AgentRun → Option AgentRun
first_by_order p [] = none
first_by_order p (r ∷ rs) =
    let rest = first_by_order p rs in if p r then some (better r rest) else rest

abbrev pub claim_row : String → ℕ → ℕ → AgentRun → AgentRun
claim_row worker_id lease_seconds current r = record r {
  status = RunStatus.running;
  worker_id = some worker_id;
  attempt_count = r.attempt_count + 1;
  last_heartbeat_at = some current;
  lease_expires_at = some (current + seconds lease_seconds);
  next_attempt_at = none;
}

abbrev pub claim_of : String → AgentRun → ClaimedRun
claim_of worker_id r = record {
  incident_pk = r.incident_pk;
  run_id = r.run_id;
  worker_id = worker_id;
  attempt_count = r.attempt_count + 1;
  recover = r.status == RunStatus.running;
}

-- The ORM writes the claimed row by its primary key.
unfoldable pub claim_next_run :
    List AgentRun
    → (worker_id : String) → (lease_seconds max_attempts current : ℕ) → (run_id : Option String)
    → (locked : String → Bool) → Option ClaimedRun × List AgentRun
claim_next_run runs worker_id lease_seconds max_attempts current run_id locked =
    elim (first_by_order (claimable current max_attempts run_id locked) runs) [
      | none ↦ (none, runs)
      | some r ↦ (
        some (claim_of worker_id r),
        update_where (λ s. s.id == r.id) (claim_row worker_id lease_seconds current) runs,
      )
    ]

-- The condition by which a worker addresses its own claim.
abbrev pub owned_by : String → String → Option ℕ → AgentRun → Bool
owned_by run_id worker_id attempt_count r =
    (r.run_id == run_id && is_just r.worker_id worker_id)
    && absent_or (λ n. r.attempt_count == n) attempt_count

abbrev pub renewable : String → String → Option ℕ → ℕ → AgentRun → Bool
renewable run_id worker_id attempt_count current r =
    owned_by run_id worker_id attempt_count r
    && (r.status == RunStatus.running && holds (λ t. ltb current t) r.lease_expires_at)

pub renew_lease :
    List AgentRun
    → (run_id worker_id : String) → (lease_seconds current : ℕ) → (attempt_count : Option ℕ)
    → Bool × List AgentRun
renew_lease runs run_id worker_id lease_seconds current attempt_count = (
  not (count_where (renewable run_id worker_id attempt_count current) runs == 0),
  update_where (renewable run_id worker_id attempt_count current)
      (λ r. record r {
        last_heartbeat_at = some current;
        lease_expires_at = some (current + seconds lease_seconds);
      })
      runs,
)

abbrev pub clear_lease : AgentRun → AgentRun
clear_lease r = record r { worker_id = none; lease_expires_at = none; last_heartbeat_at = none }

unfoldable pub release_claim :
    List AgentRun → (run_id worker_id : String) → (attempt_count : Option ℕ) → Bool × List AgentRun
release_claim runs run_id worker_id attempt_count = (
  not (count_where (owned_by run_id worker_id attempt_count) runs == 0),
  update_where (owned_by run_id worker_id attempt_count) clear_lease runs,
)

-- What retry_claim returns: "LOST_LEASE", or the status of the run.
pub data RetryOutcome : Type 0 where
  lost_lease : RetryOutcome
  run_is : RunStatus → RetryOutcome

-- The row after the attempts are used up, and the row with a retry scheduled.
abbrev pub exhaust_row : String → ℕ → AgentRun → AgentRun
exhaust_row failure_category current r = record r {
  worker_id = none;
  lease_expires_at = none;
  last_heartbeat_at = none;
  failure_category = some failure_category;
  status = RunStatus.needs_human_intervention;
  workflow_state = WorkflowState.needs_human_intervention;
  error = some (str_append "job attempts exhausted: " failure_category);
  finished_at = some current;
}

abbrev pub requeue_row : String → ℕ → ℕ → AgentRun → AgentRun
requeue_row failure_category delay current r = record r {
  worker_id = none;
  lease_expires_at = none;
  last_heartbeat_at = none;
  failure_category = some failure_category;
  status = RunStatus.pending;
  next_attempt_at = some (current + delay);
  error = some (str_append "retry scheduled: " failure_category);
}

-- What retry_claim does with the row that it has locked.
retry_row : List AgentRun → AgentRun → ℕ → String → ℕ → ℕ → RetryOutcome × List AgentRun
retry_row runs run max_attempts failure_category delay current =
    if not (run.status == RunStatus.running)
    then (run_is run.status, runs)
    else if is_null run.lease_expires_at || holds (λ t. leb t current) run.lease_expires_at
    then (lost_lease, runs)
    else if leb max_attempts run.attempt_count
    then (
      run_is RunStatus.needs_human_intervention,
      update_where (λ s. s.id == run.id) (exhaust_row failure_category current) runs,
    )
    else (
      run_is RunStatus.pending,
      update_where (λ s. s.id == run.id) (requeue_row failure_category delay current) runs,
    )

pub retry_claim :
    List AgentRun
    → (run_id worker_id : String) → (max_attempts : ℕ) → (failure_category : String)
    → (delay current : ℕ) → (attempt_count : Option ℕ) → RetryOutcome × List AgentRun
unfolding retry_row
retry_claim runs run_id worker_id max_attempts failure_category delay current attempt_count =
    elim (find_where (owned_by run_id worker_id attempt_count) runs) [
      | none ↦ (lost_lease, runs)
      | some run ↦ retry_row runs run max_attempts failure_category delay current
    ]

abbrev pub expired_out : ℕ → ℕ → AgentRun → Bool
expired_out max_attempts current r =
    (r.status == RunStatus.running && holds (λ t. leb t current) r.lease_expires_at)
    && leb max_attempts r.attempt_count

abbrev pub expire_row : ℕ → AgentRun → AgentRun
expire_row current r = record r {
  status = RunStatus.needs_human_intervention;
  workflow_state = WorkflowState.needs_human_intervention;
  failure_category = some "lease_expired";
  error = some "job attempts exhausted after lease expiration";
  finished_at = some current;
  worker_id = none;
  lease_expires_at = none;
  last_heartbeat_at = none;
}

unfoldable pub expire_exhausted_runs :
    List AgentRun → (max_attempts current : ℕ) → ℕ × List AgentRun
expire_exhausted_runs runs max_attempts current = (
  count_where (expired_out max_attempts current) runs,
  update_where (expired_out max_attempts current) (expire_row current) runs,
)
