-- ===== src/Ownership.antt =====
-- src/incidentpilot/persistence/ownership.py: attempt fencing. `claim` is the context variable
-- current_claim. The conditional UPDATE writes the worker id that it has tested for, so a fence
-- that holds leaves the table as it was; a rollback does too.
pub mod Fencing
use incidentpilot.Base.{
  ℕ, String, ◌≡◌, ◌<◌, refl, Bool, true, false, ◌&&◌, not, Option, none, some, List, arith, ◌==◌,
  string_eq, nat_eq, if◌then◌else◌, ltb, holds, is_just, find_where, count_where, update_where,
  Result, ok, err, lost_lease,
}
use incidentpilot.Enums.{RunStatus, status_eq}
use incidentpilot.Store.{AgentRun}
use incidentpilot.Jobs.{ClaimedRun}

-- SELECT worker_id WHERE run_id = :run_id; a missing row and NULL are both None.
abbrev pub owner_of : List AgentRun → String → Option String
owner_of runs run_id = elim (find_where (λ r. r.run_id == run_id) runs) [
  | none ↦ none
  | some r ↦ r.worker_id
]

-- The WHERE clause of the fence.
abbrev pub holds_lease : ClaimedRun → String → ℕ → AgentRun → Bool
holds_lease claim run_id current r =
    (r.run_id == run_id && is_just r.worker_id claim.worker_id)
    && (r.attempt_count == claim.attempt_count
        && (holds (λ t. ltb current t) r.lease_expires_at && r.status == RunStatus.running))

unfoldable pub fence :
    Option ClaimedRun → List AgentRun → String → (current : ℕ) → Result (List AgentRun)
fence none runs run_id current = elim (owner_of runs run_id) [
  | none ↦ ok runs
  | some owner ↦ err (lost_lease "leased run requires worker context")
]
fence (some claim) runs run_id current =
    if not (claim.run_id == run_id)
    then err (lost_lease "claim belongs to another run")
    else if count_where (holds_lease claim run_id current) runs == 1
    then ok (
        update_where (holds_lease claim run_id current)
          (λ r. record r { worker_id = some claim.worker_id }) runs)
    else err (lost_lease "lease expired or superseded")
