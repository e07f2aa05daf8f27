-- ===== src/Jobs/Keeps.antt =====
-- The operations of src/incidentpilot/persistence/jobs.py change the agent_runs table in permitted
-- ways only.
use incidentpilot.Base.{
  ℕ, String, ◌≡◌, refl, Bool, true, ◌||◌, inl, inr, Option, none, some, List, arith, ◌==◌, ==→eq,
  string_eq, nat_eq, Bool-cases, Option-cases, and_true, In, find_where, find_where-In,
  update_where, is_null, holds, leb,
}
use incidentpilot.Enums.{RunStatus, status_eq, contains, run_transitions}
use incidentpilot.Enums.Transitions.{History, here}
use incidentpilot.Store.{AgentRun}
use incidentpilot.Store.Rows.{Unique}
use incidentpilot.Store.Keeps.{
  Keeps, Keeps-refl, Assigns, keeps_keys, update-Keeps, id_of, by_id, from_status,
}
use incidentpilot.Jobs.{
  ClaimedRun, claimable, claim_row, owned_by, renew_lease, release_claim, retry_claim, retry_row,
  exhaust_row, requeue_row, expire_exhausted_runs,
}
use incidentpilot.Jobs.Claiming.{Claims}

pub renew-Keeps :
    (rs : List AgentRun) (run_id worker_id : String) (lease_seconds current : ℕ) (n : Option ℕ)
    → Keeps rs (renew_lease rs run_id worker_id lease_seconds current n).1
unfolding renew_lease
renew-Keeps rs run_id worker_id lease_seconds current n =
    update-Keeps _ _ (keeps_keys _ (λ r. refl) (λ r. refl) (λ r. refl)) rs (λ r i e. here)

pub release-Keeps :
    (rs : List AgentRun) (run_id worker_id : String) (n : Option ℕ)
    → Keeps rs (release_claim rs run_id worker_id n).1
unfolding release_claim
release-Keeps rs run_id worker_id n =
    update-Keeps _ _ (keeps_keys _ (λ r. refl) (λ r. refl) (λ r. refl)) rs (λ r i e. here)

pub expire-Keeps :
    (rs : List AgentRun) (max_attempts current : ℕ)
    → Keeps rs (expire_exhausted_runs rs max_attempts current).1
unfolding expire_exhausted_runs
expire-Keeps rs max_attempts current =
    update-Keeps _ _ (keeps_keys _ (λ r. refl) (λ r. refl) (λ r. refl)) rs
      λ r i e. from_status RunStatus.running (==→eq _ _ (and_true _ _ (and_true _ _ e).0).0) refl

module _ (rs : List AgentRun) (run : AgentRun) (u : Unique id_of rs) (i : In run rs) where
  -- A write by primary key to a running row, to a status that it may take.
  write_running :
      (f : AgentRun → AgentRun) (t : RunStatus)
      → Assigns f
      → ((r : AgentRun) → (f r).status ≡ t)
      → contains t (run_transitions RunStatus.running) ≡ true
      → run.status ≡ RunStatus.running
      → Keeps rs (update_where (λ s. s.id == run.id) f rs)
  write_running f t a to ok status =
      update-Keeps _ f a rs
        λ r j e. rw (to r, ← by_id rs run r u i j e) (from_status RunStatus.running status ok)

  retry_row-Keeps :
      (max_attempts : ℕ) (category : String) (delay current : ℕ)
      → Keeps rs (retry_row rs run max_attempts category delay current).1
  unfolding retry_row
  retry_row-Keeps max_attempts category delay current =
      elim (Bool-cases (run.status == RunStatus.running)) [
        | inr e ↦ rw e (Keeps-refl rs)
        | inl e ↦
            rw e
              (elim (Bool-cases
                (is_null run.lease_expires_at || holds (λ t. leb t current) run.lease_expires_at)) [
                  | inl q ↦ rw q (Keeps-refl rs)
                  | inr q ↦ rw q (elim (Bool-cases (leb max_attempts run.attempt_count)) [
                    | inl k ↦ rw k (
                        write_running (exhaust_row category current)
                          RunStatus.needs_human_intervention
                          (keeps_keys _ (λ r. refl) (λ r. refl) (λ r. refl)) (λ r. refl) refl
                          (==→eq _ _ e))
                    | inr k ↦ rw k (
                        write_running (requeue_row category delay current) RunStatus.pending
                          (keeps_keys _ (λ r. refl) (λ r. refl) (λ r. refl)) (λ r. refl) refl
                          (==→eq _ _ e))
                  ])
                ])
      ]

pub retry-Keeps :
    (rs : List AgentRun) (run_id worker_id : String) (max_attempts : ℕ) (category : String)
    (delay current : ℕ) (n : Option ℕ)
    → Unique id_of rs
    → Keeps rs (retry_claim rs run_id worker_id max_attempts category delay current n).1
unfolding retry_claim
retry-Keeps rs run_id worker_id max_attempts category delay current n u =
    elim (Option-cases (find_where (owned_by run_id worker_id n) rs)) [
      | inl e ↦ rw (e, retry_claim) (Keeps-refl rs)
      | inr (run, e) ↦
          rw (e, retry_claim)
            (retry_row-Keeps rs run u (find_where-In _ rs run e).0 max_attempts category delay
              current)
    ]

claimable_status :
    (current max_attempts : ℕ) (run_id : Option String) (locked : String → Bool) (r : AgentRun)
    → claimable current max_attempts run_id locked r ≡ true
    → History r.status RunStatus.running
claimable_status current max_attempts run_id locked r h =
    elim (Bool-cases (r.status == RunStatus.pending)) [
      | inl e ↦ from_status RunStatus.pending (==→eq _ _ e) refl
      | inr e ↦ elim (Bool-cases (r.status == RunStatus.running)) [
        | inl q ↦ from_status RunStatus.running (==→eq _ _ q) refl
        | inr q ↦ absurd (ground arith)
      ]
    ]

pub claim-Keeps :
    (rs : List AgentRun) (worker_id : String) (lease_seconds max_attempts current : ℕ)
    (run_id : Option String) (locked : String → Bool) (o : Option ClaimedRun × List AgentRun)
    → Unique id_of rs
    → Claims rs worker_id lease_seconds max_attempts current run_id locked o
    → Keeps rs o.1
claim-Keeps rs worker_id lease_seconds max_attempts current run_id locked (none, ss) u (_, e) =
    rw e (Keeps-refl rs)
claim-Keeps rs worker_id lease_seconds max_attempts current run_id locked (some c, ss) u
      (run, (i, ready, _), _, e) =
    rw e (
      update-Keeps _ (claim_row worker_id lease_seconds current)
        (record { same_id = λ r. refl; same_run = λ r. refl; attempts = λ r. omega arith }) rs
        λ r j q.
          rw (← by_id rs run r u i j q)
            (claimable_status current max_attempts run_id locked run ready))
