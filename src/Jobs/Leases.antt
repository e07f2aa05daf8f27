-- ===== src/Jobs/Leases.antt =====
-- renew_lease, release_claim, retry_claim and expire_exhausted_runs of
-- src/incidentpilot/persistence/jobs.py.
use incidentpilot.Base.{
  ℕ, String, ◌+◌, ◌≤◌, ◌<◌, ◌≡◌, refl, Bool, true, false, inl, inr, none, some, List, [], ◌∷◌,
  arith, ◌==◌, ==→eq, string_eq, nat_eq, if◌then◌else◌, Bool-cases, In, All, All-In, leb, ltb,
  holds, update_where, find_where, find_where-In, find_where-absent, In-update_where_hit, ==-refl,
  update_where-none, count_where-zero, ◌&&◌, and_true, is_just, ap,
}
use incidentpilot.Enums.{RunStatus, status_eq}
use incidentpilot.Store.{AgentRun}
use incidentpilot.Jobs.{
  owned_by, renewable, renew_lease, release_claim, retry_claim, retry_row, RetryOutcome, lost_lease,
  run_is, expired_out, expire_row, expire_exhausted_runs, requeue_row, claimable,
}
use incidentpilot.Jobs.Turns.{Turn, claimable-Turn}

-- Every row of the run has been claimed again since attempt `m`.
abbrev pub Superseded : String → ℕ → List AgentRun → Type 0
Superseded run_id m = All (λ r. r.run_id ≡ run_id → m < r.attempt_count)

module _ (run_id worker_id : String) (m : ℕ) where
  stale_row :
      (r : AgentRun)
      → (r.run_id ≡ run_id → m < r.attempt_count)
      → owned_by run_id worker_id (some m) r ≡ false
  stale_row r h = elim (Bool-cases (r.run_id == run_id)) [
    | inl e ↦ let newer = h (==→eq r.run_id run_id e) in ground arith
    | inr e ↦ rw e
  ]

  stale_rows :
      (runs : List AgentRun)
      → Superseded run_id m runs
      → All (λ r. owned_by run_id worker_id (some m) r ≡ false) runs
  stale_rows [] h = tt
  stale_rows (r ∷ rs) h = (stale_row r h.0, stale_rows rs h.1)

  stale_renewals :
      (current : ℕ) (runs : List AgentRun)
      → Superseded run_id m runs
      → All (λ r. renewable run_id worker_id (some m) current r ≡ false) runs
  stale_renewals current [] h = tt
  stale_renewals current (r ∷ rs) h = (rw (stale_row r h.0), stale_renewals current rs h.1)

  -- A worker whose claim was superseded can neither renew, nor release, nor requeue the run: each
  -- call reports the loss and leaves the table as it was.
  pub stale_claim_inert :
      (runs : List AgentRun) (lease_seconds max_attempts current delay : ℕ) (category : String)
      → Superseded run_id m runs
      → (renew_lease runs run_id worker_id lease_seconds current (some m) ≡ (false, runs))
        × (release_claim runs run_id worker_id (some m) ≡ (false, runs))
        × (retry_claim runs run_id worker_id max_attempts category delay current (some m)
            ≡ (lost_lease, runs))
  unfolding renew_lease release_claim retry_claim
  stale_claim_inert runs lease_seconds max_attempts current delay category h =
      let idle = stale_rows runs h in
      let unrenewed = stale_renewals current runs h in
      (
        rw (count_where-zero _ runs unrenewed, update_where-none _ _ runs unrenewed),
        rw (count_where-zero _ runs idle, update_where-none _ _ runs idle),
        rw (find_where-absent _ runs idle, retry_claim),
      )

-- A worker holds the row under a lease that has not run out.
abbrev pub IsLive : ℕ → AgentRun → Type 0
IsLive current r =
    (r.status ≡ RunStatus.running) × (holds (λ t. ltb current t) r.lease_expires_at ≡ true)

retry_row_live :
    (runs : List AgentRun) (run : AgentRun) (max_attempts : ℕ) (category : String)
    (delay current : ℕ)
    → IsLive current run
    → run.attempt_count < max_attempts
    → retry_row runs run max_attempts category delay current ≡ (
      run_is RunStatus.pending,
      update_where (λ s. s.id == run.id) (requeue_row category delay current) runs,
    )
unfolding retry_row
retry_row_live runs run max_attempts category delay current live left = ground arith

requeued_claimable :
    (run : AgentRun) (max_attempts : ℕ) (category : String) (delay current later : ℕ)
    (locked : String → Bool)
    → run.attempt_count < max_attempts
    → current + delay ≤ later
    → locked run.id ≡ false
    → claimable later max_attempts none locked (requeue_row category delay current run) ≡ true
requeued_claimable run max_attempts category delay current later locked left due unlocked =
    ground arith

owned_run :
    (run_id worker_id : String) (n : ℕ) (r : AgentRun)
    → owned_by run_id worker_id (some n) r ≡ true
    → r.run_id ≡ run_id
owned_run run_id worker_id n r h =
    let (a, _) = and_true (r.run_id == run_id && is_just r.worker_id worker_id) _ h in
    ==→eq _ _ (and_true (r.run_id == run_id) _ a).0

module _ (runs : List AgentRun) (run_id worker_id : String) (n max_attempts : ℕ) (category : String)
    (delay current : ℕ) (run : AgentRun)
    (found : find_where (owned_by run_id worker_id (some n)) runs ≡ some run)
    (live : IsLive current run) (left : run.attempt_count < max_attempts) where
  abbrev after_retry : RetryOutcome × List AgentRun
  after_retry = retry_claim runs run_id worker_id max_attempts category delay current (some n)

  retry_claim_live : after_retry ≡ (
    run_is RunStatus.pending,
    update_where (λ s. s.id == run.id) (requeue_row category delay current) runs,
  )
  unfolding retry_claim
  retry_claim_live =
      rw (found, retry_claim)
        (retry_row_live runs run max_attempts category delay current live left)

  -- The requeued row: the same run and attempt, PENDING, and nobody's.
  pub record Requeued (q : AgentRun) : Type 0 where
    pub stored : In q after_retry.1
    pub same_run : q.run_id ≡ run_id
    pub pending : q.status ≡ RunStatus.pending
    pub unowned : q.worker_id ≡ none
    pub unleased : q.lease_expires_at ≡ none
    pub same_attempts : q.attempt_count ≡ run.attempt_count

  -- A run that fails while attempts are left is requeued as PENDING without an owner or a lease, and
  -- once its delay has passed and nobody locks its row, a poll for this run claims it, and a poll for
  -- any run claims it or a run that stands before it in the queue.
  pub retry_claim-claimed_again :
      (later : ℕ) (other : String) (lease_seconds : ℕ) (locked : String → Bool)
      → current + delay ≤ later
      → locked run.id ≡ false
      → (after_retry.0 ≡ run_is RunStatus.pending)
        × (q : AgentRun) × Requeued q
        × Turn after_retry.1 other lease_seconds max_attempts later locked q
  retry_claim-claimed_again later other lease_seconds locked due unlocked =
      let (i, owned) = find_where-In (owned_by run_id worker_id (some n)) runs run found in
      let q = requeue_row category delay current run in
      let there : In q after_retry.1 = rw retry_claim_live (
        In-update_where_hit (λ s. s.id == run.id) (requeue_row category delay current) runs run i
          (==-refl run.id)) in
      (
        ap (λ (o : RetryOutcome × List AgentRun). o.0) retry_claim_live,
        q,
        record {
          stored = there;
          same_run = owned_run run_id worker_id n run owned;
          pending = refl;
          unowned = refl;
          unleased = refl;
          same_attempts = refl;
        },
        claimable-Turn after_retry.1 other lease_seconds max_attempts later locked q there (
            requeued_claimable run max_attempts category delay current later locked left due
              unlocked),
      )

-- After the sweep no run is left with an expired lease and no attempt to spare.
swept_row :
    (max_attempts current : ℕ) (r : AgentRun)
    → expired_out max_attempts current
        (if expired_out max_attempts current r then expire_row current r else r)
      ≡ false
swept_row max_attempts current r = elim (Bool-cases (expired_out max_attempts current r)) [
  | inl e ↦ rw e
  | inr e ↦ rw e e
]

swept :
    (max_attempts current : ℕ) (runs : List AgentRun)
    → All
        (λ r. expired_out max_attempts current r ≡ false)
        (update_where (expired_out max_attempts current) (expire_row current) runs)
swept max_attempts current [] = tt
swept max_attempts current (r ∷ rs) =
    (swept_row max_attempts current r, swept max_attempts current rs)

module _ (max_attempts current : ℕ) where
  expired_row_claimable :
      (r : AgentRun) (locked : String → Bool)
      → (r.status ≡ RunStatus.running)
      → (holds (λ t. leb t current) r.lease_expires_at ≡ true)
      → expired_out max_attempts current r ≡ false
      → locked r.id ≡ false
      → claimable current max_attempts none locked r ≡ true
  expired_row_claimable r locked status expired kept unlocked = ground arith

  -- After a sweep every run whose worker let its lease run out has attempts left and is back in
  -- reach: unless its row is locked by somebody else, a poll for this run claims it, and a poll for
  -- any run claims it or a run that stands before it in the queue.
  pub expire-claim_reclaims :
      (runs : List AgentRun) (worker_id : String) (lease_seconds : ℕ) (locked : String → Bool)
      (r : AgentRun)
      → In r (expire_exhausted_runs runs max_attempts current).1
      → r.status ≡ RunStatus.running
      → holds (λ t. leb t current) r.lease_expires_at ≡ true
      → locked r.id ≡ false
      → (r.attempt_count < max_attempts)
        × Turn
            (expire_exhausted_runs runs max_attempts current).1
            worker_id
            lease_seconds
            max_attempts
            current
            locked
            r
  unfolding expire_exhausted_runs
  expire-claim_reclaims runs worker_id lease_seconds locked r i status expired unlocked =
      let kept = All-In _ _ r (swept max_attempts current runs) i in
      (
        ground arith,
        claimable-Turn _ worker_id lease_seconds max_attempts current locked r i
            (expired_row_claimable r locked status expired kept unlocked),
      )
