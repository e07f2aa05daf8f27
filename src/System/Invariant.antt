-- ===== src/System/Invariant.antt =====
-- The invariant of the control plane (persistence/jobs.py and services/incidents.py of
-- src/incidentpilot), over every interleaving of their operations.
use incidentpilot.Base.{
  ℕ, String, ◌+◌, ◌≤◌, ◌<◌, ◌≡◌, ◌≢◌, refl, sym, ap, subst, Bool, inl, inr, Option, none, some,
  List, [], ◌∷◌, arith, ◌==◌, ==→eq, ==-refl, string_eq, nat_eq, if◌then◌else◌, Bool-cases, In, All,
  All-In, count_where, update_where,
}
use incidentpilot.Enums.{status_eq}
use incidentpilot.Store.{AgentRun, Approval}
use incidentpilot.Store.Rows.{Unique, Unique-eq}
use incidentpilot.Store.Keeps.{Keeps, AtLeast, id_of, run_id_of}
use incidentpilot.Jobs.{ClaimedRun, claim_row}
use incidentpilot.Jobs.Admission.{new_run, create-admitted}
use incidentpilot.Jobs.Claiming.{Claims, claim_next_run-Claims}
use incidentpilot.Jobs.Keeps.{renew-Keeps, release-Keeps, expire-Keeps, retry-Keeps, claim-Keeps}
use incidentpilot.Agent.Progress.{progress-Keeps, totals-Keeps}
use incidentpilot.Services.Keeps.{start-Keeps, mark-Keeps, decide-Keeps, decide-Decides}
use incidentpilot.System.{
  World, empty, issue, Step, admit, claim, renew, release, retry, expire, start, mark, progress,
  totals, decision, Reach, here, next,
}

-- Claims of one run carry attempt numbers that fall along the list, newest first.
abbrev pub Ordered : List ClaimedRun → Type 0
Ordered [] = Unit
Ordered (c ∷ cs) =
    All (λ (d : ClaimedRun). d.run_id ≡ c.run_id → d.attempt_count < c.attempt_count) cs
    × Ordered cs

abbrev pub run_of : Approval → String
run_of a = a.run_pk

pub record Inv (w : World) : Type 0 where
  pub ids : Unique id_of w.runs
  pub run_ids : Unique run_id_of w.runs
  pub covered : All (λ (c : ClaimedRun). AtLeast c.run_id c.attempt_count w.runs) w.issued
  pub ordered : Ordered w.issued
  pub decided_once : Unique run_of w.approvals

-- Nothing has been claimed in the empty system.
pub empty-Inv : Inv empty
empty-Inv = record { ids = tt; run_ids = tt; covered = tt; ordered = tt; decided_once = tt }

covered-Keeps :
    (rs ss : List AgentRun) (cs : List ClaimedRun)
    → Keeps rs ss
    → All (λ (c : ClaimedRun). AtLeast c.run_id c.attempt_count rs) cs
    → All (λ (c : ClaimedRun). AtLeast c.run_id c.attempt_count ss) cs
covered-Keeps rs ss [] k h = tt
covered-Keeps rs ss (c ∷ cs) k h =
    (k.attempts c.run_id c.attempt_count h.0, covered-Keeps rs ss cs k h.1)

-- An operation that issues no claim and decides nothing.
plain-Inv :
    (w : World) (ss : List AgentRun) → Keeps w.runs ss → Inv w → Inv (record w { runs = ss })
plain-Inv w ss k v = record {
  ids = k.ids v.ids;
  run_ids = k.run_ids v.run_ids;
  covered = covered-Keeps w.runs ss w.issued k v.covered;
  ordered = v.ordered;
  decided_once = v.decided_once;
}

-- A run that was just inserted has no claim yet.
covered_new :
    (r : AgentRun) (rs : List AgentRun) (cs : List ClaimedRun)
    → All (λ (c : ClaimedRun). c.run_id ≢ r.run_id) cs
    → All (λ (c : ClaimedRun). AtLeast c.run_id c.attempt_count rs) cs
    → All (λ (c : ClaimedRun). AtLeast c.run_id c.attempt_count (r ∷ rs)) cs
covered_new r rs [] new h = tt
covered_new r rs (c ∷ cs) new h =
    (((λ e. absurd (new.0 (sym e))), h.0), covered_new r rs cs new.1 h.1)

-- The new claim's number is above that of every earlier claim of the run.
newest :
    (r : AgentRun) (rs : List AgentRun) (cs : List ClaimedRun)
    → In r rs
    → All (λ (c : ClaimedRun). AtLeast c.run_id c.attempt_count rs) cs
    → All (λ (d : ClaimedRun). d.run_id ≡ r.run_id → d.attempt_count < r.attempt_count + 1) cs
newest r rs [] i h = tt
newest r rs (c ∷ cs) i h = (
  (λ e.
      let old =
        All-In (λ (x : AgentRun). x.run_id ≡ c.run_id → c.attempt_count ≤ x.attempt_count) rs r h.0
          i in
      omega (arith, old (sym e))),
  newest r rs cs i h.1,
)

module _ (rs : List AgentRun) (r : AgentRun) (worker_id : String) (lease_seconds current : ℕ)
    (ids : Unique id_of rs) (run_ids : Unique run_id_of rs) (stored : In r rs) where
  abbrev claimed : List AgentRun
  claimed = update_where (λ s. s.id == r.id) (claim_row worker_id lease_seconds current) rs

  -- The only row of the claimed run is the row that was written.
  claimed_row :
      (s : AgentRun)
      → In s rs
      → (if s.id == r.id then claim_row worker_id lease_seconds current s else s).run_id ≡ r.run_id
      → r.attempt_count + 1
        ≤ (if s.id == r.id then claim_row worker_id lease_seconds current s else s).attempt_count
  claimed_row s i e = elim (Bool-cases (s.id == r.id)) [
    | inl q ↦
        let same : s ≡ r = Unique-eq id_of rs s r ids i stored (==→eq _ _ q) in
        rw (q, same) (omega arith)
    | inr q ↦
        let kept : s.run_id ≡ r.run_id = rw q at e in
        let same : s ≡ r = Unique-eq run_id_of rs s r run_ids i stored kept in
        cc (q, ==-refl r.id, ap (λ (x : AgentRun). x.id == r.id) same)
  ]

  claimed_rows :
      (ss : List AgentRun)
      → ((s : AgentRun) → In s ss → In s rs)
      → AtLeast r.run_id
          (r.attempt_count + 1)
          (update_where (λ s. s.id == r.id) (claim_row worker_id lease_seconds current) ss)
  claimed_rows [] sub = tt
  claimed_rows (s ∷ ss) sub =
      (claimed_row s (sub s (inl refl)), claimed_rows ss (λ t i. sub t (inr i)))

  claimed_covered : AtLeast r.run_id (r.attempt_count + 1) claimed
  claimed_covered = claimed_rows rs (λ s i. i)

claim-Inv :
    (w : World) (worker_id : String) (lease_seconds max_attempts current : ℕ)
    (run_id : Option String) (locked : String → Bool) (taken : Option ClaimedRun)
    (ss : List AgentRun)
    → Claims w.runs worker_id lease_seconds max_attempts current run_id locked (taken, ss)
    → Keeps w.runs ss
    → Inv w
    → Inv (record w { runs = ss; issued = issue taken w.issued })
claim-Inv w worker_id lease_seconds max_attempts current run_id locked none ss c k v =
    plain-Inv w ss k v
claim-Inv w worker_id lease_seconds max_attempts current run_id locked (some c) ss
      (r, (i, _, _), e, same) k v =
    let kept = plain-Inv w ss k v in
    record {
      ids = kept.ids;
      run_ids = kept.run_ids;
      covered = (
        rw (e, same) (claimed_covered w.runs r worker_id lease_seconds current v.ids v.run_ids i),
        kept.covered,
      );
      ordered = (rw e (newest r w.runs w.issued i v.covered), v.ordered);
      decided_once = v.decided_once;
    }

no_approval :
    (k : String) (as' : List Approval)
    → count_where (λ a. a.run_pk == k) as' ≡ 0
    → All (λ (a : Approval). a.run_pk ≢ k) as'
no_approval k [] h = tt
no_approval k (a ∷ as') h = elim (Bool-cases (a.run_pk == k)) [
  | inl e ↦ absurd (ground arith)
  | inr e ↦
      ((λ q. cc (e, ==-refl k, ap (λ (x : String). x == k) q)), no_approval k as' (ground arith))
]

module _ (hash_patch : String → String) where
  -- Every operation, whatever its arguments, keeps the invariant.
  pub Step-Inv : {w u : World} → Step hash_patch w u → Inv w → Inv u
  Step-Inv {w} (admit d f bound incidents runs fresh e) v =
      let (table, _) = create-admitted w.incidents w.runs d f bound e in
      rw table (record {
        ids = (fresh.run_pk, v.ids);
        run_ids = (fresh.run_id, v.run_ids);
        covered = covered_new (new_run f) w.runs w.issued fresh.unclaimed v.covered;
        ordered = v.ordered;
        decided_once = v.decided_once;
      })
  Step-Inv {w} (claim worker_id lease_seconds max_attempts current run_id locked taken runs e) v =
      let c =
        subst (Claims w.runs worker_id lease_seconds max_attempts current run_id locked) e (
          claim_next_run-Claims w.runs worker_id lease_seconds max_attempts current run_id
            locked) in
      claim-Inv w worker_id lease_seconds max_attempts current run_id locked taken runs c
        (claim-Keeps w.runs worker_id lease_seconds max_attempts current run_id locked (taken, runs)
          v.ids c)
        v
  Step-Inv {w} (renew run_id worker_id lease_seconds current n) v =
      plain-Inv w _ (renew-Keeps w.runs run_id worker_id lease_seconds current n) v
  Step-Inv {w} (release run_id worker_id n) v =
      plain-Inv w _ (release-Keeps w.runs run_id worker_id n) v
  Step-Inv {w} (retry run_id worker_id max_attempts category delay current n) v =
      plain-Inv w _
        (retry-Keeps w.runs run_id worker_id max_attempts category delay current n v.ids) v
  Step-Inv {w} (expire max_attempts current) v =
      plain-Inv w _ (expire-Keeps w.runs max_attempts current) v
  Step-Inv {w} (start by run current runs e) v =
      plain-Inv w runs (start-Keeps by w.runs run current runs e) v
  Step-Inv {w} (mark by run status m current runs e) v =
      plain-Inv w runs (mark-Keeps by w.runs run current runs status m e) v
  Step-Inv {w} (progress by run_id p current runs e) v =
      plain-Inv w runs (progress-Keeps by w.runs run_id p current runs e) v
  Step-Inv {w} (totals run plan tools patches) v =
      plain-Inv w _ (totals-Keeps w.runs run plan tools patches) v
  Step-Inv {w} (decision artifacts tests run verdict now runs approvals e) v =
      let d =
        decide-Decides hash_patch w.runs w.approvals artifacts tests run verdict now runs approvals
          e in
      let kept =
        plain-Inv w runs
          (decide-Keeps hash_patch w.runs w.approvals artifacts tests run verdict now runs approvals
            e)
          v in
      record {
        ids = kept.ids;
        run_ids = kept.run_ids;
        covered = kept.covered;
        ordered = kept.ordered;
        decided_once =
            rw d.approvals_after (no_approval run.id w.approvals d.first, v.decided_once);
      }

  -- At every reachable state the invariant holds: primary keys and run ids are unique, each claim is
  -- covered by its row's attempt number, claims of one run have distinct numbers, and no run has been
  -- decided twice.
  pub Reach-Inv : {w u : World} → Reach hash_patch w u → Inv w → Inv u
  Reach-Inv here v = v
  Reach-Inv (next r st) v = Step-Inv st (Reach-Inv r v)
