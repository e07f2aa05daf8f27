-- ===== src/Worker/Polling.antt =====
-- The polling round of src/incidentpilot/worker.py: how many tasks it starts, and what it leaves.
use incidentpilot.Base.{
  ℕ, String, zero, suc, ◌+◌, ◌-◌, ◌≤◌, ◌≡◌, refl, Bool, true, false, Option, none, some, List, [],
  ◌∷◌, arith, All, length, subst, sym,
}
use incidentpilot.Store.{AgentRun}
use incidentpilot.Jobs.{ClaimedRun, claimable, expire_exhausted_runs}
use incidentpilot.Jobs.Claiming.{Claims, claim_next_run-Claims}
use incidentpilot.System.{World, Reach, here, next, claim, expire}
use incidentpilot.Executor.Steps.{Reach-trans}
use incidentpilot.Worker.{
  Settings, polled, took, after_poll, poll_unless, claim_until_full, poll_round,
}

module _ (hash_patch : String → String) (settings : Settings) (worker_id : String) (clock : ℕ → ℕ)
    (locked : ℕ → String → Bool) (stopping : ℕ → Bool) where
  -- Why a round ends with `left` places free: none is, the worker stops, or no run can be claimed.
  pub data Ended (left : ℕ) (w : World) : Type 0 where
    full : left ≡ 0 → Ended left w
    stops : stopping left ≡ true → Ended left w
    idle :
        All
          (λ r. claimable (clock left) settings.max_job_attempts none (locked left) r ≡ false)
          w.runs
        → Ended left w

  -- The claims that a round issues, one after the other.
  abbrev pub issue_all : List ClaimedRun → List ClaimedRun → List ClaimedRun
  issue_all [] cs = cs
  issue_all (c ∷ started) cs = issue_all started (c ∷ cs)

  -- The tasks started are exactly the claims issued one after the other, at most as many as there were places,
  -- and the round goes on until one of the three reasons.
  pub record Fills (left : ℕ) (w : World) (o : List ClaimedRun × World) : Type 0 where
    pub free : ℕ
    pub places : length o.0 + free ≡ left
    pub issued : o.1.issued ≡ issue_all o.0 w.issued
    pub steps : Reach hash_patch w o.1
    pub ended : Ended free o.1

  Fills-none : (left : ℕ) (w : World) → Ended left w → Fills left w ([], w)
  Fills-none left w e = record {
    free = left;
    places = omega arith;
    issued = refl;
    steps = here;
    ended = e;
  }

  took-Reach :
      (left : ℕ) (w : World) (o : Option ClaimedRun × List AgentRun)
      → polled settings worker_id clock locked stopping left w ≡ o
      → Reach hash_patch w (took settings worker_id clock locked stopping o w)
  took-Reach left w (taken, runs) e = next here (
      claim worker_id settings.job_lease_seconds settings.max_job_attempts (clock left) none
        (locked left) taken runs e)

  after_poll-Fills :
      (left : ℕ) (w : World) (o : Option ClaimedRun × List AgentRun)
      (rest : World → List ClaimedRun × World)
      → polled settings worker_id clock locked stopping (suc left) w ≡ o
      → Claims w.runs worker_id settings.job_lease_seconds settings.max_job_attempts
          (clock (suc left))
          none
          (locked (suc left))
          o
      → ((v : World) → Fills left v (rest v))
      → Fills (suc left) w (
          after_poll settings worker_id clock locked stopping rest o.0
            (took settings worker_id clock locked stopping o w))
  after_poll-Fills left w (none, runs) rest e (unclaimable, same) go = record {
    free = suc left;
    places = omega arith;
    issued = refl;
    steps = took-Reach (suc left) w (none, runs) e;
    ended = idle (
        subst
          (All (λ r.
            claimable (clock (suc left)) settings.max_job_attempts none (locked (suc left)) r
            ≡ false))
          (sym same) unclaimable);
  }
  after_poll-Fills left w (some c, runs) rest e h go =
      let f = go (record w { runs = runs; issued = c ∷ w.issued }) in
      record {
        free = f.free;
        places = omega (arith, f.places);
        issued = f.issued;
        steps = Reach-trans hash_patch (took-Reach (suc left) w (some c, runs) e) f.steps;
        ended = f.ended;
      }

  poll_unless-Fills :
      (left : ℕ) (w : World) (b : Bool) (rest : World → List ClaimedRun × World)
      → stopping (suc left) ≡ b
      → ((v : World) → Fills left v (rest v))
      → Fills (suc left) w (
          poll_unless settings worker_id clock locked stopping b rest
            (polled settings worker_id clock locked stopping (suc left) w)
            w)
  poll_unless-Fills left w true rest e go = Fills-none (suc left) w (stops e)
  poll_unless-Fills left w false rest e go =
      after_poll-Fills left w _ rest refl
        (claim_next_run-Claims w.runs worker_id settings.job_lease_seconds settings.max_job_attempts
          (clock (suc left)) none (locked (suc left)))
        go

  claim_until_full-Fills :
      (left : ℕ) (w : World)
      → Fills left w (claim_until_full settings worker_id clock locked stopping left w)
  unfolding claim_until_full
  claim_until_full-Fills zero w = Fills-none 0 w (full refl)
  claim_until_full-Fills (suc left) w =
      poll_unless-Fills left w _ _ refl (claim_until_full-Fills left)

  abbrev pub after_sweep : ℕ → World → World
  after_sweep swept_at w = record w {
    runs = (expire_exhausted_runs w.runs settings.max_job_attempts swept_at).1;
  }

  -- A round of polling by a worker that has at most worker_concurrency tasks: with the tasks it
  -- starts it has at most that many, each for a claim that was issued in the round. The round only
  -- makes steps of the control plane, and it ends with the worker full, told to stop, or with no
  -- claimable row left in the table.
  pub poll_round-Fills :
      (active swept_at : ℕ) (w : World)
      → active ≤ settings.worker_concurrency
      → (active + length (poll_round settings worker_id clock locked stopping active swept_at w).0
          ≤ settings.worker_concurrency)
        × Reach hash_patch w
            (poll_round settings worker_id clock locked stopping active swept_at w).1
        × Fills
            (settings.worker_concurrency - active)
            (after_sweep swept_at w)
            (poll_round settings worker_id clock locked stopping active swept_at w)
  unfolding poll_round
  poll_round-Fills active swept_at w room =
      let f =
        claim_until_full-Fills (settings.worker_concurrency - active) (after_sweep swept_at w) in
      (
        omega (arith, f.places, room),
        Reach-trans hash_patch (next here (expire settings.max_job_attempts swept_at)) f.steps,
        f,
      )
