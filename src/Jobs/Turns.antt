-- ===== src/Jobs/Turns.antt =====
-- What claim_next_run of src/incidentpilot/persistence/jobs.py does for one given row.
use incidentpilot.Base.{
  ℕ, String, ◌≡◌, ap, Bool, true, ◌&&◌, ltb, ◌==◌, ==→eq, ==-refl, string_eq, Option, none, some,
  List, In, All-In, and_true,
}
use incidentpilot.Store.{AgentRun}
use incidentpilot.Jobs.{ClaimedRun, claimable, eligible, before, claim_of, claim_next_run}
use incidentpilot.Jobs.Claiming.{Claims, claim_next_run-Claims}

module _ (runs : List AgentRun) (worker_id : String) (lease_seconds max_attempts current : ℕ)
    (locked : String → Bool) where
  abbrev pub poll : Option String → Option ClaimedRun × List AgentRun
  poll run_id = claim_next_run runs worker_id lease_seconds max_attempts current run_id locked

  -- A poll for any run claims this one or one that stands before it in the queue, and a poll for this
  -- run claims it.
  pub record Turn (r : AgentRun) : Type 0 where
    pub row : AgentRun
    pub stored : In row runs
    pub earlier : before row r ≡ true
    pub open_poll : (poll none).0 ≡ some (claim_of worker_id row)
    pub own : ClaimedRun
    pub own_poll : (poll (some r.run_id)).0 ≡ some own
    pub own_run : own.run_id ≡ r.run_id

  -- A claimable row is not passed over.
  picked :
      (run_id : Option String) (r : AgentRun) (o : Option ClaimedRun × List AgentRun)
      → In r runs
      → claimable current max_attempts run_id locked r ≡ true
      → Claims runs worker_id lease_seconds max_attempts current run_id locked o
      → (s : AgentRun) × In s runs
        × (claimable current max_attempts run_id locked s ≡ true)
        × (before s r ≡ true)
        × (o.0 ≡ some (claim_of worker_id s))
  picked run_id r (none, rs) i ready (idle, _) = cc (All-In _ runs r idle i, ready)
  picked run_id r (some c, rs) i ready (s, (j, p, first), e, _) =
      (s, j, p, All-In _ runs r first i ready, ap some e)

  for_this :
      (r s : AgentRun)
      → claimable current max_attempts (some r.run_id) locked s ≡ true
      → s.run_id ≡ r.run_id
  for_this r s h =
      let (_, here) = and_true (eligible current s && ltb s.attempt_count max_attempts) _ h in
      ==→eq _ _ (and_true (s.run_id == r.run_id) _ here).0

  own_claimable :
      (r : AgentRun)
      → claimable current max_attempts none locked r ≡ true
      → claimable current max_attempts (some r.run_id) locked r ≡ true
  own_claimable r h = rw (==-refl r.run_id) h

  pub claimable-Turn :
      (r : AgentRun) → In r runs → claimable current max_attempts none locked r ≡ true → Turn r
  claimable-Turn r i ready =
      let (s, j, _, first, e) =
        picked none r (poll none) i ready
          (claim_next_run-Claims runs worker_id lease_seconds max_attempts current none locked) in
      let (t, _, p, _, e') =
        picked (some r.run_id) r (poll (some r.run_id)) i (own_claimable r ready) (
          claim_next_run-Claims runs worker_id lease_seconds max_attempts current (some r.run_id)
            locked) in
      record {
        row = s;
        stored = j;
        earlier = first;
        open_poll = e;
        own = claim_of worker_id t;
        own_poll = e';
        own_run = for_this r t p;
      }
