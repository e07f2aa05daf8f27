-- ===== src/System/Terminal.antt =====
-- No run of src/incidentpilot is ever lost, and a finished run stays as it ended.
use incidentpilot.Base.{String, ◌≡◌, sym, ◌∙◌, subst, inr, In}
use incidentpilot.Enums.Transitions.{IsTerminal, terminal_stays}
use incidentpilot.Store.{AgentRun}
use incidentpilot.Store.Rows.{Unique-eq, Evolves, Becomes-refl, Evolves-trans}
use incidentpilot.Store.Keeps.{id_of}
use incidentpilot.Jobs.Admission.{create-admitted}
use incidentpilot.Jobs.Claiming.{Claims, claim_next_run-Claims}
use incidentpilot.Jobs.Keeps.{renew-Keeps, release-Keeps, expire-Keeps, retry-Keeps, claim-Keeps}
use incidentpilot.Agent.Progress.{progress-Keeps, totals-Keeps}
use incidentpilot.Services.Keeps.{start-Keeps, mark-Keeps, decide-Keeps}
use incidentpilot.System.{
  World, empty, Step, admit, claim, renew, release, retry, expire, start, mark, progress, totals,
  decision, Reach, here, next,
}
use incidentpilot.System.Invariant.{Inv, Reach-Inv, empty-Inv}

module _ (hash_patch : String → String) where
  Step-Evolves : {w u : World} → Step hash_patch w u → Inv w → Evolves w.runs u.runs
  Step-Evolves {w} (admit d f bound incidents runs fresh e) v =
      let (table, _) = create-admitted w.incidents w.runs d f bound e in
      rw table (λ r i. (r, inr i, Becomes-refl r))
  Step-Evolves {w} (claim worker_id lease_seconds max_attempts current run_id locked taken runs e)
        v =
      let c =
        subst (Claims w.runs worker_id lease_seconds max_attempts current run_id locked) e (
          claim_next_run-Claims w.runs worker_id lease_seconds max_attempts current run_id
            locked) in
      (claim-Keeps w.runs worker_id lease_seconds max_attempts current run_id locked (taken, runs)
        v.ids c).evolves
  Step-Evolves {w} (renew run_id worker_id lease_seconds current n) v =
      (renew-Keeps w.runs run_id worker_id lease_seconds current n).evolves
  Step-Evolves {w} (release run_id worker_id n) v =
      (release-Keeps w.runs run_id worker_id n).evolves
  Step-Evolves {w} (retry run_id worker_id max_attempts category delay current n) v =
      (retry-Keeps w.runs run_id worker_id max_attempts category delay current n v.ids).evolves
  Step-Evolves {w} (expire max_attempts current) v =
      (expire-Keeps w.runs max_attempts current).evolves
  Step-Evolves {w} (start by run current runs e) v =
      (start-Keeps by w.runs run current runs e).evolves
  Step-Evolves {w} (mark by run status m current runs e) v =
      (mark-Keeps by w.runs run current runs status m e).evolves
  Step-Evolves {w} (progress by run_id p current runs e) v =
      (progress-Keeps by w.runs run_id p current runs e).evolves
  Step-Evolves {w} (totals run plan tools patches) v =
      (totals-Keeps w.runs run plan tools patches).evolves
  Step-Evolves {w} (decision artifacts tests run verdict now runs approvals e) v =
      (decide-Keeps hash_patch w.runs w.approvals artifacts tests run verdict now runs approvals
        e).evolves

  Reach-Evolves : {w u : World} → Reach hash_patch w u → Inv w → Evolves w.runs u.runs
  Reach-Evolves here v = λ r i. (r, i, Becomes-refl r)
  Reach-Evolves (next {v = m} {u = u} r st) v =
      Evolves-trans _ m.runs u.runs (Reach-Evolves r v) (Step-Evolves st (Reach-Inv hash_patch r v))

  -- Whatever the workers and the API do to a reachable system, a run that has ended is still stored
  -- with the status it ended in, and every row that bears its id has that status.
  pub terminal_stays_terminal :
      {w u : World} (r : AgentRun)
      → Reach hash_patch empty w
      → Reach hash_patch w u
      → In r w.runs
      → IsTerminal r.status
      → (s : AgentRun) × In s u.runs
        × (s.id ≡ r.id)
        × (s.status ≡ r.status)
        × ((t : AgentRun) → In t u.runs → t.id ≡ r.id → t.status ≡ r.status)
  terminal_stays_terminal {w} {u} r from to i done =
      let v = Reach-Inv hash_patch from empty-Inv in
      let (s, j, b) = Reach-Evolves to v r i in
      let same = terminal_stays done b.history in
      let unique = (Reach-Inv hash_patch to v).ids in
      (
        s,
        j,
        b.same_id,
        same,
        (λ t k e.
            subst (λ (x : AgentRun). x.status ≡ r.status)
              (Unique-eq id_of u.runs s t unique j k (b.same_id ∙ sym e)) same),
      )
