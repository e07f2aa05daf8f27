-- ===== src/Ownership/Fencing.antt =====
-- What the fence of src/incidentpilot/persistence/ownership.py guarantees.
use incidentpilot.Base.{
  ℕ, String, ◌≡◌, ◌<◌, refl, sym, ap, ◌∙◌, Bool, true, inl, inr, Option, none, some, List, [], ◌∷◌,
  arith, ◌==◌, ==→eq, string_eq, nat_eq, Bool-cases, and_true, is_true_just, ltb, holds, In,
  count_where, update_where, ok,
}
use incidentpilot.Enums.{RunStatus, status_eq}
use incidentpilot.Store.{AgentRun}
use incidentpilot.Jobs.{ClaimedRun}
use incidentpilot.Ownership.{fence, holds_lease}

-- The stored row that a fenced worker holds.
pub record Held (claim : ClaimedRun) (current : ℕ) (runs : List AgentRun) : Type 0 where
  pub row : AgentRun
  pub stored : In row runs
  pub same_run : row.run_id ≡ claim.run_id
  pub owner : row.worker_id ≡ some claim.worker_id
  pub attempt : row.attempt_count ≡ claim.attempt_count
  pub running : row.status ≡ RunStatus.running
  pub unexpired : holds (λ t. ltb current t) row.lease_expires_at ≡ true

module _ (claim : ClaimedRun) (run_id : String) (current : ℕ) where
  rewritten : AgentRun → AgentRun
  rewritten r = record r { worker_id = some claim.worker_id }

  -- The UPDATE of the fence writes what is there already.
  rewritten_same : (r : AgentRun) → holds_lease claim run_id current r ≡ true → rewritten r ≡ r
  unfolding rewritten
  rewritten_same r h =
      let owner = is_true_just _ _ (and_true _ _ (and_true _ _ h).0).1 in
      ap (λ o. record r { worker_id = o }) (sym owner)

  update_same :
      (runs : List AgentRun) → update_where (holds_lease claim run_id current) rewritten runs ≡ runs
  update_same [] = refl
  update_same (r ∷ rs) = elim (Bool-cases (holds_lease claim run_id current r)) [
    | inl e ↦ rw (e, rewritten_same r e, update_same rs)
    | inr e ↦ rw (e, update_same rs)
  ]

pub fence-unchanged :
    (claim : Option ClaimedRun) (runs : List AgentRun) (run_id : String) (current : ℕ)
    {runs' : List AgentRun}
    → fence claim runs run_id current ≡ ok runs'
    → runs' ≡ runs
unfolding fence rewritten
fence-unchanged none runs run_id current h = ground arith
fence-unchanged (some claim) runs run_id current h =
    ground (arith, update_same claim run_id current runs)

found :
    (p : AgentRun → Bool) (rs : List AgentRun)
    → 0 < count_where p rs
    → (r : AgentRun) × In r rs × (p r ≡ true)
found p [] h = absurd (omega arith)
found p (r ∷ rs) h = elim (Bool-cases (p r)) [
  | inl e ↦ (r, inl refl, e)
  | inr e ↦
      let rest : 0 < count_where p rs = ground arith in
      let (s, i, q) = found p rs rest in (s, inr i, q)
]

held :
    (claim : ClaimedRun) (run_id : String) (current : ℕ) (runs : List AgentRun) (r : AgentRun)
    → In r runs
    → claim.run_id ≡ run_id
    → holds_lease claim run_id current r ≡ true
    → Held claim current runs
held claim run_id current runs r i e h =
    let (named, rest) = and_true _ _ h in
    let (attempt, live) = and_true _ _ rest in
    record {
      row = r;
      stored = i;
      same_run = ==→eq _ _ (and_true _ _ named).0 ∙ sym e;
      owner = is_true_just _ _ (and_true _ _ named).1;
      attempt = ==→eq _ _ attempt;
      running = ==→eq _ _ (and_true _ _ live).1;
      unexpired = (and_true _ _ live).0;
    }

-- A worker passes its fence only while a stored row of its run is RUNNING under its name, its attempt
-- number and an unexpired lease, and the fence leaves the table as it was.
pub fence-Held :
    (claim : ClaimedRun) (runs : List AgentRun) (run_id : String) (current : ℕ)
    {runs' : List AgentRun}
    → fence (some claim) runs run_id current ≡ ok runs'
    → (claim.run_id ≡ run_id) × Held claim current runs × (runs' ≡ runs)
unfolding fence
fence-Held claim runs run_id current h = elim (Bool-cases (claim.run_id == run_id)) [
  | inr e ↦ absurd (ground arith)
  | inl e ↦ elim (Bool-cases (count_where (holds_lease claim run_id current) runs == 1)) [
    | inr q ↦ absurd (ground arith)
    | inl q ↦
        let (r, i, k) = found (holds_lease claim run_id current) runs (ground arith) in
        (
          ==→eq _ _ e,
          held claim run_id current runs r i (==→eq _ _ e) k,
          fence-unchanged (some claim) runs run_id current h,
        )
  ]
]
