-- ===== src/Executor/Approved.antt =====
-- approved_decision of src/incidentpilot/agent/executor.py: when a worker resumes a run.
use incidentpilot.Base.{
  String, ◌≡◌, refl, Bool, true, not, ◌&&◌, ◌↔◌, Option, none, some, List, [], ◌∷◌, arith, ◌==◌,
  ==-refl, ==→eq, string_eq, nat_eq, inl, inr, In, Bool-cases, and_true, find_where, find_where-In,
  find_where-none, is_just, is_true_just, All-In, count_where-pos, ◌<◌, ℕ,
}
use incidentpilot.Enums.{ApprovalDecision, approve, decision_eq}
use incidentpilot.Store.{AgentRun, Approval}
use incidentpilot.System.{World}
use incidentpilot.Executor.{has_run, decision_of, approved_decision}

-- A persisted APPROVE of a stored run of this name.
pub record IsApproved (w : World) (run_id : String) : Type 0 where
  pub approval : Approval
  pub run : AgentRun
  pub recorded : In approval w.approvals
  pub stored : In run w.runs
  pub joined : run.id ≡ approval.run_pk
  pub named : run.run_id ≡ run_id
  pub decided : approval.decision ≡ some approve

matching_row :
    (rs : List AgentRun) (run_pk run_id : String)
    → has_run rs run_pk run_id ≡ true
    → (r : AgentRun) × In r rs × (r.id ≡ run_pk) × (r.run_id ≡ run_id)
matching_row [] run_pk run_id h = cc
matching_row (x ∷ xs) run_pk run_id h = elim (Bool-cases (x.id == run_pk && x.run_id == run_id)) [
  | inl e ↦ let (a, b) = and_true _ _ e in (x, inl refl, ==→eq _ _ a, ==→eq _ _ b)
  | inr e ↦
      let (r, i, a, b) = matching_row xs run_pk run_id (ground (arith, h, e)) in (r, inr i, a, b)
]

row_matching : (rs : List AgentRun) (r : AgentRun) → In r rs → has_run rs r.id r.run_id ≡ true
row_matching rs r i = positive _ (
    count_where-pos (λ s. s.id == r.id && s.run_id == r.run_id) rs r i
      (rw (==-refl r.id, ==-refl r.run_id) refl))
  where
    positive : (n : ℕ) → 0 < n → not (n == 0) ≡ true
    positive n h = ground arith

module _ (w : World) (run_id : String) where
  abbrev wanted : Approval → Bool
  wanted a = has_run w.runs a.run_pk run_id && is_just a.decision approve

  approval_found :
      (o : Option Approval) (d : ApprovalDecision)
      → find_where wanted w.approvals ≡ o
      → decision_of o ≡ some d
      → (d ≡ approve) × IsApproved w run_id
  approval_found none d e h = cc
  approval_found (some a) d e h =
      let (i, q) = find_where-In wanted w.approvals a e in
      let (joins, approves) = and_true _ _ q in
      let decided = is_true_just a.decision approve approves in
      let (r, j, k, n) = matching_row w.runs a.run_pk run_id joins in
      (
        cc,
        record {
          approval = a;
          run = r;
          recorded = i;
          stored = j;
          joined = k;
          named = n;
          decided = decided;
        },
      )

  approval_missed :
      (o : Option Approval)
      → find_where wanted w.approvals ≡ o
      → IsApproved w run_id
      → decision_of o ≡ some approve
  approval_missed none e y =
      let missed =
        All-In _ w.approvals y.approval (find_where-none wanted w.approvals e) y.recorded in
      let joins = row_matching w.runs y.run y.stored in
      cc (missed, hit y.approval y.run y.joined y.named y.decided joins)
    where
      hit :
          (a : Approval) (r : AgentRun)
          → r.id ≡ a.run_pk
          → r.run_id ≡ run_id
          → a.decision ≡ some approve
          → has_run w.runs r.id r.run_id ≡ true
          → wanted a ≡ true
      hit a r k n d j = rw (← k, ← n, d, j) refl
  approval_missed (some a) e y =
      is_true_just a.decision approve (and_true _ _ (find_where-In wanted w.approvals a e).1).1

  -- A worker is told to resume a run, and then with APPROVE, exactly when the tables hold a persisted
  -- APPROVE of a stored run of that name; for a rejected or undecided run it never is.
  pub approved_decision_iff :
      (d : ApprovalDecision)
      → (approved_decision w run_id ≡ some d) ↔ ((d ≡ approve) × IsApproved w run_id)
  unfolding approved_decision
  approved_decision_iff d =
      ((λ h. approval_found _ d refl h), (λ (e, y). rw e (approval_missed _ refl y)))
