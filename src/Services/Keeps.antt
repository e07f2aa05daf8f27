-- ===== src/Services/Keeps.antt =====
-- RunService and ApprovalService of src/incidentpilot/services/incidents.py change the agent_runs
-- table in permitted ways only.
use incidentpilot.Base.{
  ℕ, String, ◌≡◌, refl, sym, subst, Bool, true, not, inl, inr, Option, List, ◌∷◌, arith, ◌==◌,
  ==→eq, string_eq, nat_eq, Bool-cases, and_true, count_where, update_where, Result, ok, guard,
  guard-ok, >>=-eq-ok, ok-injective, ◌<◌, ap,
}
use incidentpilot.Enums.{
  RunStatus, ApprovalDecision, approve, reject, status_eq, contains, run_transitions,
}
use incidentpilot.Enums.Transitions.{History}
use incidentpilot.Store.{AgentRun, PatchArtifact, TestRun, Approval}
use incidentpilot.Store.Keeps.{Keeps, keeps_keys, update-Keeps, from_status}
use incidentpilot.Jobs.{ClaimedRun}
use incidentpilot.Ownership.{fence}
use incidentpilot.Ownership.Fencing.{fence-unchanged}
use incidentpilot.Services.{
  startable, start_row, mark_running, Marks, marked_row, unchanged_since, mark_status, undecided,
  decided_row, Verdict, decide, as_conflict, approved_artifact, approval_row,
}

startable_status : (run r : AgentRun) → startable run r ≡ true → History r.status RunStatus.running
startable_status run r h = elim (Bool-cases (r.status == RunStatus.pending)) [
  | inl e ↦ from_status RunStatus.pending (==→eq _ _ e) refl
  | inr e ↦ elim (Bool-cases (r.status == RunStatus.running)) [
    | inl q ↦ from_status RunStatus.running (==→eq _ _ q) refl
    | inr q ↦ absurd (ground arith)
  ]
]

-- An UPDATE behind a fence: the fenced table is the old one.
pub after_fence :
    (p : AgentRun → Bool) (f : AgentRun → AgentRun) (rs fenced ss : List AgentRun)
    → fenced ≡ rs
    → ok (update_where p f fenced) ≡ ok ss
    → Keeps rs (update_where p f rs)
    → Keeps rs ss
after_fence p f rs fenced ss same h k =
    subst (Keeps rs) (ok-injective h) (subst (λ t. Keeps rs (update_where p f t)) (sym same) k)

module _ (claim : Option ClaimedRun) (rs : List AgentRun) (run : AgentRun) (current : ℕ)
    (ss : List AgentRun) where
  pub start-Keeps : mark_running claim rs run current ≡ ok ss → Keeps rs ss
  unfolding mark_running
  start-Keeps h =
      let (fenced, f, h1) = >>=-eq-ok (fence claim rs run.run_id current) _ h in
      let (_, _, h2) = >>=-eq-ok (guard (not (count_where (startable run) fenced == 0)) _) _ h1 in
      after_fence (startable run) start_row rs fenced ss
        (fence-unchanged claim rs run.run_id current f) h2
        (update-Keeps (startable run) start_row (keeps_keys _ (λ r. refl) (λ r. refl) (λ r. refl))
          rs (λ r i e. startable_status run r e))

  pub mark-Keeps :
      (status : RunStatus) (m : Marks)
      → mark_status claim rs run status m current ≡ ok ss
      → Keeps rs ss
  unfolding mark_status
  mark-Keeps status m h =
      let (fenced, f, h1) = >>=-eq-ok (fence claim rs run.run_id current) _ h in
      let (_, allowed, h2) =
        >>=-eq-ok (guard (contains status (run_transitions run.status)) _) _ h1 in
      let (_, _, h3) = >>=-eq-ok (guard (count_where (unchanged_since run) fenced == 1) _) _ h2 in
      after_fence (unchanged_since run) (marked_row status m current) rs fenced ss
        (fence-unchanged claim rs run.run_id current f) h3
        (update-Keeps (unchanged_since run) (marked_row status m current)
          (keeps_keys _ (λ r. refl) (λ r. refl) (λ r. refl)) rs
          (λ r i e. from_status run.status (==→eq _ _ (and_true _ _ e).1) (guard-ok _ _ allowed)))

decided_status :
    (d : ApprovalDecision) (now : ℕ) (run r : AgentRun)
    → undecided run r ≡ true
    → History r.status (decided_row d now r).status
decided_status approve now run r e =
    from_status RunStatus.waiting_approval (==→eq _ _ (and_true _ _ e).1) refl
decided_status reject now run r e =
    from_status RunStatus.waiting_approval (==→eq _ _ (and_true _ _ e).1) refl

module _ (hash_patch : String → String) (rs : List AgentRun) (approvals : List Approval)
    (artifacts : List PatchArtifact) (tests : List TestRun) (run : AgentRun) (v : Verdict)
    (now : ℕ) where
  -- What a decision that succeeds has checked and written.
  pub record Decides (ss : List AgentRun) (after : List Approval) : Type 0 where
    pub artifact : PatchArtifact
    pub approved : approved_artifact hash_patch artifacts tests run v ≡ ok artifact
    pub waiting : 0 < count_where (undecided run) rs
    pub first : count_where (λ a. a.run_pk == run.id) approvals ≡ 0
    pub runs : ss ≡ update_where (undecided run) (decided_row v.decision now) rs
    pub approvals_after : after ≡ approval_row run v artifact now ∷ approvals

  conflict-ok : {A : Type 0} (r : Result A) {a : A} → as_conflict r ≡ ok a → r ≡ ok a
  conflict-ok r h = ground arith

  pub decide-Decides :
      (ss : List AgentRun) (after : List Approval)
      → decide hash_patch rs approvals artifacts tests run v now ≡ ok (ss, after)
      → Decides ss after
  unfolding decide
  decide-Decides ss after h =
      let (artifact, a, h1) =
        >>=-eq-ok (as_conflict (approved_artifact hash_patch artifacts tests run v)) _ h in
      let (_, waits, h2) = >>=-eq-ok (guard (not (count_where (undecided run) rs == 0)) _) _ h1 in
      let (_, none_yet, h3) =
        >>=-eq-ok (guard (count_where (λ b. b.run_pk == run.id) approvals == 0) _) _ h2 in
      record {
        artifact = artifact;
        approved = conflict-ok _ a;
        waiting = positive _ (guard-ok _ _ waits);
        first = ==→eq _ _ (guard-ok _ _ none_yet);
        runs = ap (λ (t : List AgentRun × List Approval). t.0) (sym (ok-injective h3));
        approvals_after = ap (λ (t : List AgentRun × List Approval). t.1) (sym (ok-injective h3));
      }
    where
      positive : (n : ℕ) → not (n == 0) ≡ true → 0 < n
      positive n h = ground arith

  pub decide-Keeps :
      (ss : List AgentRun) (after : List Approval)
      → decide hash_patch rs approvals artifacts tests run v now ≡ ok (ss, after)
      → Keeps rs ss
  decide-Keeps ss after h = rw (decide-Decides ss after h).runs (
      update-Keeps (undecided run) (decided_row v.decision now)
        (keeps_keys _ (λ r. refl) (λ r. refl) (λ r. refl)) rs
        (λ r i e. decided_status v.decision now run r e))
