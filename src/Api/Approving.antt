-- ===== src/Api/Approving.antt =====
-- Who may decide on a run through submit_approval of src/incidentpilot/api/app.py.
use incidentpilot.Base.{
  ℕ, String, ◌≡◌, refl, ap, Bool, true, false, not, Option, none, some, List, [], ◌∷◌, In, ◌==◌,
  ◌&&◌, ◌||◌, string_eq, if◌then◌else◌, find_where, find_where-In, Result, ok, err, inl, inr, ◌⊎◌,
  ==→eq, Exception,
}
use incidentpilot.Enums.{RunStatus, status_eq}
use incidentpilot.Store.{AgentRun, Incident, PatchArtifact, TestRun, Approval}
use incidentpilot.Access.{Principal, granted, refused, require_role, MayAccess, access_iff}
use incidentpilot.Services.{decide}
use incidentpilot.Api.Replies.{when_granted-answered, answered-injective}
use incidentpilot.Api.{
  Reply, answered, http_error, raised, authorize_run, incident_of, owner_of, run_called,
  submit_approval, decide_waiting, ApprovalRequest, Decided, verdict_of, after_decide, is_conflict,
  serve,
}

serve-answered :
    {A : Type 0} (incidents : List Incident) (p : Principal) (k : AgentRun → Reply A)
    (found : Option AgentRun) (x : A)
    → serve incidents p k found ≡ answered x
    → (run : AgentRun) × (found ≡ some run)
      × MayAccess p (owner_of (incident_of incidents run))
      × (k run ≡ answered x)
serve-answered incidents p k none x h = cc
serve-answered incidents p k (some run) x h =
    let (may, reply) = when_granted-answered (authorize_run incidents run p) (k run) x h in
    (run, refl, (access_iff p (owner_of (incident_of incidents run))).0 may, reply)

admitted_role :
    (a b : Bool)
    → (if not (a || false) && not b then refused 403 else granted) ≡ granted
    → (a ≡ true) ⊎ (b ≡ true)
admitted_role true b h = inl refl
admitted_role false true h = inr refl
admitted_role false false h = cc

approver_role :
    (p : Principal)
    → require_role p ("approver" ∷ []) ≡ granted
    → (p.role ≡ "approver") ⊎ (p.role ≡ "admin")
approver_role p h = elim (admitted_role (p.role == "approver") (p.role == "admin") h) [
  | inl a ↦ inl (==→eq p.role "approver" a)
  | inr b ↦ inr (==→eq p.role "admin" b)
]

unanswered :
    {A : Type 0} (conflict : Bool) (e : Exception) (x : A)
    → (if conflict then http_error 409 else raised e) ≡ answered x
    → ⊥
unanswered true e x h = cc
unanswered false e x h = cc

module _ (hash_patch : String → String) (embedded_worker_enabled : Bool)
    (artifacts : List PatchArtifact) (tests : List TestRun) (now : ℕ) (incidents : List Incident)
    (runs : List AgentRun) (approvals : List Approval) (p : Principal)
    (body : ApprovalRequest) where
  after_decide-answered :
      (run : AgentRun) (r : Result (List AgentRun × List Approval)) (after : Decided)
      → after_decide embedded_worker_enabled incidents run body.decision r ≡ answered after
      → r ≡ ok (after.runs, after.approvals)
  after_decide-answered run (ok (rs, made)) after h =
      ap (λ (d : Decided). ok (d.runs, d.approvals)) (answered-injective h)
  after_decide-answered run (err e) after h = absurd (unanswered (is_conflict e) e after h)

  decided_if_waiting :
      (waiting : Bool) (run : AgentRun) (after : Decided) (r : Reply Decided)
      → (if not waiting then http_error 409 else r) ≡ answered after
      → (waiting ≡ true) × (r ≡ answered after)
  decided_if_waiting true run after r h = (refl, h)
  decided_if_waiting false run after r h = cc

  -- A decision that is answered was sent by an approver or an administrator who may see the run,
  -- for a stored run of that name which waits for approval, and is the one that `decide` records
  -- with the sender as its actor.
  pub submit_approval-Allowed :
      (run_id : String) (after : Decided)
      → submit_approval hash_patch embedded_worker_enabled artifacts tests now incidents runs
          approvals p run_id body
        ≡ answered after
      → (run : AgentRun) × In run runs
        × (run.run_id ≡ run_id)
        × ((p.role ≡ "approver") ⊎ (p.role ≡ "admin"))
        × MayAccess p (owner_of (incident_of incidents run))
        × ((run.status == RunStatus.waiting_approval) ≡ true)
        × (decide hash_patch runs approvals artifacts tests run (verdict_of body p) now
            ≡ ok (after.runs, after.approvals))
  unfolding submit_approval
  submit_approval-Allowed run_id after h =
      let (role, served) = when_granted-answered (require_role p ("approver" ∷ [])) _ after h in
      let (run, found, may, reply) =
        serve-answered incidents p
          (decide_waiting hash_patch embedded_worker_enabled artifacts tests now incidents runs
            approvals p body)
          (find_where (run_called run_id) runs) after served in
      let (i, e) = find_where-In (run_called run_id) runs run found in
      let (waiting, r) =
        decided_if_waiting (run.status == RunStatus.waiting_approval) run after _ reply in
      (
        run,
        i,
        ==→eq run.run_id run_id e,
        approver_role p role,
        may,
        waiting,
        after_decide-answered run _ after r,
      )
