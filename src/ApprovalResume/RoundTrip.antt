-- ===== src/ApprovalResume/RoundTrip.antt =====
-- Writing a human decision and reading it back: ApprovalService.decide of
-- src/incidentpilot/services/incidents.py, then the first part of resume_after_approval of
-- src/incidentpilot/agent/approval_resume.py.
use incidentpilot.Base.{
  ℕ, String, ◌<◌, ◌≡◌, refl, sym, subst, ◌∙◌, Bool, true, ◌&&◌, Option, none, some, List, [], ◌∷◌,
  arith, ◌==◌, ==-refl, ==→eq, string_eq, nat_eq, inl, inr, In, All-In, Bool-cases, and_true,
  count_where, find_where, find_where-In, In-update_where_hit, is_just, is_true_just, absent_or, ok,
  guard, or_raise, or_raise-ok, >>=-eq-ok, ok-injective,
}
use incidentpilot.Enums.{ApprovalDecision, status_eq, decision_eq}
use incidentpilot.Json.{obj, str, null, get, json_beq, dict_within}
use incidentpilot.Store.{AgentRun, PatchArtifact, TestRun, Approval}
use incidentpilot.Store.Rows.{Unique, Unique-eq, Unique-update_where}
use incidentpilot.Store.Keeps.{id_of, run_id_of}
use incidentpilot.Artifacts.{validated_artifact, requested, text_of, binding, test_matches}
use incidentpilot.Services.{
  Verdict, decide, approved_artifact, undecided, decided_row, approval_row,
}
use incidentpilot.Services.Keeps.{decide-Decides}
use incidentpilot.ApprovalResume.Loading.{Db, load, decision_is}

requested_again :
    (o : Option String) (run : AgentRun) (s : String)
    → requested o run ≡ some s
    → requested (some s) run ≡ some s
requested_again none run s h = elim (Bool-cases (s == "")) [ inl e ↦ rw e h | inr e ↦ rw e refl ]
requested_again (some t) run s h = elim (Bool-cases (t == "")) [
  | inl e ↦
      let same : text_of (get "patch_artifact_id" run.result) ≡ some s = rw e at h in
      elim (Bool-cases (s == "")) [ inl q ↦ rw q same | inr q ↦ rw q refl ]
  | inr e ↦ let same : t ≡ s = cc (rw e at h) in rw (← same) (rw e refl)
]

binding_same : (a : PatchArtifact) → json_beq (obj (binding a)) (obj (binding a)) ≡ true
unfolding json_beq dict_within
binding_same a =
    rw (==-refl a.patch_artifact_id, ==-refl a.patch_hash, ==-refl a.base_commit_sha)
      (named a.test_run_id)
  where
    named :
        (o : Option String)
        → json_beq
              (elim o [ none ↦ null | some s ↦ str s ])
              (elim o [ none ↦ null | some s ↦ str s ])
            && true
          ≡ true
    named none = refl
    named (some s) = rw (==-refl s) refl

module _ (hash_patch : String → String) (artifacts : List PatchArtifact)
    (tests : List TestRun) where
  validated-again :
      (o u : Option String) (r s : AgentRun)
      → r.id ≡ s.id
      → requested o r ≡ requested u s
      → validated_artifact hash_patch artifacts tests r o
        ≡ validated_artifact hash_patch artifacts tests s u
  unfolding validated_artifact
  validated-again o u r s same wanted = simp (same, wanted)

find_where-Unique :
    (key : AgentRun → String) (rs : List AgentRun) (r : AgentRun)
    → Unique key rs
    → In r rs
    → find_where (λ s. key s == key r) rs ≡ some r
find_where-Unique key [] r u i = elim i [ ]
find_where-Unique key (x ∷ rs) r u (inl e) = rw e (rw (==-refl (key x)) refl)
find_where-Unique key (x ∷ xs) r u (inr i) = elim (Bool-cases (key x == key r)) [
  | inl e ↦ absurd (All-In _ xs r u.0 i (sym (==→eq _ _ e)))
  | inr e ↦ rw e (find_where-Unique key xs r u.1 i)
]

positive-In :
    (p : AgentRun → Bool) (rs : List AgentRun)
    → 0 < count_where p rs
    → (r : AgentRun) × In r rs × (p r ≡ true)
positive-In p [] h = absurd (omega (arith, h))
positive-In p (x ∷ xs) h = elim (Bool-cases (p x)) [
  | inl e ↦ (x, inl refl, e)
  | inr e ↦ let (r, i, q) = positive-In p xs (ground (arith, h, e)) in (r, inr i, q)
]

load-all :
    (hash_patch : String → String) (run_id : String) (decision : ApprovalDecision) (db : Db)
    (r : AgentRun) (p : Approval) (a : PatchArtifact)
    → find_where (λ s. s.run_id == run_id) db.runs ≡ some r
    → find_where (λ q. q.run_pk == r.id) db.approvals ≡ some p
    → decision_is p.decision decision ≡ true
    → validated_artifact hash_patch db.artifacts db.tests r p.patch_artifact_id ≡ ok a
    → json_beq (obj p.payload) (obj (binding a)) ≡ true
    → load hash_patch run_id decision db ≡ ok (r, a)
unfolding load
load-all hash_patch run_id decision db r p a found approved decided valid bound =
    rw (found, approved, decided, valid, bound) refl

wanted_artifact :
    (hash_patch : String → String) (artifacts : List PatchArtifact) (tests : List TestRun)
    (run : AgentRun) (o : Option String) (a : PatchArtifact)
    → validated_artifact hash_patch artifacts tests run o ≡ ok a
    → requested o run ≡ some a.patch_artifact_id
unfolding validated_artifact
wanted_artifact hash_patch artifacts tests run o a h =
    let (b, found, h1) =
      >>=-eq-ok
        (or_raise
          (find_where (λ x. x.run_pk == run.id && is_just (requested o run) x.patch_artifact_id)
            artifacts)
          _)
        _ h in
    let (_, e) = find_where-In _ artifacts b (or_raise-ok _ _ found) in
    let (_, _, h2) = >>=-eq-ok (guard b.immutable _) _ h1 in
    let (_, _, h3) = >>=-eq-ok (guard (hash_patch b.patch_diff == b.patch_hash) _) _ h2 in
    let (t, _, h4) =
      >>=-eq-ok
        (or_raise
          (find_where (λ x. x.run_pk == run.id && is_just b.test_run_id x.test_run_id) tests) _)
        _ h3 in
    let (_, _, h5) = >>=-eq-ok (guard (test_matches hash_patch b t) _) _ h4 in
    let same : b ≡ a = ok-injective h5 in
    subst (λ (x : PatchArtifact). requested o run ≡ some x.patch_artifact_id) same
      (is_true_just _ _ (and_true _ _ e).1)

approved-validated :
    (hash_patch : String → String) (artifacts : List PatchArtifact) (tests : List TestRun)
    (run : AgentRun) (v : Verdict) (a : PatchArtifact)
    → approved_artifact hash_patch artifacts tests run v ≡ ok a
    → validated_artifact hash_patch artifacts tests run v.patch_artifact_id ≡ ok a
approved-validated hash_patch artifacts tests run v a h =
    let (b, found, h1) =
      >>=-eq-ok (validated_artifact hash_patch artifacts tests run v.patch_artifact_id) _ h in
    let (_, _, h2) = >>=-eq-ok (guard (absent_or (λ h. h == b.patch_hash) v.patch_hash) _) _ h1 in
    found ∙ h2

module _ (hash_patch : String → String) (db : Db) (run : AgentRun) (v : Verdict) (now : ℕ)
    (ss : List AgentRun) (after : List Approval) where
  waiting_row :
      Unique id_of db.runs
      → In run db.runs
      → 0 < count_where (undecided run) db.runs
      → undecided run run ≡ true
  waiting_row ids i some_row =
      let (r, j, e) = positive-In (undecided run) db.runs some_row in
      let same : r ≡ run = Unique-eq id_of db.runs r run ids j i (==→eq _ _ (and_true _ _ e).0) in
      subst (λ x. undecided run x ≡ true) same e

  abbrev decided_db : Db
  decided_db = record db { runs = ss; approvals = after }

  -- A decision that is recorded can be read back. After decide succeeds on a stored run of tables
  -- with unique keys, the resume that is asked for the same decision finds the run as decide left it
  -- and the very artifact that the decision was checked against, and all its checks pass.
  pub load-decide :
      Unique id_of db.runs
      → Unique run_id_of db.runs
      → In run db.runs
      → decide hash_patch db.runs db.approvals db.artifacts db.tests run v now ≡ ok (ss, after)
      → (a : PatchArtifact) × (approved_artifact hash_patch db.artifacts db.tests run v ≡ ok a)
        × (load hash_patch run.run_id v.decision decided_db
            ≡ ok (decided_row v.decision now run, a))
  unfolding load
  load-decide ids run_ids i h =
      let d =
        decide-Decides hash_patch db.runs db.approvals db.artifacts db.tests run v now ss after h in
      let waits = waiting_row ids i d.waiting in
      let row = decided_row v.decision now run in
      let valid = approved-validated hash_patch db.artifacts db.tests run v d.artifact d.approved in
      let wanted =
        wanted_artifact hash_patch db.artifacts db.tests run v.patch_artifact_id d.artifact valid in
      (
        d.artifact,
        d.approved,
        load-all hash_patch run.run_id v.decision decided_db row (approval_row run v d.artifact now)
            d.artifact
            (rw d.runs (
              find_where-Unique run_id_of _ row
                (Unique-update_where run_id_of (undecided run) (decided_row v.decision now)
                  (λ r. refl) db.runs run_ids)
                (In-update_where_hit (undecided run) (decided_row v.decision now) db.runs run i
                  waits)))
            (rw (d.approvals_after, ==-refl run.id) refl) (==-refl v.decision)
            (validated-again hash_patch db.artifacts db.tests (some d.artifact.patch_artifact_id)
                v.patch_artifact_id row run refl
                (requested_again v.patch_artifact_id run d.artifact.patch_artifact_id wanted
                  ∙ sym wanted)
              ∙ valid)
            (binding_same d.artifact),
      )
