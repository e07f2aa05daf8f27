-- ===== src/ApprovalResume/Loading.antt =====
-- The first part of resume_after_approval (src/incidentpilot/agent/approval_resume.py): reading the
-- persisted decision back and checking it against the stored artifact.
use incidentpilot.Base.{
  String, ◌≡◌, ap, subst, Bool, true, false, Option, none, some, List, In, ◌==◌, ==→eq, string_eq,
  find_where, find_where-In, Result, ok, guard, guard-ok, or_raise, or_raise-ok, value_error, ◌>>=◌,
  ◌>>◌, >>=-eq-ok, ok-injective,
}
use incidentpilot.Enums.{ApprovalDecision, decision_eq}
use incidentpilot.Json.{obj, json_beq}
use incidentpilot.Store.{AgentRun, PatchArtifact, TestRun, Approval, ExternalSideEffect}
use incidentpilot.Artifacts.{validated_artifact, binding, IsTested}
use incidentpilot.Artifacts.Tested.{validated_artifact-IsTested}

pub record Db : Type 0 where
  pub runs : List AgentRun
  pub approvals : List Approval
  pub artifacts : List PatchArtifact
  pub tests : List TestRun
  pub effects : List ExternalSideEffect

abbrev pub decision_is : Option ApprovalDecision → ApprovalDecision → Bool
decision_is none d = false
decision_is (some c) d = c == d

module _ (hash_patch : String → String) where
  -- What the human decided on, checked once more against the stored artifact.
  unfoldable pub load : String → ApprovalDecision → Db → Result (AgentRun × PatchArtifact)
  load run_id decision db = do
    run ← or_raise (find_where (λ r. r.run_id == run_id) db.runs) (value_error "run not found")
    approval ←
        or_raise (find_where (λ a. a.run_pk == run.id) db.approvals)
          (value_error "persisted human approval required")
    guard (decision_is approval.decision decision) (value_error "persisted human approval required")
    artifact ← validated_artifact hash_patch db.artifacts db.tests run approval.patch_artifact_id
    guard (json_beq (obj approval.payload) (obj (binding artifact)))
        (value_error "approved artifact binding changed")
    ok (run, artifact)

  -- The persisted decision that a resume was loaded with.
  pub record Loaded (run_id : String) (decision : ApprovalDecision) (db : Db) (run : AgentRun)
      (artifact : PatchArtifact) : Type 0 where
    pub stored : In run db.runs
    pub named : run.run_id ≡ run_id
    pub approval : Approval
    pub persisted : In approval db.approvals
    pub owned : approval.run_pk ≡ run.id
    pub decided : decision_is approval.decision decision ≡ true
    pub bound : json_beq (obj approval.payload) (obj (binding artifact)) ≡ true
    pub tested : IsTested hash_patch db.artifacts db.tests run artifact

  pub load-Loaded :
      (run_id : String) (decision : ApprovalDecision) (db : Db) (run : AgentRun)
      (artifact : PatchArtifact)
      → load run_id decision db ≡ ok (run, artifact)
      → Loaded run_id decision db run artifact
  unfolding load
  load-Loaded run_id decision db run artifact h =
      let (r, found, h1) =
        >>=-eq-ok (or_raise (find_where (λ r. r.run_id == run_id) db.runs) _) _ h in
      let (a, approved, h2) =
        >>=-eq-ok (or_raise (find_where (λ a. a.run_pk == r.id) db.approvals) _) _ h1 in
      let (_, decided, h3) = >>=-eq-ok (guard (decision_is a.decision decision) _) _ h2 in
      let (p, valid, h4) =
        >>=-eq-ok (validated_artifact hash_patch db.artifacts db.tests r a.patch_artifact_id) _
          h3 in
      let (_, bound, h5) = >>=-eq-ok (guard (json_beq (obj a.payload) (obj (binding p))) _) _ h4 in
      let same_run : r ≡ run = ap (λ (x : AgentRun × PatchArtifact). x.0) (ok-injective h5) in
      let same : p ≡ artifact = ap (λ (x : AgentRun × PatchArtifact). x.1) (ok-injective h5) in
      let (i, k) =
        find_where-In (λ (x : AgentRun). x.run_id == run_id) db.runs r (or_raise-ok _ _ found) in
      let (j, l) =
        find_where-In (λ (x : Approval). x.run_pk == r.id) db.approvals a
          (or_raise-ok _ _ approved) in
      subst (Loaded run_id decision db run) same (
        subst (λ x. Loaded run_id decision db x p) same_run
          (record {
            stored = i;
            named = ==→eq _ _ k;
            approval = a;
            persisted = j;
            owned = ==→eq _ _ l;
            decided = guard-ok _ _ decided;
            bound = guard-ok _ _ bound;
            tested =
                validated_artifact-IsTested hash_patch db.artifacts db.tests r a.patch_artifact_id p
                  valid;
          }))
