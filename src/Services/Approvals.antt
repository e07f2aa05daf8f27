-- ===== src/Services/Approvals.antt =====
-- What ApprovalService.decide of src/incidentpilot/services/incidents.py guarantees, and a run that
-- its answer leaves behind.
use incidentpilot.Base.{
  ℕ, String, ◌≤◌, ◌<◌, ◌≡◌, refl, ◌∙◌, ap, Bool, true, false, Option, List, ◌∷◌, arith, ◌==◌,
  string_eq, absent_or, In, subst, In-update_where_hit, count_where, update_where, ok, guard,
  guard-ok, >>=-eq-ok, ok-injective,
}
use incidentpilot.Enums.{RunStatus, approve, decision_eq}
use incidentpilot.Store.{AgentRun, PatchArtifact, TestRun, Approval}
use incidentpilot.Jobs.{claimable, expired_out}
use incidentpilot.Artifacts.{validated_artifact, IsTested}
use incidentpilot.Artifacts.Tested.{validated_artifact-IsTested}
use incidentpilot.Services.{
  Verdict, decide, approved_artifact, undecided, decided_row, approval_row,
}
use incidentpilot.Services.Keeps.{decide-Decides}

module _ (hash_patch : String → String) (rs : List AgentRun) (approvals : List Approval)
    (artifacts : List PatchArtifact) (tests : List TestRun) (run : AgentRun) (v : Verdict) (now : ℕ)
    (ss : List AgentRun) (after : List Approval) where
  approved-IsTested :
      (a : PatchArtifact)
      → approved_artifact hash_patch artifacts tests run v ≡ ok a
      → IsTested hash_patch artifacts tests run a
        × (absent_or (λ h. h == a.patch_hash) v.patch_hash ≡ true)
  approved-IsTested a h =
      let (b, found, h1) =
        >>=-eq-ok (validated_artifact hash_patch artifacts tests run v.patch_artifact_id) _ h in
      let (_, hash, h2) =
        >>=-eq-ok (guard (absent_or (λ h. h == b.patch_hash) v.patch_hash) _) _ h1 in
      let same : b ≡ a = ok-injective h2 in
      (
        validated_artifact-IsTested hash_patch artifacts tests run v.patch_artifact_id a
            (found ∙ ap ok same),
        subst (λ (x : PatchArtifact). absent_or (λ h. h == x.patch_hash) v.patch_hash ≡ true) same
            (guard-ok _ _ hash),
      )

  -- A decision that is recorded was made on a run that waits for approval and has none yet, for an
  -- immutable artifact of that run whose named test passed on the same patch and base, with the hash
  -- that the request names (if any); it adds exactly one approval, bound to that artifact.
  pub decide_guarded :
      decide hash_patch rs approvals artifacts tests run v now ≡ ok (ss, after)
      → (a : PatchArtifact) × IsTested hash_patch artifacts tests run a
        × (absent_or (λ h. h == a.patch_hash) v.patch_hash ≡ true)
        × (0 < count_where (undecided run) rs)
        × (count_where (λ (b : Approval). b.run_pk == run.id) approvals ≡ 0)
        × (after ≡ approval_row run v a now ∷ approvals)
        × (ss ≡ update_where (undecided run) (decided_row v.decision now) rs)
  decide_guarded h =
      let d = decide-Decides hash_patch rs approvals artifacts tests run v now ss after h in
      let (tested, hash) = approved-IsTested d.artifact d.approved in
      (d.artifact, tested, hash, d.waiting, d.first, d.approvals_after, d.runs)

  out_of_reach :
      (r : AgentRun) (max_attempts : ℕ)
      → max_attempts ≤ r.attempt_count
      → (current : ℕ) (run_id : Option String) (locked : String → Bool)
      → (claimable current max_attempts run_id locked (decided_row approve now r) ≡ false)
        × (expired_out max_attempts current (decided_row approve now r) ≡ false)
  out_of_reach r max_attempts used current run_id locked = ground arith

  -- A run that reached approval on its last permitted attempt is stranded by approving it: its row
  -- is PENDING, yet no poll at any time by any worker may claim it, and no sweep ends it.
  pub approve_last_attempt_stranded :
      (r : AgentRun) (max_attempts : ℕ)
      → decide hash_patch rs approvals artifacts tests run v now ≡ ok (ss, after)
      → v.decision ≡ approve
      → In r rs
      → undecided run r ≡ true
      → max_attempts ≤ r.attempt_count
      → (s : AgentRun) × In s ss
        × (s.id ≡ r.id)
        × (s.status ≡ RunStatus.pending)
        × ((current : ℕ) (run_id : Option String) (locked : String → Bool)
            → (claimable current max_attempts run_id locked s ≡ false)
              × (expired_out max_attempts current s ≡ false))
  approve_last_attempt_stranded r max_attempts h yes' i waits used =
      let d = decide-Decides hash_patch rs approvals artifacts tests run v now ss after h in
      (
        decided_row approve now r,
        rw (d.runs, yes')
            (In-update_where_hit (undecided run) (decided_row approve now) rs r i waits),
        refl,
        refl,
        out_of_reach r max_attempts used,
      )
