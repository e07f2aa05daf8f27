-- ===== src/Artifacts.antt =====
-- src/incidentpilot/services/artifacts.py. SHA-256 (`hash_patch` of sandbox/manager.py) is a
-- parameter.
pub mod Tested
use incidentpilot.Base.{
  ℕ, String, ◌≡◌, refl, Bool, true, false, ◌&&◌, ◌||◌, not, Option, none, some, List, In, arith,
  ◌==◌, string_eq, nat_eq, is_just, find_where, find_where-In, Option-cases, Bool-cases, inl, inr,
  ==→eq, and_true, if◌then◌else◌, Result, ok, err, guard, or_raise, value_error, ◌>>=◌, ◌>>◌,
  >>=-eq-ok,
}
use incidentpilot.Enums.{TestRunStatus, test_status_eq}
use incidentpilot.Json.{Dict, Json, str, null, end, field, get}
use incidentpilot.Store.{AgentRun, PatchArtifact, TestRun}

-- `artifact_id or (run.result or {}).get("patch_artifact_id")`, read as a text.
abbrev pub text_of : Option Json → Option String
text_of (some (str s)) = some s
text_of _ = none

abbrev pub requested : Option String → AgentRun → Option String
requested none run = text_of (get "patch_artifact_id" run.result)
requested (some s) run = if s == "" then text_of (get "patch_artifact_id" run.result) else some s

abbrev pub is_zero : Option ℕ → Bool
is_zero none = false
is_zero (some n) = n == 0

module _ (hash_patch : String → String) where
  -- The test record that an artifact names passed, for this very patch on this very base.
  abbrev pub test_matches : PatchArtifact → TestRun → Bool
  test_matches artifact test =
      (test.status == TestRunStatus.passed && is_zero test.exit_code)
      && (test.patch_hash == artifact.patch_hash
          && test.base_commit_sha == artifact.base_commit_sha)

  unfoldable pub validated_artifact :
      List PatchArtifact → List TestRun → AgentRun → Option String → Result PatchArtifact
  validated_artifact artifacts tests run artifact_id = do
    artifact ←
        or_raise
          (find_where
            (λ a. a.run_pk == run.id && is_just (requested artifact_id run) a.patch_artifact_id)
            artifacts)
          (value_error "immutable artifact missing or belongs to another run")
    guard artifact.immutable (value_error "immutable artifact missing or belongs to another run")
    guard (hash_patch artifact.patch_diff == artifact.patch_hash)
        (value_error "artifact patch hash mismatch")
    test ←
        or_raise
          (find_where (λ t. t.run_pk == run.id && is_just artifact.test_run_id t.test_run_id) tests)
          (value_error "artifact has no matching successful test")
    guard (test_matches artifact test) (value_error "artifact has no matching successful test")
    ok artifact

-- binding: the four fields that an approval is bound to.
abbrev pub binding : PatchArtifact → Dict
binding a = field "patch_artifact_id" (str a.patch_artifact_id) (
    field "patch_hash" (str a.patch_hash) (
      field "base_commit_sha" (str a.base_commit_sha)
        (field "test_run_id" (elim a.test_run_id [ none ↦ null | some s ↦ str s ]) end)))

module _ (hash_patch : String → String) where
  -- What stands behind a validated artifact.
  pub record IsTested (artifacts : List PatchArtifact) (tests : List TestRun) (run : AgentRun)
      (a : PatchArtifact) : Type 0 where
    pub stored : In a artifacts
    pub own : a.run_pk ≡ run.id
    pub sealed : a.immutable ≡ true
    pub hashed : hash_patch a.patch_diff ≡ a.patch_hash
    pub test : TestRun
    pub recorded : In test tests
    pub test_own : test.run_pk ≡ run.id
    pub named : a.test_run_id ≡ some test.test_run_id
    pub passed : test.status ≡ TestRunStatus.passed
    pub exited : test.exit_code ≡ some 0
    pub same_patch : test.patch_hash ≡ a.patch_hash
    pub same_base : test.base_commit_sha ≡ a.base_commit_sha
