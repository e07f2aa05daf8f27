-- ===== src/Artifacts/Tested.antt =====
-- What validated_artifact of src/incidentpilot/services/artifacts.py guarantees.
use incidentpilot.Base.{
  String, ◌≡◌, subst, true, ◌&&◌, Option, none, some, List, In, arith, ◌==◌, string_eq, nat_eq,
  is_just, find_where-In, ==→eq, and_true, ok, guard, guard-ok, or_raise-ok, or_raise, >>=-eq-ok,
  is_true_just, ℕ,
}
use incidentpilot.Enums.{test_status_eq}
use incidentpilot.Store.{AgentRun, PatchArtifact, TestRun}
use incidentpilot.Artifacts.{validated_artifact, IsTested, test_matches, requested, is_zero}

zero_exit : (o : Option ℕ) → is_zero o ≡ true → o ≡ some 0
zero_exit none h = cc
zero_exit (some n) h = ground arith

module _ (hash_patch : String → String) (artifacts : List PatchArtifact) (tests : List TestRun)
    (run : AgentRun) where
  tested :
      (a : PatchArtifact) (t : TestRun) (wanted : Option String)
      → In a artifacts × ((a.run_pk == run.id && is_just wanted a.patch_artifact_id) ≡ true)
      → a.immutable ≡ true
      → (hash_patch a.patch_diff == a.patch_hash) ≡ true
      → In t tests × ((t.run_pk == run.id && is_just a.test_run_id t.test_run_id) ≡ true)
      → test_matches hash_patch a t ≡ true
      → IsTested hash_patch artifacts tests run a
  tested a t wanted (i, p) sealed hashed (j, q) m =
      let (status, exits) = and_true _ _ (and_true _ _ m).0 in
      let (patch, base) = and_true _ _ (and_true _ _ m).1 in
      record {
        stored = i;
        own = ==→eq _ _ (and_true _ _ p).0;
        sealed = sealed;
        hashed = ==→eq _ _ hashed;
        test = t;
        recorded = j;
        test_own = ==→eq _ _ (and_true _ _ q).0;
        named = is_true_just _ _ (and_true _ _ q).1;
        passed = ==→eq _ _ status;
        exited = zero_exit _ exits;
        same_patch = ==→eq _ _ patch;
        same_base = ==→eq _ _ base;
      }

  -- An artifact that validates is stored, immutable and the run's own, its hash is that of its diff,
  -- and the test run it names passed with exit code 0 on the same patch and the same base commit.
  pub validated_artifact-IsTested :
      (artifact_id : Option String) (a : PatchArtifact)
      → validated_artifact hash_patch artifacts tests run artifact_id ≡ ok a
      → IsTested hash_patch artifacts tests run a
  unfolding validated_artifact
  validated_artifact-IsTested artifact_id a h =
      let (b, found, h1) = >>=-eq-ok (or_raise _ _) _ h in
      let (_, sealed, h2) = >>=-eq-ok (guard b.immutable _) _ h1 in
      let (_, hashed, h3) = >>=-eq-ok (guard (hash_patch b.patch_diff == b.patch_hash) _) _ h2 in
      let (t, test, h4) = >>=-eq-ok (or_raise _ _) _ h3 in
      let (_, matched, h5) = >>=-eq-ok (guard (test_matches hash_patch b t) _) _ h4 in
      let same : b ≡ a = cc in
      subst (IsTested hash_patch artifacts tests run) same (
        tested b t (requested artifact_id run) (find_where-In _ artifacts b (or_raise-ok _ _ found))
          (guard-ok _ _ sealed) (guard-ok _ _ hashed)
          (find_where-In _ tests t (or_raise-ok _ _ test)) (guard-ok _ _ matched))
