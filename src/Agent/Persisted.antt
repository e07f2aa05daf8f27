-- ===== src/Agent/Persisted.antt =====
-- _persist_patch_artifact_once of src/incidentpilot/agent/graph.py: the artifact of an export is
-- stored once, also when a checkpointed node is replayed. `runs` and `artifacts` are the two tables.
use incidentpilot.Base.{
  ℕ, String, ◌≡◌, refl, sym, ap, subst, ◌∙◌, Bool, true, ◌&&◌, Option, none, some, List, ◌∷◌, ◌==◌,
  ==-refl, string_eq, is_just, find_where, Result, ok, ◌>>=◌, ok-injective, >>=-eq-ok,
}
use incidentpilot.Store.{AgentRun, PatchArtifact}
use incidentpilot.Jobs.{ClaimedRun}
use incidentpilot.Ownership.{fence}
use incidentpilot.Agent.State.{Exported}

abbrev pub same_artifact : AgentRun → Exported → PatchArtifact → Bool
same_artifact run e a =
    a.run_pk == run.id && (a.patch_hash == e.patch_hash && is_just a.test_run_id e.test_run_id)

abbrev pub new_artifact : AgentRun → Exported → PatchArtifact
new_artifact run e = record {
  patch_artifact_id = e.patch_artifact_id;
  run_pk = run.id;
  base_commit_sha = e.base_commit_sha;
  patch_diff = e.patch_diff;
  patch_hash = e.patch_hash;
  test_run_id = some e.test_run_id;
  immutable = true;
}

-- With what the query found.
abbrev pub keep_or_add :
    AgentRun → Exported → List PatchArtifact → Option PatchArtifact → String × List PatchArtifact
keep_or_add run e artifacts (some existing) = (existing.patch_artifact_id, artifacts)
keep_or_add run e artifacts none = (e.patch_artifact_id, new_artifact run e ∷ artifacts)

abbrev pub for_run :
    Option ClaimedRun
    → List AgentRun
    → List PatchArtifact
    → String
    → Exported
    → ℕ
    → Option AgentRun
    → Result (String × List PatchArtifact)
for_run claim runs artifacts run_id e current none = ok (e.patch_artifact_id, artifacts)
for_run claim runs artifacts run_id e current (some run) =
    fence claim runs run_id current >>= λ fenced.
    ok (keep_or_add run e artifacts (find_where (same_artifact run e) artifacts))

unfoldable pub persist_patch_artifact_once :
    Option ClaimedRun
    → List AgentRun
    → List PatchArtifact
    → String
    → Exported
    → (current : ℕ) → Result (String × List PatchArtifact)
persist_patch_artifact_once claim runs artifacts run_id e current =
    for_run claim runs artifacts run_id e current (find_where (λ r. r.run_id == run_id) runs)

stored_hit : (run : AgentRun) (e : Exported) → same_artifact run e (new_artifact run e) ≡ true
stored_hit run e = rw (==-refl run.id, ==-refl e.patch_hash, ==-refl e.test_run_id) refl

keep_twice :
    (run : AgentRun) (e f : Exported) (artifacts : List PatchArtifact) (o : Option PatchArtifact)
    → same_artifact run f ≡ same_artifact run e
    → find_where (same_artifact run e) artifacts ≡ o
    → let p = keep_or_add run e artifacts o in
      keep_or_add run f p.1 (find_where (same_artifact run f) p.1) ≡ p
keep_twice run e f artifacts (some a) same h =
    ap (keep_or_add run f artifacts) (ap (λ q. find_where q artifacts) same ∙ h)
keep_twice run e f artifacts none same h =
    let added = new_artifact run e ∷ artifacts in
    let hit : same_artifact run f (new_artifact run e) ≡ true =
      ap (λ q. q (new_artifact run e)) same ∙ stored_hit run e in
    let there : find_where (same_artifact run f) added ≡ some (new_artifact run e) = rw hit refl in
    ap (keep_or_add run f added) there

-- When the export of a stored run is replayed with the same patch and the same test run, under
-- whatever new artifact identifier, by a worker that passes its fence: it gets the identifier that
-- the first export got, and the table of artifacts stays as the first export left it.
pub persist_patch_artifact_once-twice :
    (claim : Option ClaimedRun) (runs : List AgentRun) (artifacts : List PatchArtifact)
    (run_id : String) (e f : Exported) (current later : ℕ) (run : AgentRun) (id : String)
    (after : List PatchArtifact) (fenced : List AgentRun)
    → find_where (λ r. r.run_id == run_id) runs ≡ some run
    → persist_patch_artifact_once claim runs artifacts run_id e current ≡ ok (id, after)
    → f.patch_hash ≡ e.patch_hash
    → f.test_run_id ≡ e.test_run_id
    → fence claim runs run_id later ≡ ok fenced
    → persist_patch_artifact_once claim runs after run_id f later ≡ ok (id, after)
unfolding persist_patch_artifact_once
persist_patch_artifact_once-twice claim runs artifacts run_id e f current later run id after fenced
      stored first hash test held =
    let once : for_run claim runs artifacts run_id e current (some run) ≡ ok (id, after) =
      subst (λ o. for_run claim runs artifacts run_id e current o ≡ ok (id, after)) stored first in
    let (rs, _, result) = >>=-eq-ok (fence claim runs run_id current) _ once in
    let found = find_where (same_artifact run e) artifacts in
    let pair : keep_or_add run e artifacts found ≡ (id, after) = ok-injective result in
    let same : same_artifact run f ≡ same_artifact run e = rw (hash, test) refl in
    let twice = keep_twice run e f artifacts found same refl in
    let again : keep_or_add run f after (find_where (same_artifact run f) after) ≡ (id, after) =
      subst
        (λ (p : String × List PatchArtifact).
          keep_or_add run f p.1 (find_where (same_artifact run f) p.1) ≡ p)
        pair twice in
    let second : for_run claim runs after run_id f later (some run) ≡ ok (id, after) =
      ap
        (λ r. r >>= (λ (x : List AgentRun).
          ok (keep_or_add run f after (find_where (same_artifact run f) after))))
        held
      ∙ ap ok again in
    subst (λ o. for_run claim runs after run_id f later o ≡ ok (id, after)) (sym stored) second
