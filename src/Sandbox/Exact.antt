-- ===== src/Sandbox/Exact.antt =====
-- What a patch that apply_patch of src/incidentpilot/sandbox/manager.py accepts has changed.
use Prim.Native.String.{len}
use incidentpilot.Base.{
  String, ◌≡◌, ◌≢◌, refl, ap, ◌∙◌, inl, inr, true, ◌&&◌, not, Option, none, some, List, [], ◌∷◌,
  ◌==◌, Bool-cases, and_true, In, All, Result, ok, err, guard, guard-ok, or_raise, >>=-eq-ok,
  ok-injective, subst, leb, nat_eq,
}
use incidentpilot.Base.Text.{Text, codes, text_eq, split_on, pieces}
use incidentpilot.Enums.{contains}
use incidentpilot.Json.{Json, Items, nil, cons, arr}
use incidentpilot.Sandbox.Paths.{any, rstrip}
use incidentpilot.Sandbox.Files.{Repo, add, same_set, digest_of, changed_paths}
use incidentpilot.Sandbox.Patch.{
  Outside, valid_path, workspace_snapshot, edit_paths, simple_paths, record_path, record_paths,
  by_kind, patch_paths, compare_with, after_write, with_paths, declared, apply_patch, write_patch,
  is_json_like, as_edit, check_lines, line_break, numstat_of, is_digits, simple_edits,
}
use incidentpilot.Sandbox.Changes.{subset-In, differs, unchanged}

module _ (outside : Outside) where
  abbrev pub Valid : Repo → Text → Type 0
  Valid repo p = (parts : List Text) × (valid_path outside repo p ≡ ok parts)

  add-All : (P : Text → Type 0) (p : Text) (ps : List Text) → P p → All P ps → All P (add p ps)
  add-All P p ps h k = elim (Bool-cases (contains p ps)) [ inl e ↦ rw e k | inr e ↦ rw e (h, k) ]

  edit_paths-Valid :
      (repo : Repo) (vs : Items) (paths paths' : List Text)
      → All (Valid repo) paths
      → edit_paths outside repo paths vs ≡ ok paths'
      → All (Valid repo) paths'
  edit_paths-Valid repo nil paths paths' v h = subst (λ ps. All (Valid repo) ps) (ok-injective h) v
  edit_paths-Valid repo (cons x xs) paths paths' v h =
      let (e, _, h1) = >>=-eq-ok (or_raise (as_edit x) _) _ h in
      let (parts, valid, h2) = >>=-eq-ok (valid_path outside repo e.path) _ h1 in
      edit_paths-Valid repo xs (add e.path paths) paths'
        (add-All (Valid repo) e.path paths (parts, valid) v) h2

  simple_paths-Valid :
      (repo : Repo) (edits : Option Json) (paths : List Text)
      → simple_paths outside repo edits ≡ ok paths
      → All (Valid repo) paths
  simple_paths-Valid repo (some (arr (cons x xs))) paths h =
      edit_paths-Valid repo (cons x xs) [] paths tt h
  simple_paths-Valid repo _ paths h = cc

  record_path-Valid : (repo : Repo) (r p : Text) → record_path outside repo r ≡ ok p → Valid repo p
  record_path-Valid repo r p h =
      let (n, _, h1) = >>=-eq-ok (or_raise (numstat_of (split_on b'\t' r)) _) _ h in
      let (_, _, h2) = >>=-eq-ok (guard (is_digits n.added && is_digits n.removed) _) _ h1 in
      let (parts, valid, h3) = >>=-eq-ok (valid_path outside repo n.path) _ h2 in
      subst (Valid repo) (ok-injective h3) (parts, valid)

  record_paths-Valid :
      (repo : Repo) (rs paths paths' : List Text)
      → All (Valid repo) paths
      → record_paths outside repo paths rs ≡ ok paths'
      → All (Valid repo) paths'
  record_paths-Valid repo [] paths paths' v h = subst (λ ps. All (Valid repo) ps) (ok-injective h) v
  record_paths-Valid repo (r ∷ rs) paths paths' v h =
      let (p, read, h1) = >>=-eq-ok (record_path outside repo r) _ h in
      record_paths-Valid repo rs (add p paths) paths'
        (add-All (Valid repo) p paths (record_path-Valid repo r p read) v) h1

  by_kind-Valid :
      (repo : Repo) (patch_diff : String) (o : Option (Option Json)) (paths : List Text)
      → by_kind outside repo patch_diff o ≡ ok paths
      → All (Valid repo) paths
  by_kind-Valid repo patch_diff (some edits) paths h = simple_paths-Valid repo edits paths h
  by_kind-Valid repo patch_diff none paths h =
      let (_, _, h1) = >>=-eq-ok (check_lines (pieces line_break (codes patch_diff))) _ h in
      let (_, _, h2) =
        >>=-eq-ok
          (guard ((outside.numstat patch_diff).0 == 0 && not ((outside.numstat patch_diff).1 == []))
            _)
          _ h1 in
      record_paths-Valid repo (split_on 0 (rstrip (λ c. c == 0) (outside.numstat patch_diff).1)) []
        paths tt h2

  pub patch_paths-Valid :
      (repo : Repo) (patch_diff : String) (paths : List Text)
      → patch_paths outside repo patch_diff ≡ ok paths
      → All (Valid repo) paths
  unfolding patch_paths
  patch_paths-Valid repo patch_diff paths h =
      let (_, _, h1) =
        >>=-eq-ok
          (guard (leb (len patch_diff) 1_000_000 && not (any (λ c. c == 0) (codes patch_diff))) _) _
          h in
      by_kind-Valid repo patch_diff (simple_edits (outside.loads patch_diff)) paths h1

  -- What a patch that was applied has done.
  pub record Exactly (patch_diff : String) (repo repo' : Repo) : Type 0 where
    pub paths : List Text
    pub listed : patch_paths outside repo patch_diff ≡ ok paths
    pub valid : All (Valid repo) paths
    pub before : List (Text × Text)
    pub after : List (Text × Text)
    pub taken : workspace_snapshot outside repo ≡ ok before
    pub taken_after : workspace_snapshot outside repo' ≡ ok after
    pub declared_changed : (p : Text) → In p paths → digest_of p before ≢ digest_of p after
    pub rest_unchanged : (p : Text) → ((In p paths) → ⊥) → digest_of p before ≡ digest_of p after

  written-Exactly :
      (patch_diff : String) (repo repo' : Repo) (paths : List Text)
      (before after : List (Text × Text))
      → patch_paths outside repo patch_diff ≡ ok paths
      → workspace_snapshot outside repo ≡ ok before
      → workspace_snapshot outside repo' ≡ ok after
      → same_set (changed_paths before after) paths ≡ true
      → Exactly patch_diff repo repo'
  written-Exactly patch_diff repo repo' paths before after listed taken taken_after same =
      let (there, back) = and_true _ _ same in
      record {
        paths = paths;
        listed = listed;
        valid = patch_paths-Valid repo patch_diff paths listed;
        before = before;
        after = after;
        taken = taken;
        taken_after = taken_after;
        declared_changed =
            λ p i. differs before after _ p (subset-In paths (changed_paths before after) p back i);
        rest_unchanged = λ p n.
            unchanged before after p
              (λ i. n (subset-In (changed_paths before after) paths p there i));
      }

  compare_with-Exactly :
      (patch_diff : String) (repo repo' mid : Repo) (paths : List Text)
      (before : List (Text × Text)) (o : Result (List (Text × Text)))
      → patch_paths outside repo patch_diff ≡ ok paths
      → workspace_snapshot outside repo ≡ ok before
      → workspace_snapshot outside mid ≡ o
      → compare_with outside paths before o mid ≡ (ok tt, repo')
      → Exactly patch_diff repo repo'
  compare_with-Exactly patch_diff repo repo' mid paths before (ok after) listed taken e h =
      let same : mid ≡ repo' = ap (λ (x : Result (Unit {0}) × Repo). x.1) h in
      let passed =
        guard-ok (same_set (changed_paths before after) paths) _
          (ap (λ (x : Result (Unit {0}) × Repo). x.0) h) in
      subst (Exactly patch_diff repo) same
        (written-Exactly patch_diff repo mid paths before after listed taken e passed)
  compare_with-Exactly patch_diff repo repo' mid paths before (err x) listed taken e h = cc

  after_write-Exactly :
      (patch_diff : String) (repo repo' mid : Repo) (paths : List Text)
      (before : List (Text × Text)) (r : Result (Unit {0}))
      → patch_paths outside repo patch_diff ≡ ok paths
      → workspace_snapshot outside repo ≡ ok before
      → after_write outside paths before r mid ≡ (ok tt, repo')
      → Exactly patch_diff repo repo'
  after_write-Exactly patch_diff repo repo' mid paths before (ok _) listed taken h =
      compare_with-Exactly patch_diff repo repo' mid paths before _ listed taken refl h
  after_write-Exactly patch_diff repo repo' mid paths before (err x) listed taken h = cc

  with_paths-Exactly :
      (patch_diff : String) (repo repo' : Repo) (o : Result (List Text × List (Text × Text)))
      → declared outside repo patch_diff ≡ o
      → with_paths outside patch_diff o repo ≡ (ok tt, repo')
      → Exactly patch_diff repo repo'
  with_paths-Exactly patch_diff repo repo' (err x) d h = cc
  with_paths-Exactly patch_diff repo repo' (ok (paths, before)) d h =
      let (ps, listed, d1) = >>=-eq-ok (patch_paths outside repo patch_diff) _ d in
      let (s, taken, d2) = >>=-eq-ok (workspace_snapshot outside repo) _ d1 in
      let same_paths = ap (λ (x : List Text × List (Text × Text)). x.0) (ok-injective d2) in
      let same_before = ap (λ (x : List Text × List (Text × Text)). x.1) (ok-injective d2) in
      after_write-Exactly patch_diff repo repo'
        (write_patch outside (is_json_like patch_diff) patch_diff repo).1 paths before
        (write_patch outside (is_json_like patch_diff) patch_diff repo).0
        (listed ∙ ap ok same_paths) (taken ∙ ap ok same_before) h

  -- A patch that is applied without an error has changed exactly the files that it declares. Each
  -- declared path was valid in the repository, each declared file has another digest than before (or
  -- came, or went), every other path has the digest that it had, and there is no link before or after.
  pub apply_patch-Exactly :
      (patch_diff : String) (repo repo' : Repo)
      → apply_patch outside patch_diff repo ≡ (ok tt, repo')
      → Exactly patch_diff repo repo'
  unfolding apply_patch
  apply_patch-Exactly patch_diff repo repo' h = with_paths-Exactly patch_diff repo repo' _ refl h
