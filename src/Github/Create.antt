-- ===== src/Github/Create.antt =====
-- The real acreate_pull_request of src/incidentpilot/github/integration.py, from its try block to the
-- pull request. `sent` is the log of what was asked and written.
use incidentpilot.Base.{
  String, Bool, true, false, ◌&&◌, not, Option, none, some, List, [], ◌∷◌, ◌==◌, nat_eq, string_eq,
  if◌then◌else◌, Result, ok, err, guard, value_error,
}
use incidentpilot.Base.Exec.{Exec}
use incidentpilot.Base.Text.{Text, text_eq, join}
use incidentpilot.Sandbox.Files.{Repo, file, same_set, changed_paths, read_text}
use incidentpilot.Sandbox.Patch.{
  Outside, valid_path, workspace_snapshot, patch_paths, is_json_like, apply_diff,
}
use incidentpilot.Github.Remote.{
  ◌>>=◌, ◌>>◌, pure, lift, Commit, TreeEntry, Pull, RefAnswer, absent, found, PullAnswer,
  unprocessable, created, Change, Remote, asked, wrote, Session, is_sha, entry_at, sorted,
  is_just_text, ref_status, Opened,
}

module _ {R : Type 0} (remote : Remote R) (authorize : Option (Exec R (Unit {0}))) where
  abbrev pub returned : {A : Type 0} → Session R → Result A × R → Result A × Session R
  returned s (r, x) = (r, record s { remote = x })

  -- A GET
  unfoldable pub reads : {A : Type 0} → Exec R A → Exec (Session R) A
  reads m s = returned s (m s.remote)

  abbrev pub sent_with : {A : Type 0} → Session R → Result A × R → Result A × Session R
  sent_with s (r, x) = (r, record { remote = x; sent = wrote ∷ s.sent })

  -- A POST
  abbrev pub writes : {A : Type 0} → Exec R A → Exec (Session R) A
  writes m s = sent_with s (m s.remote)

  abbrev pub asked_with : Session R → Result (Unit {0}) × R → Result (Unit {0}) × Session R
  asked_with s (ok u, x) = (ok u, record { remote = x; sent = asked ∷ s.sent })
  asked_with s (err e, x) = (err e, record s { remote = x })

  -- `if authorize is not None: await authorize()`
  abbrev pub authorized : Option (Exec R (Unit {0})) → Exec (Session R) (Unit {0})
  authorized none s = (ok tt, s)
  authorized (some a) s = asked_with s (a s.remote)

  unfoldable pub post : {A : Type 0} → Exec R A → Exec (Session R) A
  unfolding ◌>>=◌
  post m = authorized authorize >> writes m

  module _ (outside : Outside) (branch title base_commit_sha : String) (patch_diff : String) where
    abbrev pub blob_entry : TreeEntry → Bool
    blob_entry e = e.kind == "blob" && e.mode == "100644"

    abbrev pub fetch : Text → Option TreeEntry → Repo → Exec (Session R) Repo
    fetch p none repo = pure repo
    fetch p (some e) repo = do
      lift (guard (blob_entry e) (value_error "unsupported base file type or mode"))
      content ← reads (remote.get_blob e.sha)
      parts ← lift (valid_path outside repo p)
      pure ((join b'/' parts, file content) ∷ repo)

    -- The loop over the patch's paths.
    abbrev pub fetch_all : List TreeEntry → List Text → Repo → Exec (Session R) Repo
    fetch_all es [] repo = pure repo
    fetch_all es (p ∷ ps) repo = fetch p (entry_at p es) repo >>= fetch_all es ps

    abbrev pub local : {A : Type 0} → Result A × Repo → Result Repo
    local (ok a, repo) = ok repo
    local (err e, repo) = err e

    abbrev pub applied_repo : Repo → Result Repo
    applied_repo repo = local (apply_diff outside patch_diff (outside.check patch_diff repo) repo)

    abbrev pub upload : Text → Option Text → Exec (Session R) Change
    upload p none = pure (record { path = p; sha = none })
    upload p (some content) =
        post (remote.post_blob content) >>= (λ sha. pure (record { path = p; sha = some sha }))

    abbrev pub upload_all : Repo → List Text → Exec (Session R) (List Change)
    upload_all repo [] = pure []
    upload_all repo (p ∷ ps) =
        upload p (read_text p repo) >>= (λ c. upload_all repo ps >>= (λ cs. pure (c ∷ cs)))

    -- The patched files as a tree on top of the base's.
    unfoldable pub build_tree : Exec (Session R) String
    build_tree = do
      base ← reads remote.get_base
      lift (
          guard (base == base_commit_sha)
            (value_error "approved base commit is stale; revalidation required"))
      commit ← reads (remote.get_commit base_commit_sha)
      listing ← reads (remote.get_tree commit.tree)
      lift (guard (not listing.truncated) (value_error "base tree is truncated"))
      paths ← lift (patch_paths outside [] patch_diff)
      lift (
          guard (not (is_json_like patch_diff)) (value_error "real GitHub requires a unified diff"))
      workspace ← fetch_all listing.entries paths []
      before ← lift (workspace_snapshot outside workspace)
      patched ← lift (applied_repo workspace)
      after ← lift (workspace_snapshot outside patched)
      lift (
          guard (same_set (changed_paths before after) paths)
            (value_error "final change paths differ from approval"))
      changes ← upload_all patched (sorted paths)
      post (remote.post_tree commit.tree changes)

    -- A branch that is there is never written.
    abbrev pub ensure_branch : String → RefAnswer → Exec (Session R) String
    ensure_branch tree (found sha) = pure sha
    ensure_branch tree absent = do
      commit ← post (remote.post_commit title tree (base_commit_sha ∷ []))
      status ← post (remote.post_ref branch commit)
      lift (ref_status status)
      reads (remote.get_branch_sha branch)

    abbrev pub only_parent : List String → Bool
    only_parent (p ∷ []) = p == base_commit_sha
    only_parent _ = false

    abbrev pub is_approved : String → Commit → Bool
    is_approved tree c = c.tree == tree && only_parent c.parents

    abbrev pub requery : List Pull → Exec (Session R) (List Pull)
    requery [] = reads (remote.get_pulls branch)
    requery (p ∷ ps) = pure (p ∷ ps)

    abbrev pub matching : String → String → List Pull → Result Pull
    matching message sha [] = err (value_error message)
    matching message sha (p ∷ ps) =
        if is_just_text p.head_sha sha then ok p else err (value_error message)

    abbrev pub after_post : String → PullAnswer → Exec (Session R) Pull
    after_post sha (created p) = pure p
    after_post sha unprocessable =
        reads (remote.get_pulls branch)
        >>= (λ ps. lift (matching "PR conflict could not be reconciled" sha ps))

    abbrev pub open_pull : String → List Pull → Exec (Session R) Pull
    open_pull sha [] = post (remote.post_pull title branch) >>= after_post sha
    open_pull sha (p ∷ ps) =
        lift (matching "existing PR head differs from approved artifact" sha (p ∷ ps))

    abbrev pub is_empty : List Pull → Bool
    is_empty [] = true
    is_empty (p ∷ ps) = false

    -- The try block
    unfoldable pub create_on_github : Exec (Session R) Opened
    create_on_github = do
      lift (
          guard (is_sha base_commit_sha)
            (value_error "approved artifact has no immutable git base commit"))
      existing ← reads (remote.get_pulls branch)
      tree ← build_tree
      answer ← reads (remote.get_branch branch)
      sha ← ensure_branch tree answer
      commit ← reads (remote.get_commit sha)
      lift (
          guard (is_approved tree commit)
            (value_error "remote branch differs from approved artifact"))
      pulls ← requery existing
      pull ← open_pull sha pulls
      pure (record {
        pull = pull;
        tree_sha = tree;
        commit_sha = sha;
        deduplicated = not (is_empty pulls);
      })
