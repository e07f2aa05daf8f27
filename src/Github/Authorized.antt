-- ===== src/Github/Authorized.antt =====
-- No write of src/incidentpilot/github/integration.py reaches GitHub unauthorized.
use incidentpilot.Base.{
  ℕ, String, Bool, true, false, Option, none, some, List, [], ◌∷◌, string_eq, Result, ok, err,
  Exception,
}
use incidentpilot.Base.Exec.{Exec, continue}
use incidentpilot.Base.Text.{Text}
use incidentpilot.Sandbox.Files.{Repo, read_text}
use incidentpilot.Sandbox.Patch.{Outside}
use incidentpilot.ApprovalResume.{PrRequest}
use incidentpilot.Github.Remote.{
  ◌>>=◌, pure, lift, sorted, Remote, Session, Event, asked, wrote, TreeEntry, RefAnswer, absent,
  found, Pull, PullAnswer, unprocessable, created, entry_at,
}
use incidentpilot.Github.Client.{Integration, create_if, acreate_pull_request}
use incidentpilot.Github.Create.{
  reads, writes, asked_with, post, fetch, fetch_all, upload, upload_all, build_tree, ensure_branch,
  requery, after_post, open_pull, create_on_github,
}

-- Each write stands directly after an authorization of its own; the newest event is first.
abbrev pub Paired : List Event → Type 0
Paired [] = Unit
Paired (asked ∷ es) = Paired es
Paired (wrote ∷ asked ∷ es) = Paired es
Paired (wrote ∷ []) = ⊥
Paired (wrote ∷ wrote ∷ es) = ⊥

module _ {R : Type 0} (remote : Remote R) (a : Exec R (Unit {0})) where
  pub record Keeps {A : Type 0} (m : Exec (Session R) A) : Type 0 where
    pub paired : (s : Session R) → Paired s.sent → Paired (m s).1.sent

  continue-Keeps :
      {A B : Type 0} (f : A → Exec (Session R) B) (r : Result A) (s : Session R)
      → ((x : A) → Keeps (f x))
      → Paired s.sent
      → Paired (continue r f s).1.sent
  continue-Keeps f (ok x) s k p = (k x).paired s p
  continue-Keeps f (err e) s k p = p

  bind-Keeps :
      {A B : Type 0} (m : Exec (Session R) A) (f : A → Exec (Session R) B)
      → Keeps m
      → ((x : A) → Keeps (f x))
      → Keeps (m >>= f)
  unfolding ◌>>=◌
  bind-Keeps m f k h = record { paired = λ s p. continue-Keeps f (m s).0 (m s).1 h (k.paired s p) }

  lift-Keeps : {A : Type 0} (r : Result A) → Keeps (lift r)
  unfolding lift
  lift-Keeps r = record { paired = λ s p. p }

  pure-Keeps : {A : Type 0} (x : A) → Keeps (pure x)
  unfolding pure
  pure-Keeps x = record { paired = λ s p. p }

  reads-Keeps : {A : Type 0} (m : Exec R A) → Keeps (reads remote (some a) m)
  unfolding reads
  reads-Keeps m = record { paired = λ s p. p }

  after_asking :
      {A : Type 0} (m : Exec R A) (s : Session R) (o : Result (Unit {0}) × R)
      → Paired s.sent
      → Paired
          (continue
            (asked_with remote (some a) s o).0
            (λ done. writes remote (some a) m)
            (asked_with remote (some a) s o).1).1.sent
  after_asking m s (ok _, x) p = p
  after_asking m s (err e, x) p = p

  post-Keeps : {A : Type 0} (m : Exec R A) → Keeps (post remote (some a) m)
  unfolding post
  post-Keeps m = record { paired = λ s p. after_asking m s (a s.remote) p }

  module _ (outside : Outside) (branch title base_commit_sha patch_diff : String) where
    fetch-Keeps :
        (p : Text) (o : Option TreeEntry) (repo : Repo)
        → Keeps (fetch remote (some a) outside branch title base_commit_sha patch_diff p o repo)
    fetch-Keeps p none repo = pure-Keeps repo
    fetch-Keeps p (some e) repo = bind-Keeps _ _ (lift-Keeps _) (λ done.
        bind-Keeps _ _ (reads-Keeps _)
          (λ content. bind-Keeps _ _ (lift-Keeps _) (λ parts. pure-Keeps _)))

    fetch_all-Keeps :
        (es : List TreeEntry) (ps : List Text) (repo : Repo)
        → Keeps
            (fetch_all remote (some a) outside branch title base_commit_sha patch_diff es ps repo)
    fetch_all-Keeps es [] repo = pure-Keeps repo
    fetch_all-Keeps es (p ∷ ps) repo =
        bind-Keeps _ _ (fetch-Keeps p (entry_at p es) repo) (fetch_all-Keeps es ps)

    upload-Keeps :
        (p : Text) (o : Option Text)
        → Keeps (upload remote (some a) outside branch title base_commit_sha patch_diff p o)
    upload-Keeps p none = pure-Keeps _
    upload-Keeps p (some content) = bind-Keeps _ _ (post-Keeps _) (λ sha. pure-Keeps _)

    upload_all-Keeps :
        (repo : Repo) (ps : List Text)
        → Keeps (upload_all remote (some a) outside branch title base_commit_sha patch_diff repo ps)
    upload_all-Keeps repo [] = pure-Keeps _
    upload_all-Keeps repo (p ∷ ps) =
        bind-Keeps _ _ (upload-Keeps p (read_text p repo))
          (λ c. bind-Keeps _ _ (upload_all-Keeps repo ps) (λ cs. pure-Keeps _))

    build_tree-Keeps :
        Keeps (build_tree remote (some a) outside branch title base_commit_sha patch_diff)
    unfolding build_tree
    build_tree-Keeps = bind-Keeps _ _ (reads-Keeps _) (λ base.
        bind-Keeps _ _ (lift-Keeps _) (λ fresh. bind-Keeps _ _ (reads-Keeps _) (λ commit.
          bind-Keeps _ _ (reads-Keeps _) (λ listing. bind-Keeps _ _ (lift-Keeps _) (λ whole.
            bind-Keeps _ _ (lift-Keeps _) (λ paths. bind-Keeps _ _ (lift-Keeps _) (λ unified.
              bind-Keeps _ _ (fetch_all-Keeps listing.entries paths []) (λ workspace.
                bind-Keeps _ _ (lift-Keeps _) (λ before. bind-Keeps _ _ (lift-Keeps _) (λ patched.
                  bind-Keeps _ _ (lift-Keeps _) (λ after. bind-Keeps _ _ (lift-Keeps _) (λ exact.
                    bind-Keeps _ _ (upload_all-Keeps patched (sorted paths))
                      (λ changes. post-Keeps _)))))))))))))

    ensure_branch-Keeps :
        (tree : String) (o : RefAnswer)
        → Keeps
            (ensure_branch remote (some a) outside branch title base_commit_sha patch_diff tree o)
    ensure_branch-Keeps tree (found sha) = pure-Keeps sha
    ensure_branch-Keeps tree absent = bind-Keeps _ _ (post-Keeps _) (λ commit.
        bind-Keeps _ _ (post-Keeps _)
          (λ status. bind-Keeps _ _ (lift-Keeps _) (λ done. reads-Keeps _)))

    requery-Keeps :
        (ps : List Pull)
        → Keeps (requery remote (some a) outside branch title base_commit_sha patch_diff ps)
    requery-Keeps [] = reads-Keeps _
    requery-Keeps (p ∷ ps) = pure-Keeps _

    after_post-Keeps :
        (sha : String) (o : PullAnswer)
        → Keeps (after_post remote (some a) outside branch title base_commit_sha patch_diff sha o)
    after_post-Keeps sha (created p) = pure-Keeps p
    after_post-Keeps sha unprocessable = bind-Keeps _ _ (reads-Keeps _) (λ ps. lift-Keeps _)

    open_pull-Keeps :
        (sha : String) (ps : List Pull)
        → Keeps (open_pull remote (some a) outside branch title base_commit_sha patch_diff sha ps)
    open_pull-Keeps sha [] = bind-Keeps _ _ (post-Keeps _) (after_post-Keeps sha)
    open_pull-Keeps sha (p ∷ ps) = lift-Keeps _

    create_on_github-Keeps :
        Keeps (create_on_github remote (some a) outside branch title base_commit_sha patch_diff)
    unfolding create_on_github
    create_on_github-Keeps = bind-Keeps _ _ (lift-Keeps _) (λ immutable.
        bind-Keeps _ _ (reads-Keeps _) (λ existing. bind-Keeps _ _ build_tree-Keeps (λ tree.
          bind-Keeps _ _ (reads-Keeps _) (λ answer.
            bind-Keeps _ _ (ensure_branch-Keeps tree answer) (λ sha.
              bind-Keeps _ _ (reads-Keeps _) (λ commit. bind-Keeps _ _ (lift-Keeps _) (λ approved.
                bind-Keeps _ _ (requery-Keeps existing) (λ pulls.
                  bind-Keeps _ _ (open_pull-Keeps sha pulls) (λ pull. pure-Keeps _)))))))))

  module _ (shown : ℕ → String) (hash_patch : String → String) (describe : Exception → String)
      (outside : Outside) where
    create_if-Paired :
        (b : Bool) (req : PrRequest) (g : Integration) (s : Session R)
        → Paired s.sent
        → Paired (create_if shown hash_patch describe remote (some a) outside b req g s).2.sent
    create_if-Paired false req g s p = p
    create_if-Paired true req g s p = (create_on_github-Keeps outside _ _ _ _).paired s p

    -- With an authorization to ask, every blob, tree, commit, branch and pull request that is sent to
    -- GitHub is sent directly after an authorization of its own that passed, whatever GitHub answers,
    -- whatever other clients do to the repository meanwhile, and wherever the call fails.
    pub acreate_pull_request-Paired :
        (req : PrRequest) (g : Integration) (s : Session R)
        → Paired s.sent
        → Paired
            (acreate_pull_request shown hash_patch describe remote (some a) outside req g s).2.sent
    unfolding acreate_pull_request
    acreate_pull_request-Paired req g s p = create_if-Paired g.enabled req g s p
