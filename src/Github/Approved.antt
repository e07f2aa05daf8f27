-- ===== src/Github/Approved.antt =====
-- What a pull request that src/incidentpilot/github/integration.py reports as opened rests on.
use incidentpilot.Base.{String, ◌≡◌, true, Option, List, [], ◌∷◌, string_eq, ok}
use incidentpilot.Base.Exec.{Exec}
use incidentpilot.Sandbox.Patch.{Outside}
use incidentpilot.Github.Remote.{
  Remote, Session, Commit, Pull, found, created, Opened, is_sha, is_just_text,
}
use incidentpilot.Github.Create.{reads, post, build_tree, only_parent, requery}

module _ {R : Type 0} (remote : Remote R) (authorize : Option (Exec R (Unit {0})))
    (outside : Outside) (branch title base_commit_sha patch_diff : String) where
  -- The head of the branch, as the last answer before `u`: the branch was there with this head, or it
  -- was created and read back.
  pub data BranchHead (t u : Session R) (sha : String) : Type 0 where
    there :
        reads remote authorize (remote.get_branch branch) t ≡ (ok (found sha), u)
        → BranchHead t u sha
    read_back :
        (v : Session R)
        → reads remote authorize (remote.get_branch_sha branch) v ≡ (ok sha, u)
        → BranchHead t u sha

  -- How the pull request was obtained: it is a listed one whose head is the commit, or none was listed
  -- and GitHub answered that it created this one for the branch.
  pub data Obtained (existing : List Pull) (sha : String) (u s' : Session R) (p : Pull)
      : Type 0 where
    listed : is_just_text p.head_sha sha ≡ true → Obtained existing sha u s' p
    opened :
        (v : Session R)
        → requery remote authorize outside branch title base_commit_sha patch_diff existing u
          ≡ (ok [], v)
        → post remote authorize (remote.post_pull title branch) v ≡ (ok (created p), s')
        → Obtained existing sha u s' p

  -- The way from the first question to the reported pull request, each step where the last one ended.
  pub record Approved (s s' : Session R) (o : Opened) : Type 0 where
    pub immutable_base : is_sha base_commit_sha ≡ true
    pub existing : List Pull
    pub built : Session R
    pub asked_first : reads remote authorize (remote.get_pulls branch) s ≡ (ok existing, built)
    pub built' : Session R
    pub tree_built :
        build_tree remote authorize outside branch title base_commit_sha patch_diff built
        ≡ (ok o.tree_sha, built')
    pub headed : Session R
    pub branch_head : BranchHead built' headed o.commit_sha
    pub checked : Session R
    pub commit : Commit
    pub answered :
        reads remote authorize (remote.get_commit o.commit_sha) headed ≡ (ok commit, checked)
    pub same_tree : commit.tree ≡ o.tree_sha
    pub only_parent : commit.parents ≡ base_commit_sha ∷ []
    pub obtained : Obtained existing o.commit_sha checked s' o.pull
