-- ===== src/Examples/Github.antt =====
-- A pull request on a repository with one file. The remote state counts the calls.
use incidentpilot.Base.{ℕ, String, suc, true, false, none, some, [], ◌∷◌, ok, Exception}
use incidentpilot.Base.Exec.{Exec}
use incidentpilot.Base.Text.{Text, codes}
use incidentpilot.Sandbox.Paths.{FileSystem}
use incidentpilot.Sandbox.Files.{file}
use incidentpilot.Sandbox.Patch.{Outside}
use incidentpilot.ApprovalResume.{PrRequest}
use incidentpilot.Github.Remote.{
  Remote, Session, asked, wrote, Commit, Pull, absent, created, Opened,
}
use incidentpilot.Github.Client.{Integration, acreate_pull_request}
use incidentpilot.Github.Authorized.{Paired, acreate_pull_request-Paired}
use incidentpilot.Github.Approved.{Approved}

-- Any call: it answers and is counted.
abbrev answers : {A : Type 0} → A → Exec ℕ A
answers a n = (ok a, suc n)

abbrev base : String
base = "aaaaaaaaaaaaaaaaaaaaaaaaaaaaaaaaaaaaaaaa"

abbrev commit_of : String → Commit
commit_of sha = record { tree = "t1"; parents = base ∷ [] }

abbrev pull : Pull
pull = record { html_url = "https://github.com/o/r/pull/7"; number = 7; head_sha = some "c1" }

abbrev remote : Remote ℕ
remote = record {
  get_pulls = λ branch. answers [];
  get_base = answers base;
  get_commit = λ sha. answers (commit_of sha);
  get_tree = λ sha. answers (record {
    truncated = false;
    entries = record { path = codes "app.py"; kind = "blob"; mode = "100644"; sha = "b1" } ∷ [];
  });
  get_blob = λ sha. answers (codes "a");
  get_branch = λ branch. answers absent;
  get_branch_sha = λ branch. answers "c1";
  post_blob = λ content. answers "b2";
  post_tree = λ base_tree changes. answers "t1";
  post_commit = λ message tree parents. answers "c1";
  post_ref = λ branch sha. answers 201;
  post_pull = λ title branch. answers (created pull);
}

abbrev plain_files : FileSystem
plain_files = record { is_link = λ ps. false; resolve = λ ps. some ps }

abbrev same : Text → Text
same t = t

abbrev outside : Outside
outside = record {
  lower = same;
  upper = same;
  sha256 = same;
  loads = λ s. none;
  file_system = λ repo. plain_files;
  numstat = λ s. (0, codes "1\t1\tapp.py");
  check = λ s repo. true;
  apply = λ s repo. some ((codes "app.py", file (codes "b")) ∷ []);
}

abbrev authorize : Exec ℕ (Unit {0})
authorize = answers tt

abbrev quiet : Session ℕ
quiet = record { remote = 0; sent = [] }

abbrev opened : Opened
opened = record { pull = pull; tree_sha = "t1"; commit_sha = "c1"; deduplicated = false }

-- Blob, tree, commit, branch and pull request, each authorized.
abbrev after : Session ℕ
after = record {
  remote = 19;
  sent = wrote ∷ asked ∷ wrote ∷ asked ∷ wrote ∷ asked ∷ wrote ∷ asked ∷ wrote ∷ asked ∷ [];
}

abbrev shown : ℕ → String
shown n = "7"

abbrev plain_hash : String → String
plain_hash s = s

abbrev describe : Exception → String
describe e = "refused"

abbrev request : PrRequest
request = record {
  run_id = "RUN-1";
  title = "fix";
  patch_diff = "diff";
  base_commit_sha = base;
  idempotency_key = "K1";
  body = "fix";
  authorize = λ now db. (ok tt, db);
}

abbrev integration : Integration
integration = record {
  enabled = true;
  requested_enabled = true;
  created = [];
  creation_call_count = 0;
  results_by_key = [];
}

acreate_pull_request-Paired_example :
    Paired
      (acreate_pull_request shown plain_hash describe remote
        (some authorize)
        outside
        request
        integration
        quiet).2.sent
acreate_pull_request-Paired_example =
    acreate_pull_request-Paired remote authorize shown plain_hash describe outside request
      integration quiet tt
