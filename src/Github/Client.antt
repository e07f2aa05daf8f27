-- ===== src/Github/Client.antt =====
-- GitHubIntegration of src/incidentpilot/github/integration.py: its own fields, the mock, and what an
-- attempt on GitHub comes to.
use incidentpilot.Base.{
  ℕ, String, ◌+◌, Bool, true, false, Option, none, some, List, [], ◌∷◌, ◌==◌, nat_eq, string_eq,
  if◌then◌else◌, length, Result, ok, err, Exception, http_status,
}
use incidentpilot.Base.Exec.{Exec}
use incidentpilot.Json.{str, bool, end, field}
use incidentpilot.Base.Text.{text_eq}
use incidentpilot.Sandbox.Patch.{Outside}
use incidentpilot.Tools.Gateway.{first_chars}
use incidentpilot.ApprovalResume.{PullRequest, PrRequest}
use Prim.Native.String.{◌++◌ as str_append}
use incidentpilot.Github.Remote.{Remote, Session, retryable, Opened}
use incidentpilot.Github.Create.{create_on_github}

-- The object's own fields.
pub record Integration : Type 0 where
  pub enabled : Bool
  pub requested_enabled : Bool
  pub created : List PullRequest
  pub creation_call_count : ℕ
  pub results_by_key : List (String × PullRequest)

abbrev pub result_for : String → List (String × PullRequest) → Option PullRequest
result_for key [] = none
result_for key ((k, r) ∷ rs) = if k == key then some r else result_for key rs

abbrev pub failed_result : String → String → Bool → PullRequest
failed_result branch error again = record {
  ok = false;
  mode = "real";
  pr_url = "";
  pr_number = none;
  branch = branch;
  error = some error;
  details = field "retryable" (bool again) end;
}

-- `shown` is str of a number, `hash_patch` is of sandbox/manager.py, `describe` is str(exc).
module _ (shown : ℕ → String) (hash_patch : String → String) (describe : Exception → String) where
  abbrev pub mock_result : ℕ → String → String → PullRequest
  mock_result n run_id base_commit_sha = record {
    ok = true;
    mode = "mock";
    pr_url = str_append "https://example.invalid/mock-repo/pull/" (shown n);
    pr_number = some n;
    branch = str_append "incidentpilot/" run_id;
    error = none;
    details =
        field "note" (str "dry-run; no external GitHub mutation")
          (field "base_commit_sha" (str base_commit_sha) end);
  }

  abbrev pub keep_result : String → PullRequest → Integration → Integration
  keep_result key r g = record g {
    created = r ∷ g.created;
    creation_call_count = g.creation_call_count + 1;
    results_by_key = if key == "" then g.results_by_key else (key, r) ∷ g.results_by_key;
  }

  abbrev pub mock_answer :
      PrRequest → (requested : Bool) → Option PullRequest → Integration → PullRequest × Integration
  mock_answer req requested (some r) g = (r, g)
  mock_answer req true none g = (
    record (failed_result "" "enabled GitHub integration requires token and repo" false) {
      details = end;
    },
    g,
  )
  mock_answer req false none g =
      let r = mock_result (length g.created + 1) req.run_id req.base_commit_sha in
      (r, keep_result req.idempotency_key r g)

  -- create_pull_request without GitHub
  unfoldable pub create_pull_request : PrRequest → Integration → PullRequest × Integration
  create_pull_request req g =
      mock_answer req g.requested_enabled (result_for req.idempotency_key g.results_by_key) g

  abbrev pub branch_name : PrRequest → String
  branch_name req =
      str_append "incidentpilot/"
        (str_append req.run_id (str_append "-" (first_chars 12 (hash_patch req.patch_diff))))

  -- The except block: no response body and no credential is kept.
  abbrev pub error_text : Exception → String
  error_text (http_status n) = str_append "GitHub HTTP " (shown n)
  error_text e = describe e

  abbrev pub opened_result : String → String → Opened → PullRequest
  opened_result branch base_commit_sha o = record {
    ok = true;
    mode = "real";
    pr_url = o.pull.html_url;
    pr_number = some o.pull.number;
    branch = branch;
    error = none;
    details = field "base_sha" (str base_commit_sha) (
        field "tree_sha" (str o.tree_sha)
          (field "commit_sha" (str o.commit_sha) (field "deduplicated" (bool o.deduplicated) end)));
  }

  abbrev pub real_answer : String → String → Result Opened → Integration → PullRequest × Integration
  real_answer branch base_commit_sha (ok o) g = (
    opened_result branch base_commit_sha o,
    record g {
      created = opened_result branch base_commit_sha o ∷ g.created;
      creation_call_count = g.creation_call_count + (if o.deduplicated then 0 else 1);
    },
  )
  real_answer branch base_commit_sha (err e) g =
      (failed_result branch (error_text e) (retryable e), g)

  module _ {R : Type 0} (remote : Remote R) (authorize : Option (Exec R (Unit {0})))
      (outside : Outside) where
    abbrev pub with_session :
        String
        → String
        → Integration
        → Result Opened × Session R
        → PullRequest × Integration × Session R
    with_session branch base_commit_sha g (r, s) =
        let (a, g') = real_answer branch base_commit_sha r g in (a, g', s)

    abbrev pub create_if :
        Bool → PrRequest → Integration → Session R → PullRequest × Integration × Session R
    create_if false req g s = let (a, g') = create_pull_request req g in (a, g', s)
    create_if true req g s = with_session (branch_name req) req.base_commit_sha g (
        create_on_github remote authorize outside (branch_name req) req.title req.base_commit_sha
          req.patch_diff s)

    -- acreate_pull_request
    unfoldable pub acreate_pull_request :
        PrRequest → Integration → Session R → PullRequest × Integration × Session R
    acreate_pull_request req g s = create_if g.enabled req g s
