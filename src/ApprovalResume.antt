-- ===== src/ApprovalResume.antt =====
-- resume_after_approval of src/incidentpilot/agent/approval_resume.py. The tables are the state;
-- `clock i` is the i-th reading of the clock. The GitHub call is a parameter: while it runs other
-- workers may change the tables, so it returns them.
pub mod Marking
pub mod Once
pub mod Loading
pub mod Completed
pub mod RoundTrip
use incidentpilot.Base.{
  ℕ, String, ◌+◌, ◌≡◌, Bool, true, false, ◌&&◌, ◌||◌, not, Option, none, some, List, [], ◌∷◌, ◌==◌,
  string_eq, nat_eq, if◌then◌else◌, is_just, find_where, update_where, count_where, Result, ok, err,
  value_error, connection_error, integrity_error, Exception, or_raise,
}
use incidentpilot.Base.Exec.{Exec, pure, raise, lift, gets, modify, commit, require, bind}
use Prim.Native.String.{◌++◌ as str_append}
use incidentpilot.Enums.{RunStatus, WorkflowState, ApprovalDecision, approve, reject, decision_eq}
use incidentpilot.Json.{Dict, Json, str, num, null, obj, end, field, put, flag, json_beq}
use incidentpilot.Store.{
  AgentRun, PatchArtifact, TestRun, Approval, ExternalSideEffect, EffectStatus, in_progress,
  completed, failed,
}
use incidentpilot.Jobs.{ClaimedRun}
use incidentpilot.Ownership.{fence}
use Loading.{Db, load}
use incidentpilot.Services.{Marks, mark_status}

infixl 5 ◌>>=◌ ◌>>◌
abbrev pub ◌>>=◌ : {S A B : Type 0} → Exec S A → (A → Exec S B) → Exec S B
m >>= f = bind m f

abbrev pub ◌>>◌ : {S B : Type 0} → Exec S (Unit {0}) → Exec S B → Exec S B
m >> k = bind m (λ _. k)

-- PullRequestResult of github/integration.py, as far as it is read here.
pub record PullRequest : Type 0 where
  pub ok : Bool
  pub mode : String
  pub pr_url : String
  pub pr_number : Option ℕ
  pub branch : String
  pub error : Option String
  pub details : Dict

-- What the call is given. `authorize` opens a session of its own and fences the run there, at the
-- time that it is called.
pub record PrRequest : Type 0 where
  pub run_id : String
  pub title : String
  pub body : String
  pub patch_diff : String
  pub base_commit_sha : String
  pub idempotency_key : String
  pub authorize : (now : ℕ) → Exec Db (Unit {0})

-- The returned dict: its status, and the keys that the way it ended adds.
pub data Resumed : Type 0 where
  ended : RunStatus → Resumed
  with_pull_request : RunStatus → (pull_request : Dict) → Resumed
  with_error : RunStatus → (error : Option String) → (mode : String) → Resumed

-- `d | other`, where the right side wins
abbrev merge : Dict → Dict → Dict
merge d end = d
merge d (field k v rest) = merge (put k v d) rest

abbrev shown : Option String → String
shown none = "None"
shown (some s) = s

abbrev pub pull_request_dict : PullRequest → Dict
pull_request_dict pr = field "url" (str pr.pr_url) (
    field "number" (elim pr.pr_number [ none ↦ null | some n ↦ num n ])
      (field "branch" (str pr.branch) (field "mode" (str pr.mode) end)))

abbrev pub error_or : Option String → String
error_or none = "github pr failed"
error_or (some e) = if e == "" then "github pr failed" else e

abbrev pub idempotency_key : AgentRun → PatchArtifact → String
idempotency_key run artifact =
    str_append "github_pr:" (str_append run.run_id (str_append ":" artifact.patch_hash))

abbrev pub new_effect : AgentRun → String → ExternalSideEffect
new_effect run key = record {
  run_pk = run.id;
  effect_type = "github_pull_request";
  idempotency_key = key;
  status = in_progress;
  attempt_count = 1;
  result = end;
  error = none;
}

abbrev pub same_key : String → ExternalSideEffect → Bool
same_key key e = e.idempotency_key == key

-- UNIQUE (run_pk, effect_type)
abbrev pub same_effect : AgentRun → ExternalSideEffect → Bool
same_effect run e = e.run_pk == run.id && e.effect_type == "github_pull_request"

abbrev pub reopened : ExternalSideEffect → ExternalSideEffect
reopened e = record e { status = in_progress; attempt_count = e.attempt_count + 1 }

-- The row that counts the attempt: inserted, or reopened. It commits before the call goes out.
abbrev pub open_effect :
    AgentRun
    → String
    → Option ExternalSideEffect
    → List ExternalSideEffect
    → Result (List ExternalSideEffect)
open_effect run key none es =
    if count_where (same_effect run) es == 0
    then ok (new_effect run key ∷ es)
    else err (integrity_error "ux_side_effect_run_type")
open_effect run key (some e) es = ok (update_where (same_key key) reopened es)

abbrev pub is_completed : Option ExternalSideEffect → Option Dict
is_completed none = none
is_completed (some e) = elim e.status [ completed ↦ some e.result | _ ↦ none ]

abbrev pub closed : EffectStatus → Dict → Option String → ExternalSideEffect → ExternalSideEffect
closed s result error e = record e { status = s; result = result; error = error }

abbrev pub errored : String → ExternalSideEffect → ExternalSideEffect
errored error e = record e { status = failed; error = some error }

abbrev map_ok : {A B : Type 0} → (A → B) → Result A → Result B
map_ok f (ok a) = ok (f a)
map_ok f (err e) = err e

abbrev set_runs : Db → List AgentRun → Db
set_runs db runs = record db { runs = runs }

abbrev set_effects : Db → List ExternalSideEffect → Db
set_effects db effects = record db { effects = effects }

module _ (hash_patch : String → String) (claim : Option ClaimedRun) (clock : ℕ → ℕ) where
  pub fenced : String → ℕ → Exec Db (Unit {0})
  fenced run_id i = commit (λ db. map_ok (set_runs db) (fence claim db.runs run_id (clock i)))

  pub marked : AgentRun → RunStatus → Marks → ℕ → Exec Db (Unit {0})
  marked run status m i =
      commit (λ db. map_ok (set_runs db) (mark_status claim db.runs run status m (clock i)))

  abbrev pub refreshed : AgentRun → Exec Db AgentRun
  refreshed run db =
      (or_raise (find_where (λ r. r.id == run.id) db.runs) (value_error "run row deleted"), db)

  abbrev pub plain : Option WorkflowState → Option String → Option Dict → Bool → Marks
  plain w e r finished = record {
    workflow_state = w;
    error = e;
    result = r;
    root_cause = none;
    finished = finished;
  }

  -- RESOLVED with the pull request in the run's result.
  pub resolve : AgentRun → (stored answered : Dict) → ℕ → Exec Db Resumed
  unfolding marked
  resolve run stored answered i = do
    marked run RunStatus.resolved
        (plain (some WorkflowState.resolved) none
          (some (put "pull_request" (obj stored) run.result)) true)
        i
    pure (with_pull_request RunStatus.resolved answered)

  abbrev body_of : AgentRun → PatchArtifact → String
  body_of run a = str_append "Automated fix proposal for run " (
      str_append run.run_id (
        str_append ".\n\nPatch hash: " (
          str_append a.patch_hash (
            str_append "\nBase commit: " (
              str_append a.base_commit_sha
                (str_append "\nTest run: " (str_append (shown a.test_run_id) "\n")))))))

  abbrev authorized : String → ℕ → Exec Db (Unit {0})
  authorized run_id now = commit (λ db. map_ok (set_runs db) (fence claim db.runs run_id now))

  pub request : AgentRun → PatchArtifact → PrRequest
  request run artifact = record {
    run_id = run.run_id;
    title = str_append "IncidentPilot fix for " run.run_id;
    body = body_of run artifact;
    patch_diff = artifact.patch_diff;
    base_commit_sha = artifact.base_commit_sha;
    idempotency_key = idempotency_key run artifact;
    authorize = authorized run.run_id;
  }

  -- After the call returns: the effect and the run record what became of it.
  settle_created : AgentRun → String → PullRequest → Exec Db Resumed
  unfolding resolve
  settle_created run key pr = do
    modify (λ db.
        set_effects db
          (update_where (same_key key) (closed completed (pull_request_dict pr) none) db.effects))
    resolve run (pull_request_dict pr) (merge pr.details (pull_request_dict pr)) 4

  settle_failed : AgentRun → String → PullRequest → Exec Db Resumed
  unfolding marked
  settle_failed run key pr = do
    modify (λ db.
        set_effects db (update_where (same_key key) (errored (error_or pr.error)) db.effects))
    require (not (flag "retryable" pr.details))
        (connection_error "transient GitHub failure; remote reconciliation required")
    marked run RunStatus.failed
        (plain (some WorkflowState.failed) (some (error_or pr.error)) none true) 4
    pure (with_error RunStatus.failed pr.error pr.mode)

  pub settle : AgentRun → String → PullRequest → Exec Db Resumed
  unfolding fenced settle_created settle_failed
  settle run key pr = do
    fenced run.run_id 3
    if pr.ok then settle_created run key pr else settle_failed run key pr

  -- Count the attempt, prove ownership once more, and only then call GitHub.
  pub call_out :
      (PrRequest → Exec Db PullRequest)
      → AgentRun
      → PatchArtifact
      → Option ExternalSideEffect
      → Exec Db Resumed
  unfolding fenced settle request
  call_out github run artifact effect = do
    commit (λ db.
        map_ok (set_effects db) (open_effect run (idempotency_key run artifact) effect db.effects))
    fenced run.run_id 2
    pr ← github (request run artifact)
    settle run (idempotency_key run artifact) pr

  pub approve_path : (PrRequest → Exec Db PullRequest) → AgentRun → PatchArtifact → Exec Db Resumed
  unfolding fenced marked resolve call_out
  approve_path github run artifact = do
    marked run RunStatus.running (plain (some WorkflowState.create_pull_request) none none false) 0
    current ← refreshed run
    effect ← gets (λ db. find_where (same_key (idempotency_key current artifact)) db.effects)
    fenced current.run_id 1
    elim (is_completed effect) [
      | some pull_request ↦ resolve current pull_request pull_request 2
      | none ↦ call_out github current artifact effect
    ]

  pub reject_path : AgentRun → Exec Db Resumed
  unfolding marked
  reject_path run = do
    marked run RunStatus.needs_human_intervention
        (plain (some WorkflowState.needs_human_intervention) (some "human rejected approval") none
          true)
        0
    pure (ended RunStatus.needs_human_intervention)

  pub resume_after_approval :
      (PrRequest → Exec Db PullRequest) → String → ApprovalDecision → Exec Db Resumed
  unfolding approve_path reject_path
  resume_after_approval github run_id decision = do
    (run, artifact) ← (λ db. lift (load hash_patch run_id decision db) db)
    if decision == reject then reject_path run else approve_path github run artifact
