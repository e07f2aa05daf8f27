-- ===== src/Agent/Patching.antt =====
-- The nodes create_sandbox_node_r, generate_patch_node_r, run_tests_node_r, reflect_node,
-- export_artifact_node_r and needs_human_node of src/incidentpilot/agent/graph.py, ensure_workspace
-- and the routes between them. The sandbox manager, the patch model and the persistence of the
-- artifact do input and output: they are parameters, as they answer in a state of the graph. Of the
-- columns of a test, a patch attempt has its identifier, its verdict and its base commit.
pub mod Tested
use incidentpilot.Base.{
  ℕ, String, ◌+◌, ◌≡◌, Bool, true, false, ◌&&◌, ◌||◌, not, Option, none, some, List, [], ◌∷◌, ◌++◌,
  ◌==◌, string_eq, nat_eq, if◌then◌else◌, ltb, is_null, is_just, length, Result, ok, err, Exception,
  value_error,
}
use incidentpilot.Base.Exec.{Exec, pure, raise, lift, bind}
use incidentpilot.Json.{Json, num, str, obj, Dict, field, put, get}
use incidentpilot.Enums.{RunStatus, WorkflowState, status_eq}
use incidentpilot.Agent.State.{
  Settings, PatchAttempt, AttemptStatus, Exported, AgentState, RootCause, stopped, with_human,
  noted,
}
use incidentpilot.Agent.Investigation.{last?, replace_last, Node}
use Prim.Native.String.{◌++◌ as ◌concat◌}

-- runtime[run_id]: whether a manager is held, and test_ok.
pub record Session : Type 0 where
  pub manager : Bool
  pub test_ok : Bool

pub record TestOutcome : Type 0 where
  pub passed : Bool
  pub exit_code : ℕ
  pub mode : String

pub record Sandbox : Type 0 where
  pub source : String
  pub create_workspace : AgentState → Result (Unit {0})
  pub base_commit_sha : AgentState → String
  pub apply_patch : AgentState → String → Result (Unit {0})
  pub run_tests : AgentState → Result TestOutcome
  pub test_run_id : AgentState → String
  pub test_scope : String
  pub propose_patch : AgentState → Result String
  pub export_patch : AgentState → (base patch test : String) → Exported
  pub persist_once : Exported → Result String
  pub describe : Exception → String

abbrev pub failed_with : String → AgentState → AgentState
failed_with message s = record s { status = RunStatus.failed; error = some message }

abbrev pub at : WorkflowState → AgentState → AgentState
at w s = record s { workflow_state = w }

abbrev pub new_attempt : AgentState → PatchAttempt
new_attempt s = record {
  attempt = length s.patch_attempts + 1;
  summary = elim s.root_cause [ none ↦ "regression" | some rc ↦ rc.summary ];
  patch_diff = "";
  status = AttemptStatus.created;
  base_commit_sha = none;
  test_run_id = none;
  test_ok = false;
  reflection = "";
  error = none;
}

abbrev pub with_last : (PatchAttempt → PatchAttempt) → AgentState → Option PatchAttempt → AgentState
with_last f s none = s
with_last f s (some a) = record s { patch_attempts = replace_last (f a) s.patch_attempts }

abbrev pub update_last : (PatchAttempt → PatchAttempt) → AgentState → AgentState
update_last f s = with_last f s (last? s.patch_attempts)

abbrev pub reflect_node : AgentState → AgentState
reflect_node s =
    update_last (λ a. record a { reflection = "tests failed; retry with simplified patch" })
      (at WorkflowState.reflect s)

abbrev pub needs_human_node : AgentState → AgentState
needs_human_node = with_human

module _ (settings : Settings) (sandbox : Sandbox) where
  abbrev pub created_workspace : AgentState → Result (Unit {0}) → AgentState
  created_workspace s (ok u) = noted "sandbox_source" (str sandbox.source) s
  created_workspace s (err e) =
      at WorkflowState.failed (failed_with ("sandbox create failed: " concat sandbox.describe e) s)

  abbrev pub create_sandbox_node : AgentState → Exec Session AgentState
  create_sandbox_node s session =
      let s1 = at WorkflowState.create_sandbox s in
      elim s.root_cause [
        | none ↦ (ok (record s1 { status = RunStatus.insufficient_evidence }), session)
        | some rc ↦ (
          ok (created_workspace s1 (sandbox.create_workspace s1)),
          record { manager = true; test_ok = false },
        )
      ]

  -- The patch of the last attempt is applied again in a fresh workspace.
  abbrev pub replay_last : AgentState → Option PatchAttempt → Result (Unit {0})
  replay_last s none = ok tt
  replay_last s (some a) =
      if a.patch_diff == ""
      then ok tt
      else if is_just a.base_commit_sha (sandbox.base_commit_sha s)
      then sandbox.apply_patch s a.patch_diff
      else err (value_error "checkpoint patch base changed; revalidation required")

  abbrev pub replayed : (replay : Bool) → AgentState → Result (Bool × AgentState)
  replayed false s = ok (true, s)
  replayed true s = elim (replay_last s (last? s.patch_attempts)) [
    | ok u ↦ ok (true, s)
    | err e ↦ err e
  ]

  -- True beside the state when there is a manager.
  abbrev pub ensure_workspace : (replay : Bool) → AgentState → Exec Session (Bool × AgentState)
  ensure_workspace replay s session = elim session.manager [
    | true ↦ (ok (true, s), session)
    | false ↦
        bind (create_sandbox_node s)
          (λ s' session'. elim (s'.status == RunStatus.running) [
            | false ↦ (ok (false, s'), session')
            | true ↦ (replayed replay s', session')
          ])
          session
  ]

  abbrev pub applied_patch : AgentState → String → Result (Unit {0}) → AgentState
  applied_patch s patch (ok u) =
      update_last
        (λ a. record a {
          patch_diff = patch;
          status = AttemptStatus.applied;
          base_commit_sha = some (sandbox.base_commit_sha s);
        })
        s
  applied_patch s patch (err e) = failed_with ("apply patch failed: " concat sandbox.describe e) (
      update_last
        (λ a. record a { status = AttemptStatus.apply_failed; error = some (sandbox.describe e) })
        s)

  abbrev pub write_patch : AgentState → Result AgentState
  write_patch s = elim (sandbox.propose_patch s) [
    | err e ↦ err e
    | ok patch ↦ ok (applied_patch s patch (sandbox.apply_patch s patch))
  ]

  -- With a manager: the attempt is counted before the limit is tested.
  abbrev pub attempt_patch : AgentState → Result AgentState
  attempt_patch s =
      let s1 = record s { patch_attempts = s.patch_attempts ++ new_attempt s ∷ [] } in
      if ltb settings.max_patch_attempts (length s1.patch_attempts)
      then ok (record (with_human s1) { error = some "max patch attempts exceeded" })
      else write_patch s1

  abbrev pub same_base : AgentState → List PatchAttempt → Bool
  same_base s [] = true
  same_base s (a ∷ as') = is_just a.base_commit_sha (sandbox.base_commit_sha s)

  abbrev pub with_manager : Bool × AgentState → Result AgentState
  with_manager (false, s) = ok (failed_with "sandbox manager missing" s)
  with_manager (true, s) =
      if same_base s s.patch_attempts
      then attempt_patch s
      else err (value_error "base changed between patch attempts")

  -- The old workspace is given up before another attempt.
  abbrev pub given_up : AgentState → Session → Session
  given_up s session = elim s.patch_attempts [
    | [] ↦ session
    | _ ∷ _ ↦ record { manager = false; test_ok = false }
  ]

  unfoldable pub generate_patch_node : AgentState → Exec Session AgentState
  generate_patch_node s session =
      let s1 = at WorkflowState.generate_patch s in
      bind (ensure_workspace false s1) (λ p. lift (with_manager p)) (given_up s1 session)

  abbrev pub test_status : Bool → String
  test_status passed = if passed then "PASSED" else "FAILED"

  abbrev pub test_columns : AgentState → TestOutcome → PatchAttempt → PatchAttempt
  test_columns s t a = record a {
    test_run_id = some (sandbox.test_run_id s);
    test_ok = t.passed;
    base_commit_sha = some (sandbox.base_commit_sha s);
    status = if t.passed then AttemptStatus.tests_passed else AttemptStatus.tests_failed;
  }

  abbrev pub test_results : AgentState → TestOutcome → Dict → Dict
  test_results s t d = put "test_exit_code" (num t.exit_code) (
      put "test_scope" (str sandbox.test_scope) (
        put "test_mode" (str t.mode) (
          put "test_status" (str (test_status t.passed))
            (put "test_run_id" (str (sandbox.test_run_id s)) d))))

  abbrev pub tested : AgentState → TestOutcome → AgentState
  tested s t =
      let s1 = update_last (test_columns s t) s in record s1 { result = test_results s t s1.result }

  abbrev pub test_run : AgentState → Result TestOutcome → Exec Session AgentState
  test_run s (err e) session =
      (ok (failed_with ("run tests failed: " concat sandbox.describe e) s), session)
  test_run s (ok t) session = (ok (tested s t), record session { test_ok = t.passed })

  abbrev pub run_in : Bool × AgentState → Exec Session AgentState
  run_in (false, s) session = (ok (record s { status = RunStatus.failed }), session)
  run_in (true, s) session = test_run s (sandbox.run_tests s) session

  unfoldable pub run_tests_node : AgentState → Exec Session AgentState
  run_tests_node s = bind (ensure_workspace true (at WorkflowState.run_tests s)) run_in

  abbrev pub route_after_tests : AgentState → Session → Node
  route_after_tests s session =
      if not (s.status == RunStatus.running)
      then Node.finished
      else if session.test_ok
      then Node.export_patch_artifact
      else if ltb (length s.patch_attempts) settings.max_patch_attempts
      then Node.reflect
      else Node.needs_human

  abbrev pub last_diff : AgentState → String
  last_diff s = elim (last? s.patch_attempts) [ none ↦ "" | some a ↦ a.patch_diff ]

  abbrev pub text_at : String → Dict → String
  text_at k d = elim (get k d) [ some (str t) ↦ t | _ ↦ "" ]

  abbrev pub awaiting : AgentState → Exported → String → AgentState
  awaiting s e id = record (stopped RunStatus.waiting_approval WorkflowState.wait_for_approval s) {
    patch_artifact = some (record e { patch_artifact_id = id });
    approval_required = true;
    result = put "patch_hash" (str e.patch_hash) (put "patch_artifact_id" (str id) s.result);
  }

  abbrev pub exported : AgentState → Result AgentState
  exported s =
      let e =
        sandbox.export_patch s (sandbox.base_commit_sha s) (last_diff s)
          (text_at "test_run_id" s.result) in
      elim (sandbox.persist_once e) [ err x ↦ err x | ok id ↦ ok (awaiting s e id) ]

  abbrev pub abandoned : AgentState → AgentState
  abandoned = stopped RunStatus.failed WorkflowState.failed

  -- After the tests that a lost workspace makes necessary.
  abbrev pub retested : AgentState → Exec Session AgentState
  retested s session =
      if s.status == RunStatus.running && session.test_ok
      then (
        if session.manager then exported s else ok (record s { status = RunStatus.failed }),
        session,
      )
      else (ok (abandoned s), session)

  unfoldable pub export_artifact_node : AgentState → Exec Session AgentState
  export_artifact_node s session =
      let s1 = at WorkflowState.export_patch_artifact s in
      elim session.manager [
        | true ↦ (exported s1, session)
        | false ↦ bind (run_tests_node s1) retested session
      ]

abbrev pub route_after_create : AgentState → Node
route_after_create s = if s.status == RunStatus.running then Node.generate_patch else Node.finished

abbrev pub was_applied : Option PatchAttempt → Bool
was_applied none = false
was_applied (some a) = elim a.status [ AttemptStatus.applied ↦ true | _ ↦ false ]

abbrev pub route_after_generate : AgentState → Node
route_after_generate s =
    if s.status == RunStatus.running && was_applied (last? s.patch_attempts)
    then Node.run_tests
    else Node.needs_human
