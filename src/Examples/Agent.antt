-- ===== src/Examples/Agent.antt =====
-- The investigation of a run: evidence, the verification of a hypothesis, the tests of a patch and
-- its export, and who may see the incident.
use incidentpilot.Base.{
  String, ◌≡◌, ◌≢◌, ◌↔◌, ◌≤◌, refl, true, false, none, some, List, [], ◌∷◌, In, ok, err, Exception,
  arith,
}
use incidentpilot.Json.{num, str, obj, Dict, end, field}
use incidentpilot.Enums.{RunStatus, WorkflowState, ToolCallStatus}
use incidentpilot.Store.{PatchArtifact}
use incidentpilot.Ownership.{fence}
use incidentpilot.Tools.Gateway.{Outside, returned, ToolSpec, Gateway, ToolResult}
use incidentpilot.Agent.Evidence.{Evidence, valid_evidence, acceptable}
use incidentpilot.Agent.Evidence.Valid.{Distinct, valid_evidence_sound}
use incidentpilot.Agent.State.{
  Settings, Strategy, Confidence, HypothesisStatus, Hypothesis, AgentState, Decisions, Runtime,
  Exported, AttemptStatus, Action,
}
use incidentpilot.Agent.Investigation.{Collected}
use incidentpilot.Agent.Investigation.Collect.{collect_loop}
use incidentpilot.Agent.Investigation.Verify.{verify_hypothesis_node}
use incidentpilot.Agent.Investigation.Steps.{collect_loop-same}
use incidentpilot.Agent.Investigation.Grounds.{Sound, verify_hypothesis_node-Sound}
use incidentpilot.Agent.Patching.{Sandbox}
use incidentpilot.Agent.Persisted.{
  new_artifact, persist_patch_artifact_once, persist_patch_artifact_once-twice,
}
use incidentpilot.Agent.Reasoning.{verify_hypothesis, bindings_valid}
use incidentpilot.Agent.Reasoning.Bindings.{Within, NoRepeats, verify_hypothesis-bound_iff}
use incidentpilot.Base.{length}
use incidentpilot.Examples.Data.{leased_run, lease_claim}

abbrev hash_of : Dict → String
hash_of d = elim d [ end ↦ "" | field k v rest ↦ k ]

abbrev outside : Outside
outside = record {
  secret_field = λ k. false;
  scrub = λ s. s;
  dump_length = λ v. 20;
  shown = λ xs. "";
  shown_sorted = λ xs. "";
  decimal = λ n. "30";
  describe = λ e. "failed";
  elapsed = λ n. n;
}

abbrev metrics_call : ToolResult
metrics_call = record {
  tool_call_id = "TC-1";
  tool_name = "read_metrics";
  status = ToolCallStatus.succeeded;
  output = obj (field "latency" (num 9) end);
  error = none;
  latency_ms = 1;
  input = obj end;
  attempt_count = 1;
  error_category = none;
  trace_id = "T1";
}

abbrev metrics_item : Evidence
metrics_item = record {
  evidence_id = "EV-1";
  run_id = "RUN-1";
  source = "read_metrics";
  source_type = "metrics";
  tool_call_id = "TC-1";
  content = "";
  summary = "high latency";
  hash = "latency";
  result = field "latency" (num 9) end;
}

abbrev repeated_item : Evidence
repeated_item = record metrics_item { evidence_id = "EV-2" }

valid_evidence_sound_example :
    let kept =
      valid_evidence hash_of (metrics_item ∷ repeated_item ∷ []) (metrics_call ∷ []) "RUN-1" in
    Distinct hash_of (metrics_call ∷ []) "RUN-1" [] kept
    × ((item : Evidence) → In item kept → In item (metrics_item ∷ repeated_item ∷ []))
    × ((item : Evidence)
        → In item (metrics_item ∷ repeated_item ∷ [])
        → acceptable hash_of (metrics_call ∷ []) "RUN-1" item ≡ true
        → (other : Evidence) × In other kept × (hash_of other.result ≡ hash_of item.result))
    × (valid_evidence hash_of kept (metrics_call ∷ []) "RUN-1" ≡ kept)
valid_evidence_sound_example =
    valid_evidence_sound hash_of (metrics_call ∷ []) "RUN-1" (metrics_item ∷ repeated_item ∷ [])

abbrev settings : Settings
settings = record {
  evaluation_strategy = Strategy.autonomous;
  investigation_only = false;
  max_tool_calls = 8;
  max_patch_attempts = 3;
}

abbrev proposal : Hypothesis
proposal = record {
  statement = "N+1 query";
  evidence_ids = "EV-1" ∷ [];
  confidence = Confidence.high;
  status = HypothesisStatus.open_;
  verified = false;
  verification_notes = "";
}

abbrev source_tool : ToolSpec
source_tool = record {
  name = "read_source_code";
  category = "readonly_external";
  handler = λ n d. returned (obj (field "content" (str "for order in orders") end));
  timeout_seconds = 30;
  max_retries = 1;
  input_schema = record { required = []; properties = []; closed = false };
}

abbrev decisions : Decisions
decisions = record {
  deterministic = false;
  next_action = λ s calls evidence. ok (record {
    action = Action.collect_evidence;
    tool_selection =
        some (record { tool_name = "read_source_code"; reason = "look"; arguments = end });
    reason = "";
  });
  propose_hypothesis = λ s evidence. ok proposal;
  direct_conclusion = λ s evidence. err (Exception.other "unused");
  verification_action = λ s evidence h. ok (record {
    tool_name = "read_source_code";
    reason = "look at the loop";
    arguments = field "path" (str "app.py") end;
  });
  verify = λ h evidence. ok (record { hypothesis_supported = true; notes = "" });
  conclude = λ s h evidence. ok (record {
    statement = "N+1 query";
    fault_category = "database_performance";
    affected_component = "orders";
    causal_facts = [];
    supporting_evidence_ids = "EV-1" ∷ "EV-9" ∷ [];
    confidence = Confidence.high;
  });
}

abbrev runtime : Runtime
runtime = record {
  outside = outside;
  registry = λ n. ("read_source_code", source_tool) ∷ [];
  call_id = λ n. "TC-9";
  evidence_id = λ n. "EV-9";
  dumped = λ v. "";
  printed = λ v. "";
  content_hash = hash_of;
  source_type = λ s. s;
}

abbrev verifying : AgentState
verifying = record {
  run_id = "RUN-1";
  service = "orders";
  repository = "orders_api";
  workflow_state = WorkflowState.form_hypothesis;
  evidence = metrics_item ∷ [];
  hypotheses = proposal ∷ [];
  root_cause = none;
  tool_calls = metrics_call ∷ [];
  patch_attempts = [];
  patch_artifact = none;
  approval_required = false;
  status = RunStatus.running;
  error = none;
  result = end;
  trace_id = "T1";
}

abbrev gateway : Gateway
gateway = record {
  budget = record { max_tool_calls = 8; max_steps = 5; tool_call_count = 1; step_count = 1 };
  audit_log = [];
}

verify_hypothesis_node-Sound_example :
    Sound settings decisions runtime
      (verify_hypothesis_node settings decisions runtime verifying gateway)
verify_hypothesis_node-Sound_example =
    verify_hypothesis_node-Sound settings decisions runtime verifying gateway refl

abbrev collecting : Collected
collecting = record {
  s = verifying;
  tool_calls = verifying.tool_calls;
  evidence = verifying.evidence;
}

collect_loop-same_example :
    collect_loop settings decisions runtime 4 collecting gateway
    ≡ collect_loop settings decisions runtime 9 collecting gateway
collect_loop-same_example =
    collect_loop-same settings decisions runtime 4 9 collecting gateway (omega arith) (omega arith)

abbrev sandbox : Sandbox
sandbox = record {
  source = "reference/orders_api";
  create_workspace = λ s. ok tt;
  base_commit_sha = λ s. "b0";
  apply_patch = λ s p. ok tt;
  run_tests = λ s. ok (record { passed = true; exit_code = 0; mode = "docker" });
  test_run_id = λ s. "TR-1";
  test_scope = "healthy-regression-only";
  propose_patch = λ s. ok "diff";
  export_patch = λ s base patch test. record {
    patch_artifact_id = "";
    patch_hash = patch;
    base_commit_sha = base;
    patch_diff = patch;
    test_run_id = test;
  };
  persist_once = λ e. ok "PA-1";
  describe = λ e. "failed";
}

abbrev patched : AgentState
patched = record verifying {
  patch_attempts =
      record {
        attempt = 1;
        summary = "N+1 query";
        patch_diff = "diff";
        status = AttemptStatus.applied;
        base_commit_sha = some "b0";
        test_run_id = none;
        test_ok = false;
        reflection = "";
        error = none;
      }
      ∷ [];
}

abbrev first_export : Exported
first_export = record {
  patch_artifact_id = "PA-1";
  patch_hash = "diff";
  base_commit_sha = "b0";
  patch_diff = "diff";
  test_run_id = "TR-1";
}

abbrev second_export : Exported
second_export = record first_export { patch_artifact_id = "PA-2" }

abbrev stored : List PatchArtifact
stored = new_artifact leased_run first_export ∷ []

persist_patch_artifact_once-twice_example :
    persist_patch_artifact_once (some lease_claim) (leased_run ∷ []) stored "RUN-1" second_export 60
    ≡ ok ("PA-1", stored)
unfolding persist_patch_artifact_once fence
persist_patch_artifact_once-twice_example =
    persist_patch_artifact_once-twice (some lease_claim) (leased_run ∷ []) [] "RUN-1" first_export
      second_export 50 60 leased_run "PA-1" stored (leased_run ∷ []) refl refl refl refl refl

abbrev cited : List String
cited = "EV-1" ∷ "EV-9" ∷ []

abbrev known : List String
known = "EV-9" ∷ "EV-1" ∷ []

verify_hypothesis-bound_iff_example : (verify_hypothesis cited known 2 ≡ bindings_valid) ↔ (
    (cited ≢ [])
    × Within cited known
    × (ds : List String) × NoRepeats ds
    × Within ds cited
    × (2 ≤ length ds))
verify_hypothesis-bound_iff_example = verify_hypothesis-bound_iff cited known 2
