-- ===== src/Agent/Investigation/Collect.antt =====
-- collect_evidence_node and _call_tool of src/incidentpilot/agent/graph.py. `decide` is the decision
-- model.
use incidentpilot.Base.{
  ℕ, zero, suc, ◌-◌, Bool, true, false, Option, none, some, List, [], ◌∷◌, ◌++◌, ◌==◌, string_eq,
  nat_eq, if◌then◌else◌, leb, length, Result, ok,
}
use incidentpilot.Base.Exec.{Exec, pure, lift, bind}
use incidentpilot.Json.{str, obj}
use incidentpilot.Enums.{WorkflowState, ToolCallStatus, status_eq, call_status_eq, contains}
use incidentpilot.Tools.Gateway.{ToolResult, Gateway, can_step, call}
use incidentpilot.Agent.Evidence.{Evidence}
use incidentpilot.Agent.State.{
  Settings, Strategy, ToolSelection, Action, NextAction, AgentState, Decisions, Runtime,
  insufficient, with_human, noted,
}
use incidentpilot.Agent.Investigation.{
  readonly_tools, as_dict, get_elem?, fixed_reason, fixed_plan, source_reading, planned, stepped,
  unregistered, collected_state, empty_handed, Collected,
}

module _ (settings : Settings) (decide : Decisions) (runtime : Runtime) where
  -- _call_tool
  abbrev pub call_tool : AgentState → List ToolResult → ToolSelection → Exec Gateway ToolResult
  call_tool s calls t =
      call runtime.outside (runtime.call_id (length calls)) s.run_id s.trace_id
        (runtime.registry (length calls)) t.tool_name (obj t.arguments)

  abbrev pub observed : Collected → ToolSelection → ToolResult → Evidence
  observed c t r = record {
    evidence_id = runtime.evidence_id (length c.tool_calls);
    run_id = c.s.run_id;
    source = t.tool_name;
    source_type = runtime.source_type t.tool_name;
    tool_call_id = r.tool_call_id;
    content = runtime.dumped r.output;
    summary = t.reason;
    hash = runtime.content_hash (as_dict r.output);
    result = as_dict r.output;
  }

  abbrev pub choose : Strategy → Collected → Result NextAction
  choose Strategy.autonomous c = decide.next_action c.s c.tool_calls c.evidence
  choose Strategy.fixed c = ok (planned (get_elem? (fixed_plan c.s) (length c.tool_calls)))
  choose Strategy.direct c = ok (
      planned
        (get_elem? (fixed_plan c.s ++ source_reading fixed_reason c.s ∷ []) (length c.tool_calls)))

  abbrev pub with_call : Collected → ToolSelection → ToolResult → Collected
  with_call c t r = record c {
    tool_calls = c.tool_calls ++ r ∷ [];
    evidence =
        if r.status == ToolCallStatus.succeeded
        then c.evidence ++ observed c t r ∷ []
        else c.evidence;
  }

  -- The last test of an iteration; false leaves the loop.
  abbrev pub limited : Collected → Bool × Collected
  limited c =
      if leb settings.max_tool_calls (length c.tool_calls)
      then (false, record c { s = with_human c.s })
      else (true, c)

  abbrev pub after_tool :
      (readonly : Bool) → Collected → ToolSelection → ToolResult → Bool × Collected
  after_tool false c t r = unregistered c r
  after_tool true c t r = limited (with_call c t r)

  abbrev pub select : Option ToolSelection → Collected → Exec Gateway (Bool × Collected)
  select none c = pure (
    false,
    record c {
      s =
          noted "stop_reason" (str "model asked to collect evidence with no tool selection")
            (insufficient c.s);
    },
  )
  select (some t) c =
      bind (call_tool c.s c.tool_calls t)
        (λ r. pure (after_tool (contains t.tool_name readonly_tools) c t r))

  abbrev pub act : Action → Collected → NextAction → Exec Gateway (Bool × Collected)
  act Action.form_hypothesis c a = pure (false, c)
  act Action.verify_hypothesis c a = pure (false, c)
  act Action.declare_root_cause c a = pure (false, c)
  act Action.insufficient_evidence c a =
      pure (false, record c { s = noted "stop_reason" (str a.reason) (insufficient c.s) })
  act Action.needs_human c a =
      pure (false, record c { s = noted "stop_reason" (str a.reason) (with_human c.s) })
  act Action.collect_evidence c a = select a.tool_selection c

  -- The body of the loop, after its step was recorded.
  abbrev pub collect_once : Collected → Exec Gateway (Bool × Collected)
  collect_once c = bind (lift (choose settings.evaluation_strategy c)) (λ a. act a.action c a)

  -- False leaves the loop.
  abbrev pub go_on :
      (Collected → Exec Gateway Collected) → Bool × Collected → Exec Gateway Collected
  go_on loop (false, c) = pure c
  go_on loop (true, c) = loop c

  abbrev pub iterate :
      (affordable : Bool)
      → (Collected → Exec Gateway Collected)
      → Collected
      → Exec Gateway Collected
  iterate false loop c g = (ok c, g)
  iterate true loop c g = bind (collect_once c) (go_on loop) (stepped g)

  -- `while gateway.budget.can_step()`, at most `left` more times.
  abbrev pub collect_loop : (left : ℕ) → Collected → Exec Gateway Collected
  collect_loop zero c g = (ok c, g)
  collect_loop (suc left) c g = iterate (can_step g.budget) (collect_loop left) c g

  unfoldable pub collect_evidence_node : AgentState → Exec Gateway AgentState
  collect_evidence_node s g =
      let c : Collected = record {
        s = record s { workflow_state = WorkflowState.collect_evidence };
        tool_calls = s.tool_calls;
        evidence = s.evidence;
      } in
      bind (collect_loop (g.budget.max_steps - g.budget.step_count) c)
        (λ c' g'. (ok (empty_handed (collected_state c' g'.budget)), g')) g
