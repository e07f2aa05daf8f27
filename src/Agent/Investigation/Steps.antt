-- ===== src/Agent/Investigation/Steps.antt =====
-- The steps that collect_evidence_node of src/incidentpilot/agent/graph.py takes from the budget.
use incidentpilot.Base.{
  ℕ, zero, suc, ◌+◌, ◌≤◌, ◌≡◌, refl, string_eq, sym, subst, Bool, true, false, Option, none, some,
  arith, length, Result, ok, err,
}
use incidentpilot.Base.Exec.{continue, pure}
use incidentpilot.Json.{obj}
use incidentpilot.Enums.{contains}
use incidentpilot.Tools.Gateway.{ToolResult, Gateway, can_step}
use incidentpilot.Tools.Gateway.Budget.{Accounts, call-Accounts}
use incidentpilot.Agent.State.{Settings, ToolSelection, Action, NextAction, Decisions, Runtime}
use incidentpilot.Agent.Investigation.{Collected, stepped, readonly_tools}
use incidentpilot.Agent.Investigation.Collect.{
  collect_loop, collect_once, iterate, go_on, act, select, call_tool, choose, after_tool,
}

-- The limit on the steps and the steps taken are as before.
record Paced (g h : Gateway) : Type 0 where
  limit : h.budget.max_steps ≡ g.budget.max_steps
  taken : h.budget.step_count ≡ g.budget.step_count

unpaced : (g : Gateway) → Paced g g
unpaced g = record { limit = refl; taken = refl }

accounted-Paced :
    (n : ℕ) (g : Gateway) (p : Result ToolResult × Gateway) → Accounts n g p → Paced g p.1
accounted-Paced n g (ok r, h) a = record { limit = a.charges.steps_limit; taken = a.charges.steps }
accounted-Paced n g (err e, h) same = subst (Paced g) (sym same) (unpaced g)

module _ {A B : Type 0} where
  pure-Paced :
      (g : Gateway) (r : Result A) (f : A → B) (h : Gateway)
      → Paced g h
      → Paced g (continue r (λ a. pure (f a)) h).1
  pure-Paced g (ok a) f h k = k
  pure-Paced g (err e) f h k = k

module _ (settings : Settings) (decide : Decisions) (runtime : Runtime) where
  select-Paced :
      (o : Option ToolSelection) (c : Collected) (g : Gateway)
      → Paced g (select settings decide runtime o c g).1
  select-Paced none c g = unpaced g
  select-Paced (some t) c g =
      let p = call_tool settings decide runtime c.s c.tool_calls t g in
      let n = length c.tool_calls in
      let kept = accounted-Paced _ g p (
        call-Accounts runtime.outside (runtime.call_id n) c.s.run_id c.s.trace_id
          (runtime.registry n) t.tool_name (obj t.arguments) g) in
      pure-Paced g p.0
        (after_tool settings decide runtime (contains t.tool_name readonly_tools) c t) p.1 kept

  act-Paced :
      (x : Action) (c : Collected) (a : NextAction) (g : Gateway)
      → Paced g (act settings decide runtime x c a g).1
  act-Paced Action.form_hypothesis c a g = unpaced g
  act-Paced Action.verify_hypothesis c a g = unpaced g
  act-Paced Action.declare_root_cause c a g = unpaced g
  act-Paced Action.insufficient_evidence c a g = unpaced g
  act-Paced Action.needs_human c a g = unpaced g
  act-Paced Action.collect_evidence c a g = select-Paced a.tool_selection c g

  chosen-Paced :
      (r : Result NextAction) (c : Collected) (g : Gateway)
      → Paced g (continue r (λ a. act settings decide runtime a.action c a) g).1
  chosen-Paced (ok a) c g = act-Paced a.action c a g
  chosen-Paced (err e) c g = unpaced g

  go_on-same :
      (n m : ℕ) (r : Result (Bool × Collected)) (g : Gateway)
      → ((c : Collected)
          → collect_loop settings decide runtime n c g ≡ collect_loop settings decide runtime m c g)
      → continue r (go_on settings decide runtime (collect_loop settings decide runtime n)) g
        ≡ continue r (go_on settings decide runtime (collect_loop settings decide runtime m)) g
  go_on-same n m (err e) g h = refl
  go_on-same n m (ok (false, c)) g h = refl
  go_on-same n m (ok (true, c)) g h = h c

  spent : (g : Gateway) → g.budget.max_steps ≤ g.budget.step_count + 0 → can_step g.budget ≡ false
  spent g h = ground arith

  iterate-same :
      (b : Bool) (n m : ℕ) (c : Collected) (g : Gateway)
      → ((d : Collected) (h : Gateway)
          → h.budget.max_steps ≤ h.budget.step_count + n
          → h.budget.max_steps ≤ h.budget.step_count + m
          → collect_loop settings decide runtime n d h ≡ collect_loop settings decide runtime m d h)
      → g.budget.max_steps ≤ g.budget.step_count + suc n
      → g.budget.max_steps ≤ g.budget.step_count + suc m
      → iterate settings decide runtime b (collect_loop settings decide runtime n) c g
        ≡ iterate settings decide runtime b (collect_loop settings decide runtime m) c g
  iterate-same false n m c g rest hn hm = refl
  iterate-same true n m c g rest hn hm =
      let p = collect_once settings decide runtime c (stepped g) in
      let kept =
        chosen-Paced (choose settings decide runtime settings.evaluation_strategy c) c
          (stepped g) in
      let after_n : p.1.budget.max_steps ≤ p.1.budget.step_count + n =
        omega (arith, kept.limit, kept.taken, hn) in
      let after_m : p.1.budget.max_steps ≤ p.1.budget.step_count + m =
        omega (arith, kept.limit, kept.taken, hm) in
      go_on-same n m p.0 p.1 (λ d. rest d p.1 after_n after_m)

  -- Any two bounds on the iterations that cover the steps which the budget leaves give the same
  -- outcome: the loop ends by its own tests.
  pub collect_loop-same :
      (n m : ℕ) (c : Collected) (g : Gateway)
      → g.budget.max_steps ≤ g.budget.step_count + n
      → g.budget.max_steps ≤ g.budget.step_count + m
      → collect_loop settings decide runtime n c g ≡ collect_loop settings decide runtime m c g
  collect_loop-same zero zero c g hn hm = refl
  collect_loop-same zero (suc m) c g hn hm = rw (spent g hn) refl
  collect_loop-same (suc n) zero c g hn hm = rw (spent g hm) refl
  collect_loop-same (suc n) (suc m) c g hn hm =
      iterate-same (can_step g.budget) n m c g (λ d h. collect_loop-same n m d h) hn hm
