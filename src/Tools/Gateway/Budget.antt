-- ===== src/Tools/Gateway/Budget.antt =====
-- The tool budget, the retries and the audit log under ToolGateway.call of
-- src/incidentpilot/tools/gateway.py.
use incidentpilot.Base.{
  ℕ, zero, suc, String, ◌+◌, ◌-◌, ◌≤◌, ◌≡◌, refl, sym, subst, ap, ◌∙◌, Bool, true, false, Option,
  none, some, List, [], ◌∷◌, inl, inr, arith, ltb→lt, Bool-cases, Result, Result-cases, ok, err,
  length, Exception, value_error, type_error, runtime_error, permission_error, lost_lease,
  approval_conflict, integrity_error, structured_output_error, timeout_error, connection_error,
  http_timeout, http_network, http_status, other,
}
use incidentpilot.Json.{Json, Dict, obj}
use incidentpilot.Tools.Input.{lookup}
use incidentpilot.Tools.Gateway.{
  Outside, Registry, ToolSpec, ToolResult, Gateway, BudgetTracker, Ending, succeeded, gave_up,
  charged, attempts, finish, call, call_tool, dispatch, run_validated, try_once, retryable,
  failure_of, can_call_tool, drop, newest_1000, audit, redacted,
}
use mathlib.Core.List.{◌++◌}

length-drop : {A : Type 0} (n : ℕ) (xs : List A) → length (drop n xs) ≡ length xs - n
length-drop zero xs = omega arith
length-drop (suc n) [] = omega arith
length-drop (suc n) (x ∷ xs) = omega (arith, length-drop n xs)

pub newest_1000-bound : (xs : List Json) → length (newest_1000 xs) ≤ 1000
newest_1000-bound xs = omega (arith, length-drop (length xs - 1000) xs)

abbrev pub executed_of : Ending → ℕ
executed_of (succeeded d executed attempt) = executed
executed_of (gave_up f executed attempt) = executed

-- The limits stand, `n` calls were charged, and the count did not pass the limit.
pub record Charged (n : ℕ) (b c : BudgetTracker) : Type 0 where
  pub calls_limit : c.max_tool_calls ≡ b.max_tool_calls
  pub steps_limit : c.max_steps ≡ b.max_steps
  pub steps : c.step_count ≡ b.step_count
  pub calls : c.tool_call_count ≡ b.tool_call_count + n
  pub within : b.tool_call_count ≤ b.max_tool_calls → c.tool_call_count ≤ c.max_tool_calls

uncharged : (b : BudgetTracker) → Charged 0 b b
uncharged b = record {
  calls_limit = refl;
  steps_limit = refl;
  steps = refl;
  calls = omega arith;
  within = λ h. h;
}

-- The loop charged all its attempts but the first, at most one for each further iteration.
record Looped (left executed : ℕ) (g : Gateway) (e : Ending) (g' : Gateway) : Type 0 where
  more : ℕ
  counted : executed_of e ≡ executed + 1 + more
  bounded : more ≤ left
  spent : Charged more g.budget g'.budget

stopped :
    (left executed : ℕ) (g : Gateway) (e : Ending) (g' : Gateway)
    → executed_of e ≡ executed + 1
    → g'.budget ≡ g.budget
    → Looped left executed g e g'
stopped left executed g e g' h same = record {
  more = 0;
  counted = omega arith;
  bounded = omega arith;
  spent = subst (λ b. Charged 0 g.budget b) (sym same) (uncharged g.budget);
}

again :
    (left executed : ℕ) (g h : Gateway) (e : Ending) (g' : Gateway)
    → h.budget ≡ g.budget
    → can_call_tool g.budget ≡ true
    → Looped left (executed + 1) (charged h) e g'
    → Looped (suc left) executed g e g'
again left executed g h e g' same can l = record {
  more = suc l.more;
  counted = omega (arith, l.counted);
  bounded = omega (arith, l.bounded);
  spent = record {
    calls_limit = l.spent.calls_limit ∙ ap (λ b. b.max_tool_calls) same;
    steps_limit = l.spent.steps_limit ∙ ap (λ b. b.max_steps) same;
    steps = l.spent.steps ∙ ap (λ b. b.step_count) same;
    calls = omega (arith, l.spent.calls, ap (λ b. b.tool_call_count) same);
    within = λ u.
        let lt = ltb→lt g.budget.tool_call_count g.budget.max_tool_calls can in
        let fits : h.budget.tool_call_count + 1 ≤ h.budget.max_tool_calls =
          omega (arith, lt, ap (λ b. b.tool_call_count) same, ap (λ b. b.max_tool_calls) same) in
        l.spent.within fits;
  };
}

module _ (outside : Outside) (call_id run_id trace_id tool : String) (spec : ToolSpec)
    (cleaned : Dict) where
  attempts-Looped :
      (left attempt executed : ℕ) (g : Gateway)
      → let (e, g') =
          attempts outside call_id run_id trace_id tool spec cleaned left attempt executed g in
        Looped left executed g e g'
  unfolding attempts
  attempts-Looped zero attempt executed g =
      elim (Result-cases (try_once outside call_id run_id trace_id tool spec cleaned attempt)) [
        | inl (d, h) ↦ rw (attempts, h) (stopped zero executed g _ _ refl refl)
        | inr (e, h) ↦ rw (attempts, h) (stopped zero executed g _ _ refl refl)
      ]
  attempts-Looped (suc left) attempt executed g =
      elim (Result-cases (try_once outside call_id run_id trace_id tool spec cleaned attempt)) [
        | inl (d, h) ↦ rw (attempts, h) (stopped (suc left) executed g _ _ refl refl)
        | inr (e, h) ↦ elim (Bool-cases (retryable (failure_of outside spec e).category)) [
          | inr stop ↦ rw (attempts, h, stop) (stopped (suc left) executed g _ _ refl refl)
          | inl again_wanted ↦ elim (Bool-cases (can_call_tool g.budget)) [
            | inr stop ↦
                rw (attempts, h, again_wanted, stop) (stopped (suc left) executed g _ _ refl refl)
            | inl can ↦
                rw (attempts, h, again_wanted, can)
                  (again left executed g _ _ _ refl can
                    (attempts-Looped left (attempt + 1) (executed + 1) _))
          ]
        ]
      ]

-- What one call of the gateway does to its state, when it returns a result for the tool.
pub record Accounted (limit : ℕ) (g : Gateway) (r : ToolResult) (g' : Gateway) : Type 0 where
  pub attempts_bound : r.attempt_count ≤ limit
  pub charges : Charged r.attempt_count g.budget g'.budget
  pub log_bound : length g.audit_log ≤ 1000 → length g'.audit_log ≤ 1000

abbrev pub attempt_limit : Option ToolSpec → ℕ
attempt_limit none = 0
attempt_limit (some spec) = spec.max_retries + 1

-- The same for the outcome of a call: an exception leaves the gateway as it was.
abbrev pub Accounts : ℕ → Gateway → Result ToolResult × Gateway → Type 0
Accounts limit g (ok r, g') = Accounted limit g r g'
Accounts limit g (err e, g') = g' ≡ g

spent-Charged :
    (limit more : ℕ) (g g' : Gateway) (n : ℕ)
    → can_call_tool g.budget ≡ true
    → Charged more (charged g).budget g'.budget
    → n ≡ 1 + more
    → Charged n g.budget g'.budget
spent-Charged limit more g g' n can spent h =
    let lt = ltb→lt g.budget.tool_call_count g.budget.max_tool_calls can in
    record {
      calls_limit = spent.calls_limit;
      steps_limit = spent.steps_limit;
      steps = spent.steps;
      calls = omega (arith, spent.calls, h);
      within = λ u. spent.within (omega (arith, lt));
    }

module _ (outside : Outside) where
  audit-bound : (d : Dict) (g : Gateway) → length (audit outside d g).audit_log ≤ 1000
  audit-bound d g = newest_1000-bound (g.audit_log ++ redacted outside (obj d) ∷ [])

  unattempted :
      (limit : ℕ) (g : Gateway) (r : ToolResult) → r.attempt_count ≡ 0 → Accounted limit g r g
  unattempted limit g r h = record {
    attempts_bound = omega (arith, h);
    charges = subst (λ n. Charged n g.budget g.budget) (sym h) (uncharged g.budget);
    log_bound = λ h. h;
  }

  refused :
      (limit : ℕ) (d : Dict) (g : Gateway) (r : ToolResult)
      → r.attempt_count ≡ 0
      → Accounted limit g r (audit outside d g)
  refused limit d g r h = record {
    attempts_bound = omega (arith, h);
    charges = subst (λ n. Charged n g.budget g.budget) (sym h) (uncharged g.budget);
    log_bound = λ _. audit-bound d g;
  }

module _ (outside : Outside) (call_id run_id trace_id : String) where
  finish-Accounted :
      (tool : String) (spec : ToolSpec) (cleaned : Dict) (g : Gateway) (e : Ending) (g' : Gateway)
      → can_call_tool g.budget ≡ true
      → Looped spec.max_retries 0 (charged g) e g'
      → let (r, g'') = finish outside call_id run_id trace_id tool spec cleaned (e, g') in
        Accounted (spec.max_retries + 1) g r g''
  finish-Accounted tool spec cleaned g (succeeded d executed attempt) g' can l = record {
    attempts_bound = omega (arith, l.counted, l.bounded);
    charges = spent-Charged spec.max_retries l.more g g' executed can l.spent l.counted;
    log_bound = λ _. newest_1000-bound (g'.audit_log ++ _ ∷ []);
  }
  finish-Accounted tool spec cleaned g (gave_up f executed attempt) g' can l = record {
    attempts_bound = omega (arith, l.counted, l.bounded);
    charges = spent-Charged spec.max_retries l.more g g' executed can l.spent l.counted;
    log_bound = λ _. newest_1000-bound (g'.audit_log ++ _ ∷ []);
  }

  run_validated-Accounts :
      (tool : String) (spec : ToolSpec) (payload : Json) (v : Result Dict) (g : Gateway)
      → can_call_tool g.budget ≡ true
      → Accounts
          (spec.max_retries + 1)
          g
          (run_validated outside call_id run_id trace_id tool spec payload v g)
  run_validated-Accounts tool spec payload (ok cleaned) g can =
      let run =
        attempts outside call_id run_id trace_id tool spec cleaned spec.max_retries 0 0
          (charged g) in
      let looped =
        attempts-Looped outside call_id run_id trace_id tool spec cleaned spec.max_retries 0 0
          (charged g) in
      finish-Accounted tool spec cleaned g run.0 run.1 can looped
  run_validated-Accounts tool spec payload (err e) g can = by_error e
    where
      by_error :
          (e : Exception)
          → Accounts
              (spec.max_retries + 1)
              g
              (run_validated outside call_id run_id trace_id tool spec payload (err e) g)
      by_error (value_error m) = unattempted outside (spec.max_retries + 1) g _ refl
      by_error (type_error m) = refl
      by_error (runtime_error m) = refl
      by_error (permission_error m) = refl
      by_error (lost_lease m) = refl
      by_error (approval_conflict m) = refl
      by_error (integrity_error m) = refl
      by_error (structured_output_error m) = refl
      by_error (timeout_error m) = refl
      by_error (connection_error m) = refl
      by_error (http_timeout m) = refl
      by_error (http_network m) = refl
      by_error (other m) = refl
      by_error (http_status n) = refl

  call_tool-Accounts :
      (affordable : Bool) (name : String) (spec : ToolSpec) (payload : Json) (g : Gateway)
      → can_call_tool g.budget ≡ affordable
      → Accounts
          (spec.max_retries + 1)
          g
          (call_tool outside call_id run_id trace_id affordable name spec payload g)
  call_tool-Accounts false name spec payload g can =
      refused outside (spec.max_retries + 1) _ g _ refl
  call_tool-Accounts true name spec payload g can = run_validated-Accounts name spec payload _ g can

  dispatch-Accounts :
      (name : String) (o : Option ToolSpec) (payload : Json) (g : Gateway)
      → Accounts (attempt_limit o) g (dispatch outside call_id run_id trace_id name o payload g)
  dispatch-Accounts name none payload g = refused outside 0 _ g _ refl
  dispatch-Accounts name (some spec) payload g =
      call_tool-Accounts (can_call_tool g.budget) name spec payload g refl

  -- A call of a tool that returns a result charges the tool budget once for each attempt it made
  -- and for nothing else, makes at most max_retries + 1 attempts (none for a tool that is not
  -- registered), does not let the count of tool calls pass a limit that it did not pass before, and
  -- leaves an audit log of at most 1000 events that had at most 1000. A call that raises leaves the
  -- gateway as it was.
  pub call-Accounts :
      (registry : Registry) (name : String) (payload : Json) (g : Gateway)
      → Accounts
          (attempt_limit (lookup name registry))
          g
          (call outside call_id run_id trace_id registry name payload g)
  unfolding call
  call-Accounts registry name payload g = dispatch-Accounts name (lookup name registry) payload g
