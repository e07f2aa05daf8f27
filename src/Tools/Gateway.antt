-- ===== src/Tools/Gateway.antt =====
-- BudgetTracker, ToolGateway._audit, ToolGateway.call and classify_tool_error of
-- src/incidentpilot/tools/gateway.py. What the code calls outside the repository is collected in
-- `Outside`. A handler is a function of the number of the attempt, since two calls of it may differ;
-- the sleep between attempts, the trace span, the metric and the audit sink keep no state here.
pub mod Budget
pub mod Success
use incidentpilot.Base.{
  ℕ, zero, suc, String, ◌+◌, ◌-◌, ◌≡◌, Bool, true, false, ◌&&◌, ◌||◌, not, Option, none, some, List,
  [], ◌∷◌, ◌==◌, string_eq, nat_eq, if◌then◌else◌, ltb, leb, Result, ok, err, guard, value_error,
  type_error, runtime_error, permission_error, lost_lease, approval_conflict, integrity_error,
  structured_output_error, timeout_error, connection_error, http_timeout, http_network, http_status,
  other, Exception, ◌>>=◌, ◌>>◌, length,
}
use incidentpilot.Json.{Json, null, bool, num, str, arr, obj, Dict, end, field, get, flag, size}
use incidentpilot.Enums.{ToolCallStatus, contains}
use incidentpilot.Tools.Redaction.{redact}
use incidentpilot.Tools.Input.{InputSchema, validate_input, lookup}
use Prim.Native.String.{◌++◌}
use mathlib.Core.List.{◌++◌ as ◌concat◌}

-- How one call of a handler under wait_for ends.
pub data Outcome : Type 0 where
  returned : Json → Outcome
  raised : Exception → Outcome

pub record ToolSpec : Type 0 where
  pub name : String
  pub category : String
  pub handler : ℕ → Dict → Outcome
  pub timeout_seconds : ℕ
  pub max_retries : ℕ
  pub input_schema : InputSchema

pub record ToolResult : Type 0 where
  pub tool_call_id : String
  pub tool_name : String
  pub status : ToolCallStatus
  pub output : Json
  pub error : Option String
  pub latency_ms : ℕ
  pub input : Json
  pub attempt_count : ℕ
  pub error_category : Option String
  pub trace_id : String

-- ToolRegistry: a dict from name to spec, in insertion order.
abbrev pub Registry : Type 0
Registry = List (String × ToolSpec)

abbrev pub register : ToolSpec → Registry → Registry
register spec [] = (spec.name, spec) ∷ []
register spec ((k, s) ∷ rest) =
    if k == spec.name then (k, spec) ∷ rest else (k, s) ∷ register spec rest

pub record BudgetTracker : Type 0 where
  pub max_tool_calls : ℕ
  pub max_steps : ℕ
  pub tool_call_count : ℕ
  pub step_count : ℕ

abbrev pub can_call_tool : BudgetTracker → Bool
can_call_tool b = ltb b.tool_call_count b.max_tool_calls

abbrev pub can_step : BudgetTracker → Bool
can_step b = ltb b.step_count b.max_steps

abbrev pub record_tool_call : BudgetTracker → BudgetTracker
record_tool_call b = record b { tool_call_count = b.tool_call_count + 1 }

abbrev pub record_step : BudgetTracker → BudgetTracker
record_step b = record b { step_count = b.step_count + 1 }

pub record Gateway : Type 0 where
  pub budget : BudgetTracker
  pub audit_log : List Json

abbrev pub charged : Gateway → Gateway
charged g = record g { budget = record_tool_call g.budget }

-- del audit_log[:-1000]
abbrev pub drop : {A : Type 0} → ℕ → List A → List A
drop zero xs = xs
drop (suc n) [] = []
drop (suc n) (x ∷ xs) = drop n xs

abbrev pub newest_1000 : List Json → List Json
newest_1000 events = drop (length events - 1000) events

-- error[:2000]
abbrev pub first_chars : ℕ → String → String
first_chars zero s = ""
first_chars (suc n) String.[] = ""
first_chars (suc n) (String.◌∷◌ c s) = String.◌∷◌ c (first_chars n s)

abbrev pub classify_status : ℕ → String × Bool
classify_status code =
    if code == 429
    then ("rate_limit", true)
    else if contains code (500 ∷ 502 ∷ 503 ∷ 504 ∷ [])
    then ("server", true)
    else ("http_permanent", false)

abbrev pub classify_tool_error : Exception → String × Bool
classify_tool_error (timeout_error m) = ("timeout", true)
classify_tool_error (http_timeout m) = ("timeout", true)
classify_tool_error (connection_error m) = ("connection", true)
classify_tool_error (http_network m) = ("connection", true)
classify_tool_error (http_status code) = classify_status code
classify_tool_error (permission_error m) = ("permission", false)
classify_tool_error (type_error m) = ("validation", false)
classify_tool_error (value_error m) = ("validation", false)
classify_tool_error _ = ("permanent", false)

-- The test in the loop, on the category.
abbrev pub retryable : String → Bool
retryable c = contains c ("timeout" ∷ "connection" ∷ "rate_limit" ∷ "server" ∷ [])

pub record Failure : Type 0 where
  pub message : String
  pub status : ToolCallStatus
  pub category : String

-- What the loop hands on: the output of the attempt that succeeded, or the last failure, each with
-- executed_attempts and the last value of `attempt`.
pub data Ending : Type 0 where
  succeeded : Dict → (executed attempt : ℕ) → Ending
  gave_up : Failure → (executed attempt : ℕ) → Ending

-- What stands outside: the two expressions of `redact`, len(json.dumps(.)), the renderings of
-- names, numbers and exceptions in messages, and the clock, read in whole milliseconds.
pub record Outside : Type 0 where
  pub secret_field : String → Bool
  pub scrub : String → String
  pub dump_length : Json → ℕ
  pub shown : List String → String
  pub shown_sorted : List String → String
  pub decimal : ℕ → String
  pub describe : Exception → String
  pub elapsed : ℕ → ℕ

-- The body of the `try`: what the handler returned is refused unless it is a complete dict of at
-- most 64000 bytes of JSON, which is ASCII.
abbrev pub usable : (Json → ℕ) → Json → Result Dict
usable dump_length (obj d) = do
  guard
      (not (size d == 0)
        && not (flag "error" d || flag "isError" d || flag "partial" d || flag "truncated" d))
      (value_error "tool returned error, empty, invalid or incomplete result")
  guard (not (ltb 64000 (dump_length (obj d)))) (value_error "tool result exceeds size limit")
  ok d
usable dump_length _ = err (value_error "tool returned error, empty, invalid or incomplete result")

abbrev pub result_of : (Json → ℕ) → Outcome → Result Dict
result_of dump_length (returned v) = usable dump_length v
result_of dump_length (raised e) = err e

module _ (outside : Outside) where
  abbrev pub redacted : Json → Json
  redacted = redact outside.secret_field outside.scrub 0

  -- _audit
  abbrev pub audit : Dict → Gateway → Gateway
  audit event g = record g {
    audit_log = newest_1000 (g.audit_log concat (redacted (obj event) ∷ []));
  }

  -- The two `except` branches.
  abbrev pub failure_of : ToolSpec → Exception → Failure
  failure_of spec (timeout_error m) = record {
    message = "timeout after " ++ outside.decimal spec.timeout_seconds ++ "s";
    status = ToolCallStatus.timeout;
    category = "timeout";
  }
  failure_of spec e = record {
    message = first_chars 2000 (outside.scrub (outside.describe e));
    status = ToolCallStatus.failed;
    category = (classify_tool_error e).0;
  }

  abbrev pub no_retry_budget : Failure
  no_retry_budget = record {
    message = "retry budget exhausted";
    status = ToolCallStatus.denied;
    category = "budget";
  }

  -- One call of the gateway: its fresh identifier, the caller's identifiers, the tool and the
  -- validated input.
  module _ (call_id run_id trace_id : String) where
    -- The fields that every event has, followed by those of one kind of event.
    abbrev pub event : String → String → Dict → Dict
    event kind tool d = field "event" (str kind) (
        field "tool_call_id" (str call_id)
          (field "tool_name" (str tool) (field "run_id" (str run_id) d)))

    abbrev pub traced : Dict → Dict
    traced d = field "trace_id" (str trace_id) d

    abbrev pub latency : ℕ → Dict
    latency n = field "latency_ms" (num (outside.elapsed n)) end

    abbrev pub attempt_failed : String → ℕ → Failure → Dict
    attempt_failed tool attempt f = event "tool_attempt_failed" tool (
        traced (
          field "attempt" (num (attempt + 1))
            (field "error_category" (str f.category) (latency attempt))))

    module _ (tool : String) (spec : ToolSpec) (cleaned : Dict) where
      abbrev pub try_once : ℕ → Result Dict
      try_once attempt = result_of outside.dump_length (spec.handler attempt cleaned)

      -- The loop from iteration `attempt` on, which `left` further iterations can follow;
      -- `executed` attempts were made before this one. The budget was charged for it.
      unfoldable pub attempts : (left attempt executed : ℕ) → Gateway → Ending × Gateway
      attempts zero attempt executed g = elim (try_once attempt) [
        | ok d ↦ (succeeded d (executed + 1) attempt, g)
        | err e ↦ (
          gave_up (failure_of spec e) (executed + 1) attempt,
          audit (attempt_failed tool attempt (failure_of spec e)) g,
        )
      ]
      attempts (suc left) attempt executed g = elim (try_once attempt) [
        | ok d ↦ (succeeded d (executed + 1) attempt, g)
        | err e ↦
            let g' = audit (attempt_failed tool attempt (failure_of spec e)) g in
            elim (retryable (failure_of spec e).category) [
              | false ↦ (gave_up (failure_of spec e) (executed + 1) attempt, g')
              | true ↦ elim (can_call_tool g'.budget) [
                | false ↦ (gave_up no_retry_budget (executed + 1) (attempt + 1), g')
                | true ↦ attempts left (attempt + 1) (executed + 1) (charged g')
              ]
            ]
      ]

      -- What follows the loop, and the return out of it.
      abbrev pub finish : Ending × Gateway → ToolResult × Gateway
      finish (succeeded d executed attempt, g) = (
        record {
          tool_call_id = call_id;
          tool_name = tool;
          status = ToolCallStatus.succeeded;
          output = redacted (obj d);
          error = none;
          latency_ms = outside.elapsed attempt;
          input = redacted (obj cleaned);
          attempt_count = executed;
          error_category = none;
          trace_id = trace_id;
        },
        audit
            (event "tool_succeeded" tool (traced (field "attempt" (num attempt) (latency attempt))))
            g,
      )
      finish (gave_up f executed attempt, g) = (
        record {
          tool_call_id = call_id;
          tool_name = tool;
          status = f.status;
          output = obj end;
          error = some f.message;
          latency_ms = outside.elapsed (attempt + 1);
          input = redacted (obj cleaned);
          attempt_count = executed;
          error_category = some f.category;
          trace_id = trace_id;
        },
        audit
            (event "tool_failed" tool (
              field "error" (str f.message) (
                field "error_category" (str f.category)
                  (field "attempt" (num (attempt + 1)) (traced (latency (attempt + 1)))))))
            g,
      )

    -- A result without an attempt.
    abbrev pub not_run : String → ToolCallStatus → String → String → Json → ToolResult
    not_run tool status message category payload = record {
      tool_call_id = call_id;
      tool_name = tool;
      status = status;
      output = obj end;
      error = some message;
      latency_ms = 0;
      input = redacted payload;
      attempt_count = 0;
      error_category = some category;
      trace_id = trace_id;
    }

    abbrev pub run_validated :
        String → ToolSpec → Json → Result Dict → Gateway → Result ToolResult × Gateway
    run_validated tool spec payload (err (value_error m)) g =
        (ok (not_run tool ToolCallStatus.failed m "validation" payload), g)
    run_validated tool spec payload (err e) g = (err e, g)
    run_validated tool spec payload (ok cleaned) g =
        let (result, g') =
          finish tool spec cleaned (attempts tool spec cleaned spec.max_retries 0 0 (charged g)) in
        (ok result, g')

    -- `affordable` is can_call_tool().
    abbrev pub call_tool :
        (affordable : Bool) → String → ToolSpec → Json → Gateway → Result ToolResult × Gateway
    call_tool false tool spec payload g = (
      ok (not_run tool ToolCallStatus.denied "tool call budget exhausted" "budget" payload),
      audit (event "budget_exhausted" tool end) g,
    )
    call_tool true tool spec payload g =
        run_validated tool spec payload
          (validate_input outside.dump_length outside.shown outside.shown_sorted spec.name
            spec.input_schema payload)
          g

    abbrev pub dispatch : String → Option ToolSpec → Json → Gateway → Result ToolResult × Gateway
    dispatch name none payload g = (
      ok (
          not_run name ToolCallStatus.denied ("tool not registered: " ++ name) "permission"
            payload),
      audit (event "tool_denied" name (traced end)) g,
    )
    dispatch name (some spec) payload g = call_tool (can_call_tool g.budget) name spec payload g

    unfoldable pub call : Registry → String → Json → Gateway → Result ToolResult × Gateway
    call registry name payload g = dispatch name (lookup name registry) payload g
