-- ===== src/Examples/Tools.antt =====
-- The tool gateway on a tool that times out once, and the redaction of a credential.
use incidentpilot.Base.{
  ℕ, zero, suc, ◌≤◌, ◌≡◌, refl, true, some, [], ◌∷◌, timeout_error, ◌==◌, string_eq,
}
use incidentpilot.Json.{num, str, obj, Dict, end, field}
use incidentpilot.Tools.Redaction.{redact, Clean, redact-Clean}
use incidentpilot.Tools.Input.{InputSchema, validate_input, missing, extras}
use incidentpilot.Tools.Input.Valid.{validate_input-accepts, AllFit}
use incidentpilot.Tools.Gateway.{
  Outside, Outcome, returned, raised, ToolSpec, Registry, Gateway, call,
}
use incidentpilot.Tools.Gateway.Budget.{call-Accounts, Accounts}
use incidentpilot.Tools.Gateway.Success.{call-Justifies, Justifies}

abbrev outside : Outside
outside = record {
  secret_field = λ k. k == "password";
  scrub = λ s. s;
  dump_length = λ v. 20;
  shown = λ xs. "";
  shown_sorted = λ xs. "";
  decimal = λ n. "30";
  describe = λ e. "failed";
  elapsed = λ n. n;
}

abbrev metrics_schema : InputSchema
metrics_schema = record {
  required = "service" ∷ [];
  properties = ("service", some "string") ∷ ("limit", some "integer") ∷ [];
  closed = true;
}

abbrev answer : ℕ → Outcome
answer n = elim n [
  | zero ↦ raised (timeout_error "")
  | suc m ↦ returned (obj (field "latency" (num 9) end))
]

abbrev metrics : ToolSpec
metrics = record {
  name = "read_metrics";
  category = "readonly_external";
  handler = λ n d. answer n;
  timeout_seconds = 30;
  max_retries = 1;
  input_schema = metrics_schema;
}

abbrev registry : Registry
registry = ("read_metrics", metrics) ∷ []

abbrev payload : Dict
payload = field "service" (str "orders") (field "limit" (num 5) end)

abbrev gateway : Gateway
gateway = record {
  budget = record { max_tool_calls = 8; max_steps = 5; tool_call_count = 0; step_count = 1 };
  audit_log = [];
}

validate_input-accepts_example :
    (obj payload ≡ obj payload)
    × (20 ≤ 16000)
    × (missing ("service" ∷ []) payload ≡ [])
    × (true ≡ true → extras payload metrics_schema.properties ≡ [])
    × AllFit metrics_schema.properties payload
unfolding validate_input
validate_input-accepts_example =
    validate_input-accepts (λ v. 20) (λ xs. "") (λ xs. "") "read_metrics" metrics_schema
      (obj payload) payload refl

call-Accounts_example :
    Accounts 2 gateway
      (call outside "TC-1" "RUN-1" "T1" registry "read_metrics" (obj payload) gateway)
call-Accounts_example =
    call-Accounts outside "TC-1" "RUN-1" "T1" registry "read_metrics" (obj payload) gateway

call-Justifies_example :
    Justifies outside metrics
      (validate_input outside.dump_length outside.shown outside.shown_sorted "read_metrics"
        metrics_schema
        (obj payload))
      (call outside "TC-1" "RUN-1" "T1" registry "read_metrics" (obj payload) gateway).0
call-Justifies_example =
    call-Justifies outside "TC-1" "RUN-1" "T1" registry "read_metrics" metrics (obj payload) gateway
      refl

redact-Clean_example :
    Clean
      (λ k. k == "password")
      (λ s. s)
      (redact
        (λ k. k == "password")
        (λ s. s)
        0
        (obj (field "password" (str "hunter2") (field "user" (str "ann") end))))
redact-Clean_example =
    redact-Clean (λ k. k == "password") (λ s. s) 0
      (obj (field "password" (str "hunter2") (field "user" (str "ann") end)))
