-- ===== src/Tools/Gateway/Success.antt =====
-- When ToolGateway.call of src/incidentpilot/tools/gateway.py tries again, and what a result with
-- the status SUCCEEDED stands for.
use incidentpilot.Base.{
  ℕ, zero, suc, String, ◌+◌, ◌-◌, ◌≤◌, ◌<◌, ◌≡◌, ◌≢◌, refl, subst, ap, Bool, true, false, ◌&&◌,
  ◌||◌, not, some, ◌⊎◌, inl, inr, arith, ltb, Bool-cases, ◌==◌, nat_eq, Result, Result-cases, ok,
  err, >>=-eq-ok, guard, guard-ok, ok-injective, Exception, value_error, type_error, runtime_error,
  permission_error, lost_lease, approval_conflict, integrity_error, structured_output_error,
  timeout_error, connection_error, http_timeout, http_network, http_status, other, leb,
}
use incidentpilot.Json.{Json, null, bool, num, str, arr, obj, Dict, size, flag}
use incidentpilot.Enums.{ToolCallStatus}
use incidentpilot.Tools.Input.{validate_input, lookup}
use incidentpilot.Tools.Gateway.{
  Outside, Registry, ToolSpec, ToolResult, Gateway, Ending, succeeded, gave_up, charged, Outcome,
  returned, raised, attempts, finish, call, call_tool, run_validated, try_once, retryable,
  failure_of, can_call_tool, usable, result_of, redacted,
}
use incidentpilot.Tools.Gateway.Budget.{executed_of}

-- What the gateway accepts from a handler.
pub record Complete (dump_length : Json → ℕ) (d : Dict) : Type 0 where
  pub nonempty : (size d == 0) ≡ false
  pub no_error : (flag "error" d || flag "isError" d) ≡ false
  pub no_part : (flag "partial" d || flag "truncated" d) ≡ false
  pub small : dump_length (obj d) ≤ 64000

split_flags :
    (n a b c d : Bool)
    → (not n && not (a || b || c || d)) ≡ true
    → (n ≡ false) × ((a || b) ≡ false) × ((c || d) ≡ false)
split_flags n a b c d h = ground arith

not_above : (n : ℕ) → not (ltb 64000 n) ≡ true → n ≤ 64000
not_above n h = ground arith

usable-Complete :
    (f : Json → ℕ) (v : Json) (d : Dict) → usable f v ≡ ok d → (v ≡ obj d) × Complete f d
usable-Complete f (obj c) d h =
    let (_, a, h1) =
      >>=-eq-ok
        (guard
          (not (size c == 0)
            && not (flag "error" c || flag "isError" c || flag "partial" c || flag "truncated" c))
          _)
        _ h in
    let (_, b, h2) = >>=-eq-ok (guard (not (ltb 64000 (f (obj c)))) _) _ h1 in
    let (full, clear, whole) =
      split_flags (size c == 0) (flag "error" c) (flag "isError" c) (flag "partial" c)
        (flag "truncated" c) (guard-ok _ _ a) in
    let same = ok-injective h2 in
    (
      ap obj same,
      subst (Complete f) same (record {
        nonempty = full;
        no_error = clear;
        no_part = whole;
        small = not_above (f (obj c)) (guard-ok _ _ b);
      }),
    )
usable-Complete f null d h = cc
usable-Complete f (bool b) d h = cc
usable-Complete f (num n) d h = cc
usable-Complete f (str s) d h = cc
usable-Complete f (arr vs) d h = cc

result_of-Complete :
    (f : Json → ℕ) (o : Outcome) (d : Dict)
    → result_of f o ≡ ok d
    → (o ≡ returned (obj d)) × Complete f d
result_of-Complete f (returned v) d h =
    let (same, c) = usable-Complete f v d h in (ap returned same, c)
result_of-Complete f (raised e) d h = cc

failure_of-status :
    (outside : Outside) (spec : ToolSpec) (e : Exception)
    → (failure_of outside spec e).status ≢ ToolCallStatus.succeeded
failure_of-status outside spec (timeout_error m) h = cc
failure_of-status outside spec (value_error m) h = cc
failure_of-status outside spec (type_error m) h = cc
failure_of-status outside spec (runtime_error m) h = cc
failure_of-status outside spec (permission_error m) h = cc
failure_of-status outside spec (lost_lease m) h = cc
failure_of-status outside spec (approval_conflict m) h = cc
failure_of-status outside spec (integrity_error m) h = cc
failure_of-status outside spec (structured_output_error m) h = cc
failure_of-status outside spec (connection_error m) h = cc
failure_of-status outside spec (http_timeout m) h = cc
failure_of-status outside spec (http_network m) h = cc
failure_of-status outside spec (http_status n) h = cc
failure_of-status outside spec (other m) h = cc

-- Attempt `k` failed in a way that may pass: a timeout, a broken connection, a rate limit or a
-- server error.
abbrev pub Transient : Outside → ToolSpec → Dict → ℕ → Type 0
Transient outside spec cleaned k =
    (e : Exception) × (result_of outside.dump_length (spec.handler k cleaned) ≡ err e)
    × (retryable (failure_of outside spec e).category ≡ true)

-- The last attempt returned a complete dict, and the output is that dict, redacted.
abbrev pub Output : Outside → ToolSpec → Dict → ToolResult → Type 0
Output outside spec cleaned r =
    (d : Dict) × (spec.handler (r.attempt_count - 1) cleaned ≡ returned (obj d))
    × Complete outside.dump_length d
    × (r.output ≡ redacted outside (obj d))

module _ (outside : Outside) (call_id run_id trace_id tool : String) (spec : ToolSpec)
    (cleaned : Dict) where
  abbrev Ends : Ending → Type 0
  Ends (succeeded d executed attempt) =
      (result_of outside.dump_length (spec.handler (executed - 1) cleaned) ≡ ok d)
  Ends (gave_up f executed attempt) = f.status ≢ ToolCallStatus.succeeded

  record Ran (attempt : ℕ) (e : Ending) : Type 0 where
    transient : (k : ℕ) → attempt ≤ k → k + 1 < executed_of e → Transient outside spec cleaned k
    ends : Ends e

  last_one : (attempt : ℕ) (e : Ending) → executed_of e ≡ attempt + 1 → Ends e → Ran attempt e
  last_one attempt e h ends = record {
    transient = λ k lo hi. elim (too_far k lo hi) [ ];
    ends = ends;
  }
    where
      too_far : (k : ℕ) → attempt ≤ k → k + 1 < executed_of e → ⊥
      too_far k lo hi = omega (arith, h)

  one_more :
      (attempt : ℕ) (e : Ending)
      → Transient outside spec cleaned attempt
      → Ran (attempt + 1) e
      → Ran attempt e
  one_more attempt e here later = record {
    transient = λ k lo hi. elim (here_or_later k lo) [
      | inl same ↦ subst (Transient outside spec cleaned) same here
      | inr above ↦ later.transient k above hi
    ];
    ends = later.ends;
  }
    where
      here_or_later : (k : ℕ) → attempt ≤ k → (attempt ≡ k) ⊎ (attempt + 1 ≤ k)
      here_or_later k lo = elim (Bool-cases (leb (attempt + 1) k)) [
        | inl le ↦ inr (ground arith)
        | inr gt ↦ inl (ground arith)
      ]

  now :
      (attempt : ℕ) (d : Dict)
      → result_of outside.dump_length (spec.handler attempt cleaned) ≡ ok d
      → result_of outside.dump_length (spec.handler (attempt + 1 - 1) cleaned) ≡ ok d
  now attempt d h =
      let same : attempt ≡ attempt + 1 - 1 = omega arith in
      subst (λ k. result_of outside.dump_length (spec.handler k cleaned) ≡ ok d) same h

  attempts-Ran :
      (left attempt : ℕ) (g : Gateway)
      → Ran attempt
          (attempts outside call_id run_id trace_id tool spec cleaned left attempt attempt g).0
  unfolding attempts
  attempts-Ran zero attempt g =
      elim (Result-cases (try_once outside call_id run_id trace_id tool spec cleaned attempt)) [
        | inl (d, h) ↦ rw (attempts, h) (last_one attempt _ refl (now attempt d h))
        | inr (e, h) ↦ rw (attempts, h) (last_one attempt _ refl (failure_of-status outside spec e))
      ]
  attempts-Ran (suc left) attempt g =
      elim (Result-cases (try_once outside call_id run_id trace_id tool spec cleaned attempt)) [
        | inl (d, h) ↦ rw (attempts, h) (last_one attempt _ refl (now attempt d h))
        | inr (e, h) ↦ elim (Bool-cases (retryable (failure_of outside spec e).category)) [
          | inr stop ↦
              rw (attempts, h, stop) (last_one attempt _ refl (failure_of-status outside spec e))
          | inl wanted ↦ elim (Bool-cases (can_call_tool g.budget)) [
            | inr stop ↦ rw (attempts, h, wanted, stop) (last_one attempt _ refl (λ u. cc))
            | inl can ↦
                rw (attempts, h, wanted, can)
                  (one_more attempt _ (e, h, wanted) (attempts-Ran left (attempt + 1) _))
          ]
        ]
      ]

-- What a result says of the tool's handler: each attempt but the last failed in a way that may pass,
-- and a success is the last attempt's output.
pub record Justified (outside : Outside) (spec : ToolSpec) (v : Result Dict) (r : ToolResult)
    : Type 0 where
  pub transient :
      (k : ℕ)
      → k + 1 < r.attempt_count
      → (cleaned : Dict) × (v ≡ ok cleaned) × Transient outside spec cleaned k
  pub earned :
      r.status ≡ ToolCallStatus.succeeded
      → (cleaned : Dict) × (v ≡ ok cleaned) × Output outside spec cleaned r

abbrev pub Justifies : Outside → ToolSpec → Result Dict → Result ToolResult → Type 0
Justifies outside spec v (ok r) = Justified outside spec v r
Justifies outside spec v (err e) = Unit

module _ (outside : Outside) (call_id run_id trace_id : String) where
  finish-Justified :
      (tool : String) (spec : ToolSpec) (cleaned : Dict) (e : Ending) (g : Gateway)
      → Ran outside call_id run_id trace_id tool spec cleaned 0 e
      → Justified outside spec
          (ok cleaned)
          (finish outside call_id run_id trace_id tool spec cleaned (e, g)).0
  finish-Justified tool spec cleaned (succeeded d executed attempt) g ran = record {
    transient = λ k lt. (cleaned, refl, ran.transient k (omega arith) lt);
    earned = λ _.
        let (there, whole) = result_of-Complete outside.dump_length _ d ran.ends in
        (cleaned, refl, (d, there, whole, refl));
  }
  finish-Justified tool spec cleaned (gave_up f executed attempt) g ran = record {
    transient = λ k lt. (cleaned, refl, ran.transient k (omega arith) lt);
    earned = λ h. absurd (ran.ends h);
  }

  never_run :
      (spec : ToolSpec) (v : Result Dict) (r : ToolResult)
      → r.attempt_count ≡ 0
      → r.status ≢ ToolCallStatus.succeeded
      → Justified outside spec v r
  never_run spec v r h unsuccessful = record {
    transient = λ k lt. absurd (no_attempt k lt);
    earned = λ e. absurd (unsuccessful e);
  }
    where
      no_attempt : (k : ℕ) → k + 1 < r.attempt_count → ⊥
      no_attempt k lt = omega (arith, h)

  run_validated-Justifies :
      (tool : String) (spec : ToolSpec) (payload : Json) (v : Result Dict) (g : Gateway)
      → Justifies outside spec v
          (run_validated outside call_id run_id trace_id tool spec payload v g).0
  run_validated-Justifies tool spec payload (ok cleaned) g =
      let run =
        attempts outside call_id run_id trace_id tool spec cleaned spec.max_retries 0 0
          (charged g) in
      finish-Justified tool spec cleaned run.0 run.1 (
        attempts-Ran outside call_id run_id trace_id tool spec cleaned spec.max_retries 0
          (charged g))
  run_validated-Justifies tool spec payload (err (value_error m)) g =
      never_run spec _ _ refl (λ u. cc)
  run_validated-Justifies tool spec payload (err (type_error m)) g = tt
  run_validated-Justifies tool spec payload (err (runtime_error m)) g = tt
  run_validated-Justifies tool spec payload (err (permission_error m)) g = tt
  run_validated-Justifies tool spec payload (err (lost_lease m)) g = tt
  run_validated-Justifies tool spec payload (err (approval_conflict m)) g = tt
  run_validated-Justifies tool spec payload (err (integrity_error m)) g = tt
  run_validated-Justifies tool spec payload (err (structured_output_error m)) g = tt
  run_validated-Justifies tool spec payload (err (timeout_error m)) g = tt
  run_validated-Justifies tool spec payload (err (connection_error m)) g = tt
  run_validated-Justifies tool spec payload (err (http_timeout m)) g = tt
  run_validated-Justifies tool spec payload (err (http_network m)) g = tt
  run_validated-Justifies tool spec payload (err (http_status n)) g = tt
  run_validated-Justifies tool spec payload (err (other m)) g = tt

  call_tool-Justifies :
      (affordable : Bool) (name : String) (spec : ToolSpec) (payload : Json) (g : Gateway)
      → Justifies outside spec
          (validate_input outside.dump_length outside.shown outside.shown_sorted spec.name
            spec.input_schema payload)
          (call_tool outside call_id run_id trace_id affordable name spec payload g).0
  call_tool-Justifies false name spec payload g = never_run spec _ _ refl (λ u. cc)
  call_tool-Justifies true name spec payload g = run_validated-Justifies name spec payload _ g

  -- In the result of a call of a registered tool, every attempt but the last had the validated input
  -- and failed with a timeout, a broken connection, a rate limit or a server error. Where the status
  -- is SUCCEEDED, the last attempt returned, for the validated input, a dict that is not empty, has no
  -- truthy `error`, `isError`, `partial` or `truncated`, and has at most 64000 characters of JSON, and
  -- the output is that dict redacted.
  pub call-Justifies :
      (registry : Registry) (name : String) (spec : ToolSpec) (payload : Json) (g : Gateway)
      → lookup name registry ≡ some spec
      → Justifies outside spec
          (validate_input outside.dump_length outside.shown outside.shown_sorted spec.name
            spec.input_schema payload)
          (call outside call_id run_id trace_id registry name payload g).0
  unfolding call
  call-Justifies registry name spec payload g found =
      rw (call, found) (call_tool-Justifies (can_call_tool g.budget) name spec payload g)
