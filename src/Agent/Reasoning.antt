-- ===== src/Agent/Reasoning.antt =====
-- src/incidentpilot/agent/reasoning.py: hypotheses bound to evidence identifiers. An item of evidence
-- is its identifier here, the only key that these helpers read.
pub mod Bindings
use incidentpilot.Base.{
  ℕ, String, ◌≤◌, ◌≡◌, ◌≢◌, refl, Bool, true, false, not, List, [], ◌∷◌, ◌==◌, string_eq,
  if◌then◌else◌, ltb, Result, ok, err, value_error, arith, ◌↔◌,
}
use incidentpilot.Agent.State.{subset}
use incidentpilot.Agent.Investigation.{distinct_count}

-- What verify_hypothesis answers.
pub data Binding : Type 0 where
  bindings_valid : Binding
  no_references unknown_references too_few_references : Binding

-- [e["evidence_id"] for e in evidence if e.get("evidence_id")]
abbrev pub evidence_ids_from : List String → List String
evidence_ids_from [] = []
evidence_ids_from (e ∷ es) = if e == "" then evidence_ids_from es else e ∷ evidence_ids_from es

-- `references` is the list in the hypothesis; the code takes it as a set.
abbrev pub verify_hypothesis : (references known : List String) (min_evidence : ℕ) → Binding
verify_hypothesis [] known min_evidence = no_references
verify_hypothesis (r ∷ rs) known min_evidence =
    if not (subset (r ∷ rs) known)
    then unknown_references
    else if ltb (distinct_count (r ∷ rs)) min_evidence
    then too_few_references
    else bindings_valid

pub record RootCauseForm : Type 0 where
  pub summary : String
  pub evidence_ids : List String
  pub affected_component : String
  pub fault_category : String
  pub causal_facts : List String

abbrev pub form_root_cause :
    (statement : String) (evidence_ids : List String) (affected_component fault_category : String)
    (causal_facts : List String)
    → Result RootCauseForm
form_root_cause statement [] component category facts =
    err (value_error "root cause must reference evidence ids")
form_root_cause statement (i ∷ ids) component category facts = ok (record {
  summary = statement;
  evidence_ids = i ∷ ids;
  affected_component = component;
  fault_category = if category == "" then "unspecified" else category;
  causal_facts = facts;
})

verdict_iff :
    (s : Bool) (n m : ℕ)
    → ((if not s
          then unknown_references
          else if ltb n m
          then too_few_references
          else bindings_valid)
        ≡ bindings_valid)
      ↔ ((s ≡ true) × (m ≤ n))
verdict_iff true n m = ground arith
verdict_iff false n m = ((λ h. cc), (λ h. cc (h.0)))

-- Exactly the hypotheses that cite only known evidence, at least one item and at least the required
-- number of distinct items, are verifiable.
pub verify_hypothesis-valid_iff :
    (references known : List String) (min_evidence : ℕ)
    → (verify_hypothesis references known min_evidence ≡ bindings_valid) ↔ (
        (references ≢ [])
        × (subset references known ≡ true)
        × (min_evidence ≤ distinct_count references))
verify_hypothesis-valid_iff [] known m = ((λ h. cc), (λ h. absurd (h.0 refl)))
verify_hypothesis-valid_iff (r ∷ rs) known m =
    let (there, back) = verdict_iff (subset (r ∷ rs) known) (distinct_count (r ∷ rs)) m in
    ((λ h. ((λ e. cc), (there h).0, (there h).1)), (λ h. back (h.1, h.2)))
