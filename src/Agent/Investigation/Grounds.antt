-- ===== src/Agent/Investigation/Grounds.antt =====
-- What a root cause that verify_hypothesis_node of src/incidentpilot/agent/graph.py declares rests on.
use incidentpilot.Base.{
  String, ◌≤◌, ◌≡◌, ◌≢◌, refl, sym, subst, Bool, true, false, ◌||◌, not, inl, inr, Option, none,
  some, List, [], ◌∷◌, ◌++◌, ◌==◌, ==→eq, string_eq, Bool-cases, and_true, In, leb, leb→le, Result,
  ok, err, Exception, ◌>>=◌,
}
use incidentpilot.Base.Exec.{Exec, bind, continue, lift}
use incidentpilot.Json.{Dict}
use incidentpilot.Enums.{RunStatus, status_eq, contains}
use incidentpilot.Tools.Gateway.{ToolResult, Gateway, can_step}
use incidentpilot.Agent.Evidence.{Evidence, valid_evidence}
use incidentpilot.Agent.Evidence.Valid.{Distinct, valid_evidence_sound}
use incidentpilot.Agent.State.{
  Settings, Hypothesis, RootCauseConclusion, RootCause, ToolSelection, AgentState, Decisions,
  Runtime, ids_of, subset, insufficient,
}
use incidentpilot.Agent.Investigation.{
  rejected_state, cites_known, cites_last, sources_cited, distinct_count, rejected_count, concluded,
}
use incidentpilot.Agent.Investigation.Collect.{call_tool}
use incidentpilot.Agent.Investigation.Verify.{
  verify_hypothesis_node, check_last, observe, informed, verdict, after_verdict, conclusion_state,
  accepted, found, uninformative, verification_selection, verification_item,
}

-- The state holds backed evidence only, and the root cause cites it.
pub record Grounded (content_hash : Dict → String) (s : AgentState) (rc : RootCause) : Type 0 where
  pub backed : Distinct content_hash s.tool_calls s.run_id [] s.evidence
  pub marked_verified : rc.verified ≡ true
  pub cites : rc.evidence_ids ≢ []
  pub cites_evidence :
      (id : String)
      → In id rc.evidence_ids
      → (e : Evidence) × In e s.evidence × (e.evidence_id ≡ id)
  pub cites_newest : cites_last rc.evidence_ids s.evidence ≡ true
  pub two_sources : 2 ≤ distinct_count (sources_cited rc.evidence_ids s.evidence)

contains-In : (x : String) (xs : List String) → contains x xs ≡ true → In x xs
contains-In x [] h = cc
contains-In x (y ∷ ys) h = elim (Bool-cases (x == y)) [
  | inl e ↦ inl (==→eq x y e)
  | inr e ↦ inr (contains-In x ys (rw e at h))
]

subset-In : (xs ys : List String) → subset xs ys ≡ true → (x : String) → In x xs → In x ys
subset-In [] ys h x i = elim i [ ]
subset-In (y ∷ xs) ys h x (inl e) =
    let (a, b) = and_true _ _ h in subst (λ z. In z ys) (sym e) (contains-In y ys a)
subset-In (y ∷ xs) ys h x (inr i) = let (a, b) = and_true _ _ h in subset-In xs ys b x i

ids_of-In :
    (id : String) (es : List Evidence)
    → In id (ids_of es)
    → (e : Evidence) × In e es × (e.evidence_id ≡ id)
ids_of-In id [] i = elim i [ ]
ids_of-In id (x ∷ es) (inl e) = (x, inl refl, sym e)
ids_of-In id (x ∷ es) (inr i) = let (y, j, e) = ids_of-In id es i in (y, inr j, e)

-- A property of outcomes that holds of every exception and of every continuation holds of a bind.
module _ {S A B : Type 0} (P : Result B × S → Type 0)
    (raised : (e : Exception) (s : S) → P (err e, s)) where
  continue-holds :
      (r : Result A) (f : A → Exec S B) (s : S) → ((a : A) (t : S) → P (f a t)) → P (continue r f s)
  continue-holds (ok a) f s h = h a s
  continue-holds (err e) f s h = raised e s

  pub bind-holds :
      (m : Exec S A) (f : A → Exec S B) (s : S) → ((a : A) (t : S) → P (f a t)) → P (bind m f s)
  bind-holds m f s h = continue-holds (m s).0 f (m s).1 h

module _ {S B : Type 0} (P : Result B × S → Type 0) where
  pub branch-holds :
      (b : Bool) (x y : Exec S B) (s : S)
      → P (x s)
      → P (y s)
      → let chosen : Exec S B = elim b [ true ↦ x | false ↦ y ] in P (chosen s)
  branch-holds true x y s h k = h
  branch-holds false x y s h k = k

module _ (settings : Settings) (decide : Decisions) (runtime : Runtime) where
  -- A root cause in the resulting state is grounded there.
  abbrev pub Sound : Result AgentState × Gateway → Type 0
  Sound (ok s, g) = (rc : RootCause) → s.root_cause ≡ some rc → Grounded runtime.content_hash s rc
  Sound (err e, g) = Unit

  none_found : (s : AgentState) (g : Gateway) → s.root_cause ≡ none → Sound (ok s, g)
  none_found s g h rc e = cc

  accepted-Grounded :
      (s : AgentState) (c : RootCauseConclusion)
      → Distinct runtime.content_hash s.tool_calls s.run_id [] s.evidence
      → accepted settings decide runtime c s.evidence ≡ true
      → Grounded runtime.content_hash s (concluded true c)
  accepted-Grounded s c backed h =
      let (known, rest) = and_true _ _ h in
      let (newest, rest') = and_true _ _ rest in
      let (two, _) = and_true _ _ rest' in
      record {
        backed = backed;
        marked_verified = refl;
        cites = nonempty c.supporting_evidence_ids s.evidence known;
        cites_evidence = λ id i. cited c.supporting_evidence_ids s.evidence known id i;
        cites_newest = newest;
        two_sources =
            leb→le 2 (distinct_count (sources_cited c.supporting_evidence_ids s.evidence)) two;
      }
    where
      nonempty : (ids : List String) (es : List Evidence) → cites_known ids es ≡ true → ids ≢ []
      nonempty [] es k e = cc
      nonempty (i ∷ ids) es k e = cc

      cited :
          (ids : List String) (es : List Evidence)
          → cites_known ids es ≡ true
          → (id : String) → In id ids
          → (e : Evidence) × In e es × (e.evidence_id ≡ id)
      cited [] es k id i = elim i [ ]
      cited (j ∷ ids) es k id i = ids_of-In id es (subset-In (j ∷ ids) (ids_of es) k id i)

  some-Grounded :
      (s : AgentState) (a b : RootCause)
      → Grounded runtime.content_hash s a
      → some a ≡ some b
      → Grounded runtime.content_hash s b
  some-Grounded s a b h e = let same : a ≡ b = cc in subst (Grounded runtime.content_hash s) same h

  found-Sound :
      (s : AgentState) (c : RootCauseConclusion) (g : Gateway)
      → Distinct runtime.content_hash s.tool_calls s.run_id [] s.evidence
      → accepted settings decide runtime c s.evidence ≡ true
      → Sound (ok (found settings decide runtime s c), g)
  found-Sound s c g backed a = elim (Bool-cases settings.investigation_only) [
    | inl only ↦
        rw only (λ rc e. some-Grounded _ (concluded true c) rc (accepted-Grounded _ c backed a) e)
    | inr full ↦
        rw full (λ rc e. some-Grounded _ (concluded true c) rc (accepted-Grounded _ c backed a) e)
  ]

  conclusion-Sound :
      (s : AgentState) (c : RootCauseConclusion) (g : Gateway)
      → s.root_cause ≡ none
      → Distinct runtime.content_hash s.tool_calls s.run_id [] s.evidence
      → Sound (ok (conclusion_state settings decide runtime s c), g)
  conclusion-Sound s c g h backed =
      elim (Bool-cases (accepted settings decide runtime c s.evidence)) [
        | inr refused ↦ rw refused (none_found (insufficient s) g h)
        | inl a ↦ rw a (found-Sound s c g backed a)
      ]

  rejected-Sound :
      (s : AgentState) (h : Hypothesis) (g : Gateway)
      → s.root_cause ≡ none
      → Sound (ok (rejected_state s h g), g)
  rejected-Sound s h g e = elim (Bool-cases (leb 3 (rejected_count s) || not (can_step g.budget))) [
    | inl stop ↦ rw stop (none_found _ g e)
    | inr go ↦ rw go (none_found _ g e)
  ]

  after_verdict-Sound :
      (supported : Bool) (s : AgentState) (h : Hypothesis) (g : Gateway)
      → s.root_cause ≡ none
      → Distinct runtime.content_hash s.tool_calls s.run_id [] s.evidence
      → Sound (after_verdict settings decide runtime supported s h g)
  after_verdict-Sound false s h g e backed = rejected-Sound s h g e
  after_verdict-Sound true s h g e backed = by_answer (decide.conclude s h s.evidence)
    where
      by_answer :
          (r : Result RootCauseConclusion)
          → Sound ((r >>= λ c. ok (conclusion_state settings decide runtime s c)), g)
      by_answer (ok c) = conclusion-Sound s c g e backed
      by_answer (err x) = tt

  informed-Sound :
      (s : AgentState) (evidence : List Evidence) (proposal : Hypothesis) (g : Gateway)
      → s.root_cause ≡ none
      → Sound (informed settings decide runtime s evidence proposal g)
  informed-Sound s evidence proposal g e =
      let kept = valid_evidence runtime.content_hash evidence s.tool_calls s.run_id in
      let backed = (valid_evidence_sound runtime.content_hash s.tool_calls s.run_id evidence).0 in
      bind-holds Sound (λ x t. tt) (lift (decide.verify proposal kept))
        (verdict settings decide runtime (record s { evidence = kept }) proposal) g
        (λ v t. after_verdict-Sound v.hypothesis_supported _ _ t e backed)

  observe-Sound :
      (s : AgentState) (t : ToolSelection) (proposal : Hypothesis) (r : ToolResult) (g : Gateway)
      → s.root_cause ≡ none
      → Sound (observe settings decide runtime s t proposal r g)
  observe-Sound s t proposal r g e =
      branch-holds Sound (uninformative settings decide runtime s r) _ _ g (none_found _ g e) (
        informed-Sound (record s { tool_calls = s.tool_calls ++ r ∷ [] })
          (s.evidence ++ verification_item settings decide runtime s t r ∷ []) proposal g e)

  check_last-Sound :
      (s : AgentState) (o : Option Hypothesis) (g : Gateway)
      → s.root_cause ≡ none
      → Sound (check_last settings decide runtime s o g)
  check_last-Sound s none g e = none_found (insufficient s) g e
  check_last-Sound s (some proposal) g e =
      bind-holds Sound (λ x t. tt)
        (lift
          (verification_selection settings decide runtime settings.evaluation_strategy s proposal))
        (λ t.
          bind (call_tool settings decide runtime s s.tool_calls t)
            (observe settings decide runtime s t proposal))
        g
        (λ t h.
          bind-holds Sound (λ x t. tt) (call_tool settings decide runtime s s.tool_calls t)
            (observe settings decide runtime s t proposal) h
            (λ r k. observe-Sound s t proposal r k e))

  -- From a state without a root cause, whatever the decision model and the tools answer: a root
  -- cause in the state that `verify_hypothesis_node` returns is marked verified and cites at least
  -- one identifier, each the identifier of an item of that state's evidence, the last item's among
  -- them, and the cited items have at least two sources. All the evidence of that state is backed by
  -- successful tool calls of the run, with distinct digests.
  pub verify_hypothesis_node-Sound :
      (s : AgentState) (g : Gateway)
      → s.root_cause ≡ none
      → Sound (verify_hypothesis_node settings decide runtime s g)
  unfolding verify_hypothesis_node
  verify_hypothesis_node-Sound s g e =
      branch-holds Sound (s.status == RunStatus.running) _ _ g (check_last-Sound _ _ g e)
        (none_found _ g e)
