-- ===== src/Agent/Evidence/Valid.antt =====
-- What valid_evidence of src/incidentpilot/agent/evidence.py keeps.
use incidentpilot.Base.{
  String, ◌≡◌, refl, sym, ap, subst, Bool, true, false, ◌&&◌, ◌||◌, not, ◌⊎◌, inl, inr, Option,
  none, some, List, [], ◌∷◌, ◌==◌, ==→eq, string_eq, nat_eq, Bool-cases, Option-cases, and_true, In,
  arith,
}
use incidentpilot.Json.{obj, Dict, size, flag, json_beq}
use incidentpilot.Enums.{ToolCallStatus, call_status_eq, contains}
use incidentpilot.Tools.Gateway.{ToolResult}
use incidentpilot.Agent.Evidence.{
  Evidence, succeeded_as, successful, backed_by, acceptable, valid_from, valid_evidence,
}

-- What stands behind an item: a call that succeeded under its identifier, with its result.
pub record Backed (content_hash : Dict → String) (calls : List ToolResult) (run_id : String)
    (item : Evidence) : Type 0 where
  pub call : ToolResult
  pub made : In call calls
  pub call_succeeded : call.status ≡ ToolCallStatus.succeeded
  pub same_id : call.tool_call_id ≡ item.tool_call_id
  pub same_output : json_beq (obj item.result) call.output ≡ true
  pub own_run : item.run_id ≡ run_id
  pub nonempty : (size item.result == 0) ≡ false
  pub intact : item.hash ≡ content_hash item.result
  pub complete :
      (flag "error" item.result || (flag "partial" item.result || flag "truncated" item.result))
      ≡ false

successful-In :
    (calls : List ToolResult) (id : String) (call : ToolResult)
    → successful calls id ≡ some call
    → In call calls × (succeeded_as id call ≡ true)
successful-In [] id call h = cc
successful-In (c ∷ cs) id call h = elim (Option-cases (successful cs id)) [
  | inr (later, e) ↦
      let same : later ≡ call = ground arith in
      let (i, t) = successful-In cs id later e in
      (inr (subst (λ x. In x cs) same i), subst (λ x. succeeded_as id x ≡ true) same t)
  | inl e ↦ elim (Bool-cases (succeeded_as id c)) [
    | inl t ↦
        let same : c ≡ call = ground arith in
        (inl (sym same), subst (λ x. succeeded_as id x ≡ true) same t)
    | inr f ↦ ground arith
  ]
]

five :
    (a b c d e : Bool)
    → (a && (b && (c && (d && e)))) ≡ true
    → (a ≡ true) × (b ≡ true) × (c ≡ true) × (d ≡ true) × (e ≡ true)
five a b c d e h = ground arith

not-true : (b : Bool) → not b ≡ true → b ≡ false
not-true b h = ground arith

module _ (content_hash : Dict → String) (calls : List ToolResult) (run_id : String) where
  backed :
      (item : Evidence) (o : Option ToolResult)
      → successful calls item.tool_call_id ≡ o
      → backed_by content_hash run_id item o ≡ true
      → Backed content_hash calls run_id item
  backed item none e h = cc
  backed item (some call) e h =
      let (i, t) = successful-In calls item.tool_call_id call e in
      let (ran, id) = and_true _ _ t in
      let (own, full, same, digest, whole) = five _ _ _ _ _ h in
      record {
        call = call;
        made = i;
        call_succeeded = ==→eq call.status ToolCallStatus.succeeded ran;
        same_id = ==→eq call.tool_call_id item.tool_call_id id;
        same_output = same;
        own_run = ==→eq item.run_id run_id own;
        nonempty = not-true _ full;
        intact = ==→eq item.hash (content_hash item.result) digest;
        complete = not-true _ whole;
      }

  -- Each item is acceptable, and its digest is neither one of `seen` nor that of an earlier item.
  abbrev pub Distinct : List String → List Evidence → Type 0
  Distinct seen [] = Unit
  Distinct seen (item ∷ items) =
      Backed content_hash calls run_id item
      × (contains (content_hash item.result) seen ≡ false)
      × Distinct (content_hash item.result ∷ seen) items

  valid_from-Distinct :
      (seen : List String) (items : List Evidence)
      → Distinct seen (valid_from content_hash calls run_id seen items)
  valid_from-Distinct seen [] = tt
  valid_from-Distinct seen (item ∷ items) =
      elim (Bool-cases (
        acceptable content_hash calls run_id item
        && not (contains (content_hash item.result) seen))) [
          | inr no_more ↦ rw no_more (valid_from-Distinct seen items)
          | inl h ↦
              let (a, b) = and_true _ _ h in
              rw h (
                backed item (successful calls item.tool_call_id) refl a,
                not-true _ b,
                valid_from-Distinct (content_hash item.result ∷ seen) items,
              )
        ]

  valid_from-In :
      (seen : List String) (items : List Evidence) (item : Evidence)
      → In item (valid_from content_hash calls run_id seen items)
      → In item items
  valid_from-In seen [] item i = i
  valid_from-In seen (x ∷ items) item i =
      elim (Bool-cases
        (acceptable content_hash calls run_id x && not (contains (content_hash x.result) seen))) [
          | inr no_more ↦ inr (valid_from-In seen items item (rw no_more at i))
          | inl h ↦
              let j : In item
                  (x ∷ valid_from content_hash calls run_id (content_hash x.result ∷ seen) items) =
                rw h at i in
              elim j [
                | inl e ↦ inl e
                | inr k ↦ inr (valid_from-In (content_hash x.result ∷ seen) items item k)
              ]
        ]

  valid_from-stable :
      (seen : List String) (items : List Evidence)
      → valid_from content_hash calls run_id seen (valid_from content_hash calls run_id seen items)
        ≡ valid_from content_hash calls run_id seen items
  valid_from-stable seen [] = refl
  valid_from-stable seen (item ∷ items) =
      elim (Bool-cases (
        acceptable content_hash calls run_id item
        && not (contains (content_hash item.result) seen))) [
          | inr no_more ↦ rw no_more (valid_from-stable seen items)
          | inl h ↦
              rw (h, h)
                (ap (λ rest. item ∷ rest)
                  (valid_from-stable (content_hash item.result ∷ seen) items))
        ]

  -- The digest is that of an item that is kept, or was seen before.
  abbrev Covered : String → List String → List Evidence → Type 0
  Covered digest seen kept =
      (contains digest seen ≡ true)
      ⊎ ((item : Evidence) × In item kept × (content_hash item.result ≡ digest))

  seen_or_kept :
      (digest : String) (seen : List String) (x : Evidence) (kept : List Evidence)
      → Covered digest (content_hash x.result ∷ seen) kept
      → Covered digest seen (x ∷ kept)
  seen_or_kept digest seen x kept (inr (y, i, e)) = inr (y, inr i, e)
  seen_or_kept digest seen x kept (inl h) = elim (Bool-cases (digest == content_hash x.result)) [
    | inl same ↦ inr (x, inl refl, sym (==→eq digest (content_hash x.result) same))
    | inr other ↦ inl (rw other at h)
  ]

  refused_digest : (a b : Bool) → a ≡ true → (a && not b) ≡ false → b ≡ true
  refused_digest a b h f = ground arith

  valid_from-Covered :
      (seen : List String) (items : List Evidence) (item : Evidence)
      → In item items
      → acceptable content_hash calls run_id item ≡ true
      → Covered (content_hash item.result) seen (valid_from content_hash calls run_id seen items)
  valid_from-Covered seen [] item i h = elim i [ ]
  valid_from-Covered seen (x ∷ items) item (inl e) h =
      elim (Bool-cases
        (acceptable content_hash calls run_id x && not (contains (content_hash x.result) seen))) [
          | inl t ↦ rw t (inr (x, inl refl, ap (λ y. content_hash y.result) (sym e)))
          | inr f ↦
              let good = subst (λ y. acceptable content_hash calls run_id y ≡ true) e h in
              let again =
                refused_digest (acceptable content_hash calls run_id x)
                  (contains (content_hash x.result) seen) good f in
              inl (subst (λ y. contains (content_hash y.result) seen ≡ true) (sym e) again)
        ]
  valid_from-Covered seen (x ∷ items) item (inr j) h =
      elim (Bool-cases
        (acceptable content_hash calls run_id x && not (contains (content_hash x.result) seen))) [
          | inl t ↦ rw t (
              seen_or_kept (content_hash item.result) seen x _
                (valid_from-Covered (content_hash x.result ∷ seen) items item j h))
          | inr f ↦ rw f (valid_from-Covered seen items item j h)
        ]

  -- Of the items that `valid_evidence` returns, each is one of the given items and is backed: a call
  -- of the given ones with its identifier succeeded and has its result as output, the item belongs to
  -- the run, its hash is the digest of its result, and the result is not empty and has no truthy
  -- `error`, `partial` or `truncated`. No two of them have one digest. The digest of every acceptable
  -- item is the digest of one that is returned. A second pass changes nothing.
  pub valid_evidence_sound :
      (evidence : List Evidence)
      → let kept = valid_evidence content_hash evidence calls run_id in
        Distinct [] kept
        × ((item : Evidence) → In item kept → In item evidence)
        × ((item : Evidence)
            → In item evidence
            → acceptable content_hash calls run_id item ≡ true
            → (other : Evidence) × In other kept
              × (content_hash other.result ≡ content_hash item.result))
        × (valid_evidence content_hash kept calls run_id ≡ kept)
  unfolding valid_evidence
  valid_evidence_sound evidence = (
    valid_from-Distinct [] evidence,
    valid_from-In [] evidence,
    kept_digest,
    valid_from-stable [] evidence,
  )
    where
      kept_digest :
          (item : Evidence)
          → In item evidence
          → acceptable content_hash calls run_id item ≡ true
          → (other : Evidence) × In other (valid_from content_hash calls run_id [] evidence)
            × (content_hash other.result ≡ content_hash item.result)
      kept_digest item i h = elim (valid_from-Covered [] evidence item i h) [
        | inl stale ↦ cc
        | inr found ↦ found
      ]
