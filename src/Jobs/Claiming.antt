-- ===== src/Jobs/Claiming.antt =====
-- Which run claim_next_run takes.
use incidentpilot.Base.{
  ℕ, String, ◌≡◌, refl, sym, subst, Bool, true, false, inl, inr, Option, none, some, List, [], ◌∷◌,
  arith, ◌==◌, if◌then◌else◌, Bool-cases, In, All, update_where, string_eq,
}
use incidentpilot.Store.{AgentRun}
use incidentpilot.Jobs.{
  ClaimedRun, claimable, before, better, first_by_order, claim_row, claim_of, claim_next_run,
}

before_total : (a b : AgentRun) → before a b ≡ false → before b a ≡ true
before_total a b h = ground arith

before_trans : (a b c : AgentRun) → before a b ≡ true → before b c ≡ true → before a c ≡ true
before_trans a b c h k = ground arith

before_refl : (a : AgentRun) → before a a ≡ true
before_refl a = ground arith

-- No row that satisfies `p` stands strictly before `r`.
abbrev pub IsFirst : (AgentRun → Bool) → List AgentRun → AgentRun → Type 0
IsFirst p rs r = All (λ s. p s ≡ true → before r s ≡ true) rs

IsFirst-trans :
    (p : AgentRun → Bool) (rs : List AgentRun) (r s : AgentRun)
    → before r s ≡ true
    → IsFirst p rs s
    → IsFirst p rs r
IsFirst-trans p [] r s h f = tt
IsFirst-trans p (x ∷ rs) r s h f = (λ e. before_trans r s x h (f.0 e), IsFirst-trans p rs r s h f.1)

-- What the ordered selection with LIMIT 1 promises.
abbrev pub Selects : (AgentRun → Bool) → List AgentRun → Option AgentRun → Type 0
Selects p rs none = All (λ r. p r ≡ false) rs
Selects p rs (some r) = In r rs × (p r ≡ true) × IsFirst p rs r

IsFirst-of_none :
    (p : AgentRun → Bool) (rs : List AgentRun) (r : AgentRun)
    → All (λ s. p s ≡ false) rs
    → IsFirst p rs r
IsFirst-of_none p [] r h = tt
IsFirst-of_none p (x ∷ rs) r h = (λ e. ground (arith, h.0), IsFirst-of_none p rs r h.1)

better_first : (x s : AgentRun) → before x s ≡ true → better x (some s) ≡ x
unfolding better
better_first x s h = rw h

better_second : (x s : AgentRun) → before x s ≡ false → better x (some s) ≡ s
unfolding better
better_second x s h = rw h

better_alone : (x : AgentRun) → better x none ≡ x
unfolding better
better_alone x = refl

-- The step of the selection keeps its promise, whichever row it leaves selected.
module _ (p : AgentRun → Bool) (x : AgentRun) (rs : List AgentRun) where
  chosen :
      (o : Option AgentRun) (y : AgentRun)
      → p x ≡ true
      → better x o ≡ y
      → Selects p (x ∷ rs) (some y)
      → Selects p (x ∷ rs) (if p x then some (better x o) else o)
  chosen o y e b =
      let picked : (if p x then some (better x o) else o) ≡ some y = rw (e, b) in
      subst (Selects p (x ∷ rs)) (sym picked)

  passed :
      (o : Option AgentRun)
      → p x ≡ false
      → Selects p (x ∷ rs) o
      → Selects p (x ∷ rs) (if p x then some (better x o) else o)
  passed o e =
      let kept : (if p x then some (better x o) else o) ≡ o = rw e in
      subst (Selects p (x ∷ rs)) (sym kept)

  select_step :
      (o : Option AgentRun)
      → Selects p rs o
      → Selects p (x ∷ rs) (if p x then some (better x o) else o)
  select_step none h = elim (Bool-cases (p x)) [
    | inl e ↦
        chosen none x e (better_alone x)
          (inl refl, e, ((λ _. before_refl x), IsFirst-of_none p rs x h))
    | inr e ↦ passed none e (e, h)
  ]
  select_step (some s) (i, q, f) = elim (Bool-cases (p x)) [
    | inl e ↦ elim (Bool-cases (before x s)) [
      | inl b ↦
          chosen (some s) x e (better_first x s b)
            (inl refl, e, ((λ _. before_refl x), IsFirst-trans p rs x s b f))
      | inr b ↦ chosen (some s) s e (better_second x s b) (inr i, q, ((λ _. before_total x s b), f))
    ]
    | inr e ↦ passed (some s) e (inr i, q, ((λ k. ground arith), f))
  ]

first_by_order-Selects :
    (p : AgentRun → Bool) (rs : List AgentRun) → Selects p rs (first_by_order p rs)
unfolding first_by_order
first_by_order-Selects p [] = tt
first_by_order-Selects p (x ∷ rs) = select_step p x rs _ (first_by_order-Selects p rs)

module _ (runs : List AgentRun) (worker_id : String) (lease_seconds max_attempts current : ℕ)
    (run_id : Option String) (locked : String → Bool) where
  -- The outcome of a claim: none when no row is claimable, otherwise the first claimable row in the
  -- queue's order, written by its primary key.
  abbrev pub Claims : Option ClaimedRun × List AgentRun → Type 0
  Claims (none, runs') =
      All (λ r. claimable current max_attempts run_id locked r ≡ false) runs × (runs' ≡ runs)
  Claims (some c, runs') =
      (r : AgentRun) × Selects (claimable current max_attempts run_id locked) runs (some r)
      × (c ≡ claim_of worker_id r)
      × (runs' ≡ update_where (λ s. s.id == r.id) (claim_row worker_id lease_seconds current) runs)

  claim_of_selected :
      (o : Option AgentRun)
      → Selects (claimable current max_attempts run_id locked) runs o
      → Claims (elim o [
        | none ↦ (none, runs)
        | some r ↦ (
          some (claim_of worker_id r),
          update_where (λ s. s.id == r.id) (claim_row worker_id lease_seconds current) runs,
        )
      ])
  claim_of_selected none h = (h, refl)
  claim_of_selected (some r) h = (r, h, refl, refl)

  -- claim_next_run takes nothing exactly when no row is claimable (and then changes no row); else it
  -- takes a claimable row that no other claimable row precedes in the queue's order, and leases it.
  pub claim_next_run-Claims :
      Claims (claim_next_run runs worker_id lease_seconds max_attempts current run_id locked)
  unfolding claim_next_run
  claim_next_run-Claims = claim_of_selected _ (first_by_order-Selects _ runs)
