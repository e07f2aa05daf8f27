-- ===== src/System/Exclusion.antt =====
-- Exclusive ownership of a run among all the workers of src/incidentpilot (persistence/jobs.py,
-- persistence/ownership.py).
use incidentpilot.Base.{
  ℕ, String, ◌≡◌, sym, ◌∙◌, ap, inl, inr, some, List, [], ◌∷◌, arith, In, All-In, ok,
}
use incidentpilot.Store.{AgentRun}
use incidentpilot.Store.Rows.{Unique-eq}
use incidentpilot.Store.Keeps.{run_id_of}
use incidentpilot.Jobs.{ClaimedRun}
use incidentpilot.Ownership.{fence}
use incidentpilot.Ownership.Fencing.{fence-Held}
use incidentpilot.System.{World, empty, Reach}
use incidentpilot.System.Invariant.{Ordered, Reach-Inv, empty-Inv}

-- A run and an attempt number determine the claim.
Ordered-eq :
    (cs : List ClaimedRun) (c d : ClaimedRun)
    → Ordered cs
    → In c cs
    → In d cs
    → c.run_id ≡ d.run_id
    → c.attempt_count ≡ d.attempt_count
    → c ≡ d
Ordered-eq [] c d o i j e n = elim i [ ]
Ordered-eq (x ∷ cs) c d o (inl i) (inl j) e n = i ∙ sym j
Ordered-eq (x ∷ cs) c d o (inl i) (inr j) e n =
    let below = All-In _ cs d o.0 j (sym e ∙ ap (λ (z : ClaimedRun). z.run_id) i) in
    absurd (omega (arith, n, ap (λ (z : ClaimedRun). z.attempt_count) i, below))
Ordered-eq (x ∷ cs) c d o (inr i) (inl j) e n =
    let below = All-In _ cs c o.0 i (e ∙ ap (λ (z : ClaimedRun). z.run_id) j) in
    absurd (omega (arith, n, ap (λ (z : ClaimedRun). z.attempt_count) j, below))
Ordered-eq (x ∷ cs) c d o (inr i) (inr j) e n = Ordered-eq cs c d o.1 i j e n

module _ (hash_patch : String → String) where
  -- Of all the claims ever issued on a run, at most one passes the fence at a reachable state, also
  -- when the workers read different clocks: two that pass are the same claim.
  pub fence_exclusive :
      {w : World} (c d : ClaimedRun) (run_id : String) (now now' : ℕ) (rs rs' : List AgentRun)
      → Reach hash_patch empty w
      → In c w.issued
      → In d w.issued
      → fence (some c) w.runs run_id now ≡ ok rs
      → fence (some d) w.runs run_id now' ≡ ok rs'
      → c ≡ d
  fence_exclusive {w} c d run_id now now' rs rs' reached i j p q =
      let v = Reach-Inv hash_patch reached empty-Inv in
      let (named, held, _) = fence-Held c w.runs run_id now p in
      let (named', held', _) = fence-Held d w.runs run_id now' q in
      let same_run : c.run_id ≡ d.run_id = named ∙ sym named' in
      let row : held.row ≡ held'.row =
        Unique-eq run_id_of w.runs held.row held'.row v.run_ids held.stored held'.stored
          (held.same_run ∙ same_run ∙ sym held'.same_run) in
      Ordered-eq w.issued c d v.ordered i j same_run
        (sym held.attempt ∙ ap (λ (x : AgentRun). x.attempt_count) row ∙ held'.attempt)
