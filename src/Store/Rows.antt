-- ===== src/Store/Rows.antt =====
-- Tables with a unique column, and how one table evolves into the next.
use incidentpilot.Base.{
  String, ◌≤◌, ◌≡◌, ◌≢◌, refl, sym, ◌∙◌, ap, subst, Bool, true, inl, inr, List, [], ◌∷◌, arith,
  if◌then◌else◌, Bool-cases, In, All, All-In, update_where, In-update_where,
}
use incidentpilot.Enums.{RunStatus, contains, run_transitions, status_eq}
use incidentpilot.Enums.Transitions.{History, here, next}
use incidentpilot.Store.{AgentRun}

module _ {Row : Type 0} (key : Row → String) where
  -- UNIQUE(key)
  abbrev pub Unique : List Row → Type 0
  Unique [] = Unit
  Unique (r ∷ rs) = All (λ s. key s ≢ key r) rs × Unique rs

  pub Unique-eq :
      (rs : List Row) (r s : Row) → Unique rs → In r rs → In s rs → key r ≡ key s → r ≡ s
  Unique-eq [] r s u i j e = elim i [ ]
  Unique-eq (x ∷ rs) r s u (inl i) (inl j) e = i ∙ sym j
  Unique-eq (x ∷ rs) r s u (inl i) (inr j) e = absurd (All-In _ rs s u.0 j (sym e ∙ ap key i))
  Unique-eq (x ∷ rs) r s u (inr i) (inl j) e = absurd (All-In _ rs r u.0 i (e ∙ ap key j))
  Unique-eq (x ∷ rs) r s u (inr i) (inr j) e = Unique-eq rs r s u.1 i j e

  module _ (p : Row → Bool) (f : Row → Row) (keeps : (r : Row) → key (f r) ≡ key r) where
    key_kept : (r : Row) → key (if p r then f r else r) ≡ key r
    key_kept r = elim (Bool-cases (p r)) [ inl e ↦ rw e (keeps r) | inr e ↦ rw e ]

    ne-update_where :
        (k : String) (rs : List Row)
        → All (λ s. key s ≢ k) rs
        → All (λ s. key s ≢ k) (update_where p f rs)
    ne-update_where k [] h = tt
    ne-update_where k (r ∷ rs) h = ((λ e. h.0 (sym (key_kept r) ∙ e)), ne-update_where k rs h.1)

    pub Unique-update_where : (rs : List Row) → Unique rs → Unique (update_where p f rs)
    Unique-update_where [] u = tt
    Unique-update_where (r ∷ rs) u = (
      subst (λ k. All (λ s. key s ≢ k) (update_where p f rs)) (sym (key_kept r))
          (ne-update_where (key r) rs u.0),
      Unique-update_where rs u.1,
    )

-- A row stays the same run, its status moves along permitted transitions, and its attempts only
-- grow.
pub record Becomes (r s : AgentRun) : Type 0 where
  pub same_id : s.id ≡ r.id
  pub same_run : s.run_id ≡ r.run_id
  pub history : History r.status s.status
  pub attempts : r.attempt_count ≤ s.attempt_count

pub Becomes-refl : (r : AgentRun) → Becomes r r
Becomes-refl r = record { same_id = refl; same_run = refl; history = here; attempts = omega arith }

History-trans : {s t u : RunStatus} → History s t → History t u → History s u
History-trans h here = h
History-trans h (next k e) = next (History-trans h k) e

pub Becomes-trans : (r s t : AgentRun) → Becomes r s → Becomes s t → Becomes r t
Becomes-trans r s t a b = record {
  same_id = b.same_id ∙ a.same_id;
  same_run = b.same_run ∙ a.same_run;
  history = History-trans a.history b.history;
  attempts = omega arith;
}

-- Every row of the first table lives on in the second.
abbrev pub Evolves : List AgentRun → List AgentRun → Type 0
Evolves rs rs' = (r : AgentRun) → In r rs → (s : AgentRun) × In s rs' × Becomes r s

pub Evolves-trans : (rs ss ts : List AgentRun) → Evolves rs ss → Evolves ss ts → Evolves rs ts
Evolves-trans rs ss ts a b r i =
    let (s, j, h) = a r i in let (t, k, g) = b s j in (t, k, Becomes-trans r s t h g)

-- An UPDATE evolves the table if the assignment is permitted on the rows that it meets.
pub update-Evolves :
    (p : AgentRun → Bool) (f : AgentRun → AgentRun) (rs : List AgentRun)
    → ((r : AgentRun) → In r rs → p r ≡ true → Becomes r (f r))
    → Evolves rs (update_where p f rs)
update-Evolves p f rs allowed r i = (if p r then f r else r, In-update_where p f rs r i, moves)
  where
    moves : Becomes r (if p r then f r else r)
    moves = elim (Bool-cases (p r)) [ inl e ↦ rw e (allowed r i e) | inr e ↦ rw e (Becomes-refl r) ]

-- One permitted transition.
pub one_step : {s t : RunStatus} → contains t (run_transitions s) ≡ true → History s t
one_step h = next here h
