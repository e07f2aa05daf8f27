-- ===== src/Store/Keeps.antt =====
-- The shape of a permitted change to the agent_runs table (models/db.py of src/incidentpilot): keys
-- stay unique, rows evolve, and no attempt number falls back.
use incidentpilot.Base.{
  ℕ, String, ◌≤◌, ◌≡◌, sym, ◌∙◌, Bool, true, List, arith, ◌==◌, ==→eq, string_eq, nat_eq, In, All,
  update_where, update_where-All,
}
use incidentpilot.Enums.{RunStatus, status_eq, contains, run_transitions}
use incidentpilot.Enums.Transitions.{History}
use incidentpilot.Store.{AgentRun}
use incidentpilot.Store.Rows.{
  Unique, Unique-eq, Unique-update_where, Becomes-refl, Evolves, update-Evolves, one_step,
}

abbrev pub id_of : AgentRun → String
id_of r = r.id

abbrev pub run_id_of : AgentRun → String
run_id_of r = r.run_id

-- Each row of run `k` has been claimed at least `n` times.
abbrev pub AtLeast : String → ℕ → List AgentRun → Type 0
AtLeast k n = All (λ r. r.run_id ≡ k → n ≤ r.attempt_count)

pub record Keeps (rs ss : List AgentRun) : Type 0 where
  pub evolves : Evolves rs ss
  pub ids : Unique id_of rs → Unique id_of ss
  pub run_ids : Unique run_id_of rs → Unique run_id_of ss
  pub attempts : (k : String) (n : ℕ) → AtLeast k n rs → AtLeast k n ss

pub Keeps-refl : (rs : List AgentRun) → Keeps rs rs
Keeps-refl rs = record {
  evolves = λ r i. (r, i, Becomes-refl r);
  ids = λ u. u;
  run_ids = λ u. u;
  attempts = λ k n h. h;
}

-- An assignment that keeps the keys and does not lower the attempts.
pub record Assigns (f : AgentRun → AgentRun) : Type 0 where
  pub same_id : (r : AgentRun) → (f r).id ≡ r.id
  pub same_run : (r : AgentRun) → (f r).run_id ≡ r.run_id
  pub attempts : (r : AgentRun) → r.attempt_count ≤ (f r).attempt_count

module _ (p : AgentRun → Bool) (f : AgentRun → AgentRun) (a : Assigns f) where
  pub update-Keeps :
      (rs : List AgentRun)
      → ((r : AgentRun) → In r rs → p r ≡ true → History r.status (f r).status)
      → Keeps rs (update_where p f rs)
  update-Keeps rs allowed = record {
    evolves = update-Evolves p f rs (λ r i e. record {
      same_id = a.same_id r;
      same_run = a.same_run r;
      history = allowed r i e;
      attempts = a.attempts r;
    });
    ids = Unique-update_where id_of p f a.same_id rs;
    run_ids = Unique-update_where run_id_of p f a.same_run rs;
    attempts = λ k n h. update_where-All _ p f rs (λ r old _ e. grown k n r old e) h;
  }
    where
      grown :
          (k : String) (n : ℕ) (r : AgentRun)
          → (r.run_id ≡ k → n ≤ r.attempt_count)
          → (f r).run_id ≡ k
          → n ≤ (f r).attempt_count
      grown k n r old e = omega (arith, old (sym (a.same_run r) ∙ e), a.attempts r)

-- A write by primary key reaches the row that was read and no other.
pub by_id :
    (rs : List AgentRun) (r s : AgentRun)
    → Unique id_of rs
    → In r rs
    → In s rs
    → (s.id == r.id) ≡ true
    → r ≡ s
by_id rs r s u i j e = Unique-eq id_of rs r s u i j (sym (==→eq _ _ e))

pub from_status :
    {s t : RunStatus} (k : RunStatus) → s ≡ k → contains t (run_transitions k) ≡ true → History s t
from_status k e h = one_step (rw e h)

-- Assignments to other columns than the keys and the attempt number.
pub keeps_keys :
    (f : AgentRun → AgentRun)
    → ((r : AgentRun) → (f r).id ≡ r.id)
    → ((r : AgentRun) → (f r).run_id ≡ r.run_id)
    → ((r : AgentRun) → (f r).attempt_count ≡ r.attempt_count)
    → Assigns f
keeps_keys f a b c = record { same_id = a; same_run = b; attempts = λ r. omega (arith, c r) }
