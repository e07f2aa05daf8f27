-- ===== src/ApprovalResume/Marking.antt =====
-- Marking a run and reading it back, in src/incidentpilot/agent/approval_resume.py: the row that is
-- refreshed is the row of the same run.
use incidentpilot.Base.{
  ℕ, String, ◌≡◌, refl, sym, ◌∙◌, ap, subst, Option, List, ◌==◌, ==→eq, string_eq, In,
  find_where-In, Result, ok, err, or_raise-ok, arith,
}
use incidentpilot.Base.Exec.{commit}
use incidentpilot.Enums.{RunStatus}
use incidentpilot.Store.{AgentRun}
use incidentpilot.Store.Rows.{Unique, Unique-eq}
use incidentpilot.Store.Keeps.{Keeps, id_of}
use incidentpilot.Jobs.{ClaimedRun}
use incidentpilot.Services.{Marks, mark_status}
use incidentpilot.Services.Keeps.{mark-Keeps}
use incidentpilot.ApprovalResume.Loading.{Db}
use incidentpilot.ApprovalResume.{map_ok, set_runs, marked, refreshed}

pub commit-ok :
    (f : Db → Result Db) (db db' : Db) {u : Unit {0}} → commit f db ≡ (ok u, db') → f db ≡ ok db'
commit-ok f db db' h = ground arith

pub map_ok-ok :
    {A B : Type 0} (f : A → B) (r : Result A) {b : B}
    → map_ok f r ≡ ok b
    → (a : A) × (r ≡ ok a) × (b ≡ f a)
map_ok-ok f (ok a) h = (a, refl, cc)
map_ok-ok f (err e) h = cc

module _ (hash_patch : String → String) (claim : Option ClaimedRun) (clock : ℕ → ℕ) where
  pub marking :
      (run : AgentRun) (status : RunStatus) (m : Marks) (i : ℕ) (db db' : Db) {u : Unit {0}}
      → marked hash_patch claim clock run status m i db ≡ (ok u, db')
      → (db'.effects ≡ db.effects) × Keeps db.runs db'.runs
  unfolding marked
  marking run status m i db db' h =
      let write =
        λ (d : Db). map_ok (set_runs d) (mark_status claim d.runs run status m (clock i)) in
      let (runs, written, e) =
        map_ok-ok (set_runs db) (mark_status claim db.runs run status m (clock i))
          (commit-ok write db db' h) in
      (
        ap (λ (d : Db). d.effects) e,
        subst (Keeps db.runs) (sym (ap (λ (d : Db). d.runs) e))
            (mark-Keeps claim db.runs run (clock i) runs status m written),
      )

  pub refreshed_same :
      (run current : AgentRun) (rs : List AgentRun) (db db' : Db)
      → Keeps rs db.runs
      → Unique id_of rs
      → In run rs
      → refreshed hash_patch claim clock run db ≡ (ok current, db')
      → (current.run_id ≡ run.run_id) × (current.id ≡ run.id) × (db' ≡ db)
  refreshed_same run current rs db db' k u i h =
      let read = ap (λ (p : Result AgentRun × Db). p.0) h in
      let (j, q) =
        find_where-In (λ (r : AgentRun). r.id == run.id) db.runs current (or_raise-ok _ _ read) in
      let (s, l, b) = k.evolves run i in
      let same : current ≡ s =
        Unique-eq id_of db.runs current s (k.ids u) j l (==→eq _ _ q ∙ sym b.same_id) in
      (
        ap (λ (r : AgentRun). r.run_id) same ∙ b.same_run,
        ap (λ (r : AgentRun). r.id) same ∙ b.same_id,
        sym (ap (λ (p : Result AgentRun × Db). p.1) h),
      )
