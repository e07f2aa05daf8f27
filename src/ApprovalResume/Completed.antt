-- ===== src/ApprovalResume/Completed.antt =====
-- A resume of src/incidentpilot/agent/approval_resume.py whose side effect already happened.
use incidentpilot.Base.{
  ℕ, String, ◌≡◌, refl, sym, ◌∙◌, ap, subst, false, Option, none, some, List, string_eq, In,
  find_where, Result, ok, err, ok-injective,
}
use incidentpilot.Base.Exec.{Exec, gets, bind, continue}
use incidentpilot.Enums.{RunStatus, WorkflowState, ApprovalDecision, approve, reject, decision_eq}
use incidentpilot.Json.{Dict}
use incidentpilot.Store.{AgentRun, PatchArtifact, ExternalSideEffect, completed}
use incidentpilot.Store.Rows.{Unique}
use incidentpilot.Store.Keeps.{id_of}
use incidentpilot.Jobs.{ClaimedRun}
use incidentpilot.ApprovalResume.Loading.{Db, load}
use incidentpilot.ApprovalResume.{
  Resumed, same_key, is_completed, idempotency_key, fenced, marked, resolve, call_out, approve_path,
  resume_after_approval, refreshed, plain,
}
use incidentpilot.ApprovalResume.Marking.{marking, refreshed_same}
use incidentpilot.ApprovalResume.Once.{
  Github, Quiet, from_effect, from_lookup, from_refresh, from_marking, from_load, looked_up,
}

module _ {A : Type 0} (m : Exec Db A) (f : Github → A → Exec Db Resumed) (db : Db) where
  Quiet-continue :
      (p : Result A × Db)
      → ((a : A) (db' : Db) → p ≡ (ok a, db') → Quiet (λ g. f g a db'))
      → Quiet (λ g. continue p.0 (f g) p.1)
  Quiet-continue (ok a, db') h = h a db' refl
  Quiet-continue (err e, db') h = λ g g'. refl

  bind-Quiet :
      ((a : A) (db' : Db) → m db ≡ (ok a, db') → Quiet (λ g. f g a db'))
      → Quiet (λ g. bind m (f g) db)
  bind-Quiet h = Quiet-continue (m db) h

module _ (hash_patch : String → String) (claim : Option ClaimedRun) (clock : ℕ → ℕ) where
  module _ (run : AgentRun) (artifact : PatchArtifact) (e : ExternalSideEffect) (db : Db)
      (stored : In run db.runs) (unique : Unique id_of db.runs)
      (found : find_where (same_key (idempotency_key run artifact)) db.effects ≡ some e)
      (finished : e.status ≡ completed) where
    finished_effect :
        (current : AgentRun) (o : Option ExternalSideEffect) (db' : Db) (c : Option Dict)
        → c ≡ some e.result
        → Quiet (λ g.
          (elim c as (λ _. Exec Db Resumed) [
            | some pull_request ↦ resolve hash_patch claim clock current pull_request pull_request 2
            | none ↦ call_out hash_patch claim clock g current artifact o
          ])
            db')
    finished_effect current o db' (some d) same = λ g g'. refl
    finished_effect current o db' none same = cc

    done_effect : (o : Option ExternalSideEffect) → o ≡ some e → is_completed o ≡ some e.result
    done_effect o same = rw (same, finished)

    same_effect_found :
        (current : AgentRun) (o : Option ExternalSideEffect) (effects : List ExternalSideEffect)
        → current.run_id ≡ run.run_id
        → effects ≡ db.effects
        → find_where (same_key (idempotency_key current artifact)) effects ≡ o
        → o ≡ some e
    same_effect_found current o effects run_id same looked =
        let there : find_where (same_key (idempotency_key current artifact)) effects ≡ some e =
          rw (run_id, same) found in
        sym looked ∙ there

    approve_path-Quiet : Quiet (λ g. approve_path hash_patch claim clock g run artifact db)
    unfolding approve_path
    approve_path-Quiet =
        bind-Quiet
          (marked hash_patch claim clock run RunStatus.running
            (plain hash_patch claim clock (some WorkflowState.create_pull_request) none none false)
            0)
          (from_marking hash_patch claim clock artifact run) db
          λ _ db1 written.
            let (effects1, k) =
              marking hash_patch claim clock run RunStatus.running _ 0 db db1 written in
            bind-Quiet (refreshed hash_patch claim clock run)
              (from_refresh hash_patch claim clock artifact) db1
              λ current db2 read.
                let (run_id, _, same) =
                  refreshed_same hash_patch claim clock run current db.runs db1 db2 k unique stored
                    read in
                bind-Quiet
                  (gets (λ d. find_where (same_key (idempotency_key current artifact)) d.effects))
                  (from_lookup hash_patch claim clock artifact current) db2
                  λ o db3 looking.
                    let effects : db3.effects ≡ db.effects =
                      sym
                        (ap (λ (p : Result (Option ExternalSideEffect) × Db). p.1.effects) looking)
                      ∙ ap (λ (d : Db). d.effects) same
                      ∙ effects1 in
                    let first : o ≡ some e =
                      same_effect_found current o db3.effects run_id effects
                        (looked_up hash_patch claim clock artifact current o db2 db3 looking) in
                    bind-Quiet (fenced hash_patch claim clock current.run_id 1)
                      (from_effect hash_patch claim clock artifact current o) db3
                      λ _ db4 fencing.
                        finished_effect current o db4 (is_completed o) (done_effect o first)

    resumed :
        (r : Result (AgentRun × PatchArtifact)) (decision : ApprovalDecision)
        → r ≡ ok (run, artifact)
        → Quiet (λ g. continue r (from_load hash_patch claim clock decision g) db)
    resumed (err x) decision same = cc
    resumed (ok (r, a)) reject same = λ g g'. refl
    resumed (ok (r, a)) approve same =
        subst
          (λ (x : AgentRun × PatchArtifact).
            Quiet (λ g. approve_path hash_patch claim clock g x.0 x.1 db))
          (sym (ok-injective same)) approve_path-Quiet

    -- Once the effect of this run and this patch is stored as COMPLETED, a repeated resume does not
    -- call GitHub again: its outcome is the same whatever the call would do.
    pub completed_effect-Quiet :
        (run_id : String) (decision : ApprovalDecision)
        → load hash_patch run_id decision db ≡ ok (run, artifact)
        → Quiet (λ g. resume_after_approval hash_patch claim clock g run_id decision db)
    unfolding resume_after_approval
    completed_effect-Quiet run_id decision loaded =
        resumed (load hash_patch run_id decision db) decision loaded
