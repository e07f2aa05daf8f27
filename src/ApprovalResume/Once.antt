-- ===== src/ApprovalResume/Once.antt =====
-- When resume_after_approval of src/incidentpilot/agent/approval_resume.py calls GitHub, and when it
-- does not.
use incidentpilot.Base.{
  ℕ, String, ◌≡◌, refl, sym, ◌∙◌, ap, subst, false, inl, inr, Option, none, some, List, ◌∷◌, arith,
  ◌==◌, ==→eq, string_eq, nat_eq, if◌then◌else◌, Bool-cases, In, find_where, find_where-In,
  In-update_where_hit, count_where, Result, ok, err, ok-injective,
}
use incidentpilot.Base.Exec.{Exec, gets, commit, bind, continue}
use incidentpilot.Enums.{RunStatus, WorkflowState, ApprovalDecision, approve, reject, decision_eq}
use incidentpilot.Json.{Dict}
use incidentpilot.Store.{AgentRun, PatchArtifact, ExternalSideEffect, in_progress}
use incidentpilot.Jobs.{ClaimedRun}
use incidentpilot.Ownership.{fence}
use incidentpilot.ApprovalResume.Loading.{Db, load, Loaded, load-Loaded}
use incidentpilot.ApprovalResume.Marking.{commit-ok, map_ok-ok, marking, refreshed_same}
use incidentpilot.Store.Rows.{Unique}
use incidentpilot.Store.Keeps.{id_of}
use incidentpilot.ApprovalResume.{
  PullRequest, PrRequest, Resumed, same_key, open_effect, is_completed, reopened, new_effect,
  same_effect, idempotency_key, map_ok, set_runs, set_effects, fenced, marked, resolve, request,
  settle, call_out, approve_path, reject_path, resume_after_approval, refreshed, plain, ◌>>=◌, ◌>>◌,
}

abbrev pub Github : Type 0
Github = PrRequest → Exec Db PullRequest

-- The outcome does not depend on what GitHub would answer: it is not called.
abbrev pub Quiet : (Github → Result Resumed × Db) → Type 0
Quiet F = (g g' : Github) → F g ≡ F g'

module _ (hash_patch : String → String) (claim : Option ClaimedRun) (clock : ℕ → ℕ)
    (artifact : PatchArtifact) (P : Db → AgentRun → Type 0) where
  -- GitHub is not called, or it is called once, where `P` holds, and what follows is settled.
  pub data Guarded (F : Github → Result Resumed × Db) : Type 0 where
    quiet : Quiet F → Guarded F
    calls :
        (db : Db) (run : AgentRun)
        → P db run
        → ((g : Github)
            → F g
              ≡ bind
                  (g (request hash_patch claim clock run artifact))
                  (settle hash_patch claim clock run (idempotency_key run artifact))
                  db)
        → Guarded F

  module _ {A : Type 0} (m : Exec Db A) (f : Github → A → Exec Db Resumed) (db : Db) where
    Guarded-continue :
        (p : Result A × Db)
        → ((a : A) (db' : Db) → p ≡ (ok a, db') → Guarded (λ g. f g a db'))
        → Guarded (λ g. continue p.0 (f g) p.1)
    Guarded-continue (ok a, db') h = h a db' refl
    Guarded-continue (err e, db') h = quiet (λ g g'. refl)

    bind-Guarded :
        ((a : A) (db' : Db) → m db ≡ (ok a, db') → Guarded (λ g. f g a db'))
        → Guarded (λ g. bind m (f g) db)
    bind-Guarded h = Guarded-continue (m db) h

-- The effect row is IN_PROGRESS once it is opened.
opened :
    (run : AgentRun) (key : String) (o : Option ExternalSideEffect)
    (es es' : List ExternalSideEffect)
    → find_where (same_key key) es ≡ o
    → open_effect run key o es ≡ ok es'
    → (e : ExternalSideEffect) × In e es' × (e.idempotency_key ≡ key) × (e.status ≡ in_progress)
opened run key none es es' found h = (new_effect run key, inserted, refl, refl)
  where
    inserted : In (new_effect run key) es'
    inserted = elim (Bool-cases (count_where (same_effect run) es == 0)) [
      | inl e ↦
          let new : new_effect run key ∷ es ≡ es' = ok-injective (rw e at h) in
          subst (In (new_effect run key)) new (inl refl)
      | inr e ↦ absurd (ground arith)
    ]
opened run key (some e) es es' found h =
    let (i, k) = find_where-In (same_key key) es e found in
    (
      reopened e,
      subst (In (reopened e)) (ok-injective h)
          (In-update_where_hit (same_key key) reopened es e i k),
      ==→eq _ _ k,
      refl,
    )

module _ (hash_patch : String → String) (claim : Option ClaimedRun) (clock : ℕ → ℕ) where
  -- A call of fence or mark_status changes no effect.
  pub fenced_effects :
      (run_id : String) (i : ℕ) (db db' : Db) {u : Unit {0}}
      → fenced hash_patch claim clock run_id i db ≡ (ok u, db')
      → (db'.effects ≡ db.effects) × (fence claim db.runs run_id (clock i) ≡ ok db'.runs)
  unfolding fenced
  fenced_effects run_id i db db' h =
      let (runs, held, e) =
        map_ok-ok (set_runs db) (fence claim db.runs run_id (clock i))
          (commit-ok (λ d. map_ok (set_runs d) (fence claim d.runs run_id (clock i))) db db' h) in
      (ap (λ (d : Db). d.effects) e, held ∙ ap ok (sym (ap (λ (d : Db). d.runs) e)))

  -- Where the call goes out, and what holds of the tables then.
  pub record CallPoint (loaded : AgentRun) (artifact : PatchArtifact) (db : Db) (run : AgentRun)
      : Type 0 where
    pub same_run : run.run_id ≡ loaded.run_id
    pub same_id : run.id ≡ loaded.id
    pub effect : ExternalSideEffect
    pub recorded : In effect db.effects
    pub keyed : effect.idempotency_key ≡ idempotency_key run artifact
    pub counted : effect.status ≡ in_progress
    pub fence_held : (rs : List AgentRun) × (fence claim rs run.run_id (clock 2) ≡ ok db.runs)

  -- The rests of call_out and approve_path, from each of their steps on.
  module _ (artifact : PatchArtifact) where
    abbrev pub from_call : AgentRun → Github → Unit {0} → Exec Db Resumed
    from_call run g _ = do
      pr ← g (request hash_patch claim clock run artifact)
      settle hash_patch claim clock run (idempotency_key run artifact) pr

    abbrev pub from_fence : AgentRun → Github → Unit {0} → Exec Db Resumed
    from_fence run g _ = do fenced hash_patch claim clock run.run_id 2; from_call run g tt

    abbrev pub from_effect :
        AgentRun → Option ExternalSideEffect → Github → Unit {0} → Exec Db Resumed
    from_effect run o g _ = elim (is_completed o) [
      | some pull_request ↦ resolve hash_patch claim clock run pull_request pull_request 2
      | none ↦ call_out hash_patch claim clock g run artifact o
    ]

    abbrev pub from_lookup : AgentRun → Github → Option ExternalSideEffect → Exec Db Resumed
    from_lookup run g o = do fenced hash_patch claim clock run.run_id 1; from_effect run o g tt

    abbrev pub from_refresh : Github → AgentRun → Exec Db Resumed
    from_refresh g current = do
      o ← gets (λ db. find_where (same_key (idempotency_key current artifact)) db.effects)
      from_lookup current g o

    abbrev pub from_marking : AgentRun → Github → Unit {0} → Exec Db Resumed
    from_marking run g _ = do current ← refreshed hash_patch claim clock run; from_refresh g current

    abbrev Guards : AgentRun → (Github → Result Resumed × Db) → Type 0
    Guards loaded = Guarded hash_patch claim clock artifact (CallPoint loaded artifact)

    abbrev bind_Guards :
        {A : Type 0} (loaded : AgentRun) (m : Exec Db A) (f : Github → A → Exec Db Resumed)
        (db : Db)
        → ((a : A) (db' : Db) → m db ≡ (ok a, db') → Guards loaded (λ g. f g a db'))
        → Guards loaded (λ g. bind m (f g) db)
    bind_Guards loaded = bind-Guarded hash_patch claim clock artifact (CallPoint loaded artifact)

    -- The row is the loaded run's.
    abbrev SameRun : (loaded run : AgentRun) → Type 0
    SameRun loaded run = (run.run_id ≡ loaded.run_id) × (run.id ≡ loaded.id)

    call_out-Guarded :
        (loaded run : AgentRun) (o : Option ExternalSideEffect) (db : Db)
        → SameRun loaded run
        → find_where (same_key (idempotency_key run artifact)) db.effects ≡ o
        → Guards loaded (λ g. call_out hash_patch claim clock g run artifact o db)
    unfolding call_out
    call_out-Guarded loaded run o db same_run found =
        let open' = λ (d : Db).
          map_ok (set_effects d) (open_effect run (idempotency_key run artifact) o d.effects) in
        bind_Guards loaded (commit open') (from_fence run) db λ _ db1 opening.
          bind_Guards loaded (fenced hash_patch claim clock run.run_id 2) (from_call run) db1
            λ _ db2 fencing.
              let (es, h, e) =
                map_ok-ok (set_effects db)
                  (open_effect run (idempotency_key run artifact) o db.effects)
                  (commit-ok open' db db1 opening) in
              let (effect, i, k, s) =
                opened run (idempotency_key run artifact) o db.effects es found h in
              let (kept, held) = fenced_effects run.run_id 2 db1 db2 fencing in
              let same : db2.effects ≡ es = kept ∙ ap (λ (d : Db). d.effects) e in
              calls db2 run
                (record {
                  same_run = same_run.0;
                  same_id = same_run.1;
                  effect = effect;
                  recorded = subst (In effect) (sym same) i;
                  keyed = k;
                  counted = s;
                  fence_held = (db1.runs, held);
                })
                (λ g. refl)

    from_effect-Guarded :
        (loaded run : AgentRun) (o : Option ExternalSideEffect) (db : Db) (c : Option Dict)
        → SameRun loaded run
        → find_where (same_key (idempotency_key run artifact)) db.effects ≡ o
        → Guards loaded (λ g.
          (elim c as (λ _. Exec Db Resumed) [
            | some pull_request ↦ resolve hash_patch claim clock run pull_request pull_request 2
            | none ↦ call_out hash_patch claim clock g run artifact o
          ])
            db)
    from_effect-Guarded loaded run o db (some pull_request) same found = quiet (λ g g'. refl)
    from_effect-Guarded loaded run o db none same found =
        call_out-Guarded loaded run o db same found

    pub looked_up :
        (run : AgentRun) (o : Option ExternalSideEffect) (db db' : Db)
        → gets (λ d. find_where (same_key (idempotency_key run artifact)) d.effects) db
          ≡ (ok o, db')
        → find_where (same_key (idempotency_key run artifact)) db'.effects ≡ o
    looked_up run o db db' h =
        let same : db ≡ db' = ap (λ (p : Result (Option ExternalSideEffect) × Db). p.1) h in
        subst (λ (d : Db). find_where (same_key (idempotency_key run artifact)) d.effects ≡ o) same
          (ok-injective (ap (λ (p : Result (Option ExternalSideEffect) × Db). p.0) h))

    approve_path-Guarded :
        (run : AgentRun) (db : Db)
        → Unique id_of db.runs
        → In run db.runs
        → Guards run (λ g. approve_path hash_patch claim clock g run artifact db)
    unfolding approve_path
    approve_path-Guarded run db unique stored =
        bind_Guards run
          (marked hash_patch claim clock run RunStatus.running
            (plain hash_patch claim clock (some WorkflowState.create_pull_request) none none false)
            0)
          (from_marking run) db
          λ _ db1 written.
            let (_, k) = marking hash_patch claim clock run RunStatus.running _ 0 db db1 written in
            bind_Guards run (refreshed hash_patch claim clock run) from_refresh db1
              λ current db2 reading.
                let (run_id, id, _) =
                  refreshed_same hash_patch claim clock run current db.runs db1 db2 k unique stored
                    reading in
                bind_Guards run
                  (gets (λ d. find_where (same_key (idempotency_key current artifact)) d.effects))
                  (from_lookup current) db2
                  λ o db3 looking.
                    bind_Guards run (fenced hash_patch claim clock current.run_id 1)
                      (from_effect current o) db3
                      λ _ db4 fencing.
                        let (kept, _) = fenced_effects current.run_id 1 db3 db4 fencing in
                        from_effect-Guarded run current o db4 (is_completed o) (run_id, id)
                          (rw kept (looked_up current o db2 db3 looking))

  -- Either GitHub is not called at all; or the human approved, and the call is guarded.
  pub data Resumes (run_id : String) (decision : ApprovalDecision) (db : Db)
      (F : Github → Result Resumed × Db) : Type 0 where
    silent : Quiet F → Resumes run_id decision db F
    guarded :
        (run : AgentRun) (artifact : PatchArtifact)
        → decision ≡ approve
        → Loaded hash_patch run_id decision db run artifact
        → Guarded hash_patch claim clock artifact (CallPoint run artifact) F
        → Resumes run_id decision db F

  abbrev pub from_load : ApprovalDecision → Github → AgentRun × PatchArtifact → Exec Db Resumed
  from_load decision g (run, artifact) =
      if decision == reject
      then reject_path hash_patch claim clock run
      else approve_path hash_patch claim clock g run artifact

  resume_from :
      (run_id : String) (decision : ApprovalDecision) (db : Db)
      (r : Result (AgentRun × PatchArtifact))
      → Unique id_of db.runs
      → load hash_patch run_id decision db ≡ r
      → Resumes run_id decision db (λ g. continue r (from_load decision g) db)
  resume_from run_id decision db (err e) u h = silent (λ g g'. refl)
  resume_from run_id reject db (ok (run, artifact)) u h = silent (λ g g'. refl)
  resume_from run_id approve db (ok (run, artifact)) u h =
      let loaded = load-Loaded hash_patch run_id approve db run artifact h in
      guarded run artifact refl loaded (approve_path-Guarded artifact run db u loaded.stored)

  -- With unique primary keys, GitHub is called at most once, for the run that was asked for, under
  -- its run id and its idempotency key, and only after: the run's stored approval says APPROVE and is
  -- bound to the fields of the artifact; the artifact is immutable and its named test passed on the
  -- same patch and base; an effect row with that key is stored as IN_PROGRESS; and the fence held
  -- just before. On every other path the outcome does not depend on GitHub.
  pub resume_calls_guarded :
      (run_id : String) (decision : ApprovalDecision) (db : Db)
      → Unique id_of db.runs
      → Resumes run_id decision db
          (λ g. resume_after_approval hash_patch claim clock g run_id decision db)
  unfolding resume_after_approval
  resume_calls_guarded run_id decision db u = resume_from run_id decision db _ u refl
