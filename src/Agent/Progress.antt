-- ===== src/Agent/Progress.antt =====
-- What src/incidentpilot/agent/graph.py writes into agent_runs by itself: `guarded` after each node,
-- behind a fence, and the totals that run_agent_workflow stores when the graph has ended.
use incidentpilot.Base.{
  ℕ, String, ◌≡◌, refl, Bool, Option, List, ◌==◌, string_eq, update_where, Result, ok, ◌>>=◌,
  >>=-eq-ok,
}
use incidentpilot.Enums.{WorkflowState}
use incidentpilot.Enums.Transitions.{here}
use incidentpilot.Store.{AgentRun}
use incidentpilot.Store.Keeps.{Keeps, update-Keeps, keeps_keys}
use incidentpilot.Jobs.{ClaimedRun}
use incidentpilot.Ownership.{fence}
use incidentpilot.Ownership.Fencing.{fence-unchanged}
use incidentpilot.Services.Keeps.{after_fence}

-- The columns that `guarded` sets.
pub record Progress : Type 0 where
  pub workflow_state : WorkflowState
  pub plan : List String
  pub tool_call_count : ℕ

abbrev progressed : Progress → AgentRun → AgentRun
progressed p r = record r {
  workflow_state = p.workflow_state;
  plan = p.plan;
  tool_call_count = p.tool_call_count;
}

abbrev of_run : String → AgentRun → Bool
of_run run_id r = r.run_id == run_id

unfoldable pub store_progress :
    Option ClaimedRun
    → List AgentRun
    → (run_id : String) → Progress
    → (current : ℕ) → Result (List AgentRun)
store_progress claim runs run_id p current = do
  fenced ← fence claim runs run_id current
  ok (update_where (of_run run_id) (progressed p) fenced)

abbrev totalled : List String → (tool_call_count patch_attempt_count : ℕ) → AgentRun → AgentRun
totalled plan tool_call_count patch_attempt_count r = record r {
  plan = plan;
  tool_call_count = tool_call_count;
  patch_attempt_count = patch_attempt_count;
}

-- The ORM writes the row that was read by its primary key.
unfoldable pub store_totals :
    List AgentRun
    → AgentRun
    → (plan : List String) → (tool_call_count patch_attempt_count : ℕ) → List AgentRun
store_totals runs run plan tool_call_count patch_attempt_count =
    update_where (λ r. r.id == run.id) (totalled plan tool_call_count patch_attempt_count) runs

pub progress-Keeps :
    (claim : Option ClaimedRun) (rs : List AgentRun) (run_id : String) (p : Progress) (current : ℕ)
    (ss : List AgentRun)
    → store_progress claim rs run_id p current ≡ ok ss
    → Keeps rs ss
unfolding store_progress
progress-Keeps claim rs run_id p current ss h =
    let (fenced, f, h1) = >>=-eq-ok (fence claim rs run_id current) _ h in
    after_fence (of_run run_id) (progressed p) rs fenced ss
      (fence-unchanged claim rs run_id current f) h1
      (update-Keeps (of_run run_id) (progressed p)
        (keeps_keys _ (λ r. refl) (λ r. refl) (λ r. refl)) rs (λ r i e. here))

pub totals-Keeps :
    (rs : List AgentRun) (run : AgentRun) (plan : List String)
    (tool_call_count patch_attempt_count : ℕ)
    → Keeps rs (store_totals rs run plan tool_call_count patch_attempt_count)
unfolding store_totals
totals-Keeps rs run plan tool_call_count patch_attempt_count =
    update-Keeps (λ r. r.id == run.id) (totalled plan tool_call_count patch_attempt_count)
      (keeps_keys _ (λ r. refl) (λ r. refl) (λ r. refl)) rs (λ r i e. here)
