-- ===== src/Agent/Patching/Tested.antt =====
-- The way from run_tests_node_r to the export of a patch in src/incidentpilot/agent/graph.py.
use incidentpilot.Base.{String, ◌≡◌, true, some, string_eq, Result, ok, err}
use incidentpilot.Json.{Json, str, get}
use incidentpilot.Enums.{RunStatus, status_eq}
use Prim.Native.String.{◌++◌ as ◌concat◌}
use incidentpilot.Agent.State.{Settings, PatchAttempt, AttemptStatus, AgentState}
use incidentpilot.Agent.Investigation.{last?, Node}
use incidentpilot.Agent.Patching.{Session, Sandbox, route_after_tests}

module _ (settings : Settings) (sandbox : Sandbox) where
  -- A patch that goes to the export passed its tests.
  abbrev pub Passed : Result AgentState × Session → Type 0
  Passed (err e, session) = Unit
  Passed (ok s, session) =
      route_after_tests settings sandbox s session ≡ Node.export_patch_artifact
      → (get "test_status" s.result ≡ some (str "PASSED"))
        × ((a : PatchAttempt)
            → last? s.patch_attempts ≡ some a
            → (a.test_ok ≡ true)
              × (a.status ≡ AttemptStatus.tests_passed)
              × ((id : String) × (a.test_run_id ≡ some id)
                  × (get "test_run_id" s.result ≡ some (str id))))

  -- A run that comes to wait for approval in this session passed its tests.
  abbrev pub Awaits : Result AgentState × Session → Type 0
  Awaits (err e, session) = Unit
  Awaits (ok s, session) =
      s.status ≡ RunStatus.waiting_approval
      → (session.test_ok ≡ true) × (get "test_status" s.result ≡ some (str "PASSED"))
