-- ===== src/Sandbox/Isolated.antt =====
-- What a workspace of src/incidentpilot/sandbox/manager.py holds, and when its tests may run.
use Prim.Native.String.{◌++◌ as str_append}
use incidentpilot.Base.{
  ◌++◌, ℕ, String, ◌≡◌, true, false, Option, some, List, ◌∷◌, ◌==◌, nat_eq, string_eq, Result, ok,
}
use incidentpilot.Base.Text.{Text, text_eq}
use incidentpilot.Sandbox.Files.{Repo, digest_of}
use incidentpilot.Sandbox.Patch.{Outside, workspace_snapshot}
use incidentpilot.Sandbox.Workspace.{Workspace, Settings, relaxed}
use incidentpilot.Sandbox.Workspace.Testing.{
  allowed_test_command, mode_of, SandboxResult, Launch, Host, launch_in,
}

module _ (outside : Outside) (settings : Settings) (host : Host)
    (run_process : Launch → Repo → Result (ℕ × String × String) × Repo) (run_id : String) where
  -- The options give `k` the value `v`.
  abbrev pub HasOption : (k v : String) → List String → Type 0
  HasOption k v options =
      (before : List String) × (after : List String) × (options ≡ before ++ (k ∷ v ∷ after))

  abbrev pub HasFlag : String → List String → Type 0
  HasFlag k options =
      (before : List String) × (after : List String) × (options ≡ before ++ (k ∷ after))

  -- A container without network and capabilities, for an unprivileged user, with bounded memory, CPU
  -- and processes and a read-only root, and with the workspace mounted read-only.
  pub record Confined (options : List String) : Type 0 where
    pub no_network : HasOption "--network" "none" options
    pub no_capabilities : HasOption "--cap-drop" "ALL" options
    pub no_root : HasOption "--user" "65534:65534" options
    pub no_new_privileges : HasOption "--security-opt" "no-new-privileges" options
    pub memory : HasOption "--memory" "512m" options
    pub cpus : HasOption "--cpus" "1.0" options
    pub processes : HasOption "--pids-limit" "128" options
    pub read_only : HasFlag "--read-only" options
    pub workspace_read_only : HasOption "-v" (str_append host.root "/repo:/workspace:ro") options

  -- The command is `docker run` with confining options, the configured image, and the test command.
  abbrev pub InContainer : Launch → List String → Type 0
  InContainer l command =
      (options : List String) × Confined options
      × (l.command ≡ "docker" ∷ "run" ∷ (options ++ (settings.sandbox_image ∷ command)))

  -- The conditions of a run of the tests that returned a result.
  pub record Isolated (profile : String) (o : Option Workspace) (r : SandboxResult) (repo' : Repo)
      : Type 0 where
    pub workspace : Workspace
    pub created : o ≡ some workspace
    pub command : List String
    pub listed : allowed_test_command profile ≡ some command
    pub contained : relaxed settings ≡ false → r.mode ≡ mode_of true
    pub launch : Launch
    pub confined : r.mode ≡ mode_of true → InContainer launch command
    pub ran : (run_process launch workspace.repo).1 ≡ repo'
    pub told : r.command ≡ launch.command
    pub honest : r.is_ok ≡ (r.exit_code == 0)
    pub before : List (Text × Text)
    pub after : List (Text × Text)
    pub taken : workspace_snapshot outside workspace.repo ≡ ok before
    pub taken_after : workspace_snapshot outside repo' ≡ ok after
    pub untouched : (p : Text) → digest_of p before ≡ digest_of p after

  module _ (profile : String) (o : Option Workspace) where
    abbrev launch_for : List String → Launch
    launch_for =
        launch_in outside settings host run_process run_id (mode_of settings.sandbox_enabled)
          profile
