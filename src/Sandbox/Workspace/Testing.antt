-- ===== src/Sandbox/Workspace/Testing.antt =====
-- run_tests_async of src/incidentpilot/sandbox/manager.py: the checks, the command line of docker or
-- of the local process, and its outcome. The process is an argument; durations and the
-- removal of the container afterwards are left out.
use Prim.Native.String.{◌++◌ as str_append}
use incidentpilot.Base.{
  ℕ, String, Bool, true, false, ◌&&◌, ◌||◌, not, Option, none, some, List, [], ◌∷◌, ◌++◌, ◌==◌,
  nat_eq, string_eq, if◌then◌else◌, is_null, Result, ok, err, guard, or_raise, value_error,
  runtime_error, ◌>>=◌, ◌>>◌,
}
use incidentpilot.Base.Text.{Text, text_eq, codes}
use incidentpilot.Enums.{contains}
use incidentpilot.Sandbox.Paths.{texts}
use incidentpilot.Sandbox.Files.{Repo, changed_paths}
use incidentpilot.Sandbox.Patch.{Outside, workspace_snapshot}
use incidentpilot.Sandbox.Workspace.{Workspace, Settings, is_empty, relaxed, store}

-- The command of a profile that ALLOWED_TEST_COMMANDS has.
abbrev pub allowed_test_command : String → Option (List String)
allowed_test_command profile =
    if profile == "pytest"
    then some ("python" ∷ "-m" ∷ "pytest" ∷ "-q" ∷ "--tb=short" ∷ [])
    else if profile == "pytest_fault"
    then some (
        "python" ∷ "-m" ∷ "pytest" ∷ "-q" ∷ "--tb=short" ∷ "-p" ∷ "no:cacheprovider"
        ∷ "../checks/test_fault_active.py" ∷ [])
    else if profile == "pytest_regression"
    then some ("python" ∷ "-m" ∷ "pytest" ∷ "-q" ∷ "--tb=short" ∷ "tests/test_regression.py" ∷ [])
    else none

-- Where the tests run.
pub data Mode : Type 0 where
  docker local : Mode

pub record SandboxResult : Type 0 where
  pub is_ok : Bool
  pub exit_code : ℕ
  pub stdout : String
  pub stderr : String
  pub command : List String
  pub mode : Mode

-- What the process is started with; no environment is the parent's own.
pub record Launch : Type 0 where
  pub command : List String
  pub env : Option (List (String × String))

-- The container's fresh name, the workspace's directory, sys.executable and os.environ.
pub record Host : Type 0 where
  pub container : String
  pub root : String
  pub executable : String
  pub environ : List (String × String)

abbrev pub mode_of : Bool → Mode
mode_of true = docker
mode_of false = local

-- `==` of two snapshots
abbrev pub same_snapshot : (before after : List (Text × Text)) → Bool
same_snapshot before after = is_empty (changed_paths before after)

abbrev pub naming : Host → (run_id : String) → List String
naming h run_id =
    "--rm" ∷ "--name" ∷ h.container ∷ "--label" ∷ str_append "incidentpilot.run_id=" run_id ∷ []

abbrev pub confinement : List String
confinement =
    "--network" ∷ "none" ∷ "--user" ∷ "65534:65534" ∷ "--cap-drop" ∷ "ALL" ∷ "--security-opt"
    ∷ "no-new-privileges" ∷ "--memory" ∷ "512m" ∷ "--cpus" ∷ "1.0" ∷ "--pids-limit" ∷ "128"
    ∷ "--read-only" ∷ "--tmpfs" ∷ "/tmp:rw,nosuid,nodev,size=128m" ∷ []

abbrev pub variables : List String
variables =
    "-e" ∷ "PYTHONDONTWRITEBYTECODE=1" ∷ "-e" ∷ "PYTEST_ADDOPTS=-p no:cacheprovider" ∷ "-e"
    ∷ "PYTHONPATH=/workspace" ∷ []

abbrev pub checks_mount : Host → (profile : String) → List String
checks_mount h profile =
    if profile == "pytest_fault" then "-v" ∷ str_append h.root "/checks:/checks:ro" ∷ [] else []

abbrev pub repo_mount : Host → List String
repo_mount h = "-v" ∷ str_append h.root "/repo:/workspace:ro" ∷ "-w" ∷ "/workspace" ∷ []

-- The options of `docker run`, up to the image.
abbrev pub docker_options : Host → (run_id profile : String) → List String
docker_options h run_id profile =
    naming h run_id ++ (confinement ++ (variables ++ (checks_mount h profile ++ repo_mount h)))

abbrev pub with_executable : String → List String → List String
with_executable python [] = []
with_executable python (c ∷ cs) = python ∷ cs

abbrev pub kept_variables : List Text
kept_variables = texts ("PATH" ∷ "SYSTEMROOT" ∷ "SYSTEMDRIVE" ∷ "WINDIR" ∷ "TEMP" ∷ "TMP" ∷ [])

module _ (outside : Outside) (settings : Settings) (host : Host)
    (run_process : Launch → Repo → Result (ℕ × String × String) × Repo) (run_id : String) where
  abbrev pub kept_environ : List (String × String) → List (String × String)
  kept_environ [] = []
  kept_environ ((k, v) ∷ env) =
      let rest = kept_environ env in
      if contains (outside.upper (codes k)) kept_variables then (k, v) ∷ rest else rest

  abbrev pub local_environ : List (String × String)
  local_environ = store "PYTEST_ADDOPTS" "-p no:cacheprovider" (
      store "PYTHONDONTWRITEBYTECODE" "1"
        (store "PYTHONPATH" (str_append host.root "/repo") (kept_environ host.environ)))

  abbrev pub launch_in : Mode → (profile : String) → List String → Launch
  launch_in docker profile command = record {
    command =
        "docker"
        ∷ "run"
        ∷ (docker_options host run_id profile ++ (settings.sandbox_image ∷ command));
    env = none;
  }
  launch_in local profile command = record {
    command = with_executable host.executable command;
    env = some local_environ;
  }

  abbrev pub finished :
      Launch
      → List (Text × Text)
      → Result (ℕ × String × String) × Repo
      → Result SandboxResult × Repo
  finished launch before (err x, repo) = (err x, repo)
  finished launch before (ok (code, out, error), repo) = (
    workspace_snapshot outside repo >>= (λ after.
        guard (same_snapshot before after)
          (value_error "test execution changed approved workspace content")
        >> ok (record {
          is_ok = code == 0;
          exit_code = code;
          stdout = out;
          stderr = error;
          command = launch.command;
          mode = mode_of settings.sandbox_enabled;
        })),
    repo,
  )

  -- The checks before the process starts, and the snapshot.
  abbrev pub prepared :
      String → Option Workspace → Result (List String × Workspace × List (Text × Text))
  prepared profile o = do
    command ← or_raise (allowed_test_command profile) (value_error "test profile not allowlisted")
    ws ← or_raise o (runtime_error "workspace not created")
    guard (not (profile == "pytest_fault" && is_null ws.oracle))
        (value_error "fault-active test oracle is missing")
    guard (relaxed settings || settings.sandbox_enabled)
        (runtime_error "protected environment requires Docker sandbox")
    guard (not settings.sandbox_enabled || settings.sandbox_network == "none")
        (value_error "sandbox network must be none")
    before ← workspace_snapshot outside ws.repo
    ok (command, ws, before)

  abbrev pub launched :
      (profile : String)
      → Result (List String × Workspace × List (Text × Text))
      → Result SandboxResult × Option Repo
  launched profile (err x) = (err x, none)
  launched profile (ok (command, ws, before)) =
      let launch = launch_in (mode_of settings.sandbox_enabled) profile command in
      let (r, repo) = finished launch before (run_process launch ws.repo) in (r, some repo)

  -- run_tests_async: its answer, and the repository if the process ran.
  unfoldable pub run_tests :
      (profile : String) → Option Workspace → Result SandboxResult × Option Repo
  run_tests profile o = launched profile (prepared profile o)
