-- ===== src/Examples/Sandbox.antt =====
-- The sandbox: a workspace, a patch of one file, and its tests.
use incidentpilot.Base.{ℕ, String, refl, true, false, none, some, [], ◌∷◌, ◌++◌, Result, ok}
use incidentpilot.Base.Text.{Text, codes, split_on}
use incidentpilot.Json.{Json, obj, arr, str, cons, nil, field, end}
use incidentpilot.Sandbox.Paths.{
  FileSystem, slashed, walk_parts, validate_patch_path, sensitive_path,
}
use incidentpilot.Sandbox.Inside.{Inside, validate_patch_path-Inside}
use incidentpilot.Sandbox.Files.{Repo, file}
use incidentpilot.Sandbox.Patch.{Outside, patch_paths, apply_patch}
use incidentpilot.Sandbox.Exact.{Exactly, apply_patch-Exactly}
use incidentpilot.Sandbox.Workspace.{Workspace, Settings, Manager, Git}
use incidentpilot.Sandbox.Workspace.Testing.{docker, SandboxResult, Launch, Host, docker_options}
use incidentpilot.Sandbox.Isolated.{Isolated}

abbrev plain_files : FileSystem
plain_files = record { is_link = λ ps. false; resolve = λ ps. some ps }

abbrev same : Text → Text
same t = t

validate_patch_path-Inside_example :
    Inside same same plain_files
      (codes "src\\app.py")
      (split_on b'/' (slashed (codes "src\\app.py")))
      (codes "src" ∷ codes "app.py" ∷ [])
unfolding validate_patch_path walk_parts sensitive_path
validate_patch_path-Inside_example =
    validate_patch_path-Inside same same plain_files (codes "src\\app.py")
      (codes "src" ∷ codes "app.py" ∷ []) refl

-- The file is its own digest here, and the patch is known by heart.
abbrev patch_json : Json
patch_json = obj (
    field "type" (str "simple_replace") (
      field "edits"
        (arr (
          cons
            (obj (
              field "path" (str "app.py")
                (field "find" (str "sleep") (field "replace" (str "pass") end))))
            nil))
        end))

abbrev outside : Outside
outside = record {
  lower = same;
  upper = same;
  sha256 = same;
  loads = λ s. some patch_json;
  file_system = λ repo. plain_files;
  numstat = λ s. (1, []);
  check = λ s repo. false;
  apply = λ s repo. none;
}

abbrev before_patch : Repo
before_patch = (codes "app.py", file (codes "sleep()")) ∷ []

abbrev after_patch : Repo
after_patch = (codes "app.py", file (codes "pass()")) ∷ []

apply_patch-Exactly_example : Exactly outside "{...}" before_patch after_patch
unfolding apply_patch patch_paths validate_patch_path walk_parts sensitive_path
apply_patch-Exactly_example = apply_patch-Exactly outside "{...}" before_patch after_patch refl

abbrev settings : Settings
settings = record {
  environment = "development";
  sandbox_enabled = false;
  sandbox_network = "none";
  sandbox_image = "python:3.12";
  sandbox_fault_type = "";
}

abbrev workspace : Workspace
workspace = record { repo = after_patch; oracle = none }

-- The same, in a protected environment.
abbrev protected : Settings
protected = record settings { environment = "production"; sandbox_enabled = true }

abbrev host : Host
host = record {
  container = "ip-sandbox-1";
  root = "/tmp/run";
  executable = "/usr/bin/python";
  environ = ("PATH", "/usr/bin") ∷ ("TOKEN", "t") ∷ [];
}

abbrev passes : Launch → Repo → Result (ℕ × String × String) × Repo
passes l repo = (ok (0, "1 passed", ""), repo)

abbrev passed : SandboxResult
passed = record {
  is_ok = true;
  exit_code = 0;
  stdout = "1 passed";
  stderr = "";
  command =
      "docker"
      ∷ "run"
      ∷ (docker_options host "RUN-1" "pytest"
          ++ ("python:3.12" ∷ "python" ∷ "-m" ∷ "pytest" ∷ "-q" ∷ "--tb=short" ∷ []));
  mode = docker;
}

abbrev oracle_of : String → String
oracle_of s = s

abbrev nobody : Manager
nobody = record { workspaces = []; base_commits = [] }

-- The secret is left behind.
abbrev source : Repo
source = (codes "app.py", file (codes "pass()")) ∷ (codes "conf/.env", file (codes "KEY")) ∷ []

abbrev clean : Git
clean = record { head = some "b0"; dirty = false }

abbrev made : Manager
made = record { workspaces = ("RUN-1", workspace) ∷ []; base_commits = ("RUN-1", "b0") ∷ [] }
