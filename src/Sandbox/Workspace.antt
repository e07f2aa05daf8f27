-- ===== src/Sandbox/Workspace.antt =====
-- SandboxManager of src/incidentpilot/sandbox/manager.py: the workspaces of the runs. What the file
-- system holds under the source, git's answers and the oracle's text are arguments. Testing has the
-- test command in them.
pub mod Testing
use incidentpilot.Base.{
  ℕ, String, Bool, true, false, ◌&&◌, ◌||◌, not, Option, none, some, List, [], ◌∷◌, ◌==◌, nat_eq,
  string_eq, if◌then◌else◌, is_null, Result, ok, err, guard, or_raise, value_error, runtime_error,
  other, ◌>>=◌, ◌>>◌,
}
use incidentpilot.Base.Exec.{Exec}
use incidentpilot.Base.Text.{Text, text_eq, split_on, ends_with}
use incidentpilot.Enums.{contains}
use incidentpilot.Sandbox.Paths.{any, texts, sensitive_path}
use incidentpilot.Sandbox.Files.{Repo, Entry, file, link, changed_paths}
use incidentpilot.Sandbox.Patch.{Outside, apply_patch, workspace_snapshot}

-- The directory of one run: `repo`, and the oracle under `checks`.
pub record Workspace : Type 0 where
  pub repo : Repo
  pub oracle : Option String

pub record Settings : Type 0 where
  pub environment : String
  pub sandbox_enabled : Bool
  pub sandbox_network : String
  pub sandbox_image : String
  pub sandbox_fault_type : String

-- _workspaces and _base_commits
pub record Manager : Type 0 where
  pub workspaces : List (String × Workspace)
  pub base_commits : List (String × String)

-- dict.get, dict.pop and d[k] = v
abbrev pub lookup : {A : Type 0} → String → List (String × A) → Option A
lookup k [] = none
lookup k ((j, a) ∷ d) = if j == k then some a else lookup k d

abbrev pub is_empty : {A : Type 0} → List A → Bool
is_empty [] = true
is_empty (x ∷ xs) = false

abbrev pub without : {A : Type 0} → String → List (String × A) → List (String × A)
without k [] = []
without k ((j, a) ∷ d) = let rest = without k d in if j == k then rest else (j, a) ∷ rest

abbrev pub store : {A : Type 0} → String → A → List (String × A) → List (String × A)
store k a d = (k, a) ∷ without k d

-- What is at the source path.
pub data Source : Type 0 where
  missing : Source
  directory : Repo → Source
  single : (name : Text) → Entry → Source

-- git rev-parse HEAD, if it succeeds, and whether git status has output.
pub record Git : Type 0 where
  pub head : Option String
  pub dirty : Bool

abbrev pub left_out_names : List Text
left_out_names = texts ("__pycache__" ∷ "var" ∷ ".pytest_cache" ∷ [])

abbrev pub relaxed : Settings → Bool
relaxed s = contains s.environment ("development" ∷ "test" ∷ [])

abbrev pub is_link_entry : Entry → Bool
is_link_entry link = true
is_link_entry (file t) = false

abbrev pub base_commit_sha : Manager → String → String
base_commit_sha m run_id = elim (lookup run_id m.base_commits) [
  | none ↦ "UNVERSIONED"
  | some sha ↦ sha
]

unfoldable pub destroy_workspace : String → Manager → Manager
destroy_workspace run_id m = record {
  workspaces = without run_id m.workspaces;
  base_commits = without run_id m.base_commits;
}

abbrev pub with_workspace : String → Workspace → Manager → Manager
with_workspace run_id ws m = record m { workspaces = store run_id ws m.workspaces }

abbrev pub with_base : String → String → Manager → Manager
with_base run_id sha m = record m { base_commits = store run_id sha m.base_commits }

module _ (outside : Outside) (settings : Settings) (fault_types : List String)
    (oracle_of : String → String) (run_id : String) where
  -- excluded, for one name
  abbrev pub excluded_name : Text → Bool
  excluded_name name =
      sensitive_path outside.lower outside.upper name
      || contains name left_out_names
      || any (λ s. ends_with s name) (texts (".db" ∷ ".log" ∷ []))

  -- copytree leaves out an entry with an excluded name on its path, and links.
  abbrev pub copied : Repo → Repo
  copied [] = []
  copied ((p, e) ∷ repo) =
      let rest = copied repo in
      if any excluded_name (split_on b'/' p) || is_link_entry e then rest else (p, e) ∷ rest

  abbrev pub copy_single : Bool → Text → Entry → Exec Manager (Unit {0})
  copy_single true name e m = (err (value_error "sensitive source forbidden"), m)
  copy_single false name e m =
      (ok tt, with_workspace run_id (record { repo = (name, e) ∷ []; oracle = none }) m)

  abbrev pub copy_source : Source → Exec Manager (Unit {0})
  copy_source missing m = (err (other "FileNotFoundError"), m)
  copy_source (directory tree) m =
      (ok tt, with_workspace run_id (record { repo = copied tree; oracle = none }) m)
  copy_source (single name e) m =
      copy_single (is_link_entry e || sensitive_path outside.lower outside.upper name) name e
        (with_workspace run_id (record { repo = []; oracle = none }) m)

  -- The base commit: HEAD of a clean tree.
  abbrev pub if_dirty : Bool → Bool → String → Exec Manager (Unit {0})
  if_dirty false relax sha m = (ok tt, with_base run_id sha m)
  if_dirty true true sha m = (ok tt, with_base run_id "UNVERSIONED" m)
  if_dirty true false sha m = (
    err (value_error "protected sandbox source must match a clean Git base"),
    with_base run_id "UNVERSIONED" m,
  )

  abbrev pub record_base : Option String → Bool → Exec Manager (Unit {0})
  record_base none dirty m = (ok tt, with_base run_id "UNVERSIONED" m)
  record_base (some sha) dirty m = if_dirty dirty (relaxed settings) sha m

  abbrev pub put_oracle : Option Workspace → Manager → Manager
  put_oracle none m = m
  put_oracle (some ws) m =
      with_workspace run_id (record ws { oracle = some (oracle_of settings.sandbox_fault_type) }) m

  abbrev pub add_oracle : (asked registered : Bool) → Exec Manager (Unit {0})
  add_oracle false registered m = (ok tt, m)
  add_oracle true false m = (err (value_error "unknown fault oracle"), m)
  add_oracle true true m = (ok tt, put_oracle (lookup run_id m.workspaces) m)

  abbrev pub and_then : Result (Unit {0}) → Exec Manager (Unit {0}) → Exec Manager (Unit {0})
  and_then (ok _) rest m = rest m
  and_then (err x) rest m = (err x, m)

  abbrev pub oracle_step : Exec Manager (Unit {0})
  oracle_step m =
      add_oracle (not (settings.sandbox_fault_type == ""))
        (contains settings.sandbox_fault_type fault_types) m

  abbrev pub base_step : Git → Exec Manager (Unit {0})
  base_step git m = let (r, m') = record_base git.head git.dirty m in and_then r oracle_step m'

  abbrev pub fill : Source → Git → Exec Manager (Unit {0})
  fill source git m = let (r, m') = copy_source source m in and_then r (base_step git) m'

  -- A missing source is refused before the old workspace is destroyed.
  unfoldable pub create_workspace : Source → Git → Exec Manager (Unit {0})
  create_workspace missing git m = (err (other "FileNotFoundError"), m)
  create_workspace (directory tree) git m = fill (directory tree) git (destroy_workspace run_id m)
  create_workspace (single name e) git m = fill (single name e) git (destroy_workspace run_id m)

  abbrev pub patched : Workspace → Manager → Result (Unit {0}) × Repo → Result (Unit {0}) × Manager
  patched ws m (r, repo) = (r, with_workspace run_id (record ws { repo = repo }) m)

  abbrev pub patch_workspace : String → Option Workspace → Exec Manager (Unit {0})
  patch_workspace patch_diff none m = (err (runtime_error "workspace not created"), m)
  patch_workspace patch_diff (some ws) m = patched ws m (apply_patch outside patch_diff ws.repo)

  pub apply_patch_to : String → Exec Manager (Unit {0})
  apply_patch_to patch_diff m = patch_workspace patch_diff (lookup run_id m.workspaces) m
