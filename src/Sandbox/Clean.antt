-- ===== src/Sandbox/Clean.antt =====
-- What create_workspace of src/incidentpilot/sandbox/manager.py copies and records.
use incidentpilot.Base.{String, ◌≡◌, ◌⊎◌, Bool, false, ◌||◌, some, List, string_eq, In, ◌↔◌, Result}
use incidentpilot.Base.Text.{Text, split_on}
use incidentpilot.Sandbox.Paths.{any}
use incidentpilot.Sandbox.Files.{Repo, Entry}
use incidentpilot.Sandbox.Patch.{Outside}
use incidentpilot.Sandbox.Workspace.{
  Workspace, Settings, Manager, Git, relaxed, is_link_entry, lookup, base_commit_sha, excluded_name,
  and_then, oracle_step,
}

module _ (outside : Outside) (settings : Settings) (fault_types : List String)
    (oracle_of : String → String) (run_id : String) where
  -- A file that is no link, with no sensitive or excluded name on its path.
  abbrev pub Copyable : Text × Entry → Type 0
  Copyable (p, e) =
      (any (excluded_name outside settings fault_types oracle_of run_id) (split_on b'/' p) ≡ false)
      × (is_link_entry e ≡ false)

  abbrev left_out : Text → Entry → Bool
  left_out p e =
      any (excluded_name outside settings fault_types oracle_of run_id) (split_on b'/' p)
      || is_link_entry e

  -- The copy of a directory: its copyable files, and nothing else.
  abbrev pub CopyOf : (tree copy : Repo) → Type 0
  CopyOf tree copy = (x : Text × Entry) → In x copy ↔ (In x tree × Copyable x)

  -- The base that is recorded: HEAD of a clean tree, or no version, and outside development and test
  -- never a dirty tree.
  abbrev pub Based : Git → String → Type 0
  Based git sha =
      ((sha ≡ "UNVERSIONED") ⊎ ((git.head ≡ some sha) × (git.dirty ≡ false)))
      × ((h : String) → git.head ≡ some h → relaxed settings ≡ false → git.dirty ≡ false)

  -- The workspace of the run holds this repository.
  abbrev pub Holds : Manager → Repo → Type 0
  Holds m repo = (ws : Workspace) × (lookup run_id m.workspaces ≡ some ws) × (ws.repo ≡ repo)

  abbrev pub Ready : Git → Repo → Manager → Type 0
  Ready git repo m = Holds m repo × Based git (base_commit_sha m run_id)

  abbrev after_base : Result (Unit {0}) × Manager → Result (Unit {0}) × Manager
  after_base (r, m) =
      and_then outside settings fault_types oracle_of run_id r
        (oracle_step outside settings fault_types oracle_of run_id) m
