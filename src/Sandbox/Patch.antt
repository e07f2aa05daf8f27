-- ===== src/Sandbox/Patch.antt =====
-- patch_paths, workspace_snapshot and SandboxManager.apply_patch of
-- src/incidentpilot/sandbox/manager.py. json.loads, SHA-256 and the two runs of git are arguments, and
-- so is what the file system says of a repository. str.splitlines may give fewer empty lines than the
-- pieces between line breaks, and no check looks at an empty line.
use incidentpilot.Base.{
  ℕ, String, Bool, true, false, ◌&&◌, ◌||◌, not, Option, none, some, List, [], ◌∷◌, leb, ltb, ◌==◌,
  nat_eq, string_eq, if◌then◌else◌, length, Result, ok, err, guard, or_raise, value_error, other,
  ◌>>=◌, ◌>>◌,
}
use incidentpilot.Base.Exec.{Exec}
use incidentpilot.Base.Text.{
  Text, codes, text_eq, starts_with, contains_text, ends_with, pieces, split_on, words, join,
  is_space,
}
use incidentpilot.Json.{Json, Items, Dict, nil, cons, obj, arr, str, get, size}
use incidentpilot.Sandbox.Paths.{any, texts, FileSystem, rstrip, validate_patch_path}
use Prim.Native.String.{len}
use incidentpilot.Sandbox.Files.{
  file, link, Repo, add, same_set, changed_paths, replace_once, read_text, write_text,
  universal_newlines,
}

abbrev pub text_field : String → Dict → Option String
text_field k d = elim (get k d) [ some (str s) ↦ some s | _ ↦ none ]

-- The three texts of an edit, `find` not empty.
pub record Edit : Type 0 where
  pub path : Text
  pub find : Text
  pub replace : Text

abbrev pub edit_of : Option String → Option String → Option String → Option Edit
edit_of (some p) (some f) (some r) =
    if f == "" then none else some (record { path = codes p; find = codes f; replace = codes r })
edit_of _ _ _ = none

abbrev pub edit_dict : Dict → Option Edit
edit_dict d =
    if size d == 3
    then edit_of (text_field "path" d) (text_field "find" d) (text_field "replace" d)
    else none

abbrev pub as_edit : Json → Option Edit
as_edit (obj d) = edit_dict d
as_edit _ = none

-- What json.loads gives for a simple_replace patch: its value under "edits".
abbrev pub if_simple : Bool → Dict → Option (Option Json)
if_simple true d = some (get "edits" d)
if_simple false d = none

abbrev pub is_simple : Option Json → Bool
is_simple (some (str s)) = s == "simple_replace"
is_simple _ = false

abbrev pub simple_edits : Option Json → Option (Option Json)
simple_edits (some (obj d)) = if_simple (is_simple (get "type" d)) d
simple_edits _ = none

abbrev pub line_break : ℕ → Bool
line_break c =
    (leb 10 c && leb c 13) || (leb 28 c && leb c 30) || c == 133 || c == 8_232 || c == 8_233

abbrev pub metadata : List Text
metadata = texts (
    "rename " ∷ "copy " ∷ "similarity " ∷ "dissimilarity " ∷ "old mode " ∷ "new mode "
    ∷ "GIT binary patch" ∷ "Binary files " ∷ [])

abbrev pub file_modes : List Text
file_modes = texts ("new file mode " ∷ "deleted file mode " ∷ [])

abbrev pub begins : List Text → Text → Bool
begins ps line = any (λ p. starts_with p line) ps

-- line.split()[-1]
abbrev pub last_word : List Text → Text
last_word [] = []
last_word (w ∷ []) = w
last_word (w ∷ v ∷ ws) = last_word (v ∷ ws)

abbrev pub check_line : Text → Result (Unit {0})
check_line line =
    guard (not (begins metadata line)) (value_error "unsupported patch metadata")
    >> guard (not (begins file_modes line && not (ends_with (codes "100644") line)))
        (value_error "unsupported file mode")
    >> guard
        (not (
          starts_with (codes "index ") line
          && (ltb 2 (length (words line)) && not (last_word (words line) == codes "100644"))))
        (value_error "unsupported index mode")

abbrev pub check_lines : List Text → Result (Unit {0})
check_lines [] = ok tt
check_lines (l ∷ ls) = check_line l >> check_lines ls

-- git's numbers are of ASCII digits
abbrev pub is_digits : Text → Bool
is_digits [] = false
is_digits (c ∷ s) = not (any (λ d. ltb d b'0' || ltb b'9' d) (c ∷ s))

-- record.split("\t", 2)
pub record Numstat : Type 0 where
  pub added : Text
  pub removed : Text
  pub path : Text

abbrev pub numstat_of : List Text → Option Numstat
numstat_of (a ∷ r ∷ p ∷ rest) =
    some (record { added = a; removed = r; path = join b'\t' (p ∷ rest) })
numstat_of _ = none

-- patch_diff.lstrip().startswith("{")
abbrev pub lstrip : Text → Text
lstrip [] = []
lstrip (c ∷ s) = let rest = lstrip s in if is_space c then rest else c ∷ s

abbrev pub is_json_like : String → Bool
is_json_like patch_diff = starts_with (codes "{") (lstrip (codes patch_diff))

-- What runs outside of the modelled code.
pub record Outside : Type 0 where
  pub lower : Text → Text
  pub upper : Text → Text
  pub sha256 : Text → Text
  pub loads : String → Option Json
  pub file_system : Repo → FileSystem
  -- git apply --numstat -z: the return code and the output
  pub numstat : String → ℕ × Text
  -- git apply --check, and git apply
  pub check : String → Repo → Bool
  pub apply : String → Repo → Option Repo

module _ (outside : Outside) where
  abbrev pub valid_path : Repo → Text → Result (List Text)
  valid_path repo p = validate_patch_path outside.lower outside.upper (outside.file_system repo) p

  abbrev pub workspace_snapshot : Repo → Result (List (Text × Text))
  workspace_snapshot [] = ok []
  workspace_snapshot ((p, link) ∷ repo) = err (value_error "workspace contains a symlink")
  workspace_snapshot ((p, file t) ∷ repo) =
      workspace_snapshot repo >>= (λ s. ok ((p, outside.sha256 t) ∷ s))

  -- The loop over the edits: the set of their paths, and the edits in their order.
  abbrev pub edit_paths : Repo → List Text → Items → Result (List Text)
  edit_paths repo paths nil = ok paths
  edit_paths repo paths (cons v vs) =
      or_raise (as_edit v) (value_error "invalid simple patch edit")
      >>= (λ e. valid_path repo e.path >>= (λ p. edit_paths repo (add e.path paths) vs))

  abbrev pub simple_paths : Repo → Option Json → Result (List Text)
  simple_paths repo (some (arr (cons v vs))) = edit_paths repo [] (cons v vs)
  simple_paths repo _ = err (value_error "patch must contain at least one edit")

  abbrev pub record_path : Repo → Text → Result Text
  record_path repo r = do
    n ← or_raise (numstat_of (split_on b'\t' r)) (value_error "not enough values to unpack")
    guard (is_digits n.added && is_digits n.removed) (value_error "unsupported binary patch")
    target ← valid_path repo n.path
    ok n.path

  abbrev pub record_paths : Repo → List Text → List Text → Result (List Text)
  record_paths repo paths [] = ok paths
  record_paths repo paths (r ∷ rs) =
      record_path repo r >>= (λ p. record_paths repo (add p paths) rs)

  abbrev pub diff_paths : Repo → String → Result (List Text)
  diff_paths repo patch_diff = do
    check_lines (pieces line_break (codes patch_diff))
    let parsed = outside.numstat patch_diff
    guard (parsed.0 == 0 && not (parsed.1 == [])) (value_error "invalid or empty unified diff")
    record_paths repo [] (split_on 0 (rstrip (λ c. c == 0) parsed.1))

  abbrev pub by_kind : Repo → String → Option (Option Json) → Result (List Text)
  by_kind repo patch_diff (some edits) = simple_paths repo edits
  by_kind repo patch_diff none = diff_paths repo patch_diff

  unfoldable pub patch_paths : Repo → String → Result (List Text)
  patch_paths repo patch_diff = do
    guard (leb (len patch_diff) 1_000_000 && not (any (λ c. c == 0) (codes patch_diff)))
        (value_error "invalid or oversized patch")
    by_kind repo patch_diff (simple_edits (outside.loads patch_diff))

  -- One edit, on the file that its path resolves to.
  abbrev pub replace_in : Edit → Repo → Text → Option Text → Result Repo
  replace_in e repo target none = err (other "FileNotFoundError")
  replace_in e repo target (some text) =
      if contains_text e.find text
      then ok (write_text target (replace_once e.find e.replace text) repo)
      else err (value_error "find string not present")

  abbrev pub text_of : Option Text → Option Text
  text_of none = none
  text_of (some t) = some (universal_newlines t)

  abbrev pub apply_edit : Edit → Repo → Result Repo
  apply_edit e repo = do
    parts ← valid_path repo e.path
    replace_in e repo (join b'/' parts) (text_of (read_text (join b'/' parts) repo))

  -- An edit that fails leaves the edits before it in place.
  abbrev pub after_edit : (Exec Repo (Unit {0})) → Result Repo → Exec Repo (Unit {0})
  after_edit rest (err x) repo = (err x, repo)
  after_edit rest (ok repo') repo = rest repo'

  abbrev pub with_edit : (Edit → Result Repo) → Option Edit → Result Repo
  with_edit f none = err (value_error "invalid simple patch edit")
  with_edit f (some e) = f e

  abbrev pub apply_edits : Items → Exec Repo (Unit {0})
  apply_edits nil repo = (ok tt, repo)
  apply_edits (cons v vs) repo =
      after_edit (apply_edits vs) (with_edit (λ e. apply_edit e repo) (as_edit v)) repo

  abbrev pub applied : Option Repo → Exec Repo (Unit {0})
  applied none repo = (err (other "CalledProcessError"), repo)
  applied (some repo') repo = (ok tt, repo')

  abbrev pub apply_diff : String → Bool → Exec Repo (Unit {0})
  apply_diff patch_diff false repo = (err (other "CalledProcessError"), repo)
  apply_diff patch_diff true repo = applied (outside.apply patch_diff repo) repo

  -- data["edits"] of a text that begins with a brace
  abbrev pub edits_of : Option Json → Option Items
  edits_of (some (obj d)) = elim (get "edits" d) [ some (arr vs) ↦ some vs | _ ↦ none ]
  edits_of _ = none

  abbrev pub apply_simple : Option Items → Exec Repo (Unit {0})
  apply_simple none repo = (err (other "KeyError"), repo)
  apply_simple (some vs) repo = apply_edits vs repo

  abbrev pub write_patch : Bool → String → Exec Repo (Unit {0})
  write_patch true patch_diff repo = apply_simple (edits_of (outside.loads patch_diff)) repo
  write_patch false patch_diff repo = apply_diff patch_diff (outside.check patch_diff repo) repo

  abbrev pub compare_with :
      (paths : List Text)
      → (before : List (Text × Text)) → Result (List (Text × Text))
      → Exec Repo (Unit {0})
  compare_with paths before (err x) repo = (err x, repo)
  compare_with paths before (ok after) repo = (
    guard (same_set (changed_paths before after) paths)
        (value_error "actual patch changes differ from declared paths"),
    repo,
  )

  abbrev pub after_write :
      (paths : List Text) → (before : List (Text × Text)) → Result (Unit {0}) → Exec Repo (Unit {0})
  after_write paths before (err x) repo = (err x, repo)
  after_write paths before (ok _) repo = compare_with paths before (workspace_snapshot repo) repo

  abbrev pub with_paths : String → Result (List Text × List (Text × Text)) → Exec Repo (Unit {0})
  with_paths patch_diff (err x) repo = (err x, repo)
  with_paths patch_diff (ok (paths, before)) repo =
      let (r, repo') = write_patch (is_json_like patch_diff) patch_diff repo in
      after_write paths before r repo'

  abbrev pub declared : Repo → String → Result (List Text × List (Text × Text))
  declared repo patch_diff = do
    paths ← patch_paths repo patch_diff
    before ← workspace_snapshot repo
    ok (paths, before)

  -- apply_patch on the repository of the run
  unfoldable pub apply_patch : String → Exec Repo (Unit {0})
  apply_patch patch_diff repo = with_paths patch_diff (declared repo patch_diff) repo
