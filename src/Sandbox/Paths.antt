-- ===== src/Sandbox/Paths.antt =====
-- sensitive_path and validate_patch_path of src/incidentpilot/sandbox/manager.py, on texts as lists
-- of code points. str.lower and str.upper are arguments (Unicode's case tables), and so is what the
-- file system says of a path beneath the repository.
use incidentpilot.Base.{
  ℕ, String, Bool, true, false, ◌||◌, not, Option, List, [], ◌∷◌, ◌++◌, map, ltb, ◌==◌, nat_eq,
  if◌then◌else◌, Result, ok, guard, or_raise, value_error, ◌>>◌,
}
use incidentpilot.Base.Text.{
  Text, codes, text_eq, starts_with, contains_text, ends_with, split_on, replace_char,
}
use incidentpilot.Enums.{contains}

abbrev pub any {ℓ} : {A : Type ℓ} → (A → Bool) → List A → Bool
any p [] = false
any p (x ∷ xs) = p x || any p xs

abbrev pub texts : List String → List Text
texts = map codes

abbrev pub forbidden_patch_parts : List Text
forbidden_patch_parts = texts (
    ".git" ∷ ".env" ∷ "credentials" ∷ "credential" ∷ "secrets" ∷ "secret" ∷ "docker.sock"
    ∷ "conftest.py" ∷ ".gitattributes" ∷ [])

abbrev pub private_directories : List Text
private_directories =
    texts
      (".ssh" ∷ ".aws" ∷ ".azure" ∷ ".config" ∷ ".github" ∷ ".venv" ∷ "venv" ∷ "node_modules" ∷ [])

abbrev pub private_names : List Text
private_names =
    texts
      ("id_rsa" ∷ "id_ed25519" ∷ "config.local" ∷ "private" ∷ ".netrc" ∷ ".npmrc" ∷ ".pypirc" ∷ [])

abbrev pub key_suffixes : List Text
key_suffixes = texts (".pem" ∷ ".key" ∷ ".p12" ∷ ".pfx" ∷ [])

abbrev pub sensitive_part : Text → Bool
sensitive_part part =
    contains part (forbidden_patch_parts ++ private_directories)
    || starts_with (codes ".env") part
    || contains_text (codes "credential") part
    || contains_text (codes "secret") part
    || contains_text (codes "token") part
    || any (λ s. ends_with s part) key_suffixes
    || contains part private_names

-- raw_path.replace("\\", "/")
abbrev pub slashed : Text → Text
slashed = replace_char b'\\' b'/'

-- s.rstrip(" .")
abbrev pub trims : ℕ → Bool
trims c = c == b' ' || c == b'.'

abbrev pub keep_unless : Bool → ℕ → Text → Text
keep_unless true c [] = []
keep_unless b c s = c ∷ s

abbrev pub rstrip : (ℕ → Bool) → Text → Text
rstrip p [] = []
rstrip p (c ∷ s) = keep_unless (p c) c (rstrip p s)

-- part.split(".", 1)[0]
abbrev pub stem : Text → Text
stem [] = []
stem (c ∷ s) = let rest = stem s in if c == b'.' then [] else c ∷ rest

abbrev pub device_names : List Text
device_names = texts (
    "CON" ∷ "PRN" ∷ "AUX" ∷ "NUL" ∷ "CLOCK$" ∷ "COM1" ∷ "COM2" ∷ "COM3" ∷ "COM4" ∷ "COM5" ∷ "COM6"
    ∷ "COM7" ∷ "COM8" ∷ "COM9" ∷ "LPT1" ∷ "LPT2" ∷ "LPT3" ∷ "LPT4" ∷ "LPT5" ∷ "LPT6" ∷ "LPT7"
    ∷ "LPT8" ∷ "LPT9" ∷ [])

abbrev pub dot_parts : List Text
dot_parts = [] ∷ codes "." ∷ codes ".." ∷ []

-- What the file system says of a path, given by its parts beneath the repository.
pub record FileSystem : Type 0 where
  -- is_symlink() or is_junction()
  pub is_link : List Text → Bool
  -- resolve() relative to the resolved repository; none outside it
  pub resolve : List Text → Option (List Text)

abbrev pub ambiguous : Text → Bool
ambiguous normalized =
    contains normalized ([] ∷ [])
    || starts_with (codes "/") normalized
    || starts_with (codes "~") normalized
    || any (λ c. c == b':') normalized
    || any (λ part. contains part dot_parts) (split_on b'/' normalized)
    || any (λ c. ltb c 32) normalized
    || any (λ c. c == b'"') normalized

module _ (lower upper : Text → Text) where
  unfoldable pub sensitive_path : Text → Bool
  sensitive_path raw_path = any sensitive_part (split_on b'/' (lower (slashed raw_path)))

  abbrev pub is_device : Text → Bool
  is_device part = contains (upper (stem part)) device_names

  module _ (fs : FileSystem) where
    -- The loop over the parts; `above` are those already walked.
    unfoldable pub walk_parts : (above : List Text) → List Text → Result (Unit {0})
    walk_parts above [] = ok tt
    walk_parts above (part ∷ parts) =
        guard (rstrip trims part == part) (value_error "unsafe Windows path alias")
        >> guard (not (is_device part)) (value_error "unsafe Windows device path")
        >> guard (not (fs.is_link (above ++ (part ∷ []))))
            (value_error "symlink patch path forbidden")
        >> walk_parts (above ++ (part ∷ [])) parts

    -- The resolved path, as its parts beneath the repository.
    unfoldable pub validate_patch_path : Text → Result (List Text)
    validate_patch_path raw_path = do
      guard (not (ambiguous (slashed raw_path))) (value_error "unsafe patch path")
      guard (not (sensitive_path (slashed raw_path))) (value_error "forbidden patch path")
      walk_parts [] (split_on b'/' (slashed raw_path))
      or_raise (fs.resolve (split_on b'/' (slashed raw_path)))
          (value_error "patch path outside repository")
