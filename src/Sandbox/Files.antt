-- ===== src/Sandbox/Files.antt =====
-- The files of a workspace of src/incidentpilot/sandbox/manager.py, and the sets of paths and the
-- digests by which they are compared. A repository is the list of its files and links by path;
-- directories hold nothing of their own. A set of paths is a list.
use incidentpilot.Base.{
  Bool, true, false, ◌&&◌, Option, none, some, List, [], ◌∷◌, ◌++◌, map, ◌==◌, nat_eq, string_eq,
  if◌then◌else◌,
}
use incidentpilot.Base.Text.{Text, text_eq, starts_with}
use incidentpilot.Enums.{contains}

pub data Entry : Type 0 where
  file : Text → Entry
  link : Entry

abbrev pub Repo : Type 0
Repo = List (Text × Entry)

-- set.add, and the sets' `in`, `<=` and `==`
abbrev pub add : Text → List Text → List Text
add p ps = if contains p ps then ps else p ∷ ps

abbrev pub subset : List Text → List Text → Bool
subset [] qs = true
subset (p ∷ ps) qs = contains p qs && subset ps qs

abbrev pub same_set : List Text → List Text → Bool
same_set ps qs = subset ps qs && subset qs ps

-- dict.get over a snapshot
abbrev pub digest_of : Text → List (Text × Text) → Option Text
digest_of p [] = none
digest_of p ((q, d) ∷ s) = if q == p then some d else digest_of p s

abbrev pub option_beq : Option Text → Option Text → Bool
option_beq none none = true
option_beq (some a) (some b) = a == b
option_beq _ _ = false

abbrev pub keys : List (Text × Text) → List Text
keys = map (λ e. e.0)

-- {path for path in before.keys() | after.keys() if before.get(path) != after.get(path)}
abbrev pub differing : (before after : List (Text × Text)) → List Text → List Text
differing before after [] = []
differing before after (p ∷ ps) =
    let rest = differing before after ps in
    if option_beq (digest_of p before) (digest_of p after) then rest else p ∷ rest

abbrev pub changed_paths : (before after : List (Text × Text)) → List Text
changed_paths before after = differing before after (keys before ++ keys after)

-- text.replace(find, replace, 1) where `find` is in the text
abbrev pub drop_text : Text → Text → Text
drop_text [] s = s
drop_text (c ∷ p) [] = []
drop_text (c ∷ p) (d ∷ s) = drop_text p s

abbrev pub replace_once : (find replace : Text) → Text → Text
replace_once f r [] = if starts_with f [] then r else []
replace_once f r (c ∷ s) =
    let rest = replace_once f r s in
    if starts_with f (c ∷ s) then r ++ drop_text f (c ∷ s) else c ∷ rest

-- The bytes of a file as text; every file holds UTF-8 here.
abbrev pub read_text : Text → Repo → Option Text
read_text p [] = none
read_text p ((q, file t) ∷ repo) = if q == p then some t else read_text p repo
read_text p ((q, link) ∷ repo) = if q == p then none else read_text p repo

-- The line ends of a file that is opened as text: each CRLF and each CR is read as LF.
abbrev pub universal_newlines : Text → Text
universal_newlines [] = []
universal_newlines (c ∷ []) = (if c == 13 then 10 else c) ∷ []
universal_newlines (c ∷ d ∷ s) =
    let rest = universal_newlines (d ∷ s) in
    if c == 13 then (if d == 10 then rest else 10 ∷ rest) else c ∷ rest

-- write_text over the file of that path
abbrev pub write_text : Text → Text → Repo → Repo
write_text p t [] = []
write_text p t ((q, e) ∷ repo) = if q == p then (q, file t) ∷ repo else (q, e) ∷ write_text p t repo
