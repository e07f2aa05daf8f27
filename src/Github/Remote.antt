-- ===== src/Github/Remote.antt =====
-- What src/incidentpilot/github/integration.py asks of GitHub's REST API, and its tests on answers.
-- The remote repository is a state that each call may read and change, since other clients change it
-- too; base64 is read as the bytes it stands for.
use incidentpilot.Base.{
  ℕ, String, Bool, true, false, ◌&&◌, ◌||◌, not, Option, none, some, List, [], ◌∷◌, leb, ltb, ◌==◌,
  nat_eq, string_eq, if◌then◌else◌, length, Result, ok, Exception, guard, http_timeout,
  http_network, http_status,
}
use incidentpilot.Base.Exec.{Exec, bind}
use incidentpilot.Base.Text.{Text, codes, text_eq}
use incidentpilot.Enums.{contains}
use incidentpilot.Sandbox.Paths.{any}

-- A sequence of calls, which an exception ends; shut, so that lemmas on its parts apply.
infixl 5 ◌>>=◌ ◌>>◌
unfoldable pub ◌>>=◌ : {S A B : Type 0} → Exec S A → (A → Exec S B) → Exec S B
m >>= f = bind m f

abbrev pub ◌>>◌ : {S B : Type 0} → Exec S (Unit {0}) → Exec S B → Exec S B
m >> k = m >>= (λ done. k)

unfoldable pub pure : {S A : Type 0} → A → Exec S A
pure a s = (ok a, s)

unfoldable pub lift : {S A : Type 0} → Result A → Exec S A
lift r s = (r, s)

-- What GitHub's REST API answers, as far as it is read here.
pub record Commit : Type 0 where
  pub tree : String
  pub parents : List String

pub record TreeEntry : Type 0 where
  pub path : Text
  pub kind : String
  pub mode : String
  pub sha : String

pub record Tree : Type 0 where
  pub truncated : Bool
  pub entries : List TreeEntry

pub record Pull : Type 0 where
  pub html_url : String
  pub number : ℕ
  pub head_sha : Option String

pub data RefAnswer : Type 0 where
  absent : RefAnswer
  found : (sha : String) → RefAnswer

-- The answer to POST /pulls: 422, or the new pull request.
pub data PullAnswer : Type 0 where
  unprocessable : PullAnswer
  created : Pull → PullAnswer

pub record Change : Type 0 where
  pub path : Text
  pub sha : Option String

pub record Remote (R : Type 0) : Type 0 where
  pub get_pulls : (branch : String) → Exec R (List Pull)
  pub get_base : Exec R String
  pub get_commit : (sha : String) → Exec R Commit
  pub get_tree : (sha : String) → Exec R Tree
  pub get_blob : (sha : String) → Exec R Text
  pub get_branch : (branch : String) → Exec R RefAnswer
  pub get_branch_sha : (branch : String) → Exec R String
  pub post_blob : Text → Exec R String
  pub post_tree : (base_tree : String) → List Change → Exec R String
  pub post_commit : (message tree : String) → (parents : List String) → Exec R String
  -- POST /git/refs: the status code
  pub post_ref : (branch sha : String) → Exec R ℕ
  pub post_pull : (title branch : String) → Exec R PullAnswer

pub data Event : Type 0 where
  asked wrote : Event

pub record Session (R : Type 0) : Type 0 where
  pub remote : R
  pub sent : List Event

-- No immutable git base: not 40 digits of lower-case hexadecimal.
abbrev pub is_hex : ℕ → Bool
is_hex c = (leb b'0' c && leb c b'9') || (leb b'a' c && leb c b'f')

abbrev pub is_sha : String → Bool
is_sha s = length (codes s) == 40 && not (any (λ c. not (is_hex c)) (codes s))

abbrev pub entry_at : Text → List TreeEntry → Option TreeEntry
entry_at p [] = none
entry_at p (e ∷ es) = let rest = entry_at p es in later rest e
  where
    later : Option TreeEntry → TreeEntry → Option TreeEntry
    later (some x) e = some x
    later none e = if e.path == p then some e else none

-- sorted(paths)
abbrev pub text_leb : Text → Text → Bool
text_leb [] t = true
text_leb (c ∷ s) [] = false
text_leb (c ∷ s) (d ∷ t) = ltb c d || (c == d && text_leb s t)

abbrev pub insert : Text → List Text → List Text
insert p [] = p ∷ []
insert p (q ∷ qs) = let rest = insert p qs in if text_leb p q then p ∷ q ∷ qs else q ∷ rest

abbrev pub sorted : List Text → List Text
sorted [] = []
sorted (p ∷ ps) = insert p (sorted ps)

abbrev pub is_just_text : Option String → String → Bool
is_just_text none s = false
is_just_text (some t) s = t == s

-- httpx raises unless the status is 2xx.
abbrev pub raise_for_status : ℕ → Result (Unit {0})
raise_for_status n = guard (leb 200 n && ltb n 300) (http_status n)

abbrev pub ref_status : ℕ → Result (Unit {0})
ref_status n = if contains n (200 ∷ 201 ∷ 422 ∷ []) then ok tt else raise_for_status n

abbrev pub retryable : Exception → Bool
retryable (http_timeout s) = true
retryable (http_network s) = true
retryable (http_status n) = n == 429 || leb 500 n
retryable _ = false

-- What the approved pull request came to.
pub record Opened : Type 0 where
  pub pull : Pull
  pub tree_sha : String
  pub commit_sha : String
  pub deduplicated : Bool
