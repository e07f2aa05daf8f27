-- ===== src/Base/Text.antt =====
-- Python's str methods on texts as lists of code points: `in`, startswith, endswith, split and join.
use Prim.Native.Char.{code}
use Prim.Native.Nat.{ℕ}
use Prim.Native.String.{String}
use mathlib.Core.Path.{◌≡◌, refl, subst}
use mathlib.Core.Logic.{◌↔◌, inl, inr}
use mathlib.Core.Bool.{Bool, true, false, ◌&&◌, ◌||◌}
use mathlib.Core.List.{List, [], ◌∷◌, ◌++◌, map}
use incidentpilot.Base.Tests.{
  Eq, ◌==◌, nat_eq, ==-refl, ==→eq, leb, if◌then◌else◌, Bool-cases, and_true,
}
use incidentpilot.Base.Lists.{All}

abbrev pub Text : Type 0
Text = List ℕ

abbrev pub codes : String → Text
codes String.[] = []
codes (String.◌∷◌ c s) = code c ∷ codes s

abbrev pub text_beq : Text → Text → Bool
text_beq [] [] = true
text_beq (c ∷ s) (d ∷ t) = c == d && text_beq s t
text_beq _ _ = false

text_beq-eq : (s t : Text) → text_beq s t ≡ true → s ≡ t
text_beq-eq [] [] h = refl
text_beq-eq (c ∷ s) (d ∷ t) h =
    let (e, k) = and_true (c == d) _ h in cc (==→eq c d e, text_beq-eq s t k)
text_beq-eq [] (d ∷ t) h = cc
text_beq-eq (c ∷ s) [] h = cc

text_beq_refl : (s : Text) → text_beq s s ≡ true
text_beq_refl [] = refl
text_beq_refl (c ∷ s) = rw (==-refl c) (text_beq_refl s)

pub text_beq_iff : (s t : Text) → (text_beq s t ≡ true) ↔ (s ≡ t)
text_beq_iff s t = (text_beq-eq s t, (λ e. subst (λ u. text_beq s u ≡ true) e (text_beq_refl s)))

instance abbrev pub text_eq : Eq Text
text_eq = record { same = text_beq; same_iff = text_beq_iff }

-- s.startswith(p)
abbrev pub starts_with : Text → Text → Bool
starts_with [] s = true
starts_with (c ∷ p) [] = false
starts_with (c ∷ p) (d ∷ s) = c == d && starts_with p s

-- p in s
abbrev pub contains_text : Text → Text → Bool
contains_text p [] = starts_with p []
contains_text p (d ∷ s) = starts_with p (d ∷ s) || contains_text p s

-- s.endswith(p)
abbrev pub ends_with : Text → Text → Bool
ends_with p [] = text_beq p []
ends_with p (d ∷ s) = text_beq p (d ∷ s) || ends_with p s

-- The pieces between the characters that the test picks.
abbrev pub onto_first : ℕ → List Text → List Text
onto_first c [] = (c ∷ []) ∷ []
onto_first c (w ∷ ws) = (c ∷ w) ∷ ws

abbrev pub pieces : (ℕ → Bool) → Text → List Text
pieces cut [] = [] ∷ []
pieces cut (c ∷ s) = let rest = pieces cut s in if cut c then [] ∷ rest else onto_first c rest

-- s.split(chr(c))
abbrev pub split_on : ℕ → Text → List Text
split_on c = pieces (λ d. d == c)

-- str.isspace
abbrev pub is_space : ℕ → Bool
is_space c =
    (leb 9 c && leb c 13)
    || (leb 28 c && leb c 32)
    || c == 133
    || c == 160
    || c == 5_760
    || (leb 8_192 c && leb c 8_202)
    || c == 8_232
    || c == 8_233
    || c == 8_239
    || c == 8_287
    || c == 12_288

abbrev pub non_empty : List Text → List Text
non_empty [] = []
non_empty ([] ∷ ws) = non_empty ws
non_empty ((c ∷ w) ∷ ws) = (c ∷ w) ∷ non_empty ws

-- s.split()
abbrev pub words : Text → List Text
words s = non_empty (pieces is_space s)

-- chr(c).join(ws)
abbrev pub join : ℕ → List Text → Text
join c [] = []
join c (w ∷ []) = w
join c (w ∷ v ∷ ws) = w ++ (c ∷ join c (v ∷ ws))

-- s.replace(chr(c), chr(d))
abbrev pub replace_char : (c d : ℕ) → Text → Text
replace_char c d = map (λ x. if x == c then d else x)

-- No character of the text passes the test.
abbrev pub Lacks : (ℕ → Bool) → Text → Type 0
Lacks p s = All (λ c. p c ≡ false) s

-- No piece has a character at which the text was cut.
onto_first-Lacks :
    (p : ℕ → Bool) (c : ℕ) (ws : List Text)
    → p c ≡ false
    → All (Lacks p) ws
    → All (Lacks p) (onto_first c ws)
onto_first-Lacks p c [] h k = ((h, tt), tt)
onto_first-Lacks p c (w ∷ ws) h k = ((h, k.0), k.1)

pub pieces-Lacks : (p : ℕ → Bool) (s : Text) → All (Lacks p) (pieces p s)
pieces-Lacks p [] = (tt, tt)
pieces-Lacks p (c ∷ s) = elim (Bool-cases (p c)) [
  | inl e ↦ rw e (tt, pieces-Lacks p s)
  | inr e ↦ rw e (onto_first-Lacks p c (pieces p s) e (pieces-Lacks p s))
]

non_empty-All : (P : Text → Type 0) (ws : List Text) → All P ws → All P (non_empty ws)
non_empty-All P [] h = tt
non_empty-All P ([] ∷ ws) h = non_empty-All P ws h.1
non_empty-All P ((c ∷ w) ∷ ws) h = (h.0, non_empty-All P ws h.1)

pub words-Lacks : (s : Text) → All (Lacks is_space) (words s)
words-Lacks s = non_empty-All (Lacks is_space) _ (pieces-Lacks is_space s)
