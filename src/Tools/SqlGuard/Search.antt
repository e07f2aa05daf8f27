-- ===== src/Tools/SqlGuard/Search.antt =====
-- The search of src/incidentpilot/tools/sql_guard.py for a keyword in the padded text finds exactly the
-- keywords among its words.
use mathlib.Core.List.{append_assoc}
use incidentpilot.Base.{
  ℕ, ◌≡◌, refl, sym, ap, ◌∙◌, subst, ◌↔◌, ◌⊎◌, inl, inr, Bool, true, false, ◌||◌, List, [], ◌∷◌,
  ◌++◌, arith, ◌==◌, ==-refl, ==→eq, nat_eq, and_true, In, All, string_eq,
}
use incidentpilot.Base.Text.{Text, starts_with, contains_text, join, Lacks}
use incidentpilot.Tools.SqlGuard.{spaced, names_keyword}

abbrev pub blank : ℕ → Bool
blank c = c == 32

-- Words, each with a space behind it.
abbrev pub padded : List Text → Text
padded [] = []
padded (w ∷ ws) = w ++ (32 ∷ padded ws)

join-padded : (w : Text) (ws : List Text) → join 32 (w ∷ ws) ++ (32 ∷ []) ≡ padded (w ∷ ws)
join-padded w [] = refl
join-padded w (v ∷ ws) = append_assoc w _ _ ∙ ap (λ t. w ++ (32 ∷ t)) (join-padded v ws)

starts_with-same : (p s : Text) → starts_with (p ++ (32 ∷ [])) (p ++ (32 ∷ s)) ≡ true
starts_with-same [] s = refl
starts_with-same (c ∷ p) s = rw (==-refl c) (starts_with-same p s)

starts_with-word :
    (p w s : Text)
    → Lacks blank p
    → Lacks blank w
    → starts_with (p ++ (32 ∷ [])) (w ++ (32 ∷ s)) ≡ true
    → p ≡ w
starts_with-word [] [] s a b h = refl
starts_with-word [] (d ∷ w) s a b h = let (e, _) = and_true (32 == d) _ h in cc (b.0, ==→eq 32 d e)
starts_with-word (c ∷ p) [] s a b h = let (e, _) = and_true (c == 32) _ h in cc (a.0, e)
starts_with-word (c ∷ p) (d ∷ w) s a b h =
    let (e, k) = and_true (c == d) _ h in cc (==→eq c d e, starts_with-word p w s a.1 b.1 k)

-- A search for a text that begins with a space Passes over a word.
contains_text-skip :
    (p w s : Text) → Lacks blank w → contains_text (32 ∷ p) (w ++ s) ≡ contains_text (32 ∷ p) s
contains_text-skip p [] s b = refl
contains_text-skip p (d ∷ w) s b = rw (other b.0) (contains_text-skip p w s b.1)
  where
    other : blank d ≡ false → (32 == d) ≡ false
    other h = ground arith

starts_with-nil : (p : Text) → starts_with (p ++ (32 ∷ [])) [] ≡ false
starts_with-nil [] = refl
starts_with-nil (c ∷ p) = refl

or_cases : (a b : Bool) → a || b ≡ true → (a ≡ true) ⊎ (b ≡ true)
or_cases true b h = inl refl
or_cases false b h = inr h

or_left : (a b : Bool) → a ≡ true → a || b ≡ true
or_left a b h = ground arith

or_right : (a b : Bool) → b ≡ true → a || b ≡ true
or_right a b h = ground arith

module _ (kw : Text) (plain : Lacks blank kw) where
  contains-word :
      (ws : List Text)
      → All (Lacks blank) ws
      → contains_text (spaced kw) (32 ∷ padded ws) ≡ true
      → In kw ws
  contains-word [] l h =
      let no : starts_with (kw ++ (32 ∷ [])) [] ≡ false = starts_with-nil kw in cc (rw no at h)
  contains-word (w ∷ ws) l h = elim (or_cases _ _ h) [
    | inl e ↦ inl (starts_with-word kw w (padded ws) plain l.0 e)
    | inr e ↦ inr (
        contains-word ws l.1
          (sym (contains_text-skip (kw ++ (32 ∷ [])) w (32 ∷ padded ws) l.0) ∙ e))
  ]

  word-contains :
      (ws : List Text)
      → All (Lacks blank) ws
      → In kw ws
      → contains_text (spaced kw) (32 ∷ padded ws) ≡ true
  word-contains [] l i = elim i [ ]
  word-contains (w ∷ ws) l (inl e) =
      subst (λ u. contains_text (spaced kw) (32 ∷ (u ++ (32 ∷ padded ws))) ≡ true) e
        (rw (starts_with-same kw (padded ws)) refl)
  word-contains (w ∷ ws) l (inr i) =
      or_right _ _
        (contains_text-skip (kw ++ (32 ∷ [])) w (32 ∷ padded ws) l.0 ∙ word-contains ws l.1 i)

starts_with-more : (p s t : Text) → starts_with p s ≡ true → starts_with p (s ++ t) ≡ true
starts_with-more [] s t h = refl
starts_with-more (c ∷ p) [] t h = cc
starts_with-more (c ∷ p) (d ∷ s) t h =
    let (e, k) = and_true (c == d) _ h in rw e (starts_with-more p s t k)

at_start :
    (kw s : Text)
    → starts_with (kw ++ (32 ∷ [])) s ≡ true
    → contains_text (spaced kw) (spaced s) ≡ true
at_start kw s h = or_left _ _ (starts_with-more (kw ++ (32 ∷ [])) s (32 ∷ []) h)

no_words : (c : ℕ) (k : Text) → blank c ≡ false → names_keyword (c ∷ k) [] ≡ false
no_words c k h = rw h refl

-- On single-spaced words the search finds exactly the keywords among them.
pub names_keyword_iff :
    (c : ℕ) (k : Text) (ws : List Text)
    → Lacks blank (c ∷ k)
    → All (Lacks blank) ws
    → (names_keyword (c ∷ k) (join 32 ws) ≡ true) ↔ In (c ∷ k) ws
names_keyword_iff c k [] plain l = ((λ h. cc (h, no_words c k plain.0)), (λ i. elim i [ ]))
names_keyword_iff c k (w ∷ ws) plain l = (
  (λ h. contains-word (c ∷ k) plain (w ∷ ws) l (elim (or_cases _ _ h) [
    | inl e ↦ subst (λ t. contains_text (spaced (c ∷ k)) (32 ∷ t) ≡ true) (join-padded w ws) e
    | inr e ↦
        subst (λ t. contains_text (spaced (c ∷ k)) (32 ∷ t) ≡ true) (join-padded w ws)
          (at_start (c ∷ k) (join 32 (w ∷ ws)) e)
  ])),
  (λ i. or_left _ _ (
      subst (λ t. contains_text (spaced (c ∷ k)) (32 ∷ t) ≡ true) (sym (join-padded w ws))
        (word-contains (c ∷ k) plain (w ∷ ws) l i))),
)
