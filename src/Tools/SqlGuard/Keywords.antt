-- ===== src/Tools/SqlGuard/Keywords.antt =====
-- The keyword screen of src/incidentpilot/tools/sql_guard.py, against membership of the keywords among
-- the words of the query.
use incidentpilot.Base.{
  ℕ, ◌≡◌, refl, ◌↔◌, inl, inr, Bool, true, false, ◌&&◌, not, List, [], ◌∷◌, ◌++◌, arith, nat_eq,
  Bool-cases, and_true, In, All, Result, ok, guard-ok, string_eq, String,
}
use incidentpilot.Base.Text.{Text, codes, words, join, is_space, Lacks, words-Lacks}
use incidentpilot.Tools.SqlGuard.{
  names_keyword, check_keyword, check_keywords, hard_forbidden, forbidden_keywords, each,
}
use incidentpilot.Tools.SqlGuard.Columns.{each-ok}
use incidentpilot.Enums.{contains}
use incidentpilot.Tools.SqlGuard.Search.{blank, names_keyword_iff}

abbrev pub IsWord : Text → Type 0
IsWord [] = ⊥
IsWord (c ∷ k) = Lacks blank (c ∷ k)

word_iff :
    (kw : Text) (ws : List Text)
    → IsWord kw
    → All (Lacks blank) ws
    → (names_keyword kw (join 32 ws) ≡ true) ↔ In kw ws
word_iff [] ws w l = absurd w
word_iff (c ∷ k) ws w l = names_keyword_iff c k ws w l

spaces-blank : (s : Text) → Lacks is_space s → Lacks blank s
spaces-blank [] h = tt
spaces-blank (c ∷ s) h = (no_blank c h.0, spaces-blank s h.1)
  where
    no_blank : (c : ℕ) → is_space c ≡ false → blank c ≡ false
    no_blank c h = ground arith

words-blank : (ws : List Text) → All (Lacks is_space) ws → All (Lacks blank) ws
words-blank [] h = tt
words-blank (w ∷ ws) h = (spaces-blank w h.0, words-blank ws h.1)

-- The words among the keywords, by computation.
abbrev pub plain : Text → Bool
plain [] = true
plain (c ∷ k) = not (blank c) && plain k

plain-Lacks : (s : Text) → plain s ≡ true → Lacks blank s
plain-Lacks [] h = tt
plain-Lacks (c ∷ s) h = let (a, b) = and_true (not (blank c)) _ h in (ground arith, plain-Lacks s b)

abbrev pub spells : Text → Bool
spells [] = false
spells (c ∷ k) = plain (c ∷ k)

spells-IsWord : (s : Text) → spells s ≡ true → IsWord s
spells-IsWord [] h = cc
spells-IsWord (c ∷ k) h = plain-Lacks (c ∷ k) h

each-All :
    {A : Type 0} (f : A → Result (Unit {0})) (xs : List A)
    → All (λ x. f x ≡ ok tt) xs
    → each f xs ≡ ok tt
each-All f [] h = refl
each-All f (x ∷ xs) h = rw h.0 (each-All f xs h.1)

abbrev pub soft_keywords : List String
soft_keywords =
    "copy" ∷ "call" ∷ "do" ∷ "vacuum" ∷ "reindex" ∷ "cluster" ∷ "refresh" ∷ "execute" ∷ "prepare"
    ∷ "listen" ∷ "notify" ∷ []

module _ (lowered : Text) where
  abbrev pub Passes : String → Type 0
  Passes kw = check_keyword (join 32 (words lowered)) kw ≡ ok tt

  abbrev pub Absent : String → Type 0
  Absent kw = ¬ (In (codes kw) (words lowered))

  screened :
      (kw : String) → IsWord (codes kw) → contains kw hard_forbidden ≡ true → Passes kw ↔ Absent kw
  screened kw w hard =
      let found =
        word_iff (codes kw) (words lowered) w (words-blank (words lowered) (words-Lacks lowered)) in
      elim (Bool-cases (names_keyword (codes kw) (join 32 (words lowered)))) [
        | inl e ↦ ((λ h i. cc (guard-ok _ _ h, e, hard)), (λ n. absurd (n (found.0 e))))
        | inr e ↦ ((λ h i. cc (found.1 i, e)), (λ n. rw e refl))
      ]

  unscreened : (kw : String) → contains kw hard_forbidden ≡ false → Passes kw
  unscreened kw soft = elim (Bool-cases (names_keyword (codes kw) (join 32 (words lowered)))) [
    | inl e ↦ rw (e, soft) refl
    | inr e ↦ rw e refl
  ]

  screened-All :
      (kws : List String)
      → All (λ kw. (spells (codes kw) ≡ true) × (contains kw hard_forbidden ≡ true)) kws
      → All Passes kws ↔ All Absent kws
  screened-All [] h = ((λ x. x), (λ x. x))
  screened-All (kw ∷ kws) h =
      let one = screened kw (spells-IsWord (codes kw) h.0.0) h.0.1 in
      let more = screened-All kws h.1 in
      ((λ x. (one.0 x.0, more.0 x.1)), (λ x. (one.1 x.0, more.1 x.1)))

  unscreened-All :
      (kws : List String) → All (λ kw. contains kw hard_forbidden ≡ false) kws → All Passes kws
  unscreened-All [] h = tt
  unscreened-All (kw ∷ kws) h = (unscreened kw h.0, unscreened-All kws h.1)

  front : (kws : List String) → All Passes (kws ++ soft_keywords) → All Passes kws
  front [] h = tt
  front (kw ∷ kws) h = (h.0, front kws h.1)

  join-All :
      (kws : List String)
      → All Passes kws
      → All Passes soft_keywords
      → All Passes (kws ++ soft_keywords)
  join-All [] h k = k
  join-All (kw ∷ kws) h k = (h.0, join-All kws h.1 k)

  -- The keyword screen accepts a lowered query exactly when none of the nine commands insert, update,
  -- delete, drop, alter, truncate, create, grant and revoke is one of its words, where words are what
  -- whitespace separates; the other listed keywords are not screened.
  pub check_keywords_iff :
      (check_keywords lowered ≡ ok tt)
      ↔ All (λ kw. ¬ (In (codes kw) (words lowered))) hard_forbidden
  unfolding check_keywords
  check_keywords_iff =
      let hard = screened-All hard_forbidden (
        (refl, refl),
        (
          (refl, refl),
          (
            (refl, refl),
            (
              (refl, refl),
              ((refl, refl), ((refl, refl), ((refl, refl), ((refl, refl), ((refl, refl), tt))))),
            ),
          ),
        ),
      ) in
      let soft = unscreened-All soft_keywords (
        refl,
        (refl, (refl, (refl, (refl, (refl, (refl, (refl, (refl, (refl, (refl, tt)))))))))),
      ) in
      (
        (λ h. hard.0 (
            front hard_forbidden
              (each-ok (check_keyword (join 32 (words lowered))) forbidden_keywords h))),
        (λ n.
            each-All (check_keyword (join 32 (words lowered))) forbidden_keywords
              (join-All hard_forbidden (hard.1 n) soft)),
      )
