-- ===== src/Sandbox/Changes.antt =====
-- The changed paths of two snapshots (src/incidentpilot/sandbox/manager.py) are those whose digests
-- differ.
use incidentpilot.Base.{
  ◌≡◌, ◌≢◌, refl, sym, ◌∙◌, ◌⊎◌, inl, inr, Bool, true, false, ◌||◌, Option, none, some, List, [],
  ◌∷◌, ◌++◌, arith, ◌==◌, ==-refl, ==→eq, Bool-cases, and_true, In, if◌then◌else◌, nat_eq,
}
use incidentpilot.Base.Text.{Text, text_eq}
use incidentpilot.Enums.{contains}
use incidentpilot.Sandbox.Files.{subset, digest_of, option_beq, keys, differing, changed_paths}

contains-true : (p : Text) (ps : List Text) → In p ps → contains p ps ≡ true
contains-true p [] i = elim i [ ]
contains-true p (q ∷ ps) (inl e) = rw e (rw (==-refl q) refl)
contains-true p (q ∷ ps) (inr i) = right _ _ (contains-true p ps i)
  where
    right : (a b : Bool) → b ≡ true → a || b ≡ true
    right a b h = ground arith

contains-member : (p : Text) (ps : List Text) → contains p ps ≡ true → In p ps
contains-member p [] h = cc
contains-member p (q ∷ ps) h = elim (Bool-cases (p == q)) [
  | inl e ↦ inl (==→eq p q e)
  | inr e ↦ inr (contains-member p ps (rw e at h))
]

pub subset-In : (ps qs : List Text) (p : Text) → subset ps qs ≡ true → In p ps → In p qs
subset-In [] qs p h i = elim i [ ]
subset-In (q ∷ ps) qs p h (inl e) = contains-member p qs (rw e (and_true (contains q qs) _ h).0)
subset-In (q ∷ ps) qs p h (inr i) = subset-In ps qs p (and_true (contains q qs) _ h).1 i

option_beq-eq : (a b : Option Text) → option_beq a b ≡ true → a ≡ b
option_beq-eq none none h = refl
option_beq-eq (some a) (some b) h = let e = ==→eq a b h in cc
option_beq-eq none (some b) h = cc
option_beq-eq (some a) none h = cc

option_beq_refl : (a : Option Text) → option_beq a a ≡ true
option_beq_refl none = refl
option_beq_refl (some a) = ==-refl a

picked :
    (b : Bool) (p q : Text) (rest : List Text)
    → In p (if b then rest else q ∷ rest)
    → In p rest ⊎ ((b ≡ false) × (p ≡ q))
picked true p q rest i = inl i
picked false p q rest (inl e) = inr (refl, e)
picked false p q rest (inr i) = inl i

kept : (b : Bool) (p q : Text) (rest : List Text) → In p rest → In p (if b then rest else q ∷ rest)
kept true p q rest i = i
kept false p q rest i = inr i

digest_of_absent :
    (p : Text) (s : List (Text × Text)) → ((In p (keys s)) → ⊥) → digest_of p s ≡ none
digest_of_absent p [] n = refl
digest_of_absent p ((q, d) ∷ s) n = elim (Bool-cases (q == p)) [
  | inl e ↦ absurd (n (inl (sym (==→eq q p e))))
  | inr e ↦ rw e (digest_of_absent p s (λ i. n (inr i)))
]

In-append_left : (p : Text) (ps qs : List Text) → In p ps → In p (ps ++ qs)
In-append_left p [] qs i = elim i [ ]
In-append_left p (x ∷ ps) qs (inl e) = inl e
In-append_left p (x ∷ ps) qs (inr i) = inr (In-append_left p ps qs i)

In-append_right : (p : Text) (ps qs : List Text) → In p qs → In p (ps ++ qs)
In-append_right p [] qs i = i
In-append_right p (x ∷ ps) qs i = inr (In-append_right p ps qs i)

module _ (before after : List (Text × Text)) where
  abbrev pub same_digest : Text → Bool
  same_digest p = option_beq (digest_of p before) (digest_of p after)

  pub differs :
      (ps : List Text) (p : Text)
      → In p (differing before after ps)
      → digest_of p before ≢ digest_of p after
  differs [] p i = elim i [ ]
  differs (q ∷ ps) p i = elim (picked (same_digest q) p q (differing before after ps) i) [
    | inl j ↦ differs ps p j
    | inr (e, s) ↦ λ same. cc (option_beq_refl (digest_of p after), e, s, same)
  ]

  differing-hit :
      (ps : List Text) (p : Text)
      → In p ps
      → same_digest p ≡ false
      → In p (differing before after ps)
  differing-hit [] p i h = elim i [ ]
  differing-hit (q ∷ ps) p (inl e) h =
      let same : same_digest q ≡ false = rw e at h in rw same (inl e)
  differing-hit (q ∷ ps) p (inr i) h =
      kept (same_digest q) p q (differing before after ps) (differing-hit ps p i h)

  -- A path that is not among the changed ones has the digest that it had, or still none.
  pub unchanged :
      (p : Text)
      → ((In p (changed_paths before after)) → ⊥)
      → digest_of p before ≡ digest_of p after
  unchanged p n = elim (Bool-cases (contains p (keys before ++ keys after))) [
    | inl e ↦ elim (Bool-cases (same_digest p)) [
      | inl s ↦ option_beq-eq _ _ s
      | inr s ↦ absurd (n (differing-hit _ p (contains-member p _ e) s))
    ]
    | inr e ↦
        digest_of_absent p before
          (λ i. cc (contains-true p _ (In-append_left p (keys before) (keys after) i), e))
        ∙ sym (
            digest_of_absent p after
              (λ i. cc (contains-true p _ (In-append_right p (keys before) (keys after) i), e)))
  ]
