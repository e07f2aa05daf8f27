-- ===== src/Agent/Reasoning/Bindings.antt =====
-- When verify_hypothesis of src/incidentpilot/agent/reasoning.py accepts the references of a hypothesis.
use incidentpilot.Base.{
  ℕ, String, ◌+◌, ◌≤◌, ◌≡◌, ◌≢◌, ◌↔◌, refl, sym, ◌∙◌, ap, subst, Bool, true, false, ◌||◌, inl, inr,
  List, [], ◌∷◌, arith, ◌==◌, ==→eq, ==-refl, string_eq, if◌then◌else◌, Bool-cases, In, length,
  and_true,
}
use incidentpilot.Enums.{contains}
use incidentpilot.Agent.State.{subset}
use incidentpilot.Agent.Investigation.{distinct_count}
use incidentpilot.Tools.SqlGuard.Columns.{contains-In}
use incidentpilot.Agent.Reasoning.{verify_hypothesis, bindings_valid, verify_hypothesis-valid_iff}

abbrev pub NoRepeats : List String → Type 0
NoRepeats [] = Unit
NoRepeats (x ∷ xs) = (¬ In x xs) × NoRepeats xs

abbrev pub Within : (xs ys : List String) → Type 0
Within xs ys = (z : String) → In z xs → In z ys

Within-cons : (x : String) (xs ys : List String) → Within xs ys → Within (x ∷ xs) (x ∷ ys)
Within-cons x xs ys h z (inl s) = inl s
Within-cons x xs ys h z (inr i) = inr (h z i)

In-contains : (x : String) (xs : List String) → In x xs → contains x xs ≡ true
In-contains x [] i = absurd i
In-contains x (y ∷ ys) (inl e) =
    subst (λ y. (x == y) || contains x ys ≡ true) e (rw (==-refl x) refl)
In-contains x (y ∷ ys) (inr i) = or_right (x == y) (contains x ys) (In-contains x ys i)
  where
    or_right : (a b : Bool) → b ≡ true → a || b ≡ true
    or_right a b h = ground arith

subset-Within : (xs ys : List String) → subset xs ys ≡ true → Within xs ys
subset-Within [] ys h z i = absurd i
subset-Within (x ∷ xs) ys h z (inl e) =
    subst (λ w. In w ys) (sym e) (contains-In x ys (and_true (contains x ys) _ h).0)
subset-Within (x ∷ xs) ys h z (inr i) = subset-Within xs ys (and_true (contains x ys) _ h).1 z i

Within-subset : (xs ys : List String) → Within xs ys → subset xs ys ≡ true
Within-subset [] ys h = refl
Within-subset (x ∷ xs) ys h =
    rw (In-contains x ys (h x (inl refl)), Within-subset xs ys (λ z i. h z (inr i))) refl

-- The references without repetitions.
deduplicated : List String → List String
deduplicated [] = []
deduplicated (x ∷ xs) = let rest = deduplicated xs in if contains x xs then rest else x ∷ rest

deduplicated-Within : (xs : List String) → Within (deduplicated xs) xs
unfolding deduplicated
deduplicated-Within [] z i = absurd i
deduplicated-Within (x ∷ xs) z i = elim (Bool-cases (contains x xs)) [
  | inl e ↦ inr (deduplicated-Within xs z (rw e at i))
  | inr e ↦ Within-cons x (deduplicated xs) xs (deduplicated-Within xs) z (rw e at i)
]

not_In : (x : String) (xs : List String) → contains x xs ≡ false → ¬ In x xs
not_In x xs h i = true_false (sym (In-contains x xs i) ∙ h)
  where
    true_false : true ≡ false → ⊥
    true_false e = cc

deduplicated-NoRepeats : (xs : List String) → NoRepeats (deduplicated xs)
unfolding deduplicated
deduplicated-NoRepeats [] = tt
deduplicated-NoRepeats (x ∷ xs) = elim (Bool-cases (contains x xs)) [
  | inl e ↦ rw e (deduplicated-NoRepeats xs)
  | inr e ↦ rw e ((λ i. not_In x xs e (deduplicated-Within xs x i)), deduplicated-NoRepeats xs)
]

length-deduplicated : (xs : List String) → length (deduplicated xs) ≡ distinct_count xs
unfolding deduplicated
length-deduplicated [] = refl
length-deduplicated (x ∷ xs) = elim (Bool-cases (contains x xs)) [
  | inl e ↦ rw e (omega (arith, length-deduplicated xs))
  | inr e ↦ rw e (omega (arith, length-deduplicated xs))
]

dropped : String → List String → List String
dropped x [] = []
dropped x (y ∷ ys) = let rest = dropped x ys in if x == y then rest else y ∷ rest

dropped-Within : (x : String) (ys : List String) → Within (dropped x ys) ys
unfolding dropped
dropped-Within x [] z i = absurd i
dropped-Within x (y ∷ ys) z i = elim (Bool-cases (x == y)) [
  | inl e ↦ inr (dropped-Within x ys z (rw e at i))
  | inr e ↦ Within-cons y (dropped x ys) ys (dropped-Within x ys) z (rw e at i)
]

dropped-other : (x : String) (ys : List String) → ¬ In x (dropped x ys)
unfolding dropped
dropped-other x [] i = absurd i
dropped-other x (y ∷ ys) i = elim (Bool-cases (x == y)) [
  | inl e ↦ dropped-other x ys (rw e at i)
  | inr e ↦ later e (dropped-other x ys) (rw e at i)
]
  where
    true_false : true ≡ false → ⊥
    true_false e = cc

    later : (x == y) ≡ false → ¬ In x (dropped x ys) → In x (y ∷ dropped x ys) → ⊥
    later e h (inl s) = true_false (sym (==-refl x) ∙ ap (λ w. x == w) s ∙ e)
    later e h (inr j) = h j

dropped-NoRepeats : (x : String) (ys : List String) → NoRepeats ys → NoRepeats (dropped x ys)
unfolding dropped
dropped-NoRepeats x [] d = tt
dropped-NoRepeats x (y ∷ ys) d = elim (Bool-cases (x == y)) [
  | inl e ↦ rw e (dropped-NoRepeats x ys d.1)
  | inr e ↦ rw e ((λ i. d.0 (dropped-Within x ys y i)), dropped-NoRepeats x ys d.1)
]

length-dropped_absent :
    (x : String) (ys : List String) → ¬ In x ys → length ys ≤ length (dropped x ys)
unfolding dropped
length-dropped_absent x [] h = omega arith
length-dropped_absent x (y ∷ ys) h = elim (Bool-cases (x == y)) [
  | inl e ↦ absurd (h (inl (==→eq x y e)))
  | inr e ↦ rw e (omega (arith, length-dropped_absent x ys (λ i. h (inr i))))
]

length-dropped :
    (x : String) (ys : List String) → NoRepeats ys → length ys ≤ 1 + length (dropped x ys)
unfolding dropped
length-dropped x [] d = omega arith
length-dropped x (y ∷ ys) d = elim (Bool-cases (x == y)) [
  | inl e ↦
      rw e (
        omega (arith, length-dropped_absent x ys (λ i. d.0 (subst (λ w. In w ys) (==→eq x y e) i))))
  | inr e ↦ rw e (omega (arith, length-dropped x ys d.1))
]

-- NoRepeats texts that are all among `xs` are no more than its distinct texts.
length-NoRepeats :
    (xs ds : List String) → NoRepeats ds → Within ds xs → length ds ≤ distinct_count xs
length-NoRepeats [] [] d w = omega arith
length-NoRepeats [] (y ∷ ys) d w = absurd (w y (inl refl))
length-NoRepeats (x ∷ xs) ds d w = elim (Bool-cases (contains x xs)) [
  | inl e ↦ rw e (omega (arith, length-NoRepeats xs ds d (λ z i. again e z (w z i))))
  | inr e ↦ rw e (
      omega (
        arith,
        length-dropped x ds d,
        length-NoRepeats xs (dropped x ds) (dropped-NoRepeats x ds d)
            (λ z i. beyond z i (w z (dropped-Within x ds z i))),
      ))
]
  where
    again : contains x xs ≡ true → (z : String) → In z (x ∷ xs) → In z xs
    again e z (inl s) = subst (λ v. In v xs) (sym s) (contains-In x xs e)
    again e z (inr i) = i

    beyond : (z : String) → In z (dropped x ds) → In z (x ∷ xs) → In z xs
    beyond z i (inl s) = absurd (dropped-other x ds (subst (λ v. In v (dropped x ds)) s i))
    beyond z i (inr j) = j

-- A hypothesis is verifiable exactly when it cites something, everything it cites is known evidence,
-- and among what it cites there are `min_evidence` different identifiers, repetitions not counted.
pub verify_hypothesis-bound_iff :
    (cited known : List String) (min_evidence : ℕ)
    → (verify_hypothesis cited known min_evidence ≡ bindings_valid) ↔ (
        (cited ≢ [])
        × Within cited known
        × (ds : List String) × NoRepeats ds
        × Within ds cited
        × (min_evidence ≤ length ds))
verify_hypothesis-bound_iff cited known min_evidence = (
  λ h.
      let (some_cited, within, enough) =
        (verify_hypothesis-valid_iff cited known min_evidence).0 h in
      (
        some_cited,
        subset-Within cited known within,
        deduplicated cited,
        deduplicated-NoRepeats cited,
        deduplicated-Within cited,
        omega (arith, enough, length-deduplicated cited),
      ),
  λ (some_cited, within, ds, d, w, enough).
      (verify_hypothesis-valid_iff cited known min_evidence).1 (
        some_cited,
        Within-subset cited known within,
        omega (arith, enough, length-NoRepeats cited ds d w),
      ),
)
