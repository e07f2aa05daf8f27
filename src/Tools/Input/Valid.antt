-- ===== src/Tools/Input/Valid.antt =====
-- What a payload that _validate_input of src/incidentpilot/tools/gateway.py accepts is like.
use incidentpilot.Base.{
  ℕ, String, ◌≡◌, refl, Bool, true, false, ◌&&◌, not, Option, some, List, [], ◌∷◌, ap, subst, sym,
  if◌then◌else◌, string_eq, ltb, leb, leb→le, ◌≤◌, and_true, arith, ok, guard, >>=-eq-ok, guard-ok,
  ok-injective, ◌⊎◌, inl, inr, ◌∙◌,
}
use incidentpilot.Json.{Json, null, bool, num, str, arr, obj, Dict, end, field}
use incidentpilot.Tools.Input.{
  InputSchema, lookup, missing, extras, is_empty, has_type, is_bool, numeric, too_long, check_limit,
  check_value, check_field, check_fields, validate_input, within_limit, length_limit,
}
use Prim.Native.String.{count}

-- The value fits its property: its type, its length, and the range of a limit.
pub record Fits (expected : Option String) (key : String) (v : Json) : Type 0 where
  typed : has_type expected v ≡ true
  no_bool_number : (numeric expected && is_bool v) ≡ false
  short : (s : String) → v ≡ str s → count s ≤ length_limit key
  limited : key ≡ "limit" → (v ≡ bool true) ⊎ ((n : ℕ) × (v ≡ num n) × (1 ≤ n) × (n ≤ 50))

-- Every entry that the schema names fits its property.
abbrev pub AllFit : List (String × Option String) → Dict → Type 0
AllFit properties end = Unit
AllFit properties (field k v d) =
    ((expected : Option String) → lookup k properties ≡ some expected → Fits expected k v)
    × AllFit properties d

not-true : (b : Bool) → not b ≡ true → b ≡ false
not-true b h = ground arith

short_enough : (key s : String) → too_long key (str s) ≡ false → count s ≤ length_limit key
short_enough key s h = ground arith

limit_range :
    (v : Json)
    → within_limit v ≡ ok true
    → (v ≡ bool true) ⊎ ((n : ℕ) × (v ≡ num n) × (1 ≤ n) × (n ≤ 50))
limit_range (num n) h =
    let (a, b) = and_true (leb 1 n) (leb n 50) (ok-injective h) in
    inr (n, refl, leb→le 1 n a, leb→le n 50 b)
limit_range (bool b) h = inl (ap bool (ok-injective h))
limit_range null h = cc
limit_range (str s) h = cc
limit_range (arr vs) h = cc
limit_range (obj d) h = cc

limit_checked : (v : Json) {u : Unit {0}} → check_limit "limit" v ≡ ok u → within_limit v ≡ ok true
limit_checked v h =
    let (inside, e, g) = >>=-eq-ok (within_limit v) _ h in e ∙ ap ok (guard-ok inside _ g)

check_value-Fits :
    (tool : String) (expected : Option String) (k : String) (v : Json) {u : Unit {0}}
    → check_value tool expected k v ≡ ok u
    → Fits expected k v
check_value-Fits tool expected k v h =
    let (_, a, h1) = >>=-eq-ok (guard (has_type expected v) _) _ h in
    let (_, b, h2) = >>=-eq-ok (guard (not (numeric expected && is_bool v)) _) _ h1 in
    let (_, c, h3) = >>=-eq-ok (guard (not (too_long k v)) _) _ h2 in
    let short = not-true (too_long k v) (guard-ok _ _ c) in
    record {
      typed = guard-ok (has_type expected v) _ a;
      no_bool_number = not-true _ (guard-ok _ _ b);
      short = λ s e. short_enough k s (subst (λ w. too_long k w ≡ false) e short);
      limited = λ e. limit_range v (limit_checked v (subst (λ j. check_limit j v ≡ ok _) e h3));
    }

check_fields-AllFit :
    (tool : String) (properties : List (String × Option String)) (d c : Dict)
    → check_fields tool properties d ≡ ok c
    → (c ≡ d) × AllFit properties d
check_fields-AllFit tool properties end c h = (sym (ok-injective h), tt)
check_fields-AllFit tool properties (field k v d) c h =
    let (_, a, h1) = >>=-eq-ok (check_field tool (lookup k properties) k v) _ h in
    let (rest, b, h2) = >>=-eq-ok (check_fields tool properties d) _ h1 in
    let (same, fits) = check_fields-AllFit tool properties d rest b in
    (
      sym (ok-injective h2) ∙ ap (λ r. field k v r) same,
      (
        (λ expected e.
            check_value-Fits tool expected k v (subst (λ o. check_field tool o k v ≡ ok _) e a)),
        fits,
      ),
    )

AllFit-no_properties : (d : Dict) → AllFit [] d
AllFit-no_properties end = tt
AllFit-no_properties (field k v d) = (λ expected e. cc, AllFit-no_properties d)

empty_is_empty : {A : Type 0} (xs : List A) → is_empty xs ≡ true → xs ≡ []
empty_is_empty [] h = refl
empty_is_empty (x ∷ xs) h = cc

fits_limit : (n : ℕ) → not (ltb 16000 n) ≡ true → n ≤ 16000
fits_limit n h = ground arith

no_extras :
    (closed : Bool) (xs : List String)
    → not (closed && not (is_empty xs)) ≡ true
    → closed ≡ true
    → xs ≡ []
no_extras closed [] h shut = refl
no_extras closed (x ∷ xs) h shut = ground arith

module _ (dump_length : Json → ℕ) (shown shown_sorted : List String → String) where
  chosen-AllFit :
      (tool : String) (properties : List (String × Option String)) (d c : Dict)
      → (if is_empty properties then ok d else check_fields tool properties d) ≡ ok c
      → (c ≡ d) × AllFit properties d
  chosen-AllFit tool [] d c h = (sym (ok-injective h), AllFit-no_properties d)
  chosen-AllFit tool (p ∷ ps) d c h = check_fields-AllFit tool (p ∷ ps) d c h

  -- A payload that `validate_input` accepts comes back unchanged. It is a dict of at most 16000
  -- characters of JSON, it has every required field, it has no field beside the schema's when the
  -- schema is closed, and each entry that the schema names has the property's type, is no bool where a
  -- number is asked, is a text of at most 8192 characters (`query`) or 512 characters (any other), and
  -- is from 1 to 50 (or the bool True) when it is `limit`.
  pub validate_input-accepts :
      (tool : String) (s : InputSchema) (v : Json) (c : Dict)
      → validate_input dump_length shown shown_sorted tool s v ≡ ok c
      → (v ≡ obj c)
        × (dump_length v ≤ 16000)
        × (missing s.required c ≡ [])
        × (s.closed ≡ true → extras c s.properties ≡ [])
        × AllFit s.properties c
  unfolding validate_input
  validate_input-accepts tool s (obj d) c h =
      let (_, a, h1) = >>=-eq-ok (guard (not (ltb 16000 (dump_length (obj d)))) _) _ h in
      let (_, b, h2) = >>=-eq-ok (guard (is_empty (missing s.required d)) _) _ h1 in
      let (_, e, h3) =
        >>=-eq-ok (guard (not (s.closed && not (is_empty (extras d s.properties)))) _) _ h2 in
      let (same, fits) = chosen-AllFit tool s.properties d c h3 in
      let small : dump_length (obj d) ≤ 16000 = fits_limit (dump_length (obj d)) (guard-ok _ _ a) in
      let full = empty_is_empty _ (guard-ok _ _ b) in
      let only : s.closed ≡ true → extras d s.properties ≡ [] =
        no_extras s.closed (extras d s.properties) (guard-ok _ _ e) in
      (
        ap obj (sym same),
        small,
        subst (λ x. missing s.required x ≡ []) (sym same) full,
        subst (λ x. s.closed ≡ true → extras x s.properties ≡ []) (sym same) only,
        subst (AllFit s.properties) (sym same) fits,
      )
  validate_input-accepts tool s null c h = cc
  validate_input-accepts tool s (bool b) c h = cc
  validate_input-accepts tool s (num n) c h = cc
  validate_input-accepts tool s (str t) c h = cc
  validate_input-accepts tool s (arr vs) c h = cc
