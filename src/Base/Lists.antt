-- ===== src/Base/Lists.antt =====
-- Lists measured by native numbers, membership by computation, and tables of rows:
-- `UPDATE ... WHERE`, `SELECT count(*)` and `SELECT ... LIMIT 1` over a list of rows.
use Prim.Native.Nat.{ℕ, suc, ◌+◌, ◌<◌}
use mathlib.Core.Path.{◌≡◌, refl, ap, subst}
use mathlib.Core.Logic.{◌⊎◌, inl, inr}
use mathlib.Core.Bool.{Bool, true, false}
use mathlib.Core.Option.{Option, none, some}
use mathlib.Core.List.{List, [], ◌∷◌, ◌++◌, map}
use native.Mathlib.Omega.{arith}
use incidentpilot.Base.Tests.{if◌then◌else◌, Bool-cases}

module _ {ℓ} {A : Type ℓ} where
  abbrev pub length : List A → ℕ
  length [] = 0
  length (x ∷ xs) = suc (length xs)

  pub length-append : (xs ys : List A) → length (xs ++ ys) ≡ length xs + length ys
  length-append [] ys = omega arith
  length-append (x ∷ xs) ys = omega (arith, length-append xs ys)

  abbrev pub All {κ} : (A → Type κ) → List A → Type κ
  All P [] = Unit
  All P (x ∷ xs) = P x × All P xs

-- `a` stands in the list.
abbrev pub In : {A : Type 0} → A → List A → Type 0
In a [] = ⊥
In a (x ∷ xs) = (a ≡ x) ⊎ In a xs

module _ {A : Type 0} where
  pub All-In {κ} : (P : A → Type κ) (xs : List A) (a : A) → All P xs → In a xs → P a
  All-In P [] a h i = elim i [ ]
  All-In P (x ∷ xs) a h (inl e) = rw e h.0
  All-In P (x ∷ xs) a h (inr i) = All-In P xs a h.1 i

-- One table of the database.
module _ {Row : Type 0} where
  -- UPDATE t SET ... WHERE p
  abbrev pub update_where : (Row → Bool) → (Row → Row) → List Row → List Row
  update_where p f [] = []
  update_where p f (r ∷ rs) = (if p r then f r else r) ∷ update_where p f rs

  -- SELECT count(*) FROM t WHERE p; also the row count of an UPDATE with this condition.
  abbrev pub count_where : (Row → Bool) → List Row → ℕ
  count_where p [] = 0
  count_where p (r ∷ rs) = (if p r then 1 else 0) + count_where p rs

  -- SELECT * FROM t WHERE p, its first row
  abbrev pub find_where : (Row → Bool) → List Row → Option Row
  find_where p [] = none
  find_where p (r ∷ rs) = if p r then some r else find_where p rs

  pub find_where-In :
      (p : Row → Bool) (rs : List Row) (r : Row) → find_where p rs ≡ some r → In r rs × (p r ≡ true)
  find_where-In p [] r h = cc
  find_where-In p (x ∷ rs) r h = elim (Bool-cases (p x)) [
    | inl e ↦ (inl (ground arith), ground arith)
    | inr e ↦ let (i, q) = find_where-In p rs r (ground arith) in (inr i, q)
  ]

  pub find_where-none :
      (p : Row → Bool) (rs : List Row) → find_where p rs ≡ none → All (λ r. p r ≡ false) rs
  find_where-none p [] h = tt
  find_where-none p (x ∷ rs) h = ground (arith, find_where-none p rs)

  pub find_where-absent :
      (p : Row → Bool) (rs : List Row) → All (λ r. p r ≡ false) rs → find_where p rs ≡ none
  find_where-absent p [] h = refl
  find_where-absent p (x ∷ rs) h = rw h.0 (find_where-absent p rs h.1)

  pub count_where-zero :
      (p : Row → Bool) (rs : List Row) → All (λ r. p r ≡ false) rs → count_where p rs ≡ 0
  count_where-zero p [] h = refl
  count_where-zero p (x ∷ rs) h = ground (arith, count_where-zero p rs h.1)

  -- An update that matches nothing changes nothing.
  pub update_where-none :
      (p : Row → Bool) (f : Row → Row) (rs : List Row)
      → All (λ r. p r ≡ false) rs
      → update_where p f rs ≡ rs
  update_where-none p f [] h = refl
  update_where-none p f (x ∷ rs) h = ground (arith, update_where-none p f rs h.1)

  -- A property of rows that the assignment keeps holds of the updated table.
  pub update_where-All {κ} :
      (P : Row → Type κ) (p : Row → Bool) (f : Row → Row) (rs : List Row)
      → ((r : Row) → P r → p r ≡ true → P (f r))
      → All P rs
      → All P (update_where p f rs)
  update_where-All P p f [] keep h = tt
  update_where-All P p f (r ∷ rs) keep h = elim (Bool-cases (p r)) [
    | inl e ↦ rw e (keep r h.0 e, update_where-All P p f rs keep h.1)
    | inr e ↦ rw e (h.0, update_where-All P p f rs keep h.1)
  ]

  -- An assignment that leaves a column alone leaves the list of its values.
  pub map-update_where {κ} :
      {B : Type κ} (g : Row → B) (p : Row → Bool) (f : Row → Row) (rs : List Row)
      → ((r : Row) → g (f r) ≡ g r)
      → map g (update_where p f rs) ≡ map g rs
  map-update_where g p f [] same = refl
  map-update_where g p f (r ∷ rs) same = elim (Bool-cases (p r)) [
    | inl e ↦ rw (e, same r, map-update_where g p f rs same)
    | inr e ↦ rw (e, map-update_where g p f rs same)
  ]

  -- The rows that the condition leaves out are in the updated table as they were.
  pub In-update_where :
      (p : Row → Bool) (f : Row → Row) (rs : List Row) (r : Row)
      → In r rs
      → In (if p r then f r else r) (update_where p f rs)
  In-update_where p f [] r i = elim i [ ]
  In-update_where p f (x ∷ rs) r (inl e) = inl (ap (λ s. if p s then f s else s) e)
  In-update_where p f (x ∷ rs) r (inr i) = inr (In-update_where p f rs r i)

  pub count_where-pos :
      (p : Row → Bool) (rs : List Row) (r : Row) → In r rs → p r ≡ true → 0 < count_where p rs
  count_where-pos p [] r i h = elim i [ ]
  count_where-pos p (x ∷ rs) r (inl e) h = let hit : p x ≡ true = rw e at h in rw hit (omega arith)
  count_where-pos p (x ∷ rs) r (inr i) h = omega (arith, count_where-pos p rs r i h)

  pub In-update_where_hit :
      (p : Row → Bool) (f : Row → Row) (rs : List Row) (r : Row)
      → In r rs
      → p r ≡ true
      → In (f r) (update_where p f rs)
  In-update_where_hit p f rs r i h =
      let row : (if p r then f r else r) ≡ f r = rw h in
      subst (λ s. In s (update_where p f rs)) row (In-update_where p f rs r i)
