-- ===== src/Tools/SqlGuard/Columns.antt =====
-- Where the columns of a statement come from that src/incidentpilot/tools/sql_guard.py accepts.
use incidentpilot.Base.{
  String, ◌≡◌, refl, ◌⊎◌, inl, inr, Bool, true, false, Option, none, some, List, [], ◌∷◌, ◌++◌,
  ◌==◌, ==→eq, string_eq, Bool-cases, In, All, Result, ok, guard-ok, >>=-eq-ok, if◌then◌else◌,
}
use incidentpilot.Enums.{contains}
use incidentpilot.Tools.SqlGuard.{
  Sqlglot, allowed_schema, columns_of, or_first, aliased, schema_of, all_columns, column_set,
  check_column, each,
}

pub each-ok :
    {A : Type 0} (f : A → Result (Unit {0})) (xs : List A) {u : Unit {0}}
    → each f xs ≡ ok u
    → All (λ x. f x ≡ ok tt) xs
each-ok f [] h = tt
each-ok f (x ∷ xs) h = let (_, e, k) = >>=-eq-ok (f x) _ h in (e, each-ok f xs k)

pub contains-In : (s : String) (ss : List String) → contains s ss ≡ true → In s ss
contains-In s [] h = cc
contains-In s (t ∷ ts) h = elim (Bool-cases (s == t)) [
  | inl e ↦ inl (==→eq s t e)
  | inr e ↦ inr (contains-In s ts (rw e at h))
]

In-append : (s : String) (ss ts : List String) → In s (ss ++ ts) → In s ss ⊎ In s ts
In-append s [] ts i = inr i
In-append s (x ∷ ss) ts (inl e) = inl (inl e)
In-append s (x ∷ ss) ts (inr i) = elim (In-append s ss ts i) [ inl j ↦ inl (inr j) | inr j ↦ inr j ]

known :
    (o : Option (List String)) (s : String)
    → In s (columns_of o)
    → (cs : List String) × (o ≡ some cs) × In s cs
known none s i = elim i [ ]
known (some cs) s i = (cs, refl, i)

module _ {Node : Type 0} (g : Sqlglot Node) (lower upper : String → String) where
  -- The column is an allow-listed column of one of the tables of the statement.
  abbrev pub Provided : List Node → Node → Type 0
  Provided tables c =
      (t : Node) × In t tables
      × (cs : List String) × (allowed_schema (g.name t) ≡ some cs)
      × In (g.name c) cs

  aliased_step :
      (t : Node) (ts : List Node) (b : Bool) (o : Option String) (s : String)
      → (o ≡ some s → (x : Node) × In x ts × (g.name x ≡ s))
      → or_first g lower upper o (if b then some (g.name t) else none) ≡ some s
      → (x : Node) × In x (t ∷ ts) × (g.name x ≡ s)
  aliased_step t ts b (some u) s go h = let (x, i, n) = go h in (x, inr i, n)
  aliased_step t ts true none s go h = (t, inl refl, cc)
  aliased_step t ts false none s go h = cc

  aliased-In :
      (ts : List Node) (key s : String)
      → aliased g lower upper ts key ≡ some s
      → (t : Node) × In t ts × (g.name t ≡ s)
  aliased-In [] key s h = cc
  aliased-In (t ∷ ts) key s h =
      aliased_step t ts (g.alias_or_name t == key) (aliased g lower upper ts key) s
        (aliased-In ts key s) h

  named_table :
      (tables : List Node) (c : Node) (o : Option String)
      → aliased g lower upper tables (g.qualifier c) ≡ o
      → In (g.name c) (schema_of g lower upper o)
      → Provided tables c
  named_table tables c none e i = elim i [ ]
  named_table tables c (some s) e i =
      let (t, j, n) = aliased-In tables (g.qualifier c) s e in
      let (cs, k, l) = known (allowed_schema s) (g.name c) i in (t, j, cs, rw n k, l)

  some_table :
      (tables : List Node) (c : Node)
      → In (g.name c) (all_columns g lower upper tables)
      → Provided tables c
  some_table [] c i = elim i [ ]
  some_table (t ∷ ts) c i =
      elim (In-append (g.name c) (columns_of (allowed_schema (g.name t))) _ i) [
        | inl j ↦
            let (cs, k, l) = known (allowed_schema (g.name t)) (g.name c) j in
            (t, inl refl, cs, k, l)
        | inr j ↦ let (x, k, cs, e, l) = some_table ts c j in (x, inr k, cs, e, l)
      ]

  pub column-Provided :
      (tables : List Node) (c : Node)
      → check_column g lower upper tables c ≡ ok tt
      → Provided tables c
  column-Provided tables c h =
      let i = contains-In (g.name c) (column_set g lower upper tables c) (guard-ok _ _ h) in
      elim (Bool-cases (g.qualifier c == "")) [
        | inl e ↦ some_table tables c (rw e at i)
        | inr e ↦ named_table tables c _ refl (rw e at i)
      ]
