-- ===== src/Tools/SqlGuard/Safe.antt =====
-- What a statement that validate_readonly_sql of src/incidentpilot/tools/sql_guard.py accepts can
-- read, call and return.
use Prim.Native.String.{count}
use incidentpilot.Base.{
  ℕ, String, ◌≤◌, ◌≡◌, refl, ap, subst, ◌∙◌, ◌⊎◌, inl, inr, Bool, true, false, ◌&&◌, ◌||◌, not,
  Option, none, some, List, [], ◌∷◌, arith, leb, leb→le, ◌==◌, ==→eq, string_eq, Bool-cases,
  and_true, In, All, All-In, if◌then◌else◌, is_null, length, ok, guard, guard-ok, >>=-eq-ok,
  ok-injective,
}
use incidentpilot.Base.Text.{words, codes}
use incidentpilot.Enums.{contains}
use incidentpilot.Tools.SqlGuard.{
  Sqlglot, Validated, table, column, star, limit_clause, func, count_call, allowed_schema,
  allowed_functions, allowed_types, data_type, dot, cte, literal, forbidden_nodes, is_any,
  check_table, counted, check_star, function_name, into_or_lock, check_node, statement_allowed,
  in_limit, check_limit, check_tree, parsed, the_statement, validate_readonly_sql, check_keywords,
  is_empty,
}
use incidentpilot.Tools.SqlGuard.Columns.{each-ok, contains-In, Provided, column-Provided}

module _ {Node : Type 0} (g : Sqlglot Node) (lower upper : String → String) where
  -- What holds of each node of an accepted statement.
  pub record NodeSafe (n : Node) : Type 0 where
    pub reads : is_any g lower upper forbidden_nodes n ≡ false
    pub no_lock : into_or_lock g lower upper n ≡ false
    pub undotted : g.is_a dot n ≡ true → g.finds func n ≡ false
    pub typed : g.is_a data_type n ≡ true → In (g.type_value n) allowed_types
    pub called : g.is_a func n ≡ true → In (function_name g lower upper n) allowed_functions

  implies_In :
      (b : Bool) (s : String) (ss : List String)
      → not b || contains s ss ≡ true
      → b ≡ true
      → In s ss
  implies_In true s ss h e = contains-In s ss h
  implies_In false s ss h e = cc

  node-NodeSafe : (n : Node) → check_node g lower upper n ≡ ok tt → NodeSafe n
  node-NodeSafe n h =
      let (_, h5, _) = >>=-eq-ok _ _ h in
      let (_, h4, called) = >>=-eq-ok _ _ h5 in
      let (_, h3, typed) = >>=-eq-ok _ _ h4 in
      let (_, h2, undotted) = >>=-eq-ok _ _ h3 in
      let (_, reads, free) = >>=-eq-ok _ _ h2 in
      record {
        reads = not_true _ (guard-ok _ _ reads);
        no_lock = not_true _ (guard-ok _ _ free);
        undotted = exclusive (g.is_a dot n) (g.finds func n) (guard-ok _ _ undotted);
        typed = implies_In (g.is_a data_type n) _ allowed_types (guard-ok _ _ typed);
        called = implies_In (g.is_a func n) _ allowed_functions (guard-ok _ _ called);
      }
    where
      not_true : (b : Bool) → not b ≡ true → b ≡ false
      not_true b h = ground arith

      exclusive : (a b : Bool) → not (a && b) ≡ true → a ≡ true → b ≡ false
      exclusive a b h e = ground arith

  abbrev pub TableSafe : Node → Type 0
  TableSafe t =
      (g.catalog t ≡ "")
      × In (g.db t) ("" ∷ "public" ∷ [])
      × (cs : List String) × (allowed_schema (g.name t) ≡ some cs)

  table-TableSafe : (t : Node) → check_table g lower upper t ≡ ok tt → TableSafe t
  table-TableSafe t h =
      let (b, d) =
        and_true (g.catalog t == "" && contains (g.db t) ("" ∷ "public" ∷ []))
          (not (is_null (allowed_schema (g.name t)))) (guard-ok _ _ h) in
      let (a, c) = and_true (g.catalog t == "") _ b in
      let (cs, e) = there (allowed_schema (g.name t)) d in
      (==→eq _ _ a, contains-In (g.db t) ("" ∷ "public" ∷ []) c, cs, e)
    where
      there :
          (o : Option (List String)) → not (is_null o) ≡ true → (cs : List String) × (o ≡ some cs)
      there none e = cc
      there (some cs) e = (cs, refl)

  abbrev pub StarSafe : Node → Type 0
  StarSafe s = (p : Node) × (g.parent s ≡ some p) × (g.is_a count_call p ≡ true)

  star-StarSafe : (s : Node) → check_star g lower upper s ≡ ok tt → StarSafe s
  star-StarSafe s h = go (g.parent s) (guard-ok _ _ h)
    where
      go :
          (o : Option Node)
          → counted g lower upper o ≡ true
          → (p : Node) × (o ≡ some p) × (g.is_a count_call p ≡ true)
      go none e = cc
      go (some p) e = (p, refl, e)

  abbrev pub LimitSafe : Node → Type 0
  LimitSafe l = (n : ℕ) × (g.int_value (g.expression l) ≡ some n) × (1 ≤ n) × (n ≤ 100)

  limit-LimitSafe : (l : Node) → check_limit g lower upper l ≡ ok tt → LimitSafe l
  limit-LimitSafe l h =
      go (g.int_value (g.expression l))
        (and_true (g.is_a literal (g.expression l) && g.is_int (g.expression l))
          (in_limit g lower upper (g.int_value (g.expression l))) (guard-ok _ _ h)).1
    where
      go :
          (o : Option ℕ)
          → in_limit g lower upper o ≡ true
          → (n : ℕ) × (o ≡ some n) × (1 ≤ n) × (n ≤ 100)
      go none e = cc
      go (some n) e = (n, refl, ground arith, ground arith)

  All-map : {P Q : Node → Type 0} (xs : List Node) → ((x : Node) → P x → Q x) → All P xs → All Q xs
  All-map [] f h = tt
  All-map (x ∷ xs) f h = (f x h.0, All-map xs f h.1)

  -- What an accepted statement may do.
  pub record TreeSafe (tree : Node) : Type 0 where
    pub small : length (g.walk tree) ≤ 200
    pub no_cte : g.finds cte tree ≡ false
    pub few_tables : length (g.find_all table tree) ≤ 4
    pub tables : All TableSafe (g.find_all table tree)
    pub columns : All (Provided g lower upper (g.find_all table tree)) (g.find_all column tree)
    pub stars : All StarSafe (g.find_all star tree)
    pub nodes : All NodeSafe (g.walk tree)
    pub kind : statement_allowed g lower upper tree ≡ true
    pub limits : All LimitSafe (g.find_all limit_clause tree)

  tree-TreeSafe : (tree : Node) → check_tree g lower upper tree ≡ ok tt → TreeSafe tree
  unfolding check_tree
  tree-TreeSafe tree h =
      let (_, h9, limits) = >>=-eq-ok _ _ h in
      let (_, h8, kind) = >>=-eq-ok _ _ h9 in
      let (_, h7, _) = >>=-eq-ok _ _ h8 in
      let (_, h6, _) = >>=-eq-ok _ _ h7 in
      let (_, h5, nodes) = >>=-eq-ok _ _ h6 in
      let (_, h4, stars) = >>=-eq-ok _ _ h5 in
      let (_, h3, columns) = >>=-eq-ok _ _ h4 in
      let (_, h2, tables) = >>=-eq-ok _ _ h3 in
      let (_, h1, few) = >>=-eq-ok _ _ h2 in
      let (_, small, ctes) = >>=-eq-ok _ _ h1 in
      record {
        small = leb→le _ _ (guard-ok _ _ small);
        no_cte = neither (g.finds cte tree) _ (guard-ok _ _ ctes);
        few_tables = leb→le _ _ (guard-ok _ _ few);
        tables = All-map _ table-TableSafe (each-ok _ _ tables);
        columns =
            All-map _ (column-Provided g lower upper (g.find_all table tree)) (each-ok _ _ columns);
        stars = All-map _ star-StarSafe (each-ok _ _ stars);
        nodes = All-map _ node-NodeSafe (each-ok _ _ nodes);
        kind = guard-ok _ _ kind;
        limits = All-map _ limit-LimitSafe (each-ok _ _ limits);
      }
    where
      neither : (a b : Bool) → not (a || b) ≡ true → a ≡ false
      neither a b h = ground arith

  -- The statement that is sent on. Its own LIMIT, which was checked, is kept; a clause of another kind
  -- in its place, as FETCH FIRST, is kept unchecked; otherwise a limit of 100 is added.
  pub data Bounded (tree : Node) (sql : String) : Type 0 where
    appended : g.limit_of tree ≡ none → sql ≡ g.sql (g.limited 100 tree) → Bounded tree sql
    own_limit :
        (l : Node)
        → g.limit_of tree ≡ some l
        → g.is_a limit_clause l ≡ true
        → LimitSafe l
        → sql ≡ g.sql tree
        → Bounded tree sql
    other_limit :
        (l : Node)
        → g.limit_of tree ≡ some l
        → g.is_a limit_clause l ≡ false
        → sql ≡ g.sql tree
        → Bounded tree sql

  -- The one statement behind an accepted query.
  abbrev pub IsReadonly : String → Validated → Type 0
  IsReadonly query r =
      (tree : Node) × (g.parse query ≡ inr (some tree ∷ []))
      × (check_keywords (codes (lower query)) ≡ ok tt)
      × TreeSafe tree
      × Bounded tree r.query

  single :
      (ss : List (Option Node)) (tree : Node) → the_statement ss ≡ ok tree → ss ≡ some tree ∷ []
  single [] tree h = cc
  single (none ∷ []) tree h = cc
  single (some t ∷ []) tree h = cc
  single (s ∷ t ∷ ss) tree h = cc

  parsed-ok :
      (p : String ⊎ List (Option Node)) (ss : List (Option Node))
      → parsed g lower upper p ≡ ok ss
      → p ≡ inr ss
  parsed-ok (inl m) ss h = cc
  parsed-ok (inr ts) ss h = cc

  -- find_all reaches the LIMIT that a statement bears itself.
  abbrev pub FindsLimit : Type 0
  FindsLimit =
      (t l : Node)
      → g.limit_of t ≡ some l
      → g.is_a limit_clause l ≡ true
      → In l (g.find_all limit_clause t)

  bounded :
      FindsLimit
      → (tree : Node) (o : Option Node) → g.limit_of tree ≡ o
      → All LimitSafe (g.find_all limit_clause tree)
      → Bounded tree (g.sql (if is_null o then g.limited 100 tree else tree))
  bounded finds tree none e h = appended e refl
  bounded finds tree (some l) e h = elim (Bool-cases (g.is_a limit_clause l)) [
    | inl k ↦ own_limit l e k (All-In LimitSafe _ l h (finds tree l e k)) refl
    | inr k ↦ other_limit l e k refl
  ]

  -- A query that the guard accepts is one statement that passed the keyword screen, has at most 200
  -- nodes, no common table expression and at most four tables, all allow-listed in the public schema.
  -- Each column is an allow-listed column of one of those tables, a wildcard stands only under a
  -- COUNT, every function call is allow-listed, and no node writes, locks or selects into. Each LIMIT
  -- is a number from 1 to 100. A statement with no bound of its own is sent on with a limit of 100,
  -- one with a LIMIT is sent on with that; one with a bound of another kind is sent on as it is, and
  -- for it no cap is shown. The parser's find_all is taken to reach a statement's own LIMIT.
  pub validate_readonly_sql-IsReadonly :
      FindsLimit
      → (query : String) (r : Validated) → validate_readonly_sql g lower upper query ≡ ok r
      → IsReadonly query r
  unfolding validate_readonly_sql
  validate_readonly_sql-IsReadonly finds query r h =
      let (_, _, h1) = >>=-eq-ok (guard (not (is_empty (words (codes query)))) _) _ h in
      let (_, _, h2) = >>=-eq-ok (guard (leb (count query) 8192) _) _ h1 in
      let (_, screened, h3) = >>=-eq-ok (check_keywords (codes (lower query))) _ h2 in
      let (ss, p, h4) = >>=-eq-ok (parsed g lower upper (g.parse query)) _ h3 in
      let (tree, t, h5) = >>=-eq-ok (the_statement ss) _ h4 in
      let (_, checked, h6) = >>=-eq-ok (check_tree g lower upper tree) _ h5 in
      let safe_tree = tree-TreeSafe tree checked in
      (
        tree,
        parsed-ok _ ss p ∙ ap inr (single ss tree t),
        screened,
        safe_tree,
        subst (λ (v : Validated). Bounded tree v.query) (ok-injective h6)
            (bounded finds tree (g.limit_of tree) refl safe_tree.limits),
      )
