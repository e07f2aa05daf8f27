-- ===== src/Tools/SqlGuard.antt =====
-- src/incidentpilot/tools/sql_guard.py: validate_readonly_sql. sqlglot's parser, its tree and its
-- printer are the interface Sqlglot; str.lower and str.upper are arguments (Unicode's case tables).
-- SQLValidationError is a ValueError.
pub mod Keywords
pub mod Columns
pub mod Safe
pub mod Search
use incidentpilot.Base.{
  ℕ, String, ◌⊎◌, inl, inr, Bool, true, false, ◌&&◌, ◌||◌, not, Option, none, some, List, [], ◌∷◌,
  ◌++◌, map, leb, ltb, ◌==◌, nat_eq, string_eq, if◌then◌else◌, is_null, length, Result, ok, err,
  guard, value_error, ◌>>=◌, ◌>>◌, Exception,
}
use incidentpilot.Base.Text.{
  Text, codes, text_beq, starts_with, contains_text, words, join, text_eq,
}
use incidentpilot.Enums.{contains}
use Prim.Native.String.{◌++◌ as str_append, count}

-- The classes of sqlglot.exp that the guard names.
pub data SqlClass : Type 0 where
  select union except intersect : SqlClass
  insert update delete drop alter create grant truncate_table truncate copy command : SqlClass
  cte with_clause table column star count_call dot func data_type anonymous : SqlClass
  subquery limit_clause literal : SqlClass

-- What the guard asks of a parsed statement.
pub record Sqlglot (Node : Type 0) : Type 0 where
  -- sqlglot.parse(query, read="postgres"); an exception is str(exc)
  pub parse : String → String ⊎ List (Option Node)
  -- isinstance, node.walk(), node.find_all(cls), node.find(cls) is not None
  pub is_a : SqlClass → Node → Bool
  pub walk : Node → List Node
  pub find_all : SqlClass → Node → List Node
  pub finds : SqlClass → Node → Bool
  pub parent : Node → Option Node
  pub name : Node → String
  pub alias_or_name : Node → String
  pub sql_name : Node → String
  pub catalog : Node → String
  pub db : Node → String
  -- column.table
  pub qualifier : Node → String
  -- node.args.get(key): its truth, and whether it is there
  pub arg_truthy : String → Node → Bool
  pub arg_present : String → Node → Bool
  -- args.get("limit"): a LIMIT, or another clause that bounds the rows, as FETCH FIRST
  pub limit_of : Node → Option Node
  pub this : Node → Node
  pub expression : Node → Node
  pub expressions : Node → List Node
  -- node.this.value of a DataType
  pub type_value : Node → String
  pub is_int : Node → Bool
  -- int(literal.this); none for a negative number
  pub int_value : Node → Option ℕ
  -- tree.copy().limit(n), node.sql(dialect="postgres"), type(node).__name__
  pub limited : ℕ → Node → Node
  pub sql : Node → String
  pub type_name : Node → String

pub record Validated : Type 0 where
  pub statement_type : String
  pub query : String

abbrev pub allowed_statement_types : List SqlClass
allowed_statement_types = select ∷ union ∷ except ∷ intersect ∷ []

abbrev pub forbidden_nodes : List SqlClass
forbidden_nodes =
    insert ∷ update ∷ delete ∷ drop ∷ alter ∷ create ∷ grant ∷ truncate_table ∷ truncate ∷ copy
    ∷ command ∷ []

abbrev pub forbidden_keywords : List String
forbidden_keywords =
    "insert" ∷ "update" ∷ "delete" ∷ "drop" ∷ "alter" ∷ "truncate" ∷ "create" ∷ "grant" ∷ "revoke"
    ∷ "copy" ∷ "call" ∷ "do" ∷ "vacuum" ∷ "reindex" ∷ "cluster" ∷ "refresh" ∷ "execute" ∷ "prepare"
    ∷ "listen" ∷ "notify" ∷ []

abbrev pub hard_forbidden : List String
hard_forbidden =
    "insert" ∷ "update" ∷ "delete" ∷ "drop" ∷ "alter" ∷ "truncate" ∷ "create" ∷ "grant" ∷ "revoke"
    ∷ []

abbrev pub forbidden_functions : List String
forbidden_functions =
    "pg_sleep" ∷ "pg_read_file" ∷ "pg_read_binary_file" ∷ "pg_ls_dir" ∷ "pg_stat_file" ∷ "dblink"
    ∷ "dblink_exec" ∷ "lo_import" ∷ "lo_export" ∷ "set_config" ∷ "current_setting" ∷ []

-- ALLOWED_SCHEMA.get(table)
abbrev pub allowed_schema : String → Option (List String)
allowed_schema t =
    if t == "orders"
    then some ("id" ∷ "customer_id" ∷ "status" ∷ "total_cents" ∷ "created_at" ∷ [])
    else if t == "order_items"
    then some ("id" ∷ "order_id" ∷ "sku" ∷ "qty" ∷ "price_cents" ∷ [])
    else if t == "customers"
    then some ("id" ∷ [])
    else none

abbrev pub columns_of : Option (List String) → List String
columns_of none = []
columns_of (some cs) = cs

abbrev pub allowed_functions : List String
allowed_functions =
    "COUNT" ∷ "SUM" ∷ "MIN" ∷ "MAX" ∷ "AVG" ∷ "COALESCE" ∷ "NULLIF" ∷ "CAST" ∷ "LOWER" ∷ "UPPER"
    ∷ "LENGTH" ∷ "ABS" ∷ []

abbrev pub allowed_types : List String
allowed_types =
    "INT" ∷ "BIGINT" ∷ "SMALLINT" ∷ "TEXT" ∷ "VARCHAR" ∷ "BOOLEAN" ∷ "FLOAT" ∷ "DOUBLE" ∷ "DECIMAL"
    ∷ "TIMESTAMP" ∷ "TIMESTAMPTZ" ∷ "DATE" ∷ []

-- A for loop whose body may raise.
abbrev pub each : {A : Type 0} → (A → Result (Unit {0})) → List A → Result (Unit {0})
each f [] = ok tt
each f (x ∷ xs) = f x >> each f xs

abbrev pub is_empty : {A : Type 0} → List A → Bool
is_empty [] = true
is_empty (x ∷ xs) = false

-- f" {kw} " in f" {stripped} " or stripped.startswith(kw + " ")
abbrev pub spaced : Text → Text
spaced s = 32 ∷ (s ++ (32 ∷ []))

abbrev pub names_keyword : Text → Text → Bool
names_keyword kw stripped =
    contains_text (spaced kw) (spaced stripped) || starts_with (kw ++ (32 ∷ [])) stripped

abbrev pub check_keyword : Text → String → Result (Unit {0})
check_keyword stripped kw =
    guard (not (names_keyword (codes kw) stripped && contains kw hard_forbidden))
      (value_error (str_append "forbidden keyword: " kw))

-- The keyword screen, on the lowered query.
unfoldable pub check_keywords : Text → Result (Unit {0})
check_keywords lowered = each (check_keyword (join 32 (words lowered))) forbidden_keywords

abbrev pub the_statement : {Node : Type 0} → List (Option Node) → Result Node
the_statement [] = err (value_error "no statements parsed")
the_statement (none ∷ []) = err (value_error "empty statement")
the_statement (some tree ∷ []) = ok tree
the_statement (s ∷ t ∷ rest) = err (value_error "multiple statements are not allowed")

module _ {Node : Type 0} (g : Sqlglot Node) (lower upper : String → String) where
  abbrev pub is_any : List SqlClass → Node → Bool
  is_any [] n = false
  is_any (c ∷ cs) n = g.is_a c n || is_any cs n

  abbrev pub table_allowed : Node → Bool
  table_allowed t =
      g.catalog t == ""
      && contains (g.db t) ("" ∷ "public" ∷ [])
      && not (is_null (allowed_schema (g.name t)))

  abbrev pub check_table : Node → Result (Unit {0})
  check_table t = guard (table_allowed t) (value_error "table or schema is not allowlisted")

  -- {table.alias_or_name: table.name ...}.get(key): a later table takes the place of an earlier one.
  abbrev pub or_first : Option String → Option String → Option String
  or_first (some s) o = some s
  or_first none o = o

  abbrev pub aliased : List Node → String → Option String
  aliased [] key = none
  aliased (t ∷ ts) key =
      or_first (aliased ts key) (if g.alias_or_name t == key then some (g.name t) else none)

  abbrev pub schema_of : Option String → List String
  schema_of none = []
  schema_of (some t) = columns_of (allowed_schema t)

  abbrev pub all_columns : List Node → List String
  all_columns [] = []
  all_columns (t ∷ ts) = columns_of (allowed_schema (g.name t)) ++ all_columns ts

  abbrev pub column_set : List Node → Node → List String
  column_set tables c =
      if not (g.qualifier c == "")
      then schema_of (aliased tables (g.qualifier c))
      else all_columns tables

  abbrev pub check_column : List Node → Node → Result (Unit {0})
  check_column tables c =
      guard (contains (g.name c) (column_set tables c)) (value_error "unknown or forbidden column")

  abbrev pub counted : Option Node → Bool
  counted none = false
  counted (some p) = g.is_a count_call p

  abbrev pub check_star : Node → Result (Unit {0})
  check_star s = guard (counted (g.parent s)) (value_error "wildcard projections are forbidden")

  abbrev pub function_name : Node → String
  function_name n = if g.is_a anonymous n then upper (g.name n) else upper (g.sql_name n)

  abbrev pub into_or_lock : Node → Bool
  into_or_lock n = g.arg_truthy "into" n || g.arg_truthy "locks" n || g.arg_truthy "lock" n

  abbrev pub check_node : Node → Result (Unit {0})
  check_node n =
      guard (not (is_any forbidden_nodes n))
        (value_error (str_append "forbidden statement node: " (g.type_name n)))
      >> guard (not (into_or_lock n)) (value_error "SELECT INTO or locking SELECT is forbidden")
      >> guard (not (g.is_a dot n && g.finds func n))
          (value_error "schema-qualified functions are forbidden")
      >> guard (not (g.is_a data_type n) || contains (g.type_value n) allowed_types)
          (value_error "cast type is not allowlisted")
      >> guard (not (g.is_a func n) || contains (function_name n) allowed_functions)
          (value_error (str_append "function not allowlisted: " (function_name n)))
      >> guard (not (g.is_a anonymous n && contains (lower (g.name n)) forbidden_functions))
          (value_error (str_append "forbidden function: " (lower (g.name n))))

  abbrev pub any_allowed : List Node → Bool
  any_allowed [] = false
  any_allowed (n ∷ ns) = is_any allowed_statement_types n || any_allowed ns

  abbrev pub statement_allowed : Node → Bool
  statement_allowed t =
      is_any allowed_statement_types t
      || (g.is_a with_clause t && any_allowed (g.expressions t))
      || (g.is_a subquery t && is_any allowed_statement_types (g.this t))

  abbrev pub in_limit : Option ℕ → Bool
  in_limit none = false
  in_limit (some n) = leb 1 n && leb n 100

  abbrev pub check_limit : Node → Result (Unit {0})
  check_limit l =
      guard
        (g.is_a literal (g.expression l)
          && g.is_int (g.expression l)
          && in_limit (g.int_value (g.expression l)))
        (value_error "LIMIT must be an integer between 1 and 100")

  abbrev pub safe : Node → Node
  safe tree = if is_null (g.limit_of tree) then g.limited 100 tree else tree

  -- The checks on the one statement.
  unfoldable pub check_tree : Node → Result (Unit {0})
  check_tree tree =
      guard (leb (length (g.walk tree)) 200) (value_error "query too complex")
      >> guard (not (g.finds cte tree || g.finds with_clause tree))
          (value_error "CTE queries are unsupported")
      >> guard (leb (length (g.find_all table tree)) 4) (value_error "too many table references")
      >> each check_table (g.find_all table tree)
      >> each (check_column (g.find_all table tree)) (g.find_all column tree)
      >> each check_star (g.find_all star tree)
      >> each check_node (g.walk tree)
      >> guard (not (g.arg_present "into" tree)) (value_error "SELECT INTO is forbidden")
      >> guard (not (g.arg_truthy "locks" tree || g.arg_truthy "lock" tree))
          (value_error "locking SELECT is forbidden")
      >> guard (statement_allowed tree)
          (value_error (str_append "statement type not allowed: " (g.type_name tree)))
      >> each check_limit (g.find_all limit_clause tree)

  -- `except Exception as exc: raise SQLValidationError(...)`
  abbrev pub parsed : String ⊎ List (Option Node) → Result (List (Option Node))
  parsed (inl message) = err (value_error (str_append "sql parse error: " message))
  parsed (inr statements) = ok statements

  unfoldable pub validate_readonly_sql : String → Result Validated
  validate_readonly_sql query = do
    guard (not (is_empty (words (codes query)))) (value_error "empty query")
    guard (leb (count query) 8192) (value_error "query too long")
    check_keywords (codes (lower query))
    statements ← parsed (g.parse query)
    tree ← the_statement statements
    check_tree tree
    ok (record { statement_type = g.type_name tree; query = g.sql (safe tree) })
