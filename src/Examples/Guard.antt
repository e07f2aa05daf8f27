-- ===== src/Examples/Guard.antt =====
-- The SQL guard, on a statement with one table and one column.
use incidentpilot.Base.{
  String, ◌≡◌, ◌↔◌, refl, inr, Bool, true, false, none, some, List, [], ◌∷◌, In, All, ok,
}
use incidentpilot.Base.Text.{codes, words}
use incidentpilot.Tools.SqlGuard.{
  SqlClass, select, table, column, Sqlglot, Validated, check_keywords, hard_forbidden,
  validate_readonly_sql, check_tree,
}
use incidentpilot.Tools.SqlGuard.Safe.{IsReadonly, validate_readonly_sql-IsReadonly}
use incidentpilot.Tools.SqlGuard.Keywords.{check_keywords_iff}

-- SELECT id FROM orders: the statement, its table and its column.
data Node : Type 0 where
  statement orders id : Node

abbrev is_a : SqlClass → Node → Bool
is_a select statement = true
is_a table orders = true
is_a column id = true
is_a _ _ = false

abbrev find_all : SqlClass → Node → List Node
find_all table n = orders ∷ []
find_all column n = id ∷ []
find_all _ n = []

abbrev name_of : Node → String
name_of statement = ""
name_of orders = "orders"
name_of id = "id"

abbrev one_select : Sqlglot Node
one_select = record {
  parse = λ q. inr (some statement ∷ []);
  is_a = is_a;
  walk = λ n. statement ∷ id ∷ orders ∷ [];
  find_all = find_all;
  finds = λ c n. false;
  parent = λ n. none;
  name = name_of;
  alias_or_name = name_of;
  sql_name = λ n. "";
  catalog = λ n. "";
  db = λ n. "";
  qualifier = λ n. "";
  arg_truthy = λ k n. false;
  arg_present = λ k n. false;
  limit_of = λ n. none;
  this = λ n. n;
  expression = λ n. n;
  expressions = λ n. [];
  type_value = λ n. "";
  is_int = λ n. false;
  int_value = λ n. none;
  limited = λ k n. n;
  sql = λ n. "SELECT id FROM orders LIMIT 100";
  type_name = λ n. "Select";
}

abbrev same : String → String
same s = s

abbrev bounded_select : Validated
bounded_select = record { statement_type = "Select"; query = "SELECT id FROM orders LIMIT 100" }

unbounded : (l : Node) → none ≡ some l → ⊥
unbounded l e = cc

validate_readonly_sql-IsReadonly_example :
    IsReadonly one_select same same "select id from orders" bounded_select
unfolding validate_readonly_sql check_keywords check_tree
validate_readonly_sql-IsReadonly_example =
    validate_readonly_sql-IsReadonly one_select same same (λ t l e k. absurd (unbounded l e))
      "select id from orders" bounded_select refl

check_keywords_iff_example :
    (check_keywords (codes "select 1; drop table orders") ≡ ok tt)
    ↔ All (λ kw. ¬ (In (codes kw) (words (codes "select 1; drop table orders")))) hard_forbidden
check_keywords_iff_example = check_keywords_iff (codes "select 1; drop table orders")
