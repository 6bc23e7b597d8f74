-- ===== src/Explorer/Filter.antt =====
-- `buildFilterSql` (apps/sql-worker/src/explorer/filterSql.ts).
pub mod Reference
pub mod Allowed
use nancy_man.Base.{
  ℕ, ◌+◌, Text, codes, Bool, true, false, List, [], ◌∷◌, ◌++◌, Option, some, none, ltb, length,
  same, if◌then◌else◌, not, Result, ok, err, ◌>>=◌, ◌>>◌, throw_if,
}
use nancy_man.Explorer.Identifier.{quote_identifier, decimal}
use nancy_man.Explorer.Columns.{
  ExplorerColumn, FilterOperator, eq, neq, contains, gt, gte, lt, lte, is_null, is_not_null,
  ExplorerError, filter_invalid, column_invalid, has_operator, is_hidden,
}

pub record FilterPredicate : Type 0 where
  pub column : Text
  pub operator : FilterOperator
  pub value : Option Text

-- `columnMap.get`: of two columns with one name, the map holds the later.
unfoldable pub column_map_get : List ExplorerColumn → Text → Option ExplorerColumn
column_map_get [] name = none
column_map_get (col ∷ cols) name =
    let later = column_map_get cols name in
    elim later [ some found ↦ some found | none ↦ if same col.name name then some col else none ]

-- The variables of the loop.
pub record FilterSql : Type 0 where
  pub predicates : List Text
  pub values : List Text
  pub next_param_index : ℕ

abbrev pub push {ℓ} : {A : Type ℓ} → List A → A → List A
push xs x = xs ++ x ∷ []

-- The `switch` over the operators that compare with a value.
unfoldable pub push_comparison : FilterOperator → Text → Text → List Text → List Text
push_comparison eq column placeholder ps = push ps (column ++ (codes " = " ++ placeholder))
push_comparison neq column placeholder ps = push ps (column ++ (codes " != " ++ placeholder))
push_comparison contains column placeholder ps =
    push ps (column ++ (codes "::text ILIKE ('%' || " ++ (placeholder ++ codes " || '%')")))
push_comparison gt column placeholder ps = push ps (column ++ (codes " > " ++ placeholder))
push_comparison gte column placeholder ps = push ps (column ++ (codes " >= " ++ placeholder))
push_comparison lt column placeholder ps = push ps (column ++ (codes " < " ++ placeholder))
push_comparison lte column placeholder ps = push ps (column ++ (codes " <= " ++ placeholder))
push_comparison is_null column placeholder ps = ps
push_comparison is_not_null column placeholder ps = ps

-- `$${paramIndex}`.
abbrev pub placeholder : ℕ → Text
placeholder n = codes "$" ++ decimal n

-- A comparison: its value is bound to the next parameter.
unfoldable pub add_comparison :
    Text → FilterOperator → Option Text → FilterSql → Result ExplorerError FilterSql
unfolding push_comparison
add_comparison column operator none sql = err filter_invalid
add_comparison column operator (some value) sql = do
  throw_if (ltb 200 (length value)) filter_invalid
  ok (record {
    predicates = push_comparison operator column (placeholder sql.next_param_index) sql.predicates;
    values = push sql.values value;
    next_param_index = sql.next_param_index + 1;
  })

-- The predicate of one filter on a column that may be filtered by.
unfoldable pub add_predicate :
    Text → FilterOperator → Option Text → FilterSql → Result ExplorerError FilterSql
unfolding add_comparison
add_predicate column is_null value sql =
    ok (record sql { predicates = push sql.predicates (column ++ codes " IS NULL") })
add_predicate column is_not_null value sql =
    ok (record sql { predicates = push sql.predicates (column ++ codes " IS NOT NULL") })
add_predicate column operator value sql = add_comparison column operator value sql

unfoldable pub add_on_column :
    FilterPredicate → FilterSql → Option ExplorerColumn → Result ExplorerError FilterSql
unfolding add_predicate
add_on_column filter sql none = err column_invalid
add_on_column filter sql (some col) = do
  throw_if (is_hidden col) filter_invalid
  throw_if (not (has_operator filter.operator col.filter_operators)) filter_invalid
  add_predicate (quote_identifier col.name) filter.operator filter.value sql

-- One round of the loop.
unfoldable pub add_filter :
    List ExplorerColumn → FilterSql → FilterPredicate → Result ExplorerError FilterSql
unfolding column_map_get add_on_column
add_filter columns sql filter = add_on_column filter sql (column_map_get columns filter.column)

unfoldable pub add_filters :
    List ExplorerColumn → FilterSql → List FilterPredicate → Result ExplorerError FilterSql
unfolding add_filter
add_filters columns sql [] = ok sql
add_filters columns sql (filter ∷ filters) = do
  sql' ← add_filter columns sql filter
  add_filters columns sql' filters

-- The variables before the loop.
abbrev pub nothing_built : ℕ → FilterSql
nothing_built start = record { predicates = []; values = []; next_param_index = start }

unfoldable pub build_filter_sql :
    List ExplorerColumn → List FilterPredicate → ℕ → Result ExplorerError FilterSql
unfolding add_filters
build_filter_sql columns filters start_param_index = do
  throw_if (ltb 5 (length filters)) filter_invalid
  add_filters columns (nothing_built start_param_index) filters
