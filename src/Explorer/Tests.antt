-- ===== src/Explorer/Tests.antt =====
-- A request on a table of users, the SQL that it becomes, and the theorems at it.
use nancy_man.Base.{
  ℕ, ◌+◌, ◌≤◌, Text, codes, true, List, [], ◌∷◌, ◌++◌, some, none, ◌≡◌, refl, ok, All, length,
  arith, same,
}
use nancy_man.Explorer.Identifier.{
  quote_identifier, read_identifier, read_identifier-quote_identifier, double_quotes, decimal, join,
  read_decimal, read_decimal-decimal,
}
use nancy_man.Explorer.Columns.{
  ExplorerColumn, ExplorerRelation, public, blocked, internal, eq, contains, is_null,
}
use nancy_man.Explorer.Filter.{FilterPredicate, FilterSql, build_filter_sql}
use nancy_man.Explorer.Filter.Allowed.{IsAllowed, build_filter_sql-IsAllowed}
use nancy_man.Explorer.Filter.Reference.{
  all_predicates, all_values, arities, build_filter_sql_lem, build_filter_sql_values_apart,
}
use nancy_man.Explorer.Query.{
  RowsQueryInput, RowsQuery, typed, given, number, desc, build_rows_query,
}
use nancy_man.Explorer.Query.Reference.{reference_text}
use nancy_man.Explorer.Query.Parameters.{
  build_rows_query_lem, where_predicates, parameters, offset_text, offset_values,
}
use nancy_man.Explorer.Query.Visible.{IsReadable, build_rows_query-IsReadable}
use nancy_man.Explorer.Query.Apart.{build_rows_query_values_apart}

read_identifier-quote_identifier_example :
    read_identifier (quote_identifier (codes "a\" OR 1=1 --") ++ codes " = $1")
    ≡ some (codes "a\" OR 1=1 --", codes " = $1")
read_identifier-quote_identifier_example =
    read_identifier-quote_identifier (codes "a\" OR 1=1 --") (codes " = $1") (omega arith)

read_decimal-decimal_example : read_decimal 0 (decimal 1204) ≡ 1204
read_decimal-decimal_example = read_decimal-decimal 1204

abbrev id_column : ExplorerColumn
id_column = record {
  name = codes "id";
  classification = public;
  selectable = true;
  filter_operators = eq ∷ [];
}

abbrev name_column : ExplorerColumn
name_column = record {
  name = codes "name";
  classification = internal;
  selectable = true;
  filter_operators = eq ∷ contains ∷ is_null ∷ [];
}

abbrev secret_column : ExplorerColumn
secret_column = record {
  name = codes "secret";
  classification = blocked;
  selectable = true;
  filter_operators = eq ∷ [];
}

abbrev users : ExplorerRelation
users = record {
  name = codes "users";
  columns = id_column ∷ name_column ∷ secret_column ∷ [];
  data_available = true;
  pagination_key = some (codes "id" ∷ []);
}

abbrev named : Text → List FilterPredicate
named value =
    record { column = codes "name"; operator = is_null; value = none }
    ∷ record { column = codes "name"; operator = contains; value = some value }
    ∷ []

abbrev one_filter : Text → FilterSql
one_filter value = record {
  predicates = codes "\"name\" IS NULL" ∷ codes "\"name\"::text ILIKE ('%' || $1 || '%')" ∷ [];
  values = value ∷ [];
  next_param_index = 2;
}

filter_runs : build_filter_sql users.columns (named (codes "ann")) 1 ≡ ok (one_filter (codes "ann"))
unfolding build_filter_sql quote_identifier double_quotes decimal same
filter_runs = refl

filter_runs_hostile :
    build_filter_sql users.columns (named (codes "'; DROP")) 1 ≡ ok (one_filter (codes "'; DROP"))
unfolding build_filter_sql quote_identifier double_quotes decimal same
filter_runs_hostile = refl

build_filter_sql-IsAllowed_example :
    All (IsAllowed users.columns) (named (codes "ann")) × (length (named (codes "ann")) ≤ 5)
build_filter_sql-IsAllowed_example =
    build_filter_sql-IsAllowed users.columns (named (codes "ann")) 1 filter_runs

build_filter_sql_lem_example :
    ((one_filter (codes "ann")).predicates ≡ all_predicates 1 (named (codes "ann")))
    × ((one_filter (codes "ann")).values ≡ all_values (named (codes "ann")))
    × ((one_filter (codes "ann")).next_param_index ≡ 1 + length (one_filter (codes "ann")).values)
    × ((one_filter (codes "ann")).next_param_index ≡ 1 + arities (named (codes "ann")))
build_filter_sql_lem_example =
    build_filter_sql_lem users.columns (named (codes "ann")) 1 filter_runs

abbrev request : Text → ℕ → ℕ → RowsQueryInput ℕ
request value key seen = record {
  schemas = record { name = codes "public"; relations = users ∷ [] } ∷ [];
  schema = codes "public";
  relation = codes "users";
  page_size = 25;
  filters = named value;
  trusted_equalities = record { column = codes "id"; value = some key } ∷ [];
  sort = some (record { column = codes "name"; direction = desc });
  cursor_condition = some (record { predicate = codes "(\"name\") < ($3)"; values = seen ∷ [] });
  offset = some 50;
}

abbrev built : Text → ℕ → ℕ → RowsQuery ℕ
built value key seen = record {
  text =
      codes "SELECT \"id\", \"name\" FROM \"public\".\"users\" WHERE \"name\" IS NULL AND "
      ++ (codes "\"name\"::text ILIKE ('%' || $1 || '%') AND \"id\" = $2 AND (\"name\") < ($3)"
          ++ codes " ORDER BY \"name\" DESC NULLS LAST, \"id\" DESC NULLS LAST LIMIT 26 OFFSET $4");
  values = typed value ∷ given key ∷ given seen ∷ number 50 ∷ [];
  selectable_columns = codes "id" ∷ codes "name" ∷ [];
  relation = users;
}

request_runs : build_rows_query (request (codes "ann") 7 3) ≡ ok (built (codes "ann") 7 3)
unfolding build_rows_query build_filter_sql quote_identifier double_quotes decimal same join
request_runs = refl

request_runs_hostile :
    build_rows_query (request (codes "'; DROP") 8 4) ≡ ok (built (codes "'; DROP") 8 4)
unfolding build_rows_query build_filter_sql quote_identifier double_quotes decimal same join
request_runs_hostile = refl

build_rows_query_lem_example :
    ((built (codes "ann") 7 3).text
      ≡ reference_text
          (request (codes "ann") 7 3)
          users
          (where_predicates (request (codes "ann") 7 3))
        ++ offset_text (some 50) (1 + parameters (request (codes "ann") 7 3)))
    × (length (built (codes "ann") 7 3).values
        ≡ parameters (request (codes "ann") 7 3) + length (offset_values {V = ℕ} (some 50)))
build_rows_query_lem_example = build_rows_query_lem (request (codes "ann") 7 3) request_runs

build_rows_query-IsReadable_example :
    IsReadable (request (codes "ann") 7 3) (built (codes "ann") 7 3)
build_rows_query-IsReadable_example =
    build_rows_query-IsReadable (request (codes "ann") 7 3) request_runs

build_filter_sql_values_apart_example :
    (one_filter (codes "ann")).predicates ≡ (one_filter (codes "'; DROP")).predicates
build_filter_sql_values_apart_example =
    build_filter_sql_values_apart users.columns (named (codes "ann")) (named (codes "'; DROP")) 1
      (refl, refl, (refl, refl, tt)) filter_runs filter_runs_hostile

build_rows_query_values_apart_example :
    (built (codes "ann") 7 3).text ≡ (built (codes "'; DROP") 8 4).text
build_rows_query_values_apart_example =
    build_rows_query_values_apart (request (codes "ann") 7 3) (named (codes "'; DROP"))
      (request (codes "'; DROP") 8 4).trusted_equalities
      (request (codes "'; DROP") 8 4).cursor_condition (refl, refl, (refl, refl, tt)) (refl, tt)
      (refl, refl) request_runs request_runs_hostile
