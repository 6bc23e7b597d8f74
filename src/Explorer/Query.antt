-- ===== src/Explorer/Query.antt =====
-- `buildRowsQuery` (apps/sql-worker/src/explorer/filterSql.ts). The values of keys come from the
-- database and are of an unknown type V. What the types rule out (a sort direction that is none, a
-- missing list) is left out, and so are the messages of errors.
pub mod Steps
pub mod Reference
pub mod Parameters
pub mod Apart
mod Shown
pub mod Visible
use nancy_man.Base.{
  ℕ, ◌+◌, Text, codes, Bool, true, false, List, [], ◌∷◌, ◌++◌, map, Option, some, none, ltb, length,
  same, if◌then◌else◌, not, ◌&&◌, Result, ok, err, ◌>>=◌, ◌>>◌, throw_if, find, keep,
}
use nancy_man.Explorer.Identifier.{quote_identifier, decimal, join}
use nancy_man.Explorer.Columns.{
  ExplorerColumn, ExplorerRelation, ExplorerSchema, ExplorerError, filter_invalid, column_invalid,
  relation_invalid, data_permission_denied, page_too_large, is_hidden, is_blocked,
}
use nancy_man.Explorer.Filter.{FilterPredicate, FilterSql, push, placeholder, build_filter_sql}

pub data Direction : Type 0 where
  asc desc : Direction

pub record SortBy : Type 0 where
  pub column : Text
  pub direction : Direction

pub record TrustedEquality (V : Type 0) : Type 0 where
  pub column : Text
  pub value : Option V

pub record CursorCondition (V : Type 0) : Type 0 where
  pub predicate : Text
  pub values : List V

pub record RowsQueryInput (V : Type 0) : Type 0 where
  pub schemas : List ExplorerSchema
  pub schema : Text
  pub relation : Text
  pub page_size : ℕ
  pub filters : List FilterPredicate
  pub trusted_equalities : List (TrustedEquality V)
  pub sort : Option SortBy
  pub cursor_condition : Option (CursorCondition V)
  pub offset : Option ℕ

-- What is bound to a parameter.
pub data SqlValue (V : Type 0) : Type 0 where
  typed : Text → SqlValue V
  given : V → SqlValue V
  number : ℕ → SqlValue V

pub record RowsQuery (V : Type 0) : Type 0 where
  pub text : Text
  pub values : List (SqlValue V)
  pub selectable_columns : List Text
  pub relation : ExplorerRelation

-- `.toUpperCase()` of a direction.
abbrev pub direction_text : Direction → Text
direction_text asc = codes "ASC"
direction_text desc = codes "DESC"

unfoldable pub find_relation :
    List ExplorerSchema → Text → Text → Result ExplorerError ExplorerRelation
find_relation schemas schema relation = elim (find (λ s. same s.name schema) schemas) [
  | none ↦ err relation_invalid
  | some s ↦ elim (find (λ r. same r.name relation) s.relations) [
    | none ↦ err relation_invalid
    | some r ↦ ok r
  ]
]

abbrev pub is_selectable : ExplorerColumn → Bool
is_selectable c = c.selectable && not (is_blocked c.classification)

abbrev pub selectable_cols : ExplorerRelation → List ExplorerColumn
selectable_cols relation = keep is_selectable relation.columns

abbrev pub is_nil {ℓ} : {A : Type ℓ} → List A → Bool
is_nil [] = true
is_nil (x ∷ xs) = false

-- Whether a sort is given on a column that may not be selected.
abbrev pub bad_sort : Option SortBy → List ExplorerColumn → Bool
bad_sort none cols = false
bad_sort (some sort) cols = elim (find (λ c. same c.name sort.column) cols) [
  | none ↦ true
  | some c ↦ false
]

-- The checks up to the sort; the relation that they find.
unfoldable pub check_target :
    {V : Type 0} → RowsQueryInput V → Result ExplorerError ExplorerRelation
unfolding find_relation
check_target input = do
  relation ← find_relation input.schemas input.schema input.relation
  throw_if (not relation.data_available) data_permission_denied
  throw_if (is_nil (selectable_cols relation)) data_permission_denied
  throw_if (bad_sort input.sort (selectable_cols relation)) column_invalid
  ok relation

-- The variables of the loop over the trusted equalities.
pub record TrustedSql (V : Type 0) : Type 0 where
  pub predicates : List Text
  pub values : List V
  pub next_param_index : ℕ

abbrev pub order_item : Text → Direction → Text
order_item column direction =
    quote_identifier column ++ (codes " " ++ (direction_text direction ++ codes " NULLS LAST"))

-- The columns of the pagination key that the sort does not name.
unfoldable pub key_items : Option SortBy → List Text → List Text
key_items sort [] = []
key_items none (k ∷ ks) = order_item k asc ∷ key_items none ks
key_items (some s) (k ∷ ks) =
    let rest = key_items (some s) ks in
    if same k s.column then rest else order_item k s.direction ∷ rest

abbrev pub sort_items : Option SortBy → List Text
sort_items none = []
sort_items (some s) = order_item s.column s.direction ∷ []

abbrev pub pagination_keys : Option (List Text) → List Text
pagination_keys none = []
pagination_keys (some ks) = ks

abbrev pub clause : Text → Text → List Text → Text
clause keyword separator [] = []
clause keyword separator (t ∷ ts) = keyword ++ join separator (t ∷ ts)

module _ {V : Type 0} where
  unfoldable pub add_trusted_on :
      TrustedEquality V → TrustedSql V → Option ExplorerColumn → Result ExplorerError (TrustedSql V)
  add_trusted_on equality sql none = err column_invalid
  add_trusted_on equality sql (some column) = elim equality.value [
    | none ↦ (do throw_if (is_hidden column) filter_invalid; err filter_invalid)
    | some value ↦ do
      throw_if (is_hidden column) filter_invalid
      ok (record {
        predicates =
            push sql.predicates
              (quote_identifier column.name ++ (codes " = " ++ placeholder sql.next_param_index));
        values = push sql.values value;
        next_param_index = sql.next_param_index + 1;
      })
  ]

  unfoldable pub add_trusted :
      List ExplorerColumn
      → TrustedSql V
      → List (TrustedEquality V)
      → Result ExplorerError (TrustedSql V)
  unfolding add_trusted_on
  add_trusted columns sql [] = ok sql
  add_trusted columns sql (e ∷ es) = do
    sql' ← add_trusted_on e sql (find (λ c. same c.name e.column) columns)
    add_trusted columns sql' es

  abbrev pub nothing_trusted : ℕ → TrustedSql V
  nothing_trusted n = record { predicates = []; values = []; next_param_index = n }

  abbrev pub cursor_predicates : Option (CursorCondition V) → List Text
  cursor_predicates none = []
  cursor_predicates (some c) = c.predicate ∷ []

  abbrev pub cursor_values : Option (CursorCondition V) → List V
  cursor_values none = []
  cursor_values (some c) = c.values

  -- The text up to the limit.
  unfoldable pub query_text : RowsQueryInput V → ExplorerRelation → List Text → Text
  unfolding key_items
  query_text input relation predicates =
      codes "SELECT "
      ++ (join (codes ", ") (map (λ c. quote_identifier c.name) (selectable_cols relation))
          ++ (codes " FROM "
              ++ (quote_identifier input.schema
                  ++ (codes "."
                      ++ (quote_identifier input.relation
                          ++ (clause (codes " WHERE ") (codes " AND ") predicates
                              ++ (clause (codes " ORDER BY ") (codes ", ") (
                                    sort_items input.sort
                                    ++ key_items input.sort
                                        (pagination_keys relation.pagination_key))
                                  ++ (codes " LIMIT " ++ decimal (input.page_size + 1)))))))))

  -- The offset, if there is one above 0; `next` is the next free parameter.
  unfoldable pub add_offset :
      Option ℕ → ℕ → Text → List (SqlValue V) → Result ExplorerError (Text × List (SqlValue V))
  add_offset none next text values = ok (text, values)
  add_offset (some offset) next text values =
      if ltb 0 offset
      then if ltb 10000 offset
        then err page_too_large
        else ok (text ++ (codes " OFFSET " ++ placeholder next), push values (number offset))
      else ok (text, values)

  abbrev pub all_sql_values :
      FilterSql → TrustedSql V → Option (CursorCondition V) → List (SqlValue V)
  all_sql_values filter trusted cursor =
      (map typed filter.values ++ map given trusted.values) ++ map given (cursor_values cursor)

  unfoldable pub build_rows_query : RowsQueryInput V → Result ExplorerError (RowsQuery V)
  unfolding check_target add_trusted query_text add_offset
  build_rows_query input = do
    relation ← check_target input
    filter ← build_filter_sql relation.columns input.filters 1
    trusted ←
        add_trusted relation.columns (nothing_trusted filter.next_param_index)
          input.trusted_equalities
    let cursor = input.cursor_condition
    let predicates = (filter.predicates ++ trusted.predicates) ++ cursor_predicates cursor
    let next = trusted.next_param_index + length (cursor_values cursor)
    (text, values) ←
        add_offset input.offset next (query_text input relation predicates)
          (all_sql_values filter trusted cursor)
    ok (record {
      text = text;
      values = values;
      selectable_columns = map (λ c. c.name) (selectable_cols relation);
      relation = relation;
    })
