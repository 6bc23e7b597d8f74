-- ===== src/Explorer/Query/Steps.antt =====
-- The steps of `buildRowsQuery`, taken apart from a call that succeeds
-- (apps/sql-worker/src/explorer/filterSql.ts).
use nancy_man.Base.{
  ℕ, ◌+◌, Text, codes, false, List, [], ◌∷◌, ◌++◌, map, some, ◌≡◌, refl, ◌∙◌, length, length-append,
  arith, ok, >>=-eq-ok, Option-cases, inl, inr, find, find-passes, append_assoc, append-nil, subst,
  ok-injective, eq_of_same, same, All,
}
use nancy_man.Explorer.Identifier.{quote_identifier, decimal}
use nancy_man.Explorer.Columns.{ExplorerColumn, is_hidden}
use nancy_man.Explorer.Filter.{FilterSql, push, placeholder, build_filter_sql}
use nancy_man.Explorer.Query.{
  TrustedEquality, RowsQueryInput, RowsQuery, TrustedSql, check_target, selectable_cols,
  add_trusted_on, add_trusted, nothing_trusted, cursor_predicates, cursor_values, query_text,
  add_offset, all_sql_values, build_rows_query,
}

module _ {V : Type 0} where
  -- The texts of the trusted equalities, from parameter n on.
  abbrev pub trusted_predicates : ℕ → List (TrustedEquality V) → List Text
  trusted_predicates n [] = []
  trusted_predicates n (e ∷ es) =
      (quote_identifier e.column ++ (codes " = $" ++ decimal n)) ∷ trusted_predicates (n + 1) es

  abbrev pub IsVisible : List ExplorerColumn → TrustedEquality V → Type 0
  IsVisible columns e =
      (col : ExplorerColumn) × (find (λ c. same c.name e.column) columns ≡ some col)
      × (is_hidden col ≡ false)

  record AddsOne (columns : List ExplorerColumn) (e : TrustedEquality V) (sql sql' : TrustedSql V)
      : Type 0 where
    predicates :
        sql'.predicates
        ≡ push sql.predicates
            (quote_identifier e.column ++ (codes " = " ++ placeholder sql.next_param_index))
    values : length sql'.values ≡ length sql.values + 1
    next : sql'.next_param_index ≡ sql.next_param_index + 1
    visible : IsVisible columns e

  add_trusted_on-AddsOne :
      (columns : List ExplorerColumn) (e : TrustedEquality V) (sql : TrustedSql V)
      {sql' : TrustedSql V}
      → add_trusted_on e sql (find (λ c. same c.name e.column) columns) ≡ ok sql'
      → AddsOne columns e sql sql'
  unfolding add_trusted_on
  add_trusted_on-AddsOne columns e sql {sql'} h =
      elim (Option-cases (find (λ c. same c.name e.column) columns)) [
        | inl absent ↦ absurd (ground arith)
        | inr (col, found) ↦ elim (Option-cases e.value) [
          | inl missing ↦ absurd (ground arith)
          | inr (v, present) ↦
              let named = eq_of_same col.name e.column (find-passes _ columns found) in
              record {
                predicates = ground arith;
                values = ground (arith, length-append sql.values (v ∷ []));
                next = ground arith;
                visible = (col, found, ground arith);
              }
        ]
      ]

  -- What the loop over the trusted equalities adds.
  pub record AddsTrusted (columns : List ExplorerColumn) (es : List (TrustedEquality V))
      (sql result : TrustedSql V) : Type 0 where
    pub predicates :
        result.predicates ≡ sql.predicates ++ trusted_predicates sql.next_param_index es
    pub values : length result.values ≡ length sql.values + length es
    pub next : result.next_param_index ≡ sql.next_param_index + length es
    pub visible : All (IsVisible columns) es

  pub add_trusted-AddsTrusted :
      (columns : List ExplorerColumn) (sql : TrustedSql V) (es : List (TrustedEquality V))
      {result : TrustedSql V}
      → add_trusted columns sql es ≡ ok result
      → AddsTrusted columns es sql result
  unfolding add_trusted
  add_trusted-AddsTrusted columns sql [] h = ground (arith, append-nil sql.predicates)
  add_trusted-AddsTrusted columns sql (e ∷ es) {result} h =
      let (next, first, later) =
        >>=-eq-ok (add_trusted_on e sql (find (λ c. same c.name e.column) columns)) _ h in
      let a = add_trusted_on-AddsOne columns e sql first in
      let b = add_trusted-AddsTrusted columns next es {result = result} later in
      record {
        predicates = b.predicates ∙ rw (a.predicates, a.next) (append_assoc sql.predicates _ _);
        values = omega (arith, b.values, a.values);
        next = omega (arith, b.next, a.next);
        visible = (a.visible, b.visible);
      }

  -- The results of the steps of a call that gives `query`.
  pub record Built (input : RowsQueryInput V) (query : RowsQuery V) : Type 0 where
    pub filter : FilterSql
    pub trusted : TrustedSql V
    pub target : check_target input ≡ ok query.relation
    pub filtered : build_filter_sql query.relation.columns input.filters 1 ≡ ok filter
    pub equalities :
        add_trusted query.relation.columns
          (nothing_trusted filter.next_param_index)
          input.trusted_equalities
        ≡ ok trusted
    pub finished :
        add_offset input.offset
          (trusted.next_param_index + length (cursor_values input.cursor_condition))
          (query_text input query.relation
            ((filter.predicates ++ trusted.predicates) ++ cursor_predicates input.cursor_condition))
          (all_sql_values filter trusted input.cursor_condition)
        ≡ ok (query.text, query.values)
    pub columns : query.selectable_columns ≡ map (λ c. c.name) (selectable_cols query.relation)

  pub build_rows_query-Built :
      (input : RowsQueryInput V) {query : RowsQuery V}
      → build_rows_query input ≡ ok query
      → Built input query
  unfolding build_rows_query
  build_rows_query-Built input {query} h =
      let (relation, target, h1) = >>=-eq-ok (check_target input) _ h in
      let (filter, filtered, h2) =
        >>=-eq-ok (build_filter_sql relation.columns input.filters 1) _ h1 in
      let (trusted, equalities, h3) =
        >>=-eq-ok
          (add_trusted relation.columns (nothing_trusted filter.next_param_index)
            input.trusted_equalities)
          _ h2 in
      let ((text, values), finished, h4) =
        >>=-eq-ok
          (add_offset input.offset
            (trusted.next_param_index + length (cursor_values input.cursor_condition))
            (query_text input relation (
              (filter.predicates ++ trusted.predicates)
              ++ cursor_predicates input.cursor_condition))
            (all_sql_values filter trusted input.cursor_condition))
          _ h3 in
      let result : RowsQuery V = record {
        text = text;
        values = values;
        selectable_columns = map (λ c. c.name) (selectable_cols relation);
        relation = relation;
      } in
      subst (λ (q : RowsQuery V). Built input q) (ok-injective result query h4)
        (record {
          filter = filter;
          trusted = trusted;
          target = target;
          filtered = filtered;
          equalities = equalities;
          finished = finished;
          columns = refl;
        })
