-- ===== src/Explorer/Query/Parameters.antt =====
-- Parameters of the query and their values (apps/sql-worker/src/explorer/filterSql.ts).
use nancy_man.Base.{
  ℕ, zero, suc, append-nil, ◌+◌, Text, codes, List, [], ◌∷◌, ◌++◌, map, Option, some, none, ◌≡◌,
  refl, ap, ◌∙◌, length, length-append, arith, ok, length-map,
}
use nancy_man.Explorer.Filter.{FilterSql}
use nancy_man.Explorer.Filter.Reference.{all_predicates, arities, build_filter_sql_lem}
use nancy_man.Explorer.Query.{
  CursorCondition, RowsQueryInput, SqlValue, typed, given, number, RowsQuery, TrustedSql,
  cursor_predicates, cursor_values, add_offset, all_sql_values, build_rows_query,
}
use nancy_man.Explorer.Identifier.{decimal}
use nancy_man.Explorer.Query.Reference.{reference_text, query_text-reference_text}
use nancy_man.Explorer.Query.Steps.{
  build_rows_query-Built, add_trusted-AddsTrusted, trusted_predicates,
}

-- What the offset adds to the text and to the values.
abbrev pub offset_text : Option ℕ → ℕ → Text
offset_text none n = []
offset_text (some zero) n = []
offset_text (some (suc o)) n = codes " OFFSET $" ++ decimal n

module _ {V : Type 0} where
  abbrev pub offset_values : Option ℕ → List (SqlValue V)
  offset_values none = []
  offset_values (some zero) = []
  offset_values (some (suc o)) = number (suc o) ∷ []

  add_offset-eq :
      (offset : Option ℕ) (n : ℕ) (text : Text) (values : List (SqlValue V)) {text' : Text}
      {values' : List (SqlValue V)}
      → add_offset offset n text values ≡ ok (text', values')
      → (text' ≡ text ++ offset_text offset n) × (values' ≡ values ++ offset_values offset)
  unfolding add_offset
  add_offset-eq none n text values h = ground (arith, append-nil text, append-nil values)
  add_offset-eq (some zero) n text values h = ground (arith, append-nil text, append-nil values)
  add_offset-eq (some (suc o)) n text values h = ground arith

  -- The predicate of the cursor, and how many values it binds.
  abbrev pub cursor_texts : Option (CursorCondition V) → List Text
  cursor_texts none = []
  cursor_texts (some c) = c.predicate ∷ []

  abbrev pub cursor_count : Option (CursorCondition V) → ℕ
  cursor_count none = 0
  cursor_count (some c) = length c.values

  cursor_predicates-eq : (c : Option (CursorCondition V)) → cursor_predicates c ≡ cursor_texts c
  cursor_predicates-eq none = refl
  cursor_predicates-eq (some c) = refl

  length-cursor_values :
      (c : Option (CursorCondition V)) → length (cursor_values c) ≡ cursor_count c
  length-cursor_values none = refl
  length-cursor_values (some c) = refl

  -- The parameters that the filters, the equalities and the cursor take.
  abbrev pub parameters : RowsQueryInput V → ℕ
  parameters input =
      arities input.filters + length input.trusted_equalities + cursor_count input.cursor_condition

  abbrev pub where_predicates : RowsQueryInput V → List Text
  where_predicates input =
      (all_predicates 1 input.filters
        ++ trusted_predicates (1 + arities input.filters) input.trusted_equalities)
      ++ cursor_texts input.cursor_condition

  length-all_sql_values :
      (filter : FilterSql) (trusted : TrustedSql V) (c : Option (CursorCondition V))
      → length (all_sql_values filter trusted c)
        ≡ length filter.values + length trusted.values + length (cursor_values c)
  length-all_sql_values filter trusted c =
      let texts : List (SqlValue V) = map typed filter.values in
      let keys : List (SqlValue V) = map given trusted.values in
      let cursors : List (SqlValue V) = map given (cursor_values c) in
      let l1 : length texts ≡ length filter.values = length-map _ filter.values in
      let l2 : length keys ≡ length trusted.values = length-map _ trusted.values in
      let l3 : length cursors ≡ length (cursor_values c) = length-map _ (cursor_values c) in
      omega (arith, length-append (texts ++ keys) cursors, length-append texts keys)

  -- The text of a query that is built, written out apart from the program: each predicate with the parameter that its place gives it,
  -- and an offset whose parameter follows all others. There are as many values as parameters, so
  -- the offset is bound to the last value.
  pub build_rows_query_lem :
      (input : RowsQueryInput V) {query : RowsQuery V}
      → build_rows_query input ≡ ok query
      → (query.text
          ≡ reference_text input query.relation (where_predicates input)
            ++ offset_text input.offset (1 + parameters input))
        × (length query.values ≡ parameters input + length (offset_values input.offset))
  build_rows_query_lem input {query} h =
      let b = build_rows_query-Built input h in
      let (texts, values, by_length, by_arity) =
        build_filter_sql_lem query.relation.columns input.filters 1 b.filtered in
      let t =
        add_trusted-AddsTrusted query.relation.columns _ input.trusted_equalities b.equalities in
      let (text, all) = add_offset-eq input.offset _ _ _ b.finished in
      let next : b.trusted.next_param_index + length (cursor_values input.cursor_condition)
          ≡ 1 + parameters input =
        omega (arith, t.next, by_arity, length-cursor_values input.cursor_condition) in
      let predicates : b.trusted.predicates
          ≡ trusted_predicates (1 + arities input.filters) input.trusted_equalities =
        rw (← by_arity) t.predicates in
      let wheres : (b.filter.predicates ++ b.trusted.predicates)
            ++ cursor_predicates input.cursor_condition
          ≡ where_predicates input =
        rw (texts, predicates, cursor_predicates-eq input.cursor_condition) refl in
      (
        text
            ∙ ap
                (λ q.
                  q
                  ++ offset_text input.offset
                      (b.trusted.next_param_index + length (cursor_values input.cursor_condition)))
                (query_text-reference_text input query.relation _
                  ∙ ap (reference_text input query.relation) wheres)
            ∙ ap
                (λ n.
                  reference_text input query.relation (where_predicates input)
                  ++ offset_text input.offset n)
                next,
        rw all (
            omega (
              arith,
              length-append (all_sql_values b.filter b.trusted input.cursor_condition)
                  (offset_values input.offset),
              length-all_sql_values b.filter b.trusted input.cursor_condition,
              by_length,
              by_arity,
              t.values,
              length-cursor_values input.cursor_condition,
            )),
      )
