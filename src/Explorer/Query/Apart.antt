-- ===== src/Explorer/Query/Apart.antt =====
-- Values stay out of the text of the query (apps/sql-worker/src/explorer/filterSql.ts).
use nancy_man.Base.{
  ℕ, ◌+◌, Text, List, [], ◌∷◌, Option, some, none, ◌≡◌, refl, sym, ap, ◌∙◌, length, ◌++◌, ok,
  ok-injective,
}
use nancy_man.Explorer.Columns.{ExplorerError, ExplorerRelation}
use nancy_man.Explorer.Filter.{FilterPredicate}
use nancy_man.Explorer.Filter.Reference.{
  SameShape, arities, all_predicates-SameShape, arities-SameShape,
}
use nancy_man.Explorer.Query.{
  TrustedEquality, CursorCondition, RowsQueryInput, RowsQuery, check_target, build_rows_query,
}
use nancy_man.Explorer.Query.Reference.{reference_text}
use nancy_man.Explorer.Query.Steps.{build_rows_query-Built, trusted_predicates}
use nancy_man.Explorer.Query.Parameters.{
  offset_text, cursor_texts, cursor_count, parameters, where_predicates, build_rows_query_lem,
}

module _ {V : Type 0} where
  -- Equalities on the same columns, with any values.
  abbrev pub SameColumns : List (TrustedEquality V) → List (TrustedEquality V) → Type 0
  SameColumns [] [] = Unit
  SameColumns (d ∷ ds) (e ∷ es) = (d.column ≡ e.column) × SameColumns ds es
  SameColumns _ _ = ⊥

  -- Cursors with the same predicate and as many values.
  abbrev pub SameCursor : Option (CursorCondition V) → Option (CursorCondition V) → Type 0
  SameCursor none none = Unit
  SameCursor (some c) (some d) = (c.predicate ≡ d.predicate) × (length c.values ≡ length d.values)
  SameCursor _ _ = ⊥

  trusted_predicates-SameColumns :
      (n : ℕ) (ds es : List (TrustedEquality V))
      → SameColumns ds es
      → (trusted_predicates n ds ≡ trusted_predicates n es) × (length ds ≡ length es)
  trusted_predicates-SameColumns n [] [] h = (refl, refl)
  trusted_predicates-SameColumns n (d ∷ ds) (e ∷ es) (c, h) =
      let (texts, lengths) = trusted_predicates-SameColumns (n + 1) ds es h in
      (rw (c, texts), rw lengths)
  trusted_predicates-SameColumns n [] (e ∷ es) h = absurd h
  trusted_predicates-SameColumns n (d ∷ ds) [] h = absurd h

  cursor-SameCursor :
      (c d : Option (CursorCondition V))
      → SameCursor c d
      → (cursor_texts c ≡ cursor_texts d) × (cursor_count c ≡ cursor_count d)
  cursor-SameCursor none none h = (refl, refl)
  cursor-SameCursor (some c) (some d) (p, l) = (rw p, l)
  cursor-SameCursor none (some d) h = absurd h
  cursor-SameCursor (some c) none h = absurd h

  module _ (input : RowsQueryInput V) (filters : List FilterPredicate)
      (equalities : List (TrustedEquality V)) (cursor : Option (CursorCondition V)) where
    -- The request with other filters, equalities and cursor.
    abbrev pub with_values : RowsQueryInput V
    with_values = record input {
      filters = filters;
      trusted_equalities = equalities;
      cursor_condition = cursor;
    }

    same-relation :
        {query other : RowsQuery V}
        → build_rows_query input ≡ ok query
        → build_rows_query with_values ≡ ok other
        → query.relation ≡ other.relation
    unfolding check_target
    same-relation {query} {other} h k =
        ok-injective {E = ExplorerError} query.relation other.relation (
          sym (build_rows_query-Built input h).target
          ∙ (build_rows_query-Built with_values k).target)

    same-text :
        (relation : ExplorerRelation) (predicates : List Text)
        → reference_text input relation predicates ≡ reference_text with_values relation predicates
    same-text relation predicates = refl

    -- Two requests that differ only in the values of their filters, equalities and cursor give the
    -- same SQL text: a value reaches the database only as a bound parameter.
    pub build_rows_query_values_apart :
        {query other : RowsQuery V}
        → SameShape input.filters filters
        → SameColumns input.trusted_equalities equalities
        → SameCursor input.cursor_condition cursor
        → build_rows_query input ≡ ok query
        → build_rows_query with_values ≡ ok other
        → query.text ≡ other.text
    build_rows_query_values_apart {query} {other} shape columns cursors h k =
        let (text, _) = build_rows_query_lem input h in
        let (text', _) = build_rows_query_lem with_values k in
        let arity = arities-SameShape input.filters filters shape in
        let (trusted, count) =
          trusted_predicates-SameColumns (1 + arities filters) input.trusted_equalities equalities
            columns in
        let (cursor_text, bound) = cursor-SameCursor input.cursor_condition cursor cursors in
        let wheres : where_predicates input ≡ where_predicates with_values =
          rw
            (all_predicates-SameShape 1 input.filters filters shape, arity, trusted, cursor_text) in
        let total : parameters input ≡ parameters with_values = rw (arity, count, bound) in
        let same : reference_text input query.relation (where_predicates input)
            ≡ reference_text with_values other.relation (where_predicates with_values) =
          ap (λ r. reference_text input r (where_predicates input)) (same-relation h k)
          ∙ ap (reference_text input other.relation) wheres
          ∙ same-text other.relation (where_predicates with_values) in
        text
        ∙ ap (λ t. t ++ offset_text input.offset (1 + parameters input)) same
        ∙ ap
            (λ n.
              reference_text with_values other.relation (where_predicates with_values)
              ++ offset_text input.offset (1 + n))
            total
        ∙ sym text'
