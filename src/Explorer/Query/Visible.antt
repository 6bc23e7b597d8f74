-- ===== src/Explorer/Query/Visible.antt =====
-- Which columns and rows a query may read (apps/sql-worker/src/explorer/filterSql.ts).
use mathlib.Core.List.{mem-map_of_mem}
use nancy_man.Base.{
  ◌≤◌, true, false, Text, codes, List, ◌++◌, map, Mem, Option, some, none, ◌≡◌, sym, ap, ◌∙◌, subst,
  ok, All, find, find-passes, same, eq_of_same, arith, Option-cases, inl, inr, length, length-map,
  ◌<◌, append_assoc,
}
use nancy_man.Explorer.Identifier.{quote_identifier}
use nancy_man.Explorer.Columns.{ExplorerColumn, ExplorerRelation, ExplorerSchema}
use nancy_man.Explorer.Filter.Allowed.{build_filter_sql-IsAllowed}
use nancy_man.Explorer.Query.{
  SortBy, RowsQueryInput, RowsQuery, find_relation, check_target, selectable_cols, bad_sort,
  build_rows_query,
}
use nancy_man.Explorer.Query.Reference.{listed, shown_names, selectable_cols-shown_names}
use nancy_man.Explorer.Query.Parameters.{build_rows_query_lem}
use nancy_man.Explorer.Query.Steps.{build_rows_query-Built, add_trusted-AddsTrusted}
use nancy_man.Explorer.Query.Shown.{Shows, IsFilterable, find-Mem, All-IsFilterable, All-Shows}

-- A sort on one of the columns that are selected, or none.
abbrev pub IsSortable : List Text → Option SortBy → Type 0
IsSortable names none = Unit
IsSortable names (some sort) = Mem sort.column names

-- What a query may read: the relation that the names of the request lead to, its data being available,
-- and in it the columns that may be shown, at least one.
pub record IsReadable {V : Type 0} (input : RowsQueryInput V) (query : RowsQuery V) : Type 0 where
  pub schema : ExplorerSchema
  pub schema_known : Mem schema input.schemas
  pub schema_named : schema.name ≡ input.schema
  pub relation_known : Mem query.relation schema.relations
  pub relation_named : query.relation.name ≡ input.relation
  pub available : query.relation.data_available ≡ true
  pub columns : query.selectable_columns ≡ shown_names query.relation.columns
  pub some_column : 0 < length query.selectable_columns
  pub rest : Text
  pub selects :
      query.text
      ≡ codes "SELECT "
        ++ (listed (codes ", ") (map quote_identifier query.selectable_columns)
            ++ (codes " FROM " ++ rest))
  pub sortable : IsSortable query.selectable_columns input.sort
  pub filterable : All (IsFilterable query.relation.columns) input.filters
  pub few : length input.filters ≤ 5
  pub equalities :
      All (λ e. Shows (λ _. Unit) query.relation.columns e.column) input.trusted_equalities

bad_sort-IsSortable :
    (sort : Option SortBy) (columns : List ExplorerColumn)
    → bad_sort sort columns ≡ false
    → IsSortable (map (λ c. c.name) columns) sort
bad_sort-IsSortable none columns h = tt
bad_sort-IsSortable (some sort) columns h =
    elim (Option-cases (find (λ c. same c.name sort.column) columns)) [
      | inl absent ↦ absurd (ground arith)
      | inr (c, found) ↦
          let named : c.name ≡ sort.column =
            eq_of_same c.name sort.column (find-passes _ columns found) in
          subst (λ n. Mem n (map (λ d. d.name) columns)) named
            (mem-map_of_mem (λ (d : ExplorerColumn). d.name) (find-Mem _ columns found))
    ]

reassociate :
    (a b c x o : Text) {t : Text}
    → t ≡ (a ++ (b ++ (c ++ x))) ++ o
    → (rest : Text) × (t ≡ a ++ (b ++ (c ++ rest)))
reassociate a b c x o h = (
  x ++ o,
  h
      ∙ append_assoc a (b ++ (c ++ x)) o
      ∙ ap (λ r. a ++ r) (append_assoc b (c ++ x) o ∙ ap (λ r. b ++ r) (append_assoc c x o)),
)

-- What `findRelation` and the checks behind it establish.
record IsTarget {V : Type 0} (input : RowsQueryInput V) (relation : ExplorerRelation) : Type 0 where
  schema : ExplorerSchema
  schema_known : Mem schema input.schemas
  schema_named : schema.name ≡ input.schema
  relation_known : Mem relation schema.relations
  relation_named : relation.name ≡ input.relation
  available : relation.data_available ≡ true
  some_column : 0 < length (selectable_cols relation)
  sortable : bad_sort input.sort (selectable_cols relation) ≡ false

module _ {V : Type 0} (input : RowsQueryInput V) where
  check_target-IsTarget :
      {relation : ExplorerRelation} → check_target input ≡ ok relation → IsTarget input relation
  unfolding check_target find_relation
  check_target-IsTarget {relation} h =
      elim (Option-cases (find (λ s. same s.name input.schema) input.schemas)) [
        | inl absent ↦ absurd (ground arith)
        | inr (s, schema_found) ↦
            elim (Option-cases (find (λ r. same r.name input.relation) s.relations)) [
              | inl absent ↦ absurd (ground arith)
              | inr (r, found) ↦
                  let same_one : r ≡ relation = ground arith in
                  subst (IsTarget input) same_one (record {
                    schema = s;
                    schema_known = find-Mem _ input.schemas schema_found;
                    schema_named =
                        eq_of_same s.name input.schema (find-passes _ input.schemas schema_found);
                    relation_known = find-Mem _ s.relations found;
                    relation_named =
                        eq_of_same r.name input.relation (find-passes _ s.relations found);
                    available = ground arith;
                    some_column = ground arith;
                    sortable = ground arith;
                  })
            ]
      ]

  -- A query is built only on the relation that the request names, known in the schema that it names,
  -- with its data available. Its text selects exactly the columns of the relation that are selectable
  -- and not blocked, in their order and at least one. The column of the sort is one of these; every
  -- filter, of five at most, is on such a column of the relation and by an operator of that column,
  -- and every trusted equality is on such a column. Nothing is said of the pagination key and of the
  -- predicate of the cursor.
  pub build_rows_query-IsReadable :
      {query : RowsQuery V} → build_rows_query input ≡ ok query → IsReadable input query
  build_rows_query-IsReadable {query} h =
      let b = build_rows_query-Built input h in
      let t = check_target-IsTarget b.target in
      let columns : query.selectable_columns ≡ shown_names query.relation.columns =
        b.columns ∙ selectable_cols-shown_names query.relation in
      let (allowed, few) =
        build_filter_sql-IsAllowed query.relation.columns input.filters 1 b.filtered in
      let (text, _) = build_rows_query_lem input h in
      let (rest, selects) =
        reassociate (codes "SELECT ")
          (listed (codes ", ") (map quote_identifier (shown_names query.relation.columns)))
          (codes " FROM ") _ _ text in
      record {
        schema = t.schema;
        schema_known = t.schema_known;
        schema_named = t.schema_named;
        relation_known = t.relation_known;
        relation_named = t.relation_named;
        available = t.available;
        columns = columns;
        some_column = rw b.columns (
            omega (
              arith,
              t.some_column,
              length-map (λ (c : ExplorerColumn). c.name) (selectable_cols query.relation),
            ));
        rest = rest;
        selects =
            selects
            ∙ ap
                (λ ns.
                  codes "SELECT "
                  ++ (listed (codes ", ") (map quote_identifier ns) ++ (codes " FROM " ++ rest)))
                (sym columns);
        sortable =
            subst (λ ns. IsSortable ns input.sort) (sym b.columns)
              (bad_sort-IsSortable input.sort (selectable_cols query.relation) t.sortable);
        filterable = All-IsFilterable query.relation.columns input.filters allowed;
        few = few;
        equalities =
            All-Shows query.relation.columns input.trusted_equalities
              (add_trusted-AddsTrusted query.relation.columns _ input.trusted_equalities
                b.equalities).visible;
      }
