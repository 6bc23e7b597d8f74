-- ===== src/Explorer/Filter/Reference.antt =====
-- `buildFilterSql` against a reference: the loop with its three variables gives, filter by filter,
-- the text and the bound value that the operator asks for
-- (apps/sql-worker/src/explorer/filterSql.ts).
use nancy_man.Base.{
  ℕ, ◌+◌, Text, codes, List, [], ◌∷◌, ◌++◌, Option, some, none, ◌≡◌, refl, sym, ◌∙◌, ok, >>=-eq-ok,
  Option-cases, Bool-cases, inl, inr, length, length-append, arith, append_assoc, append-nil, ltb,
}
use nancy_man.Explorer.Identifier.{quote_identifier}
use nancy_man.Explorer.Columns.{
  ExplorerColumn, FilterOperator, eq, neq, contains, gt, gte, lt, lte, is_null, is_not_null,
}
use nancy_man.Explorer.Filter.{
  FilterPredicate, FilterSql, push, placeholder, column_map_get, add_on_column, add_predicate,
  add_filter, add_filters, build_filter_sql, nothing_built,
}
use nancy_man.Explorer.Filter.Allowed.{column_map_get-name}

-- The text of a predicate on a quoted column, whose value, if it has one, is parameter n.
abbrev pub predicate_text : FilterOperator → Text → ℕ → Text
predicate_text eq column n = column ++ (codes " = " ++ placeholder n)
predicate_text neq column n = column ++ (codes " != " ++ placeholder n)
predicate_text contains column n =
    column ++ (codes "::text ILIKE ('%' || " ++ (placeholder n ++ codes " || '%')"))
predicate_text gt column n = column ++ (codes " > " ++ placeholder n)
predicate_text gte column n = column ++ (codes " >= " ++ placeholder n)
predicate_text lt column n = column ++ (codes " < " ++ placeholder n)
predicate_text lte column n = column ++ (codes " <= " ++ placeholder n)
predicate_text is_null column n = column ++ codes " IS NULL"
predicate_text is_not_null column n = column ++ codes " IS NOT NULL"

-- The values that a filter binds: none for the two null tests.
abbrev pub bound : FilterOperator → Option Text → List Text
bound is_null value = []
bound is_not_null value = []
bound operator none = []
bound operator (some value) = value ∷ []

-- How many parameters a filter takes, by its operator alone.
abbrev pub arity : FilterOperator → ℕ
arity is_null = 0
arity is_not_null = 0
arity operator = 1

abbrev pub all_values : List FilterPredicate → List Text
all_values [] = []
all_values (f ∷ fs) = bound f.operator f.value ++ all_values fs

-- How many parameters all of them take.
abbrev pub arities : List FilterPredicate → ℕ
arities [] = 0
arities (f ∷ fs) = arity f.operator + arities fs

-- Names and operators, and no value.
abbrev pub all_predicates : ℕ → List FilterPredicate → List Text
all_predicates n [] = []
all_predicates n (f ∷ fs) =
    predicate_text f.operator (quote_identifier f.column) n
    ∷ all_predicates (n + arity f.operator) fs

-- What one round adds.
record Adds (column : Text) (operator : FilterOperator) (value : Option Text) (sql sql' : FilterSql)
    : Type 0 where
  predicate :
      sql'.predicates ≡ push sql.predicates (predicate_text operator column sql.next_param_index)
  values : sql'.values ≡ sql.values ++ bound operator value
  count : length (bound operator value) ≡ arity operator
  next : sql'.next_param_index ≡ sql.next_param_index + arity operator

add_predicate-Adds :
    (column : Text) (operator : FilterOperator) (value : Option Text) (sql : FilterSql)
    {sql' : FilterSql}
    → add_predicate column operator value sql ≡ ok sql'
    → Adds column operator value sql sql'
unfolding add_predicate
add_predicate-Adds column is_null value sql h = ground (arith, append-nil sql.values)
add_predicate-Adds column is_not_null value sql h = ground (arith, append-nil sql.values)
add_predicate-Adds column operator none sql h = absurd (ground arith)
add_predicate-Adds column operator (some value) sql h = ground arith

add_filter-Adds :
    (columns : List ExplorerColumn) (sql : FilterSql) (f : FilterPredicate) {sql' : FilterSql}
    → add_filter columns sql f ≡ ok sql'
    → Adds (quote_identifier f.column) f.operator f.value sql sql'
unfolding add_filter add_on_column
add_filter-Adds columns sql f {sql'} h = elim (Option-cases (column_map_get columns f.column)) [
  | inl absent ↦ absurd (ground arith)
  | inr (col, found) ↦
      let named = column_map_get-name columns f.column found in
      let went : add_predicate (quote_identifier col.name) f.operator f.value sql ≡ ok sql' =
        ground arith in
      rw (← named) (add_predicate-Adds _ f.operator f.value sql went)
]

-- What the whole loop adds.
record AddsAll (filters : List FilterPredicate) (sql result : FilterSql) : Type 0 where
  predicates : result.predicates ≡ sql.predicates ++ all_predicates sql.next_param_index filters
  values : result.values ≡ sql.values ++ all_values filters
  count : length (all_values filters) ≡ arities filters
  next : result.next_param_index ≡ sql.next_param_index + arities filters

AddsAll-cons :
    (f : FilterPredicate) (fs : List FilterPredicate) (sql next result : FilterSql)
    → Adds (quote_identifier f.column) f.operator f.value sql next
    → AddsAll fs next result
    → AddsAll (f ∷ fs) sql result
AddsAll-cons f fs sql next result a later = record {
  predicates = later.predicates ∙ rw (a.predicate, a.next) (append_assoc sql.predicates _ _);
  values = later.values ∙ rw a.values (append_assoc sql.values _ _);
  count =
      omega (arith, later.count, a.count, length-append (bound f.operator f.value) (all_values fs));
  next = omega (arith, later.next, a.next);
}

add_filters-AddsAll :
    (columns : List ExplorerColumn) (sql : FilterSql) (filters : List FilterPredicate)
    {result : FilterSql}
    → add_filters columns sql filters ≡ ok result
    → AddsAll filters sql result
unfolding add_filters
add_filters-AddsAll columns sql [] h =
    ground (arith, append-nil sql.predicates, append-nil sql.values)
add_filters-AddsAll columns sql (f ∷ fs) {result} h =
    let (next, first, later) = >>=-eq-ok (add_filter columns sql f) _ h in
    AddsAll-cons f fs sql next result (add_filter-Adds columns sql f first)
      (add_filters-AddsAll columns next fs later)

-- The loop computes the reference: predicate by predicate the text of the filter with the next free
-- parameter, the bound values in the same order, and as many parameters as values, a number that
-- the operators alone determine.
pub build_filter_sql_lem :
    (columns : List ExplorerColumn) (filters : List FilterPredicate) (start : ℕ)
    {result : FilterSql}
    → build_filter_sql columns filters start ≡ ok result
    → (result.predicates ≡ all_predicates start filters)
      × (result.values ≡ all_values filters)
      × (result.next_param_index ≡ start + length result.values)
      × (result.next_param_index ≡ start + arities filters)
unfolding build_filter_sql
build_filter_sql_lem columns filters start {result} h = elim (Bool-cases (ltb 5 (length filters))) [
  | inl many ↦ absurd (ground arith)
  | inr few ↦
      let a =
        add_filters-AddsAll columns (nothing_built start) filters {result = result}
          (ground arith) in
      (a.predicates, a.values, rw (a.values, a.count) a.next, a.next)
]

-- Two requests with the same columns and operators, and any values.
abbrev pub SameShape : List FilterPredicate → List FilterPredicate → Type 0
SameShape [] [] = Unit
SameShape (f ∷ fs) (g ∷ gs) = (f.column ≡ g.column) × (f.operator ≡ g.operator) × SameShape fs gs
SameShape _ _ = ⊥

pub all_predicates-SameShape :
    (n : ℕ) (fs gs : List FilterPredicate)
    → SameShape fs gs
    → all_predicates n fs ≡ all_predicates n gs
all_predicates-SameShape n [] [] h = refl
all_predicates-SameShape n (f ∷ fs) (g ∷ gs) (c, o, h) =
    rw (c, o, all_predicates-SameShape (n + arity g.operator) fs gs h)
all_predicates-SameShape n [] (g ∷ gs) h = absurd h
all_predicates-SameShape n (f ∷ fs) [] h = absurd h

pub arities-SameShape : (fs gs : List FilterPredicate) → SameShape fs gs → arities fs ≡ arities gs
arities-SameShape [] [] h = refl
arities-SameShape (f ∷ fs) (g ∷ gs) (c, o, h) = rw (o, arities-SameShape fs gs h)
arities-SameShape [] (g ∷ gs) h = absurd h
arities-SameShape (f ∷ fs) [] h = absurd h

-- The predicates do not depend on the values: whatever a user types as a value, the SQL text is
-- that of any other value for the same columns and operators.
pub build_filter_sql_values_apart :
    (columns : List ExplorerColumn) (fs gs : List FilterPredicate) (start : ℕ)
    {result result' : FilterSql}
    → SameShape fs gs
    → build_filter_sql columns fs start ≡ ok result
    → build_filter_sql columns gs start ≡ ok result'
    → result.predicates ≡ result'.predicates
build_filter_sql_values_apart columns fs gs start shape h k =
    (build_filter_sql_lem columns fs start h).0
    ∙ all_predicates-SameShape start fs gs shape
    ∙ sym (build_filter_sql_lem columns gs start k).0
