-- ===== src/Explorer/Filter/Allowed.antt =====
-- Which filters `buildFilterSql` lets through (apps/sql-worker/src/explorer/filterSql.ts).
use nancy_man.Base.{
  ℕ, ◌≤◌, Text, true, false, List, [], ◌∷◌, some, ◌≡◌, ok, >>=-eq-ok, Option-cases, Bool-cases, inl,
  inr, All, length, arith, same, ltb, eq_of_same,
}
use nancy_man.Explorer.Columns.{ExplorerColumn, is_hidden, has_operator}
use nancy_man.Explorer.Filter.{
  FilterPredicate, FilterSql, column_map_get, add_on_column, add_filter, add_filters,
  build_filter_sql, nothing_built,
}

-- The column that the map holds under a name bears that name.
pub column_map_get-name :
    (columns : List ExplorerColumn) (name : Text) {col : ExplorerColumn}
    → column_map_get columns name ≡ some col
    → col.name ≡ name
unfolding column_map_get
column_map_get-name [] name h = cc
column_map_get-name (c ∷ cs) name {col} h = elim (Option-cases (column_map_get cs name)) [
  | inl absent ↦ elim (Bool-cases (same c.name name)) [
    | inl this ↦
        let found : some c ≡ some col = ground arith in ground (arith, eq_of_same c.name name this)
    | inr other ↦ absurd (ground arith)
  ]
  | inr (d, later) ↦ column_map_get-name cs name {col = col} (ground arith)
]

-- A filter that may reach the database: on a known, visible column, by an operator of that column.
abbrev pub IsAllowed : List ExplorerColumn → FilterPredicate → Type 0
IsAllowed columns filter =
    (col : ExplorerColumn) × (column_map_get columns filter.column ≡ some col)
    × (is_hidden col ≡ false)
    × (has_operator filter.operator col.filter_operators ≡ true)

pub add_filter-IsAllowed :
    (columns : List ExplorerColumn) (sql : FilterSql) (filter : FilterPredicate) {sql' : FilterSql}
    → add_filter columns sql filter ≡ ok sql'
    → IsAllowed columns filter
unfolding add_filter add_on_column
add_filter-IsAllowed columns sql filter h =
    elim (Option-cases (column_map_get columns filter.column)) [
      | inl absent ↦ absurd (ground arith)
      | inr (col, found) ↦ (col, found, ground arith, ground arith)
    ]

add_filters-IsAllowed :
    (columns : List ExplorerColumn) (sql : FilterSql) (filters : List FilterPredicate)
    {result : FilterSql}
    → add_filters columns sql filters ≡ ok result
    → All (IsAllowed columns) filters
unfolding add_filters
add_filters-IsAllowed columns sql [] h = tt
add_filters-IsAllowed columns sql (f ∷ fs) h =
    let (next, first, later) = >>=-eq-ok (add_filter columns sql f) _ h in
    (add_filter-IsAllowed columns sql f first, add_filters-IsAllowed columns next fs later)

-- If the filters are built, there are at most five, and each is on a known column that is visible
-- and not blocked, by an operator that the column supports.
pub build_filter_sql-IsAllowed :
    (columns : List ExplorerColumn) (filters : List FilterPredicate) (start : ℕ)
    {result : FilterSql}
    → build_filter_sql columns filters start ≡ ok result
    → All (IsAllowed columns) filters × (length filters ≤ 5)
unfolding build_filter_sql
build_filter_sql-IsAllowed columns filters start {result} h =
    elim (Bool-cases (ltb 5 (length filters))) [
      | inl many ↦ absurd (ground arith)
      | inr few ↦ (
        add_filters-IsAllowed columns (nothing_built start) filters {result = result}
            (ground arith),
        ground arith,
      )
    ]
