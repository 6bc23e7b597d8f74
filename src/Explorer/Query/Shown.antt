-- ===== src/Explorer/Query/Shown.antt =====
-- Columns that may be shown, and the filters and equalities on them
-- (apps/sql-worker/src/explorer/filterSql.ts).
use mathlib.Core.List.{mem-cons_self, mem-cons_of_mem}
use nancy_man.Base.{
  Bool, true, false, Text, List, [], ◌∷◌, Mem, some, ◌≡◌, refl, sym, ap, ◌∙◌, subst, All, ℕ, find,
  find-passes, same, eq_of_same, arith, Bool-cases, Option-cases, inl, inr, ◌==◌, ◌||◌, not,
  if◌then◌else◌,
}
use nancy_man.Explorer.Columns.{
  ExplorerColumn, is_hidden, has_operator, operator_tag, FilterOperator, eq, neq, contains, gt, gte,
  lt, lte, is_null, is_not_null, public, internal, pii, blocked, Classification, is_blocked,
}
use nancy_man.Explorer.Filter.{FilterPredicate, column_map_get}
use nancy_man.Explorer.Filter.Allowed.{IsAllowed, column_map_get-name}
use nancy_man.Explorer.Query.{TrustedEquality}
use nancy_man.Explorer.Query.Reference.{shows}
use nancy_man.Explorer.Query.Steps.{IsVisible}

-- A name of a column that may be shown, and what else is asked of that column.
abbrev pub Shows : (ExplorerColumn → Type 0) → List ExplorerColumn → Text → Type 0
Shows P columns name =
    (col : ExplorerColumn) × Mem col columns
    × (col.name ≡ name)
    × (shows col.classification col.selectable ≡ true)
    × P col

-- A filter on a column that may be shown, by one of its operators.
abbrev pub IsFilterable : List ExplorerColumn → FilterPredicate → Type 0
IsFilterable columns filter =
    Shows (λ col. Mem filter.operator col.filter_operators) columns filter.column

pub find-Mem : {A : Type 0} (p : A → Bool) (xs : List A) {x : A} → find p xs ≡ some x → Mem x xs
find-Mem p [] h = absurd (ground arith)
find-Mem {A} p (y ∷ ys) {x} h = elim (Bool-cases (p y)) [
  | inl hit ↦
      let this : some y ≡ some x = rw hit at h in
      let here : y ≡ x = cc in subst (λ (z : A). Mem z (y ∷ ys)) here mem-cons_self
  | inr miss ↦ mem-cons_of_mem y (find-Mem p ys (rw miss at h))
]

column_map_get-Mem :
    (columns : List ExplorerColumn) (name : Text) {col : ExplorerColumn}
    → column_map_get columns name ≡ some col
    → Mem col columns
unfolding column_map_get
column_map_get-Mem [] name h = absurd (ground arith)
column_map_get-Mem (c ∷ cs) name {col} h = elim (Option-cases (column_map_get cs name)) [
  | inl absent ↦ elim (Bool-cases (same c.name name)) [
    | inl this ↦
        let found : some c ≡ some col = rw (absent, this) at h in
        let here : c ≡ col = cc in subst (λ (z : ExplorerColumn). Mem z (c ∷ cs)) here mem-cons_self
    | inr other ↦ absurd (ground arith)
  ]
  | inr (d, later) ↦
      let found : some d ≡ some col = rw later at h in
      mem-cons_of_mem c (column_map_get-Mem cs name (later ∙ found))
]

-- The operator of a tag, by which equal tags are equal operators.
abbrev tagged : ℕ → FilterOperator
tagged n =
    if n == 0
    then eq
    else if n == 1
    then neq
    else if n == 2
    then contains
    else if n == 3
    then gt
    else if n == 4
    then gte
    else if n == 5
    then lt
    else if n == 6
    then lte
    else if n == 7
    then is_null
    else is_not_null

tagged-operator_tag : (o : FilterOperator) → tagged (operator_tag o) ≡ o
tagged-operator_tag eq = refl
tagged-operator_tag neq = refl
tagged-operator_tag contains = refl
tagged-operator_tag gt = refl
tagged-operator_tag gte = refl
tagged-operator_tag lt = refl
tagged-operator_tag lte = refl
tagged-operator_tag is_null = refl
tagged-operator_tag is_not_null = refl

has_operator-Mem :
    (o : FilterOperator) (operators : List FilterOperator)
    → has_operator o operators ≡ true
    → Mem o operators
has_operator-Mem o [] h = absurd (ground arith)
has_operator-Mem o (p ∷ ps) h = elim (Bool-cases (operator_tag p == operator_tag o)) [
  | inl hit ↦
      let tags : operator_tag p ≡ operator_tag o = ground arith in
      let here : p ≡ o = sym (tagged-operator_tag p) ∙ ap tagged tags ∙ tagged-operator_tag o in
      subst (λ (z : FilterOperator). Mem z (p ∷ ps)) here mem-cons_self
  | inr miss ↦ mem-cons_of_mem p (has_operator-Mem o ps (ground arith))
]

shown : (c : ExplorerColumn) → is_hidden c ≡ false → shows c.classification c.selectable ≡ true
shown c h = by_parts c.classification c.selectable h
  where
    by_parts :
        (k : Classification) (selectable : Bool)
        → (is_blocked k || not selectable) ≡ false
        → shows k selectable ≡ true
    by_parts public true h = refl
    by_parts internal true h = refl
    by_parts pii true h = refl
    by_parts blocked selectable h = absurd (ground arith)
    by_parts public false h = absurd (ground arith)
    by_parts internal false h = absurd (ground arith)
    by_parts pii false h = absurd (ground arith)

pub All-IsFilterable :
    (columns : List ExplorerColumn) (filters : List FilterPredicate)
    → All (IsAllowed columns) filters
    → All (IsFilterable columns) filters
All-IsFilterable columns [] h = tt
All-IsFilterable columns (f ∷ fs) ((col, found, visible, operator), h) = (
  (
    col,
    column_map_get-Mem columns f.column found,
    column_map_get-name columns f.column found,
    shown col visible,
    has_operator-Mem f.operator col.filter_operators operator,
  ),
  All-IsFilterable columns fs h,
)

module _ {V : Type 0} where
  pub All-Shows :
      (columns : List ExplorerColumn) (es : List (TrustedEquality V))
      → All (IsVisible columns) es
      → All (λ e. Shows (λ _. Unit) columns e.column) es
  All-Shows columns [] h = tt
  All-Shows columns (e ∷ es) ((col, found, visible), h) = (
    (
      col,
      find-Mem _ columns found,
      eq_of_same col.name e.column (find-passes _ columns found),
      shown col visible,
      tt,
    ),
    All-Shows columns es h,
  )
