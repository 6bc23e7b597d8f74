-- ===== src/Explorer/Columns.antt =====
-- The types of a schema snapshot that the query builder reads
-- (packages/contracts/src/databaseExplorer.ts), without the fields that it does not.
use nancy_man.Base.{ℕ, Text, Bool, true, false, List, Option, ◌==◌, any, ◌||◌, not}

pub data Classification : Type 0 where
  public internal pii blocked : Classification

pub data FilterOperator : Type 0 where
  eq neq contains gt gte lt lte is_null is_not_null : FilterOperator

pub record ExplorerColumn : Type 0 where
  pub name : Text
  pub classification : Classification
  pub selectable : Bool
  pub filter_operators : List FilterOperator

pub record ExplorerRelation : Type 0 where
  pub name : Text
  pub columns : List ExplorerColumn
  pub data_available : Bool
  pub pagination_key : Option (List Text)

pub record ExplorerSchema : Type 0 where
  pub name : Text
  pub relations : List ExplorerRelation

-- The codes of `makeExplorerError` (apps/sql-worker/src/explorer/filterSql.ts); the messages are
-- left out.
pub data ExplorerError : Type 0 where
  filter_invalid column_invalid relation_invalid data_permission_denied : ExplorerError
  page_too_large cursor_invalid : ExplorerError

abbrev pub is_blocked : Classification → Bool
is_blocked blocked = true
is_blocked _ = false

abbrev pub operator_tag : FilterOperator → ℕ
operator_tag eq = 0
operator_tag neq = 1
operator_tag contains = 2
operator_tag gt = 3
operator_tag gte = 4
operator_tag lt = 5
operator_tag lte = 6
operator_tag is_null = 7
operator_tag is_not_null = 8

-- `filterOperators.includes(operator)`.
abbrev pub has_operator : FilterOperator → List FilterOperator → Bool
has_operator o os = any (λ p. operator_tag p == operator_tag o) os

-- `col.classification === 'blocked' || !col.selectable`, the test that keeps a column out.
abbrev pub is_hidden : ExplorerColumn → Bool
is_hidden col = is_blocked col.classification || not col.selectable
