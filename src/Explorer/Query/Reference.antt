-- ===== src/Explorer/Query/Reference.antt =====
-- The text of a query written out apart from the program, and that `queryText` of `buildRowsQuery` is
-- this text (apps/sql-worker/src/explorer/filterSql.ts).
use nancy_man.Base.{
  ◌+◌, Text, codes, Bool, true, false, List, [], ◌∷◌, ◌++◌, map, Option, some, none, ◌≡◌, refl, sym,
  ap, ◌∙◌, append_assoc, append-nil, flatten, keep, not, same, arith, Bool-cases, inl, inr, ◌&&◌,
}
use nancy_man.Explorer.Identifier.{quote_identifier, decimal, join}
use nancy_man.Explorer.Columns.{
  ExplorerColumn, ExplorerRelation, Classification, public, internal, pii, blocked, is_blocked,
}
use nancy_man.Explorer.Query.{
  Direction, asc, desc, SortBy, RowsQueryInput, query_text, selectable_cols, order_item, sort_items,
  key_items, pagination_keys, clause, is_selectable,
}

-- Texts one after the other, each but the first behind a separator.
abbrev pub listed : Text → List Text → Text
listed separator [] = []
listed separator (t ∷ ts) = t ++ flatten (map (λ u. separator ++ u) ts)

-- A part of the query that is left out when it lists nothing.
abbrev pub part : Text → Text → List Text → Text
part keyword separator [] = []
part keyword separator (t ∷ ts) = keyword ++ listed separator (t ∷ ts)

abbrev pub ordered : Direction → Text → Text
ordered asc column = quote_identifier column ++ codes " ASC NULLS LAST"
ordered desc column = quote_identifier column ++ codes " DESC NULLS LAST"

-- The columns of the pagination key.
abbrev pub key_columns : Option (List Text) → List Text
key_columns none = []
key_columns (some keys) = keys

-- The column of the sort, and behind it those of the pagination key that it is not, in its direction;
-- with no sort the columns of the key, ascending.
abbrev pub order_parts : Option SortBy → List Text → List Text
order_parts none keys = map (ordered asc) keys
order_parts (some sort) keys =
    ordered sort.direction sort.column
    ∷ map (ordered sort.direction) (keep (λ k. not (same k sort.column)) keys)

-- A column that may be shown.
abbrev pub shows : Classification → Bool → Bool
shows blocked selectable = false
shows public selectable = selectable
shows internal selectable = selectable
shows pii selectable = selectable

abbrev pub shown_names : List ExplorerColumn → List Text
shown_names columns = map (λ c. c.name) (keep (λ c. shows c.classification c.selectable) columns)

module _ {V : Type 0} where
  abbrev pub reference_text : RowsQueryInput V → ExplorerRelation → List Text → Text
  reference_text input relation predicates =
      codes "SELECT "
      ++ (listed (codes ", ") (map quote_identifier (shown_names relation.columns))
          ++ (codes " FROM "
              ++ (quote_identifier input.schema
                  ++ (codes "."
                      ++ (quote_identifier input.relation
                          ++ (part (codes " WHERE ") (codes " AND ") predicates
                              ++ (part (codes " ORDER BY ") (codes ", ")
                                    (order_parts input.sort (key_columns relation.pagination_key))
                                  ++ (codes " LIMIT " ++ decimal (1 + input.page_size)))))))))

join-listed : (separator : Text) (ts : List Text) → join separator ts ≡ listed separator ts
unfolding join
join-listed separator [] = refl
join-listed separator (t ∷ []) = sym (append-nil t)
join-listed separator (t ∷ u ∷ ts) =
    ap (λ r. t ++ (separator ++ r)) (join-listed separator (u ∷ ts))
    ∙ ap (λ r. t ++ r) (sym (append_assoc separator u (flatten (map (λ v. separator ++ v) ts))))

clause-part :
    (keyword separator : Text) (ts : List Text)
    → clause keyword separator ts ≡ part keyword separator ts
clause-part keyword separator [] = refl
clause-part keyword separator (t ∷ ts) = ap (λ r. keyword ++ r) (join-listed separator (t ∷ ts))

order_item-ordered :
    (direction : Direction) (column : Text) → order_item column direction ≡ ordered direction column
order_item-ordered asc column = refl
order_item-ordered desc column = refl

key_items-none : (keys : List Text) → key_items none keys ≡ map (ordered asc) keys
unfolding key_items
key_items-none [] = refl
key_items-none (k ∷ keys) = ap (λ r. ordered asc k ∷ r) (key_items-none keys)

key_items-some :
    (sort : SortBy) (keys : List Text)
    → key_items (some sort) keys
      ≡ map (ordered sort.direction) (keep (λ k. not (same k sort.column)) keys)
unfolding key_items
key_items-some sort [] = refl
key_items-some sort (k ∷ keys) = elim (Bool-cases (same k sort.column)) [
  | inl named ↦ rw named (key_items-some sort keys)
  | inr other ↦
      rw (other, order_item-ordered sort.direction k)
        (ap (λ r. ordered sort.direction k ∷ r) (key_items-some sort keys))
]

order_parts-eq :
    (sort : Option SortBy) (keys : List Text)
    → sort_items sort ++ key_items sort keys ≡ order_parts sort keys
order_parts-eq none keys = key_items-none keys
order_parts-eq (some sort) keys =
    rw (order_item-ordered sort.direction sort.column)
      (ap (λ r. ordered sort.direction sort.column ∷ r) (key_items-some sort keys))

pagination_keys-eq : (keys : Option (List Text)) → pagination_keys keys ≡ key_columns keys
pagination_keys-eq none = refl
pagination_keys-eq (some keys) = refl

shows-eq :
    (classification : Classification) (selectable : Bool)
    → (selectable && not (is_blocked classification)) ≡ shows classification selectable
shows-eq public true = refl
shows-eq public false = refl
shows-eq internal true = refl
shows-eq internal false = refl
shows-eq pii true = refl
shows-eq pii false = refl
shows-eq blocked true = refl
shows-eq blocked false = refl

is_selectable-eq : (c : ExplorerColumn) → is_selectable c ≡ shows c.classification c.selectable
is_selectable-eq c = shows-eq c.classification c.selectable

keep-same :
    (columns : List ExplorerColumn)
    → keep is_selectable columns ≡ keep (λ c. shows c.classification c.selectable) columns
keep-same [] = refl
keep-same (c ∷ columns) = rw (is_selectable-eq c, keep-same columns)

pub selectable_cols-shown_names :
    (relation : ExplorerRelation)
    → map (λ c. c.name) (selectable_cols relation) ≡ shown_names relation.columns
selectable_cols-shown_names relation = ap (map (λ c. c.name)) (keep-same relation.columns)

map-map :
    (columns : List ExplorerColumn)
    → map (λ c. quote_identifier c.name) columns ≡ map quote_identifier (map (λ c. c.name) columns)
map-map [] = refl
map-map (c ∷ columns) = ap (λ r. quote_identifier c.name ∷ r) (map-map columns)

module _ {V : Type 0} (input : RowsQueryInput V) (relation : ExplorerRelation) where
  pub query_text-reference_text :
      (predicates : List Text)
      → query_text input relation predicates ≡ reference_text input relation predicates
  unfolding query_text
  query_text-reference_text predicates =
      let names =
        join-listed (codes ", ") _
        ∙ ap (listed (codes ", ")) (
            map-map (selectable_cols relation)
            ∙ ap (map quote_identifier) (selectable_cols-shown_names relation)) in
      let conditions = clause-part (codes " WHERE ") (codes " AND ") predicates in
      let orders =
        clause-part (codes " ORDER BY ") (codes ", ") _
        ∙ ap (part (codes " ORDER BY ") (codes ", ")) (
            order_parts-eq input.sort (pagination_keys relation.pagination_key)
            ∙ ap (order_parts input.sort) (pagination_keys-eq relation.pagination_key)) in
      let limit : input.page_size + 1 ≡ 1 + input.page_size = omega arith in
      rw (names, conditions, orders, limit)
