-- ===== src/Cursor/Value.antt =====
-- What `JSON.parse` may give, as far as the validators of cursors ask (validateContext,
-- validateSort, validateTimes and validateCursor of apps/sql-worker/src/explorer/cursorCodec.ts), and
-- isDatabaseTargetId of packages/contracts/src/databaseExplorer.ts.
use nancy_man.Base.{
  ℕ, ◌+◌, ◌-◌, Text, codes, Bool, true, false, List, [], ◌∷◌, Option, some, none, ltb, leb, ◌&&◌,
  ◌||◌, not, ◌==◌, same, member, is_empty, if◌then◌else◌,
}

mutual
  -- `whole n` is the number n, `negative n` the number -(n + 1); another number is no integer.
  pub data Value : Type 0 where
    missing null : Value
    boolean : Bool → Value
    whole negative : ℕ → Value
    other_number string : Text → Value
    array : Values → Value
    object : Fields → Value

  pub data Values : Type 0 where
    no_values : Values
    value_then : Value → Values → Values

  pub data Fields : Type 0 where
    no_fields : Fields
    field_then : Text → Value → Fields → Fields

-- `value && typeof value === 'object'`.
abbrev pub is_object : Value → Bool
is_object (array vs) = true
is_object (object fs) = true
is_object _ = false

unfoldable pub field : Text → Fields → Value
field name no_fields = missing
field name (field_then other value fs) =
    let rest = field name fs in if same other name then value else rest

unfoldable pub has_field : Text → Fields → Bool
has_field name no_fields = false
has_field name (field_then other value fs) = same other name || has_field name fs

abbrev pub fields_of : Value → Fields
fields_of (object fs) = fs
fields_of _ = no_fields

-- `value.name`; an array has none of the names that the code asks for.
abbrev pub get : Text → Value → Value
get name value = field name (fields_of value)

abbrev pub is_text : Text → Value → Bool
is_text s (string t) = same t s
is_text s _ = false

-- The text of a value that is known to be one.
abbrev pub text_of : Value → Text
text_of (string s) = s
text_of _ = []

abbrev pub is_filled : Value → Bool
is_filled (string s) = not (is_empty s)
is_filled _ = false

unfoldable pub is_database_target_id : Value → Bool
is_database_target_id value =
    is_text (codes "edutrack_production") value || is_text (codes "ops") value

unfoldable pub validate_context : Value → Bool
unfolding is_database_target_id
validate_context value =
    is_object value
    && is_database_target_id (get (codes "targetId") value)
    && is_filled (get (codes "schema") value)
    && is_filled (get (codes "relation") value)
    && is_filled (get (codes "checksum") value)

unfoldable pub validate_sort : Value → Bool
validate_sort null = true
validate_sort value =
    is_object value
    && is_filled (get (codes "column") value)
    && (is_text (codes "asc") (get (codes "direction") value)
        || is_text (codes "desc") (get (codes "direction") value))

abbrev pub max_safe_integer : ℕ
max_safe_integer = 9007199254740991

abbrev pub cursor_expiry_ms : ℕ
cursor_expiry_ms = 300000

-- The place of a safe integer above the least one, which compares and subtracts as the integers do.
abbrev pub above_least : ℕ → ℕ
above_least n = n + max_safe_integer

abbrev pub safe_integer : Value → Option ℕ
safe_integer (whole n) = if leb n max_safe_integer then some (above_least n) else none
safe_integer (negative n) =
    if ltb n max_safe_integer then some (max_safe_integer - (n + 1)) else none
safe_integer _ = none

abbrev pub times_fit : Option ℕ → Option ℕ → Bool
times_fit (some issued) (some expires) =
    ltb issued expires && leb (expires - issued) cursor_expiry_ms
times_fit _ _ = false

abbrev pub issued_at : Value → Option ℕ
issued_at value = safe_integer (get (codes "issuedAt") value)

abbrev pub expires_at : Value → Option ℕ
expires_at value = safe_integer (get (codes "expiresAt") value)

unfoldable pub validate_times : Value → Bool
validate_times value = times_fit (issued_at value) (expires_at value)

-- `Number.isSafeInteger(cursor.offset) && cursor.offset >= 0`.
abbrev pub is_offset : Value → Bool
is_offset (whole n) = leb n max_safe_integer
is_offset _ = false

-- The callback of `every`, and the set `columns` that it fills.
unfoldable pub every_key : List Text → Values → Bool
every_key columns no_values = true
every_key columns (value_then entry entries) =
    let column = get (codes "column") entry in
    let rest = every_key (text_of column ∷ columns) entries in
    is_object entry
    && is_filled column
    && has_field (codes "value") (fields_of entry)
    && not (member (text_of column) columns)
    && rest

abbrev pub has_keys : Value → Bool
has_keys (array (value_then entry entries)) = every_key [] (value_then entry entries)
has_keys _ = false

abbrev pub is_one : Value → Bool
is_one (whole n) = n == 1
is_one _ = false

abbrev pub has_kind : Text → Value → Bool
has_kind kind cursor = is_text kind (get (codes "kind") cursor)

unfoldable pub validate_cursor : Value → Bool
unfolding validate_context validate_times validate_sort every_key
validate_cursor cursor =
    validate_context cursor
    && is_one (get (codes "version") cursor)
    && validate_times cursor
    && validate_sort (get (codes "sort") cursor)
    && is_text (codes "last") (get (codes "nullOrder") cursor)
    && (if has_kind (codes "offset") cursor
        then is_offset (get (codes "offset") cursor)
        else has_kind (codes "keyset") cursor && has_keys (get (codes "keys") cursor))
