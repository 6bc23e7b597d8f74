-- ===== src/Security/Words.antt =====
-- The rules on names of columns (packages/security/src/database/columnPolicy.ts).
use nancy_man.Base.{
  Text, codes, Bool, true, List, [], ◌∷◌, ◌++◌, ◌≡◌, ◌&&◌, ◌||◌, same, any, arith, if◌then◌else◌,
}
use nancy_man.Security.Search.{
  starts_with, ends_with, includes_text, starts_with-delimited, includes_text-delimited,
}

abbrev pub blocked_tokens : List Text
blocked_tokens =
    codes "password"
    ∷ codes "passwd"
    ∷ codes "salt"
    ∷ codes "otp"
    ∷ codes "token"
    ∷ codes "secret"
    ∷ codes "credential"
    ∷ codes "private_key"
    ∷ codes "encryption_key"
    ∷ codes "ciphertext"
    ∷ codes "csrf"
    ∷ []

abbrev pub pii_tokens : List Text
pii_tokens =
    codes "email"
    ∷ codes "phone"
    ∷ codes "telephone"
    ∷ codes "mobile"
    ∷ codes "display_name"
    ∷ codes "full_name"
    ∷ codes "given_name"
    ∷ codes "first_name"
    ∷ codes "middle_name"
    ∷ codes "family_name"
    ∷ codes "last_name"
    ∷ codes "preferred_name"
    ∷ codes "legal_name"
    ∷ codes "date_of_birth"
    ∷ codes "birth_date"
    ∷ codes "dob"
    ∷ codes "address"
    ∷ codes "address1"
    ∷ codes "address2"
    ∷ codes "address_line1"
    ∷ codes "address_line2"
    ∷ codes "street"
    ∷ codes "house_number"
    ∷ codes "unit_number"
    ∷ codes "city"
    ∷ codes "state"
    ∷ codes "province"
    ∷ codes "district"
    ∷ codes "ward"
    ∷ codes "region"
    ∷ codes "postal"
    ∷ codes "zip"
    ∷ codes "country"
    ∷ codes "notes"
    ∷ codes "note"
    ∷ codes "comments"
    ∷ codes "content"
    ∷ codes "answer"
    ∷ codes "comment"
    ∷ codes "messages"
    ∷ codes "message"
    ∷ codes "free_form"
    ∷ codes "freeform"
    ∷ codes "description"
    ∷ codes "body"
    ∷ codes "raw_payload"
    ∷ []

-- The body of both loops over tokens.
unfoldable pub has_token : Text → Text → Bool
has_token col token =
    same col token
    || (starts_with (token ++ b'_' ∷ []) col
        || (ends_with (b'_' ∷ token) col || includes_text (b'_' ∷ (token ++ b'_' ∷ [])) col))

-- `col` and `rel` are in lower case.
unfoldable pub is_blocked_name : Text → Text → Bool
is_blocked_name col rel =
    if same rel (codes "student_auth_credentials") && includes_text (codes "password") col
    then true
    else any (has_token col) blocked_tokens

unfoldable pub is_pii_name : Text → Bool
is_pii_name col = any (has_token col) pii_tokens

-- The four tests together ask one thing: whether the token stands in the name as a word, that is,
-- between underscores once an underscore is put at each end of the name.
pub has_token_lem :
    (col token : Text)
    → has_token col token ≡ includes_text (b'_' ∷ (token ++ b'_' ∷ [])) (b'_' ∷ (col ++ b'_' ∷ []))
unfolding has_token includes_text starts_with
has_token_lem col token =
    ground (arith, starts_with-delimited b'_' token col, includes_text-delimited b'_' token col)
