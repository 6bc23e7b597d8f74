-- ===== src/Security/Tables.antt =====
-- The exact overrides (packages/security/src/database/columnPolicy.ts).
use nancy_man.Base.{Text, codes, List, [], ◌∷◌, ◌++◌}

pub record ExactColumnTarget : Type 0 where
  pub target_id : Text
  pub schema : Text
  pub relation : Text
  pub column : Text

abbrev in_public : Text → Text → Text → ExactColumnTarget
in_public target relation column = record {
  target_id = target;
  schema = codes "public";
  relation = relation;
  column = column;
}

abbrev production : Text → Text → ExactColumnTarget
production = in_public (codes "edutrack_production")

abbrev ops : Text → Text → ExactColumnTarget
ops = in_public (codes "ops")

abbrev pub exact_blocked_overrides : List ExactColumnTarget
exact_blocked_overrides =
    production (codes "zalo_config") (codes "access_token")
    ∷ production (codes "zalo_config") (codes "refresh_token")
    ∷ production (codes "staff_password_credentials") (codes "password_hash")
    ∷ production (codes "auth_otp_challenges") (codes "otp_hash")
    ∷ production (codes "auth_sessions") (codes "token_hash")
    ∷ production (codes "parent_accounts") (codes "password_hash")
    ∷ production (codes "parent_accounts") (codes "password_salt")
    ∷ ops (codes "ops_mfa_factors") (codes "encrypted_secret")
    ∷ ops (codes "ops_sessions") (codes "csrf_secret_hash")
    ∷ ops (codes "sql_executions") (codes "original_sql_ciphertext")
    ∷ ops (codes "ops_users") (codes "password_hash")
    ∷ ops (codes "ops_users") (codes "password_salt")
    ∷ ops (codes "ops_enrollments") (codes "enrollment_secret")
    ∷ []

abbrev pub exact_pii_overrides : List ExactColumnTarget
exact_pii_overrides = []

abbrev pub exact_public_overrides : List ExactColumnTarget
exact_public_overrides = []

-- The name of a column, as the key is written before it is put in lower case.
abbrev pub full_name : ExactColumnTarget → Text
full_name t =
    t.target_id
    ++ (codes ":" ++ (t.schema ++ (codes "." ++ (t.relation ++ (codes "." ++ t.column)))))
