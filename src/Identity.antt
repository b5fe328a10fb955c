-- ===== src/Identity.antt =====
-- src/services/identity.ts: tenants, users and their API keys. The hash of src/auth/jwt.ts, a call of
-- the runtime's SHA-256, is a parameter; random digits and the clock's readings are arguments.
pub mod Keys
pub mod Tokens
pub mod Encoding
pub mod Issued
mod Tests
use opencode_master.Base.{
  ℕ, String, Option, none, some, Bool, false, not, List, [], ◌∷◌, ◌++◌, ◌==◌, ◌&&◌, find?, has_key,
  template,
}
use opencode_master.Types.{internal, Result, returns, throws}
use opencode_master.Database.{Database, TenantRow, UserRow, ApiKeyRow}

abbrev pub tenant_id : TenantRow → String
tenant_id row = row.id

abbrev pub user_id : UserRow → String
user_id row = row.id

abbrev pub key_id : ApiKeyRow → String
key_id row = row.id

-- `onConflictDoNothing`.
abbrev pub with_tenant : List TenantRow → TenantRow → List TenantRow
with_tenant rows row = elim (find? (has_key tenant_id row.id) rows) [
  | some _ ↦ rows
  | none ↦ rows ++ row ∷ []
]

abbrev pub with_user : List UserRow → UserRow → List UserRow
with_user rows row = elim (find? (has_key user_id row.id) rows) [
  | some _ ↦ rows
  | none ↦ rows ++ row ∷ []
]

unfoldable pub ensure_user : Database → String → String → Option String → ℕ → ℕ → Database
ensure_user db tenant user email now later = record db {
  tenants = with_tenant db.tenants (record { id = tenant; name = tenant; created_at = now });
  users =
      with_user db.users
        (record { id = user; tenant_id = tenant; email = email; created_at = later });
}

-- The user of an API key, with its tenant.
pub record KeyOwner : Type 0 where
  pub user : String
  pub tenant : String

-- `omk_` and an id without a prefix.
abbrev pub raw_key : String → String
raw_key digits = template ("omk_" ∷ "_" ∷ digits ∷ [])

module _ (sha256_hex : String → String) where
  abbrev pub new_key : String → String → Option String → String → ℕ → ApiKeyRow
  new_key id user label raw now = record {
    id = id;
    user_id = user;
    key_hash = sha256_hex raw;
    label = label;
    revoked = false;
    created_at = now;
  }

  -- An insert whose primary key is taken throws.
  unfoldable pub create_api_key :
      Database → String → Option String → String → String → ℕ → Database × Result String
  create_api_key db user label digits id now = elim (find? (has_key key_id id) db.api_keys) [
    | some _ ↦ (db, throws (internal "UNIQUE constraint failed: api_keys.id"))
    | none ↦ (
      record db { api_keys = db.api_keys ++ new_key id user label (raw_key digits) now ∷ [] },
      returns (raw_key digits),
    )
  ]

  abbrev pub is_live_key : String → ApiKeyRow → Bool
  is_live_key raw row = row.key_hash == sha256_hex raw && not row.revoked

  unfoldable pub user_for_api_key : Database → String → Option KeyOwner
  user_for_api_key db raw = elim (find? (is_live_key raw) db.api_keys) [
    | none ↦ none
    | some row ↦ elim (find? (has_key user_id row.user_id) db.users) [
      | none ↦ none
      | some user ↦ some (record { user = user.id; tenant = user.tenant_id })
    ]
  ]
