-- ===== src/Identity/Keys.antt =====
-- src/services/identity.ts: an API key opens its own user's account.
use opencode_master.Base.{
  ℕ, String, Option, none, some, Bool, List, [], ◌∷◌, ◌++◌, ◌≡◌, arith, find?, has_key,
  first_of_both, if◌then◌else◌,
}
use opencode_master.Types.{returns}
use opencode_master.Database.{Database, UserRow, ApiKeyRow}
use opencode_master.Identity.{
  user_id, key_id, raw_key, new_key, create_api_key, is_live_key, user_for_api_key,
}

find?-append_key :
    (p : ApiKeyRow → Bool) (xs : List ApiKeyRow) (y : ApiKeyRow)
    → find? p (xs ++ y ∷ []) ≡ first_of_both (find? p xs) (if p y then some y else none)
find?-append_key p [] y = ground arith
find?-append_key p (x ∷ xs) y = ground (arith, find?-append_key p xs y)

find?-user :
    (k : String) (xs : List UserRow) (row : UserRow)
    → find? (has_key user_id k) xs ≡ some row
    → row.id ≡ k
find?-user k [] row e = cc
find?-user k (x ∷ xs) row e = ground (arith, find?-user k xs row)

-- A created API key is answered with its user and the user's tenant, where the user is known, the
-- key's id is new and no live key had its hash before; and creating it changes nothing for any text
-- with another hash.
create_api_key-user_for_api_key :
    (sha256_hex : String → String) (db : Database) (owner : UserRow) (label : Option String)
    (digits id other : String) (now : ℕ)
    → find? (has_key user_id owner.id) db.users ≡ some owner
    → find? (has_key key_id id) db.api_keys ≡ none
    → find? (is_live_key sha256_hex (raw_key digits)) db.api_keys ≡ none
    → (sha256_hex other ≡ sha256_hex (raw_key digits) → ⊥)
    → let (after, raw) = create_api_key sha256_hex db owner.id label digits id now in
      (raw ≡ returns (raw_key digits))
      × (user_for_api_key sha256_hex after (raw_key digits)
          ≡ some (record { user = owner.id; tenant = owner.tenant_id }))
      × (user_for_api_key sha256_hex after other ≡ user_for_api_key sha256_hex db other)
unfolding create_api_key user_for_api_key
create_api_key-user_for_api_key sha256_hex db owner label digits id other now known free new
      different =
    let row = new_key sha256_hex id owner.id label (raw_key digits) now in
    (
      ground arith,
      ground (arith, find?-append_key (is_live_key sha256_hex (raw_key digits)) db.api_keys row),
      ground (arith, find?-append_key (is_live_key sha256_hex other) db.api_keys row),
    )
