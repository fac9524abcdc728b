-- ===== src/Store/Users.antt =====
-- server/internal/store/users.go: accounts and refresh tokens.
pub mod Tokens
pub mod Rotation
pub mod Accounts
use proxify_vpn.Base.{
  Bool, List, Option, String, false, if◌then◌else◌, ltb, none, not, some, ℕ, ◌&&◌, ◌=?◌, ◌||◌, ◌∷◌,
}
use proxify_vpn.Base.Rows.{exists_row, find_row, update_where}
use proxify_vpn.Base.Text.{equal_fold}
use proxify_vpn.Errors.{Result, err, map_err, no_rows, ok, sentinel, text, unique_violation}
use proxify_vpn.Model.{User}
use proxify_vpn.Store.Db.{TokenRow, UserRow, coalesce, in_tx, is_null, null_if_empty}

-- `a = b` on a column that may be NULL, and on texts.
abbrev pub is_equal : (String → String → Bool) → Option String → Option String → Bool
is_equal same (some a) (some b) = same a b
is_equal same none b = false
is_equal same (some a) none = false

abbrev pub text_eq : String → String → Bool
text_eq a b = a =? b

-- The UNIQUE constraints on `email` and `phone`, and the primary key.
abbrev pub same_account : UserRow → UserRow → Bool
same_account u v =
    u.id =? v.id || (is_equal equal_fold u.email v.email || is_equal text_eq u.phone v.phone)

abbrev pub read_user : UserRow → User
read_user u = record {
  id = u.id;
  email = coalesce u.email "";
  phone = coalesce u.phone "";
  password_hash = u.password_hash;
  status = u.status;
  created_at = u.created_at;
}

-- The `INSERT`, under those constraints and `users_identifier_present`.
abbrev pub insert_user : UserRow → List UserRow → Result User × List UserRow
insert_user u rows =
    if is_null u.email && is_null u.phone
    then (err (text "users_identifier_present"), rows)
    else (if exists_row (same_account u) rows
        then (err (map_err (sentinel unique_violation)), rows)
        else (ok (read_user u), u ∷ rows))

-- `CreateUser`
unfoldable pub create_user :
    ℕ → String → String → String → String → List UserRow → Result User × List UserRow
create_user now fresh_id email phone password_hash = insert_user (record {
  id = fresh_id;
  email = null_if_empty email;
  phone = null_if_empty phone;
  password_hash = password_hash;
  status = "active";
  created_at = now;
})

abbrev pub is_called : String → UserRow → Bool
is_called identifier u =
    not (u.status =? "deleted")
    && (is_equal equal_fold u.email (some identifier) || is_equal text_eq u.phone (some identifier))

abbrev pub found_user : Option UserRow → Result User
found_user none = err (map_err (sentinel no_rows))
found_user (some u) = ok (read_user u)

-- `UserByIdentifier`
unfoldable pub user_by_identifier : String → List UserRow → Result User
user_by_identifier identifier rows = found_user (find_row (is_called identifier) rows)

-- `UserByID`
unfoldable pub user_by_id : String → List UserRow → Result User
user_by_id id rows = found_user (find_row (λ u. u.id =? id && not (u.status =? "deleted")) rows)

abbrev pub hashed : String → TokenRow → Bool
hashed hash t = t.token_hash =? hash

abbrev pub token_row : ℕ → String → String → Option String → String → ℕ → TokenRow
token_row now fresh_id user_id device_id hash expires_at = record {
  id = fresh_id;
  user_id = user_id;
  device_id = device_id;
  token_hash = hash;
  expires_at = expires_at;
  revoked_at = none;
  created_at = now;
}

-- The `INSERT`, under `token_hash … UNIQUE`.
abbrev pub insert_token {ℓ} : {A : Type ℓ} → A → TokenRow → List TokenRow → Result A × List TokenRow
insert_token a t rows =
    if exists_row (hashed t.token_hash) rows
    then (err (sentinel unique_violation), rows)
    else (ok a, t ∷ rows)

-- `CreateRefreshToken`
unfoldable pub create_refresh_token :
    ℕ → String → String → Option String → String → ℕ → List TokenRow → Result String × List TokenRow
create_refresh_token now fresh_id user_id device_id hash expires_at =
    in_tx (insert_token fresh_id (token_row now fresh_id user_id device_id hash expires_at))

-- `token_hash = $1 AND revoked_at IS NULL AND expires_at > now()`
abbrev pub is_usable : ℕ → String → TokenRow → Bool
is_usable now hash t = hashed hash t && (is_null t.revoked_at && ltb now t.expires_at)

abbrev pub revoke_token : ℕ → TokenRow → TokenRow
revoke_token now t = record t { revoked_at = some now }

abbrev pub rotate_found :
    ℕ
    → String
    → String
    → String
    → ℕ
    → Option TokenRow
    → List TokenRow
    → Result (String × Option String) × List TokenRow
rotate_found now fresh_id old_hash new_hash expires_at none rows = (err (sentinel no_rows), rows)
rotate_found now fresh_id old_hash new_hash expires_at (some t) rows =
    insert_token (t.user_id, t.device_id)
      (token_row now fresh_id t.user_id t.device_id new_hash expires_at)
      (update_where (is_usable now old_hash) (revoke_token now) rows)

-- `RotateRefreshToken`: the presented token is revoked and a new one issued, or neither.
unfoldable pub rotate_refresh_token :
    ℕ
    → String
    → String
    → String
    → ℕ
    → List TokenRow
    → Result (String × Option String) × List TokenRow
rotate_refresh_token now fresh_id old_hash new_hash expires_at rows =
    in_tx
      (rotate_found now fresh_id old_hash new_hash expires_at
        (find_row (is_usable now old_hash) rows))
      rows

-- `RevokeRefreshToken`
unfoldable pub revoke_refresh_token : ℕ → String → List TokenRow → List TokenRow
revoke_refresh_token now hash =
    update_where (λ t. hashed hash t && is_null t.revoked_at) (revoke_token now)
