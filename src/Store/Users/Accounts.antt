-- ===== src/Store/Users/Accounts.antt =====
-- `CreateUser` of server/internal/store/users.go: the account is found again, and it is the only one.
use proxify_vpn.Base.{
  Bool, Bool-cases, List, Option, String, String_discrete, ap, arith, false, inl, inr, none, refl,
  some, sym, true, ℕ, ◌&&◌, ◌||◌, ◌∷◌, ◌≡◌,
}
use proxify_vpn.Base.Rows.{exists_row}
use proxify_vpn.Base.Text.{equal_fold}
use proxify_vpn.Errors.{conflict, err, map_err, ok, sentinel}
use proxify_vpn.Model.{User}
use proxify_vpn.Store.Db.{UserRow, is_null, null_if_empty}
use proxify_vpn.Store.Users.{
  create_user, is_called, is_equal, read_user, same_account, text_eq, user_by_identifier,
}

created :
    (now : ℕ) (fresh_id email phone hash : String) (rows rows' : List UserRow) (u : User)
    → create_user now fresh_id email phone hash rows ≡ (ok u, rows')
    → (r : UserRow) × (rows' ≡ r ∷ rows)
      × (u ≡ read_user r)
      × (r.email ≡ null_if_empty email)
      × (r.phone ≡ null_if_empty phone)
      × (r.status ≡ "active")
unfolding create_user
created now fresh_id email phone hash rows rows' u h =
    elim (Bool-cases (is_null (null_if_empty email) && is_null (null_if_empty phone))) [
      | inl nameless ↦ absurd (ground arith)
      | inr named ↦ elim (Bool-cases (exists_row (same_account row) rows)) [
        | inl taken ↦ absurd (ground arith)
        | inr free ↦ (row, ground arith, ground arith, refl, refl, refl)
      ]
    ]
  where
    row : UserRow
    row = record {
      id = fresh_id;
      email = null_if_empty email;
      phone = null_if_empty phone;
      password_hash = hash;
      status = "active";
      created_at = now;
    }

active_called :
    (r : UserRow) (identifier : String)
    → r.status ≡ "active"
    → (is_equal equal_fold r.email (some identifier) || is_equal text_eq r.phone (some identifier))
      ≡ true
    → is_called identifier r ≡ true
unfolding String_discrete
active_called r identifier alive called = rw alive called

equal-named :
    (same same' : String → String → Bool) (a b c d : Option String)
    → (is_equal same a b || is_equal same' c d) ≡ true
    → (is_null a && is_null c) ≡ false
equal-named same same' (some a) b c d h = refl
equal-named same same' none b (some c) d h = refl
equal-named same same' none b none d h = absurd cc

-- A new account is the one that its identifier finds: its e-mail address in any case, or its phone
-- number.
pub create_user-found :
    (now : ℕ) (fresh_id email phone hash identifier : String) (rows rows' : List UserRow) (u : User)
    → create_user now fresh_id email phone hash rows ≡ (ok u, rows')
    → (is_equal equal_fold (null_if_empty email) (some identifier)
        || is_equal text_eq (null_if_empty phone) (some identifier))
      ≡ true
    → user_by_identifier identifier rows' ≡ ok u
unfolding user_by_identifier
create_user-found now fresh_id email phone hash identifier rows rows' u h called =
    let (r, e, who, mail, tel, alive) = created now fresh_id email phone hash rows rows' u h in
    let hit : is_called identifier r ≡ true =
      active_called r identifier alive (rw (mail, tel) called) in
    rw (e, hit, user_by_identifier) (ap ok (sym who))

-- No second account with that e-mail address, in any case, or with that phone number can be created:
-- the attempt is a conflict and changes no row.
pub create_user-conflict :
    (now later : ℕ) (fresh_id other_id email email' phone phone' hash hash' : String)
    (rows rows' : List UserRow) (u : User)
    → create_user now fresh_id email phone hash rows ≡ (ok u, rows')
    → (is_equal equal_fold (null_if_empty email') (null_if_empty email)
        || is_equal text_eq (null_if_empty phone') (null_if_empty phone))
      ≡ true
    → create_user later other_id email' phone' hash' rows' ≡ (err (sentinel conflict), rows')
unfolding create_user map_err
create_user-conflict now later fresh_id other_id email email' phone phone' hash hash' rows rows' u h
      same =
    let (r, e, who, mail, tel, alive) = created now fresh_id email phone hash rows rows' u h in
    let taken : (is_equal equal_fold (null_if_empty email') r.email
          || is_equal text_eq (null_if_empty phone') r.phone)
        ≡ true =
      rw (mail, tel) same in
    let named =
      equal-named equal_fold text_eq (null_if_empty email') (null_if_empty email)
        (null_if_empty phone') (null_if_empty phone) same in
    rw e (ground arith)
