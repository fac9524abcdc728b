-- ===== src/Store/Users/Rotation.antt =====
-- `RotateRefreshToken` of server/internal/store/users.go: a token is used once, and replaced by one.
use proxify_vpn.Base.{
  Bool-cases, List, Option, Option-cases, String, [], arith, false, inl, inr, refl, some, subst,
  sym, true, ℕ, ◌+◌, ◌∙◌, ◌∷◌, ◌≡◌, ◌≤◌,
}
use proxify_vpn.Base.Rows.{affected, exists_row, find_row, update_where}
use proxify_vpn.Errors.{err, map_err, not_found, ok, sentinel}
use proxify_vpn.Store.Db.{TokenRow, is_null}
use proxify_vpn.Store.Users.{hashed, is_usable, revoke_token, rotate_refresh_token, token_row}
use proxify_vpn.Store.Users.Tokens.{
  All-used, IsSpent, TokenCall, issued-update, other_hash, spent-unusable, token_run,
  token_run-IsSpent,
}

found-issued :
    (now : ℕ) (hash : String) (rows : List TokenRow) (t : TokenRow)
    → find_row (is_usable now hash) rows ≡ some t
    → exists_row (hashed hash) rows ≡ true
found-issued now hash [] t h = cc
found-issued now hash (x ∷ rows) t h = ground (arith, found-issued now hash rows t)

-- What a rotation that succeeds does.
rotated :
    (now : ℕ) (fresh_id old_hash new_hash : String) (expires_at : ℕ) (rows rows' : List TokenRow)
    (owner : String × Option String)
    → rotate_refresh_token now fresh_id old_hash new_hash expires_at rows ≡ (ok owner, rows')
    → (t : TokenRow) × (find_row (is_usable now old_hash) rows ≡ some t)
      × (rows'
          ≡ token_row now fresh_id t.user_id t.device_id new_hash expires_at
            ∷ update_where (is_usable now old_hash) (revoke_token now) rows)
      × (exists_row
            (hashed new_hash)
            (update_where (is_usable now old_hash) (revoke_token now) rows)
          ≡ false)
      × (owner ≡ (t.user_id, t.device_id))
unfolding rotate_refresh_token
rotated now fresh_id old_hash new_hash expires_at rows rows' owner h =
    elim (Option-cases (find_row (is_usable now old_hash) rows)) [
      | inl missing ↦ absurd (ground arith)
      | inr (t, found) ↦
          elim (Bool-cases (
            exists_row (hashed new_hash)
              (update_where (is_usable now old_hash) (revoke_token now) rows))) [
                | inl taken ↦ absurd (ground arith)
                | inr fresh ↦ (t, found, ground arith, fresh, ground arith)
              ]
    ]

rotated-IsSpent :
    (now : ℕ) (fresh_id old_hash new_hash : String) (expires_at : ℕ) (rows rows' : List TokenRow)
    (owner : String × Option String)
    → rotate_refresh_token now fresh_id old_hash new_hash expires_at rows ≡ (ok owner, rows')
    → IsSpent now old_hash rows'
rotated-IsSpent now fresh_id old_hash new_hash expires_at rows rows' owner h =
    let (t, found, e, fresh, who) =
      rotated now fresh_id old_hash new_hash expires_at rows rows' owner h in
    let new = token_row now fresh_id t.user_id t.device_id new_hash expires_at in
    let used = update_where (is_usable now old_hash) (revoke_token now) rows in
    let issued : exists_row (hashed old_hash) used ≡ true =
      issued-update now old_hash (is_usable now old_hash) now rows
      ∙ found-issued now old_hash rows t found in
    subst (IsSpent now old_hash) (sym e) (
      ground (arith, issued),
      (inl (other_hash now old_hash new used issued fresh), All-used now old_hash rows),
    )

-- A refresh token is used once: after a rotation that presented it succeeds, and whatever tokens are
-- created, rotated or withdrawn since, presenting it again fails at any later time and changes no row.
pub rotate_refresh_token-once :
    (now later : ℕ) (fresh_id other_id old_hash new_hash next_hash : String)
    (expires_at next_expiry : ℕ) (rows rows' : List TokenRow) (owner : String × Option String)
    (cs : List (ℕ × TokenCall))
    → now ≤ later
    → rotate_refresh_token now fresh_id old_hash new_hash expires_at rows ≡ (ok owner, rows')
    → rotate_refresh_token later other_id old_hash next_hash next_expiry (token_run cs rows')
      ≡ (err (sentinel not_found), token_run cs rows')
unfolding rotate_refresh_token map_err
rotate_refresh_token-once now later fresh_id other_id old_hash new_hash next_hash expires_at
      next_expiry rows rows' owner cs le h =
    rw (spent-unusable now old_hash later (token_run cs rows') le spent.1) refl
  where
    spent : IsSpent now old_hash (token_run cs rows')
    spent =
        token_run-IsSpent now old_hash cs rows'
          (rotated-IsSpent now fresh_id old_hash new_hash expires_at rows rows' owner h)

-- The tokens that could still be used at some time.
abbrev pub unrevoked_tokens : List TokenRow → ℕ
unrevoked_tokens rows = affected (λ t. is_null t.revoked_at) rows

revoking-fewer :
    (now : ℕ) (hash : String) (rows : List TokenRow) (t : TokenRow)
    → find_row (is_usable now hash) rows ≡ some t
    → unrevoked_tokens (update_where (is_usable now hash) (revoke_token now) rows) + 1
      ≤ unrevoked_tokens rows
revoking-fewer now hash [] t h = absurd cc
revoking-fewer now hash (x ∷ rows) t h = elim (Bool-cases (is_usable now hash x)) [
  | inl hit ↦ ground (arith, no-more rows)
  | inr miss ↦ ground (arith, revoking-fewer now hash rows t)
]
  where
    no-more :
        (xs : List TokenRow)
        → unrevoked_tokens (update_where (is_usable now hash) (revoke_token now) xs)
          ≤ unrevoked_tokens xs
    no-more [] = omega arith
    no-more (y ∷ ys) = ground (arith, no-more ys)

-- A rotation that succeeds leaves no more unrevoked tokens than there were, and the one that it issues
-- belongs to the owner of the one that was presented.
pub rotate_refresh_token-replaces :
    (now : ℕ) (fresh_id old_hash new_hash : String) (expires_at : ℕ) (rows rows' : List TokenRow)
    (owner : String × Option String)
    → rotate_refresh_token now fresh_id old_hash new_hash expires_at rows ≡ (ok owner, rows')
    → (unrevoked_tokens rows' ≤ unrevoked_tokens rows)
      × (t : TokenRow) × (find_row (is_usable now old_hash) rows ≡ some t)
      × (owner ≡ (t.user_id, t.device_id))
      × (find_row (hashed new_hash) rows'
          ≡ some (token_row now fresh_id t.user_id t.device_id new_hash expires_at))
rotate_refresh_token-replaces now fresh_id old_hash new_hash expires_at rows rows' owner h =
    let (t, found, e, fresh, who) =
      rotated now fresh_id old_hash new_hash expires_at rows rows' owner h in
    let fewer = revoking-fewer now old_hash rows t found in
    rw e (omega (arith, fewer), t, found, who, ground arith)
