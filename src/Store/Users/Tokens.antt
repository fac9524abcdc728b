-- ===== src/Store/Users/Tokens.antt =====
-- The refresh tokens of server/internal/store/users.go under any sequence of calls: what is spent stays
-- spent.
use proxify_vpn.Base.{
  =?-eq, All, Bool, Bool-cases, List, Option, String, [], arith, false, inl, inr, none, refl, some,
  subst, sym, true, ℕ, ◌=?◌, ◌∙◌, ◌∷◌, ◌≡◌, ◌≤◌, ◌⊎◌,
}
use proxify_vpn.Base.Rows.{All-update_where, exists_row, find_row, update_where}
use proxify_vpn.Errors.{Result, err, ok}
use proxify_vpn.Store.Db.{TokenRow, commit, is_null}
use proxify_vpn.Store.Users.{
  create_refresh_token, hashed, insert_token, is_usable, revoke_refresh_token, revoke_token,
  rotate_found, rotate_refresh_token,
}

pub data TokenCall : Type 0 where
  creates : (fresh_id user_id hash : String) → Option String → ℕ → TokenCall
  rotates : (fresh_id old_hash new_hash : String) → ℕ → TokenCall
  withdraws : String → TokenCall

unfoldable pub token_step : ℕ × TokenCall → List TokenRow → List TokenRow
token_step (now, creates fresh_id user_id hash device_id expires_at) rows =
    (create_refresh_token now fresh_id user_id device_id hash expires_at rows).1
token_step (now, rotates fresh_id old_hash new_hash expires_at) rows =
    (rotate_refresh_token now fresh_id old_hash new_hash expires_at rows).1
token_step (now, withdraws hash) rows = revoke_refresh_token now hash rows

unfoldable pub token_run : List (ℕ × TokenCall) → List TokenRow → List TokenRow
token_run [] rows = rows
token_run (c ∷ cs) rows = token_run cs (token_step c rows)

-- The token was issued, and from `now` on it is not usable: it is revoked or it has expired.
abbrev pub IsSpent : ℕ → String → List TokenRow → Type 0
IsSpent now hash rows =
    (exists_row (hashed hash) rows ≡ true)
    × All (λ t. (hashed hash t ≡ false) ⊎ ((is_null t.revoked_at ≡ false) ⊎ (t.expires_at ≤ now)))
        rows

module _ (now : ℕ) (hash : String) where
  pub issued-update :
      (p : TokenRow → Bool) (at : ℕ) (rows : List TokenRow)
      → exists_row (hashed hash) (update_where p (revoke_token at) rows)
        ≡ exists_row (hashed hash) rows
  issued-update p at [] = refl
  issued-update p at (t ∷ rows) = ground (arith, issued-update p at rows)

  IsSpent-update :
      (p : TokenRow → Bool) (at : ℕ) (rows : List TokenRow)
      → IsSpent now hash rows
      → IsSpent now hash (update_where p (revoke_token at) rows)
  IsSpent-update p at rows h = (
    issued-update p at rows ∙ h.0,
    All-update_where _ p (revoke_token at) rows (λ t hit keep. ground arith) h.1,
  )

  pub other_hash :
      (t : TokenRow) (rows : List TokenRow)
      → exists_row (hashed hash) rows ≡ true
      → exists_row (hashed t.token_hash) rows ≡ false
      → hashed hash t ≡ false
  other_hash t rows issued fresh = elim (Bool-cases (t.token_hash =? hash)) [
    | inl same ↦
        let again : exists_row (hashed t.token_hash) rows ≡ true =
          subst (λ k. exists_row (hashed k) rows ≡ true) (sym (=?-eq t.token_hash hash same))
            issued in
        absurd cc
    | inr other ↦ other
  ]

  IsSpent-insert :
      {A : Type 0} (a : A) (t : TokenRow) (rows : List TokenRow)
      → IsSpent now hash rows
      → IsSpent now hash (insert_token a t rows).1
  IsSpent-insert a t rows h = elim (Bool-cases (exists_row (hashed t.token_hash) rows)) [
    | inl clash_found ↦ rw clash_found h
    | inr fresh ↦ rw fresh (ground (arith, h.0), (inl (other_hash t rows h.0 fresh), h.1))
  ]

  IsSpent-commit :
      {A : Type 0} (rows : List TokenRow) (x : Result A × List TokenRow)
      → IsSpent now hash rows
      → IsSpent now hash x.1
      → IsSpent now hash (commit rows x).1
  IsSpent-commit rows (ok a, rows') h h' = h'
  IsSpent-commit rows (err e, rows') h h' = h

  IsSpent-found :
      (at : ℕ) (fresh_id old_hash new_hash : String) (expires_at : ℕ) (o : Option TokenRow)
      (rows : List TokenRow)
      → IsSpent now hash rows
      → IsSpent now hash (rotate_found at fresh_id old_hash new_hash expires_at o rows).1
  IsSpent-found at fresh_id old_hash new_hash expires_at none rows h = h
  IsSpent-found at fresh_id old_hash new_hash expires_at (some t) rows h =
      IsSpent-insert _ _ _ (IsSpent-update (is_usable at old_hash) at rows h)

  token_step-IsSpent :
      (c : ℕ × TokenCall) (rows : List TokenRow)
      → IsSpent now hash rows
      → IsSpent now hash (token_step c rows)
  unfolding token_step create_refresh_token rotate_refresh_token revoke_refresh_token
  token_step-IsSpent (at, creates fresh_id user_id new_hash device_id expires_at) rows h =
      IsSpent-commit rows _ h (IsSpent-insert _ _ rows h)
  token_step-IsSpent (at, rotates fresh_id old_hash new_hash expires_at) rows h =
      let o = find_row (is_usable at old_hash) rows in
      IsSpent-commit rows (rotate_found at fresh_id old_hash new_hash expires_at o rows) h
        (IsSpent-found at fresh_id old_hash new_hash expires_at o rows h)
  token_step-IsSpent (at, withdraws withdrawn) rows h = IsSpent-update _ at rows h

  pub token_run-IsSpent :
      (cs : List (ℕ × TokenCall)) (rows : List TokenRow)
      → IsSpent now hash rows
      → IsSpent now hash (token_run cs rows)
  unfolding token_run
  token_run-IsSpent [] rows h = h
  token_run-IsSpent (c ∷ cs) rows h =
      token_run-IsSpent cs (token_step c rows) (token_step-IsSpent c rows h)

  pub spent-unusable :
      (later : ℕ) (rows : List TokenRow)
      → now ≤ later
      → All
          (λ t. (hashed hash t ≡ false) ⊎ ((is_null t.revoked_at ≡ false) ⊎ (t.expires_at ≤ now)))
          rows
      → find_row (is_usable later hash) rows ≡ none
  spent-unusable later [] le h = refl
  spent-unusable later (t ∷ rows) le h = ground (arith, h.0, spent-unusable later rows le h.1)

  pub All-used :
      (rows : List TokenRow)
      → All
          (λ t. (hashed hash t ≡ false) ⊎ ((is_null t.revoked_at ≡ false) ⊎ (t.expires_at ≤ now)))
          (update_where (is_usable now hash) (revoke_token now) rows)
  All-used [] = tt
  All-used (t ∷ rows) = (ground arith, All-used rows)
