-- ===== src/Api/Accounts/Sessions.antt =====
-- What `handleRefresh` does to the token that it was given.
use proxify_vpn.Api.Accounts.{handle_refresh}
use proxify_vpn.Api.Respond.{Response, going, is_going, not_going}
use proxify_vpn.Api.Site.{ApiServer, Site}
use proxify_vpn.Auth.{hash_refresh_token, new_refresh_token}
use proxify_vpn.Base.{
  Bool-cases, List, Option, String, arith, false, inl, inr, refl, some, suc, ℕ, ◌+◌, ◌=?◌, ◌≡◌, ◌≤◌,
}
use proxify_vpn.Errors.{Result-cases, err, not_found, ok, sentinel}
use proxify_vpn.Store.Users.{rotate_refresh_token}
use proxify_vpn.Store.Users.Rotation.{rotate_refresh_token-once}
use proxify_vpn.Store.Users.Tokens.{TokenCall, token_run}
use proxify_vpn.World.{fresh_id}

module _ (api : ApiServer) where
  -- The rotation behind an answer with tokens.
  refresh_rotation :
      (token : String) (s : Site) (r : Response) (s' : Site)
      → handle_refresh api (some token) s ≡ (going r, s')
      → (fresh : String × String) × (owner : String × Option String) × (rotate_refresh_token
            s.world.now
            (fresh_id (record s.world { ids = suc s.world.ids }))
            (hash_refresh_token api.crypto token)
            fresh.1
            (s.world.now + api.refresh_token_ttl)
            s.world.db.refresh_tokens
          ≡ (ok owner, s'.world.db.refresh_tokens))
  unfolding handle_refresh
  refresh_rotation token s r s' h = elim (Bool-cases (token =? "")) [
    | inl empty ↦ absurd (not_going _ h (rw empty refl))
    | inr given ↦ elim (Result-cases (new_refresh_token api.crypto s.world.ids)) [
      | inr (e, broken) ↦ absurd (not_going _ h (rw (given, broken) refl))
      | inl (fresh, drawn) ↦
          elim (Result-cases
            (rotate_refresh_token s.world.now (fresh_id (record s.world { ids = suc s.world.ids }))
              (hash_refresh_token api.crypto token) fresh.1 (s.world.now + api.refresh_token_ttl)
              s.world.db.refresh_tokens).0) [
                | inr (e, refused) ↦ absurd (not_going _ h (rw (given, drawn, refused) refl))
                | inl (owner, turned) ↦ (fresh, owner, ground arith)
              ]
    ]
  ]

  -- If no rotation of the token succeeds, the handler does not.
  refused_again :
      (token : String) (s : Site)
      → ((new_hash : String)
          → rotate_refresh_token s.world.now
              (fresh_id (record s.world { ids = suc s.world.ids }))
              (hash_refresh_token api.crypto token)
              new_hash
              (s.world.now + api.refresh_token_ttl)
              s.world.db.refresh_tokens
            ≡ (err (sentinel not_found), s.world.db.refresh_tokens))
      → (is_going (handle_refresh api (some token) s).0 ≡ false)
        × ((handle_refresh api (some token) s).1.world.db.refresh_tokens
            ≡ s.world.db.refresh_tokens)
  unfolding handle_refresh
  refused_again token s spent = elim (Bool-cases (token =? "")) [
    | inl empty ↦ rw empty (refl, refl)
    | inr given ↦ elim (Result-cases (new_refresh_token api.crypto s.world.ids)) [
      | inr (e, broken) ↦ rw (given, broken) (refl, refl)
      | inl (fresh, drawn) ↦ rw (given, drawn, spent fresh.1) (refl, refl)
    ]
  ]

  -- A refresh token serves once. After a refresh that succeeded, and whatever tokens were created,
  -- rotated or withdrawn since, the same token brings no tokens at any later time, and no row of the
  -- tokens' table changes.
  pub handle_refresh-once :
      (token : String) (s s₁ s₂ : Site) (r : Response) (cs : List (ℕ × TokenCall))
      → handle_refresh api (some token) s ≡ (going r, s₁)
      → s.world.now ≤ s₂.world.now
      → s₂.world.db.refresh_tokens ≡ token_run cs s₁.world.db.refresh_tokens
      → (is_going (handle_refresh api (some token) s₂).0 ≡ false)
        × ((handle_refresh api (some token) s₂).1.world.db.refresh_tokens
            ≡ s₂.world.db.refresh_tokens)
  handle_refresh-once token s s₁ s₂ r cs h le since =
      let (fresh, owner, turned) = refresh_rotation token s r s₁ h in
      refused_again token s₂ λ new_hash. rw since (
        rotate_refresh_token-once s.world.now s₂.world.now _ _ _ fresh.1 new_hash _ _ _ _ owner cs
          le turned)
