-- ===== src/Api/Accounts/SignIn.antt =====
-- Who gets tokens from `handleLogin`.
use proxify_vpn.Api.Accounts.{Credentials, handle_login, identifier_of, issue_tokens}
use proxify_vpn.Api.Identifier.{split_identifier}
use proxify_vpn.Api.RateLimit.{allow}
use proxify_vpn.Api.Respond.{Response, going, not_going, tokens, write_json}
use proxify_vpn.Api.Site.{ApiServer, Site}
use proxify_vpn.Auth.{check_password, issue, new_refresh_token}
use proxify_vpn.Base.{
  =?-eq, Bool-cases, Option, String, arith, inl, inr, none, refl, some, suc, true, ◌+◌, ◌=?◌, ◌∷◌,
  ◌≡◌,
}
use proxify_vpn.Base.Rows.{exists_row}
use proxify_vpn.Errors.{Result-cases, ok}
use proxify_vpn.Model.{User}
use proxify_vpn.Store.Db.{TokenRow}
use proxify_vpn.Store.Users.{create_refresh_token, hashed, token_row, user_by_identifier}
use proxify_vpn.World.{fresh_id}

module _ (api : ApiServer) where
  -- The request's identifier is that of an active account, and its password is the account's. The
  -- access token is issued to that account. The refresh token is the text of the next random draw; the
  -- one row that is new has the account and the SHA-256 of that very token, and is good for its time.
  pub record IsSignedIn (body : Option Credentials) (s : Site) (r : Response) (s' : Site)
      : Type 0 where
    pub req : Credentials
    pub parsed : body ≡ some req
    pub who : String × String
    pub identified : split_identifier req.identifier ≡ ok who
    pub user : User
    pub known : user_by_identifier (identifier_of who) s.world.db.users ≡ ok user
    pub password : check_password api.crypto user.password_hash req.password ≡ true
    pub in_good_standing : user.status ≡ "active"
    pub within_limit : (allow s.world.now (identifier_of who) s.login_limiter).0 ≡ true
    pub draw : String
    pub drawn : api.crypto.random s.world.ids ≡ ok draw
    pub answer :
        r
        ≡ write_json 200 (
            tokens (record {
              access_token = (issue api.crypto api.signer s.world.now user.id "").0;
              refresh_token = api.crypto.encode64 draw;
              expires_at = s.world.now + api.signer.ttl;
              user_id = user.id;
            }))
    pub stored :
        (t : TokenRow) × (s'.world.db.refresh_tokens ≡ t ∷ s.world.db.refresh_tokens)
        × (t.user_id ≡ user.id)
        × (t.token_hash ≡ api.crypto.sha256 (api.crypto.encode64 draw))
        × (t.expires_at ≡ s.world.now + api.refresh_token_ttl)
        × (t.revoked_at ≡ none)

  login_tokens :
      (user_id : String) (s : Site) (r : Response) (s' : Site)
      → issue_tokens api user_id none s ≡ (going r, s')
      → (draw : String) × (api.crypto.random s.world.ids ≡ ok draw)
        × (r
            ≡ write_json 200 (
                tokens (record {
                  access_token = (issue api.crypto api.signer s.world.now user_id "").0;
                  refresh_token = api.crypto.encode64 draw;
                  expires_at = s.world.now + api.signer.ttl;
                  user_id = user_id;
                })))
        × ((t : TokenRow) × (s'.world.db.refresh_tokens ≡ t ∷ s.world.db.refresh_tokens)
            × (t.user_id ≡ user_id)
            × (t.token_hash ≡ api.crypto.sha256 (api.crypto.encode64 draw))
            × (t.expires_at ≡ s.world.now + api.refresh_token_ttl)
            × (t.revoked_at ≡ none))
  unfolding issue_tokens issue create_refresh_token new_refresh_token
  login_tokens user_id s r s' h = elim (Result-cases (api.crypto.random s.world.ids)) [
    | inr (e, broken) ↦ absurd (ground arith)
    | inl (draw, drawn) ↦
        elim (Bool-cases (
          exists_row (hashed (api.crypto.sha256 (api.crypto.encode64 draw)))
            s.world.db.refresh_tokens)) [
              | inl taken ↦ absurd (ground arith)
              | inr fresh ↦ (
                draw,
                drawn,
                ground arith,
                (
                  token_row s.world.now (fresh_id (record s.world { ids = suc s.world.ids }))
                      user_id none (api.crypto.sha256 (api.crypto.encode64 draw))
                      (s.world.now + api.refresh_token_ttl),
                  ground arith,
                  refl,
                  refl,
                  refl,
                  refl,
                ),
              )
            ]
  ]

  -- `handleLogin` gives tokens only for an active account that the identifier names, with the
  -- account's password, and within the limit of attempts. The access token is issued to that account,
  -- and the refresh token that is handed out is the one whose hash is stored for it, unrevoked.
  pub handle_login-IsSignedIn :
      (body : Option Credentials) (s : Site) (r : Response) (s' : Site)
      → handle_login api body s ≡ (going r, s')
      → IsSignedIn body s r s'
  unfolding handle_login
  handle_login-IsSignedIn none s r s' h = absurd (cc)
  handle_login-IsSignedIn (some req) s r s' h =
      elim (Result-cases (split_identifier req.identifier)) [
        | inr (e, bad) ↦ absurd (not_going _ h (rw bad refl))
        | inl (who, named) ↦
            elim (Bool-cases ((allow s.world.now (identifier_of who) s.login_limiter).0)) [
              | inr limited ↦ absurd (not_going _ h (rw (named, limited) refl))
              | inl free ↦
                  elim (Result-cases (user_by_identifier (identifier_of who) s.world.db.users)) [
                    | inr (e, missing) ↦ absurd (not_going _ h (rw (named, free, missing) refl))
                    | inl (user, found) ↦
                        elim (Bool-cases
                          (check_password api.crypto user.password_hash req.password)) [
                            | inr wrong ↦
                                absurd (not_going _ h (rw (named, free, found, wrong) refl))
                            | inl right ↦ elim (Bool-cases (user.status =? "active")) [
                              | inr suspended ↦
                                  absurd
                                    (not_going _ h (rw (named, free, found, right, suspended) refl))
                              | inl good ↦
                                  let limited = record s {
                                    login_limiter =
                                        (allow s.world.now (identifier_of who) s.login_limiter).1;
                                  } in
                                  let (draw, drawn, answer, stored) =
                                    login_tokens user.id limited r s'
                                      (rw (named, free, found, right, good) at h) in
                                  record {
                                    req = req;
                                    parsed = refl;
                                    who = who;
                                    identified = named;
                                    user = user;
                                    known = found;
                                    password = right;
                                    in_good_standing = =?-eq user.status "active" good;
                                    within_limit = free;
                                    draw = draw;
                                    drawn = drawn;
                                    answer = answer;
                                    stored = stored;
                                  }
                            ]
                          ]
                  ]
            ]
      ]
