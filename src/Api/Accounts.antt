-- ===== src/Api/Accounts.antt =====
-- server/internal/api/auth_handlers.go: signing up, signing in and the sessions.
pub mod Sessions
pub mod SignIn
use proxify_vpn.Api.Devices.{device_view}
use proxify_vpn.Api.Identifier.{split_identifier}
use proxify_vpn.Api.RateLimit.{allow}
use proxify_vpn.Api.Respond.{
  Response, Step, account, call, call_or, decode_json, go_on, going, logged_only, no_body,
  refuse_if, result_or, tokens, write_domain_error, write_error, write_json, ◌>>=◌, ◌>>◌,
}
use proxify_vpn.Api.Site.{
  ApiServer, Site, drawing, executed, grant_block, in_world, list_devices, message_of,
  read_entitlement, with_tokens, with_users,
}
use proxify_vpn.Auth.{check_password, hash_password, hash_refresh_token, issue, new_refresh_token}
use proxify_vpn.Base.{Bool, Option, String, if◌then◌else◌, map, none, not, ℕ, ◌+◌, ◌=?◌}
use proxify_vpn.Base.Effects.{Call}
use proxify_vpn.Base.Text.{◌<>◌}
use proxify_vpn.Errors.{Error, conflict, error_is, not_found, ok}
use proxify_vpn.Store.Db.{coalesce}
use proxify_vpn.Store.Payments.{or_default}
use proxify_vpn.Store.Users.{
  create_refresh_token, create_user, revoke_refresh_token, rotate_refresh_token, user_by_id,
  user_by_identifier,
}
use proxify_vpn.World.{World, fresh_id, reading}

pub record Credentials : Type 0 where
  pub identifier : String
  pub password : String

abbrev pub bad_identifier_given : Error → Response
bad_identifier_given e = write_error 400 "invalid_identifier" (message_of e)

abbrev pub rate_limited : Response
rate_limited = write_error 429 "rate_limited" "too many attempts, try again later"

abbrev pub bad_credentials : Response
bad_credentials = write_error 401 "invalid_credentials" "wrong identifier or password"

-- `s.loginLimiter.Allow(key)` and `s.signupLimiter.Allow(key)`, at the world's time.
abbrev pub allow_login : String → Step Site Bool
allow_login key s =
    let (free, limiter) = allow s.world.now key s.login_limiter in
    (going free, record s { login_limiter = limiter })

abbrev pub allow_signup : String → Step Site Bool
allow_signup key s =
    let (free, limiter) = allow s.world.now key s.signup_limiter in
    (going free, record s { signup_limiter = limiter })

abbrev pub missing_or : Response → Error → Response
missing_or r e = if error_is e not_found then r else write_domain_error e

-- The identifier that is looked up: the e-mail address, or the phone number where there is none.
abbrev pub identifier_of : String × String → String
identifier_of (email, phone) = or_default email phone

module _ (api : ApiServer) where
  abbrev pub store_token : String → Option String → String → Call World String
  store_token user_id device_id hash = with_tokens (λ w.
      create_refresh_token w.now (fresh_id w) user_id device_id hash (w.now + api.refresh_token_ttl)
        w.db.refresh_tokens)

  abbrev pub access_token : String → String → Call World (String × ℕ)
  access_token user_id device_id =
      reading (λ w. ok (issue api.crypto api.signer w.now user_id device_id))

  -- `issueTokens`
  unfoldable pub issue_tokens : String → Option String → Step Site Response
  unfolding issue new_refresh_token
  issue_tokens user_id device_id = do
    access ← call (in_world (access_token user_id (coalesce device_id "")))
    refresh ← call (in_world (drawing (new_refresh_token api.crypto)))
    _ ← call (in_world (store_token user_id device_id refresh.1))
    go_on (
        write_json 200 (
          tokens (record {
            access_token = access.0;
            refresh_token = refresh.0;
            expires_at = access.1;
            user_id = user_id;
          })))

  abbrev pub weak_password : Error → Response
  weak_password e = write_error 400 "weak_password" (message_of e)

  abbrev pub taken_or : Error → Response
  taken_or e =
      if error_is e conflict
      then write_error 409 "account_exists" "an account with that identifier already exists"
      else write_domain_error e

  -- The free plan of a new account; a failure is only logged.
  abbrev pub grant_free : String → Step Site (Unit {0})
  grant_free user_id =
      if api.free_plan_enabled
      then logged_only (in_world (grant_block user_id "free" "free"))
      else go_on tt

  -- `handleSignup`
  unfoldable pub handle_signup : Option Credentials → Step Site Response
  unfolding hash_password split_identifier issue_tokens
  handle_signup body = do
    req ← decode_json body
    who ← result_or bad_identifier_given (split_identifier req.identifier)
    free ← allow_signup (who.0 <> who.1)
    refuse_if (not free) rate_limited
    hash ← result_or weak_password (hash_password api.crypto req.password)
    user ←
        call_or taken_or
          (in_world (with_users (λ w. create_user w.now (fresh_id w) who.0 who.1 hash w.db.users)))
    grant_free user.id
    issue_tokens user.id none

  -- `handleLogin`: an unknown identifier is answered like a wrong password.
  unfoldable pub handle_login : Option Credentials → Step Site Response
  unfolding check_password split_identifier issue_tokens
  handle_login body = do
    req ← decode_json body
    who ← result_or bad_identifier_given (split_identifier req.identifier)
    free ← allow_login (identifier_of who)
    refuse_if (not free) rate_limited
    user ←
        call_or (missing_or bad_credentials)
          (in_world (reading (λ w. user_by_identifier (identifier_of who) w.db.users)))
    refuse_if (not (check_password api.crypto user.password_hash req.password)) bad_credentials
    refuse_if (not (user.status =? "active"))
        (write_error 403 "account_suspended" "this account is suspended")
    issue_tokens user.id none

  abbrev pub bad_refresh : Error → Response
  bad_refresh e = write_error 401 "invalid_refresh" "refresh token is invalid or expired"

  abbrev pub rotate_token : String → String → Call World (String × Option String)
  rotate_token token new_hash = with_tokens (λ w.
      rotate_refresh_token w.now (fresh_id w) (hash_refresh_token api.crypto token) new_hash
        (w.now + api.refresh_token_ttl) w.db.refresh_tokens)

  -- `handleRefresh`; the body is the request's `refresh_token`.
  unfoldable pub handle_refresh : Option String → Step Site Response
  unfolding issue new_refresh_token hash_refresh_token
  handle_refresh body = do
    token ← decode_json body
    refuse_if (token =? "") (write_error 400 "invalid_request" "refresh_token is required")
    fresh ← call (in_world (drawing (new_refresh_token api.crypto)))
    owner ← call_or bad_refresh (in_world (rotate_token token fresh.1))
    access ← call (in_world (access_token owner.0 (coalesce owner.1 "")))
    go_on (
        write_json 200 (
          tokens (record {
            access_token = access.0;
            refresh_token = fresh.0;
            expires_at = access.1;
            user_id = owner.0;
          })))

  abbrev pub revoke_unless_empty : String → Step Site (Unit {0})
  revoke_unless_empty token =
      if token =? ""
      then go_on tt
      else logged_only (
          in_world (
            with_tokens (λ w. executed (
              revoke_refresh_token w.now (hash_refresh_token api.crypto token)
                w.db.refresh_tokens))))

  -- `handleLogout`
  unfoldable pub handle_logout : Option String → Step Site Response
  unfolding hash_refresh_token
  handle_logout body = do
    token ← decode_json body
    revoke_unless_empty token
    go_on (write_json 204 no_body)

-- `handleMe`
unfoldable pub handle_me : String → Step Site Response
handle_me user_id = do
  user ← call (in_world (reading (λ w. user_by_id user_id w.db.users)))
  ent ← call (in_world (read_entitlement user_id))
  devices ← call (in_world (list_devices user_id))
  go_on (write_json 200 (account user ent (map device_view devices)))
