-- ===== src/Api/Guards.antt =====
-- The guards of server/internal/api/middleware.go: a bearer token, of a user or of an operator.
pub mod Entry
use proxify_vpn.Api.Respond.{Response, Step, refuse_if, result_or, write_error, ◌>>=◌, ◌>>◌}
use proxify_vpn.Api.Site.{ApiServer, Site}
use proxify_vpn.Auth.{Claims, verify}
use proxify_vpn.Base.{String, if◌then◌else◌, ltb, not, ◌=?◌, ◌||◌}
use proxify_vpn.Base.Text.{byte_length, drop_text, equal_fold, take_text, trim_space}
use proxify_vpn.Errors.{Error, error_is, expired_token}

-- `bearerToken`, of the header `Authorization`.
unfoldable pub bearer_token : String → String
unfolding byte_length equal_fold take_text drop_text trim_space
bearer_token h =
    if ltb (byte_length h) 7 || not (equal_fold (take_text 7 h) "bearer ")
    then ""
    else trim_space (drop_text 7 h)

module _ (api : ApiServer) where
  abbrev pub unauthorized : Error → Response
  unauthorized e =
      write_error 401 (if error_is e expired_token then "token_expired" else "unauthorized")
        "invalid or expired token"

  abbrev pub verified : String → Step Site Claims
  verified token s = result_or unauthorized (verify api.crypto api.signer s.world.now token) s

  -- `authenticated`: the handler gets the user id of the token's claims.
  unfoldable pub authenticated : String → (String → Step Site Response) → Step Site Response
  unfolding bearer_token verify
  authenticated authorization next = do
    refuse_if (bearer_token authorization =? "")
        (write_error 401 "unauthorized" "missing bearer token")
    claims ← verified (bearer_token authorization)
    next claims.subject

  -- `adminOnly`: without a configured token the operator's endpoints do not exist.
  unfoldable pub admin_only : String → Step Site Response → Step Site Response
  unfolding bearer_token
  admin_only authorization next = do
    refuse_if (api.admin_token =? "") (write_error 404 "not_found" "not found")
    refuse_if (not (bearer_token authorization =? api.admin_token))
        (write_error 401 "unauthorized" "admin token required")
    next
