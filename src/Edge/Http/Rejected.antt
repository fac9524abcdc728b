-- ===== src/Edge/Http/Rejected.antt =====
-- How a failed request is classified.
use proxify_vpn.Base.{Bool, String, arith, false, not, some, ◌&&◌, ◌/◌, ◌==◌, ◌≡◌}
use proxify_vpn.Base.Effects.{Call}
use proxify_vpn.Edge.Http.{
  HttpRequest, HttpResponse, Payload, accepted, post, request_to, status_error,
}
use proxify_vpn.Errors.{Error, Result, err, error_is, ok, rejected, unreachable}
use proxify_vpn.Model.{Server}

-- What no retry mends: an answer 4xx other than 429.
abbrev pub is_final : Result HttpResponse → Bool
is_final (err e) = false
is_final (ok resp) = resp.status_code / 100 == 4 && not (resp.status_code == 429)

module _ {S : Type 0} (transport : Server → HttpRequest → Call S HttpResponse) where
  accepted-classified :
      (srv : Server) (r : Result HttpResponse) (e : Error)
      → accepted transport srv r ≡ err e
      → (error_is e rejected ≡ is_final r) × (error_is e unreachable ≡ not (is_final r))
  unfolding status_error
  accepted-classified srv (err x) e h = (ground arith, ground arith)
  accepted-classified srv (ok resp) e h = (ground arith, ground arith)

  -- A request that fails is rejected exactly when the agent answered 4xx other than 429, and
  -- unreachable in every other case: no answer, 429, or any other status that is not 2xx.
  pub post-classified :
      (srv : Server) (path : String) (payload : Payload) (s : S) (e : Error)
      → (post transport srv path payload s).0 ≡ err e
      → (error_is e rejected
          ≡ is_final (transport srv (request_to transport srv path (some payload)) s).0)
        × (error_is e unreachable
            ≡ not (is_final (transport srv (request_to transport srv path (some payload)) s).0))
  unfolding post
  post-classified srv path payload s e h =
      accepted-classified srv (transport srv (request_to transport srv path (some payload)) s).0 e h
