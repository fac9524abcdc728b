-- ===== src/Api/Routes/Guarded.antt =====
-- What a request without a right token gets.
use proxify_vpn.Api.Guards.{admin_only, authenticated, bearer_token}
use proxify_vpn.Api.Guards.Entry.{IsRefused, admin_only-entry, authenticated-entry}
use proxify_vpn.Api.Respond.{Outcome, Response, Step}
use proxify_vpn.Api.Routes.{
  Endpoint, delete_device, grant_time, healthz, initialize_payment, list_devices, list_plans,
  list_servers, login, logout, me, paystack_webhook, provision_tunnel, readyz, reconcile_now,
  refresh, register_device, register_server, release_tunnel, resync_server, rotate_key, route,
  server_status, signup, tunnel_status, verify_payment,
}
use proxify_vpn.Api.Site.{ApiServer, Site}
use proxify_vpn.Auth.{Claims}
use proxify_vpn.Auth.Tokens.{IsSigned}
use proxify_vpn.Base.{Option, String, inl, inr, ◌≡◌, ◌≢◌, ◌⊎◌}
use proxify_vpn.Base.Effects.{Call}
use proxify_vpn.Model.{Prefix}

-- Who an endpoint is for: everybody, a user, or an operator.
pub data Audience : Type 0 where
  everybody : Audience
  users : Audience
  operators : Audience

-- Signing up and in, the catalogue, the probes and the webhook are for everybody.
abbrev pub audience : Endpoint → Audience
audience healthz = everybody
audience readyz = everybody
audience (signup body) = everybody
audience (login body) = everybody
audience (refresh body) = everybody
audience (logout body) = everybody
audience list_servers = everybody
audience list_plans = everybody
audience (paystack_webhook signature content) = everybody
audience (register_server body) = operators
audience (server_status code body) = operators
audience (resync_server code) = operators
audience reconcile_now = operators
audience (grant_time body) = operators
audience _ = users

-- An answer 401 or 404 with nothing changed.
abbrev pub IsTurnedAway : Site → Outcome Response × Site → Type 0
IsTurnedAway s o = IsRefused 401 s o ⊎ IsRefused 404 s o

module _ (api : ApiServer) (cidr : String → Option Prefix) (ping : Call Site (Unit {0}))
    (authorization : String) where
  -- The token that an audience needs: a user's that is signed and has not expired, or the operator's.
  abbrev pub HasToken : Audience → Site → Type 0
  HasToken everybody s = Unit
  HasToken users s =
      (c : Claims) × IsSigned api.crypto api.signer s.world.now (bearer_token authorization) c
  HasToken operators s = (bearer_token authorization ≡ api.admin_token) × (api.admin_token ≢ "")

  for_user :
      (next : String → Step Site Response) (s : Site)
      → HasToken users s ⊎ IsTurnedAway s (authenticated api authorization next s)
  for_user next s = elim (authenticated-entry api authorization next s) [
    | inl (c, signed, ran) ↦ inl (c, signed)
    | inr refused ↦ inr (inl refused)
  ]

  for_operator :
      (next : Step Site Response) (s : Site)
      → HasToken operators s ⊎ IsTurnedAway s (admin_only api authorization next s)
  for_operator next s = elim (admin_only-entry api authorization next s) [
    | inl (same, there, ran) ↦ inl (same, there)
    | inr (inl refused) ↦ inr (inl refused)
    | inr (inr (off, hidden)) ↦ inr (inr hidden)
  ]

  -- Whatever endpoint is asked for, the request has the token that the endpoint's audience needs, or
  -- it is answered 401 or 404 and changes nothing.
  pub route-guarded :
      (e : Endpoint) (s : Site)
      → HasToken (audience e) s ⊎ IsTurnedAway s (route api cidr ping authorization e s)
  unfolding route
  route-guarded healthz s = inl tt
  route-guarded readyz s = inl tt
  route-guarded (signup body) s = inl tt
  route-guarded (login body) s = inl tt
  route-guarded (refresh body) s = inl tt
  route-guarded (logout body) s = inl tt
  route-guarded list_servers s = inl tt
  route-guarded list_plans s = inl tt
  route-guarded (paystack_webhook signature content) s = inl tt
  route-guarded me s = for_user _ s
  route-guarded (register_device body) s = for_user _ s
  route-guarded list_devices s = for_user _ s
  route-guarded (delete_device id) s = for_user _ s
  route-guarded (rotate_key id body) s = for_user _ s
  route-guarded (provision_tunnel country body) s = for_user _ s
  route-guarded (release_tunnel body) s = for_user _ s
  route-guarded (tunnel_status device_id) s = for_user _ s
  route-guarded (initialize_payment body) s = for_user _ s
  route-guarded (verify_payment body) s = for_user _ s
  route-guarded (register_server body) s = for_operator _ s
  route-guarded (server_status code body) s = for_operator _ s
  route-guarded (resync_server code) s = for_operator _ s
  route-guarded reconcile_now s = for_operator _ s
  route-guarded (grant_time body) s = for_operator _ s
