-- ===== src/Api/Routes.antt =====
-- `Handler` of server/internal/api/api.go: each endpoint with its handler and its guard. That ServeMux
-- finds the pattern, with the path's values, is the standard library's; a request comes as its endpoint
-- with the decoded body.
pub mod Guarded
use proxify_vpn.Api.Accounts.{
  Credentials, handle_login, handle_logout, handle_me, handle_refresh, handle_signup,
}
use proxify_vpn.Api.Billing.{
  InitializePaymentRequest, handle_initialize_payment, handle_paystack_webhook,
  handle_verify_payment,
}
use proxify_vpn.Api.Devices.{
  RegisterDeviceRequest, RotateKeyRequest, handle_delete_device, handle_list_devices,
  handle_register_device, handle_rotate_key,
}
use proxify_vpn.Api.Guards.{admin_only, authenticated}
use proxify_vpn.Api.Operators.{
  GrantRequest, UpsertServerRequest, handle_grant, handle_reconcile_now, handle_resync,
  handle_server_status, handle_upsert_server,
}
use proxify_vpn.Api.Respond.{Response, Step}
use proxify_vpn.Api.Site.{ApiServer, Site}
use proxify_vpn.Api.Tunnel.{
  ProvisionRequest, ReleaseRequest, handle_health, handle_list_plans, handle_list_servers,
  handle_provision, handle_ready, handle_release, handle_tunnel_status,
}
use proxify_vpn.Base.{Option, String}
use proxify_vpn.Base.Effects.{Call}
use proxify_vpn.Model.{Prefix}

pub data Endpoint : Type 0 where
  healthz : Endpoint
  readyz : Endpoint
  signup : Option Credentials → Endpoint
  login : Option Credentials → Endpoint
  refresh : Option String → Endpoint
  logout : Option String → Endpoint
  me : Endpoint
  register_device : Option RegisterDeviceRequest → Endpoint
  list_devices : Endpoint
  delete_device : String → Endpoint
  rotate_key : String → Option RotateKeyRequest → Endpoint
  list_servers : Endpoint
  list_plans : Endpoint
  provision_tunnel : String → Option ProvisionRequest → Endpoint
  release_tunnel : Option ReleaseRequest → Endpoint
  tunnel_status : String → Endpoint
  initialize_payment : Option InitializePaymentRequest → Endpoint
  verify_payment : Option String → Endpoint
  paystack_webhook : String → Option String → Endpoint
  register_server : Option UpsertServerRequest → Endpoint
  server_status : String → Option String → Endpoint
  resync_server : String → Endpoint
  reconcile_now : Endpoint
  grant_time : Option GrantRequest → Endpoint

module _ (api : ApiServer) (cidr : String → Option Prefix) (ping : Call Site (Unit {0})) where
  -- `authorization` is the header of that name.
  unfoldable pub route : String → Endpoint → Step Site Response
  route authorization healthz = handle_health
  route authorization readyz = handle_ready ping
  route authorization (signup body) = handle_signup api body
  route authorization (login body) = handle_login api body
  route authorization (refresh body) = handle_refresh api body
  route authorization (logout body) = handle_logout api body
  route authorization me = authenticated api authorization handle_me
  route authorization (register_device body) =
      authenticated api authorization (λ user_id. handle_register_device api user_id body)
  route authorization list_devices = authenticated api authorization handle_list_devices
  route authorization (delete_device id) =
      authenticated api authorization (λ user_id. handle_delete_device user_id id)
  route authorization (rotate_key id body) =
      authenticated api authorization (λ user_id. handle_rotate_key api user_id id body)
  route authorization list_servers = handle_list_servers
  route authorization list_plans = handle_list_plans
  route authorization (provision_tunnel country body) =
      authenticated api authorization (λ user_id. handle_provision user_id country body)
  route authorization (release_tunnel body) =
      authenticated api authorization (λ user_id. handle_release user_id body)
  route authorization (tunnel_status device_id) =
      authenticated api authorization (λ user_id. handle_tunnel_status user_id device_id)
  route authorization (initialize_payment body) =
      authenticated api authorization (λ user_id. handle_initialize_payment api user_id body)
  route authorization (verify_payment body) =
      authenticated api authorization (λ user_id. handle_verify_payment api user_id body)
  route authorization (paystack_webhook signature content) =
      handle_paystack_webhook api signature content
  route authorization (register_server body) =
      admin_only api authorization (handle_upsert_server api cidr body)
  route authorization (server_status code body) =
      admin_only api authorization (handle_server_status code body)
  route authorization (resync_server code) = admin_only api authorization (handle_resync code)
  route authorization reconcile_now = admin_only api authorization handle_reconcile_now
  route authorization (grant_time body) = admin_only api authorization (handle_grant body)
