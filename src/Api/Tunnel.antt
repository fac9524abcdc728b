-- ===== src/Api/Tunnel.antt =====
-- server/internal/api/tunnel_handlers.go: the tunnel endpoints and the catalogue.
pub mod Answers
use proxify_vpn.Api.Devices.{device_of}
use proxify_vpn.Api.Respond.{
  AssignmentView, PlanView, Response, ServerView, Step, assignment_list, call, call_or, database_up,
  decode_json, go_on, is_ok, logged_only, plan_list, refuse_if, revoking_count, server_list, tunnel,
  write_error, write_json, ◌>>=◌, ◌>>◌,
}
use proxify_vpn.Api.Site.{Site, executed, in_world, with_devices}
use proxify_vpn.Base.{Option, String, false, if◌then◌else◌, leb, ltb, map, true, ◌*◌, ◌/◌, ◌=?◌}
use proxify_vpn.Base.Effects.{Call}
use proxify_vpn.Base.Text.{show_ip}
use proxify_vpn.Errors.{Result, err, ok}
use proxify_vpn.Model.{PeerAssignment, Plan, Server, applied}
use proxify_vpn.Provision.Engine.{deprovision_device, provision}
use proxify_vpn.Store.Devices.{touch_device}
use proxify_vpn.Store.Servers.{server_by_id}
use proxify_vpn.Store.Subscriptions.{plans_on_sale}
use proxify_vpn.World.{World, reading, world_service, world_store}

pub record ProvisionRequest : Type 0 where
  pub device_id : String
  pub server_code : String

pub record ReleaseRequest : Type 0 where
  pub device_id : String

abbrev pub device_required : Response
device_required = write_error 400 "invalid_request" "device_id is required"

-- `handleProvision`; `country` is the header `CF-IPCountry`.
unfoldable pub handle_provision : String → String → Option ProvisionRequest → Step Site Response
handle_provision user_id country body = do
  req ← decode_json body
  refuse_if (req.device_id =? "") device_required
  cfg ← call (
      in_world (
        provision world_service (record {
          user_id = user_id;
          device_id = req.device_id;
          server_code = req.server_code;
          client_country = country;
        })))
  logged_only
      (in_world (with_devices (λ w. executed (touch_device req.device_id w.now w.db.devices))))
  go_on (write_json 200 (tunnel cfg))

-- `handleRelease`
unfoldable pub handle_release : String → Option ReleaseRequest → Step Site Response
handle_release user_id body = do
  req ← decode_json body
  _ ← device_of user_id req.device_id
  n ← call (in_world (deprovision_device world_service req.device_id))
  go_on (write_json 200 (revoking_count n))

abbrev pub code_of : Result Server → String
code_of (ok srv) = srv.code
code_of (err e) = ""

abbrev pub assignment_view : World → PeerAssignment → AssignmentView
assignment_view w a = record {
  server_code = code_of (server_by_id a.server_id w.db.servers w.db.peers);
  state = a.state;
  ready = applied a;
  tunnel_ip = show_ip a.tunnel_ip;
}

-- `handleTunnelStatus`: whether the peers are installed.
unfoldable pub handle_tunnel_status : String → String → Step Site Response
handle_tunnel_status user_id device_id = do
  refuse_if (device_id =? "") device_required
  _ ← device_of user_id device_id
  list ← call (in_world (world_store.assignments_for_device device_id))
  views ← call (in_world (reading (λ w. ok (map (assignment_view w) list))))
  go_on (write_json 200 (assignment_list views))

-- `loadBucket`. The ratio is compared without a division: below 2^31 the quotient of two integers
-- is on the same side of 0.5 and of 0.85 as it is in floating point.
unfoldable pub load_bucket : Server → String
load_bucket srv =
    if leb srv.capacity_peers 0
    then "unknown"
    else (if ltb (2 * srv.live_peers) srv.capacity_peers
        then "low"
        else (if ltb (20 * srv.live_peers) (17 * srv.capacity_peers) then "medium" else "high"))

abbrev pub server_view : Server → ServerView
server_view srv = record {
  code = srv.code;
  display_name = srv.display_name;
  country_code = srv.country_code;
  region = srv.region;
  load = load_bucket srv;
}

-- `handleListServers`
unfoldable pub handle_list_servers : Step Site Response
unfolding load_bucket
handle_list_servers = do
  list ← call (in_world (world_store.servers true))
  go_on (write_json 200 (server_list (map server_view list)))

abbrev pub plan_view : Plan → PlanView
plan_view p = record {
  code = p.code;
  name = p.name;
  duration_days = p.duration / 3600000000000 / 24;
  price_kobo = p.price_kobo;
  price_naira = p.price_kobo / 100;
  currency = p.currency;
  data_cap_bytes = p.data_cap_bytes;
  device_limit = p.device_limit;
  is_free = p.is_free;
}

-- `handleListPlans`
unfoldable pub handle_list_plans : Step Site Response
handle_list_plans = do
  plans ← call (in_world (reading (λ w. ok (plans_on_sale w.db.plans))))
  go_on (write_json 200 (plan_list (map plan_view plans)))

-- `handleHealth`
unfoldable pub handle_health : Step Site Response
handle_health = go_on (write_json 200 (is_ok true))

-- `handleReady`; `ping` is the pool's.
unfoldable pub handle_ready : Call Site (Unit {0}) → Step Site Response
handle_ready ping = do
  _ ← call_or (λ e. write_json 503 (database_up false)) ping
  go_on (write_json 200 (database_up true))
