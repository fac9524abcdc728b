-- ===== src/Api/Operators.antt =====
-- server/internal/api/admin_handlers.go: what an operator may do.
pub mod Registered
use proxify_vpn.Agent.Wg.{wanted}
use proxify_vpn.Api.Accounts.{bad_identifier_given, identifier_of}
use proxify_vpn.Api.Devices.{checked}
use proxify_vpn.Api.Identifier.{split_identifier}
use proxify_vpn.Api.Respond.{
  Response, Step, answer, call, call_or, decode_json, go_on, granted_answer, is_ok, refuse_if,
  result_or, resynced, server_saved, status_saved, write_domain_error, write_error, write_json,
  ◌>>=◌, ◌>>◌,
}
use proxify_vpn.Api.Site.{ApiServer, Site, grant_block, in_world, message_of, with_servers}
use proxify_vpn.Base.{
  Bool, List, Option, String, if◌then◌else◌, none, some, true, ℕ, ◌==◌, ◌=?◌, ◌||◌,
}
use proxify_vpn.Errors.{Error, Result, err, ok, text}
use proxify_vpn.Keys.{validate}
use proxify_vpn.Model.{
  JsonValue, Prefix, Server, ServerStatus, down, draining, in_service, maintenance,
}
use proxify_vpn.Provision.Reconciler.{once, resync}
use proxify_vpn.Store.Payments.{or_default}
use proxify_vpn.Store.Servers.{set_server_status, upsert_server}
use proxify_vpn.Store.Users.{user_by_identifier}
use proxify_vpn.World.{fresh_id, reading, world_service, world_store}

pub record UpsertServerRequest : Type 0 where
  pub code : String
  pub display_name : String
  pub country_code : String
  pub region : String
  pub endpoint_host : String
  pub endpoint_port : ℕ
  pub public_key : String
  pub obfuscation : List (String × JsonValue)
  pub tunnel_subnet : String
  pub agent_url : String
  pub agent_token : String
  pub status : String
  pub capacity_peers : ℕ
  pub priority : ℕ

pub record GrantRequest : Type 0 where
  pub identifier : String
  pub plan_code : String

-- `if n == 0 { n = def }`
abbrev pub number_or : ℕ → ℕ → ℕ
number_or n def = if n == 0 then def else n

-- The four values of `model.ServerStatus`; the table's CHECK admits no other.
unfoldable pub parse_status : String → Option ServerStatus
parse_status s =
    if s =? "active"
    then some in_service
    else (if s =? "draining"
        then some draining
        else (if s =? "down"
            then some down
            else (if s =? "maintenance" then some maintenance else none)))

-- The values of the row that the request asks for.
abbrev pub server_of : UpsertServerRequest → String → Prefix → ServerStatus → Server
server_of req key subnet status = record {
  id = "";
  code = req.code;
  display_name = or_default req.display_name req.code;
  country_code = req.country_code;
  region = req.region;
  endpoint_host = req.endpoint_host;
  endpoint_port = number_or req.endpoint_port 51820;
  public_key = key;
  obfuscation = req.obfuscation;
  tunnel_subnet = subnet;
  agent_url = req.agent_url;
  agent_token = req.agent_token;
  status = status;
  capacity_peers = number_or req.capacity_peers 500;
  priority = number_or req.priority 100;
  last_seen_at = none;
  live_peers = 0;
}

-- Postgres' view of the values: an unreadable subnet or status is an error of the statement.
abbrev pub castable :
    UpsertServerRequest → String → Option Prefix → Option ServerStatus → Result Server
castable req key none status = err (text "invalid input syntax for type cidr")
castable req key (some subnet) none = err (text "servers_status_check")
castable req key (some subnet) (some status) = ok (server_of req key subnet status)

abbrev pub is_incomplete : UpsertServerRequest → Bool
is_incomplete req =
    req.code =? "" || (req.endpoint_host =? "" || (req.tunnel_subnet =? "" || req.agent_url =? ""))

abbrev pub resync_failed : Error → Response
resync_failed e = write_error 502 "resync_failed" (message_of e)

abbrev pub reconcile_failed : Error → Response
reconcile_failed e = write_error 500 "reconcile_failed" (message_of e)

abbrev pub known_status : Option ServerStatus → Step Site ServerStatus
known_status none = answer (write_error 400 "invalid_status" "unknown status")
known_status (some status) = go_on status

-- `cidr` is the cast of Postgres.
module _ (api : ApiServer) (cidr : String → Option Prefix) where
  -- `handleUpsertServer`: a box of which nothing else is said is 'draining', so no user gets it.
  unfoldable pub handle_upsert_server : Option UpsertServerRequest → Step Site Response
  unfolding validate parse_status
  handle_upsert_server body = do
    req ← decode_json body
    key ← checked api req.public_key
    refuse_if (is_incomplete req) (
        write_error 400 "invalid_request"
          "code, endpoint_host, tunnel_subnet and agent_url are required")
    wanted ← result_or write_domain_error (
        castable req key (cidr req.tunnel_subnet) (parse_status (or_default req.status "draining")))
    srv ←
        call
          (in_world (with_servers (λ w. upsert_server (fresh_id w) wanted w.db.servers w.db.peers)))
    go_on (write_json 200 (server_saved srv.id srv.code srv.status))

-- `handleServerStatus`; `code` is of the path and the body is the request's `status`.
unfoldable pub handle_server_status : String → Option String → Step Site Response
unfolding parse_status
handle_server_status code body = do
  asked ← decode_json body
  status ← known_status (parse_status asked)
  _ ← call (in_world (with_servers (λ w. set_server_status code status w.db.servers)))
  go_on (write_json 200 (status_saved code status))

-- `handleResync`: the full peer set is pushed to the box.
unfoldable pub handle_resync : String → Step Site Response
handle_resync code = do
  srv ← call (in_world (world_store.server_by_code code))
  _ ← call_or resync_failed (in_world (resync world_service srv))
  go_on (write_json 200 (resynced srv.code))

-- `handleReconcileNow`
unfoldable pub handle_reconcile_now : Step Site Response
handle_reconcile_now = do
  _ ← call_or reconcile_failed (in_world (once world_service))
  go_on (write_json 200 (is_ok true))

-- `handleGrant`: a block without a payment.
unfoldable pub handle_grant : Option GrantRequest → Step Site Response
unfolding split_identifier
handle_grant body = do
  req ← decode_json body
  who ← result_or bad_identifier_given (split_identifier req.identifier)
  user ← call (in_world (reading (λ w. user_by_identifier (identifier_of who) w.db.users)))
  sub ← call (in_world (grant_block user.id req.plan_code "manual"))
  go_on (write_json 200 (granted_answer user.id sub.plan_code sub.expires_at))
