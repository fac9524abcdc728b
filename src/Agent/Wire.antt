-- ===== src/Agent/Wire.antt =====
-- The control plane's HTTP client on one end and an agent on the other: JSON carries the fields over,
-- and a missing field is empty. `read_health` is what the client decodes of a health report.
pub mod Applied
pub mod Rejected
pub mod Keys
use proxify_vpn.Agent.Service.{Agent, PeerRequest, Reply, serve}
use proxify_vpn.Base.{List, Option, String, [], if◌then◌else◌, map, none, some, ◌=?◌}
use proxify_vpn.Base.Effects.{Call}
use proxify_vpn.Base.Text.{◌<>◌}
use proxify_vpn.Edge.{Health}
use proxify_vpn.Edge.Http.{
  HttpRequest, HttpResponse, Payload, PeerPayload, peer_payload, remove_payload, sync_payload,
  trim_slashes,
}
use proxify_vpn.Errors.{ok}
use proxify_vpn.Model.{Server}

abbrev pub request_of : PeerPayload → PeerRequest
request_of p = record {
  public_key = p.public_key;
  tunnel_ip = p.tunnel_ip;
  revision = p.revision;
  replaces = p.replaces;
}

abbrev pub no_fields : PeerRequest
no_fields = record { public_key = ""; tunnel_ip = ""; revision = 0; replaces = "" }

-- The body as `handleSetPeer` and `handleRemovePeer` decode it, and as `handleSync` does.
abbrev pub as_peer : Option Payload → Option PeerRequest
as_peer none = none
as_peer (some (peer_payload p)) = some (request_of p)
as_peer (some (remove_payload key)) = some (record no_fields { public_key = key })
as_peer (some (sync_payload peers)) = some no_fields

abbrev pub as_peers : Option Payload → Option (List PeerRequest)
as_peers none = none
as_peers (some (peer_payload p)) = some []
as_peers (some (remove_payload key)) = some []
as_peers (some (sync_payload peers)) = some (map request_of peers)

abbrev pub route_of : Server → HttpRequest → String
route_of srv req =
    let base = trim_slashes srv.agent_url in
    if req.url =? base <> "/v1/peers"
    then "POST /v1/peers"
    else (if req.url =? base <> "/v1/peers/remove"
        then "POST /v1/peers/remove"
        else (if req.url =? base <> "/v1/peers/sync"
            then "POST /v1/peers/sync"
            else "GET /v1/health"))

module _ {S : Type 0} (read_health : Reply → Option Health) (a : Agent S) where
  abbrev pub response_of : Reply → HttpResponse
  response_of r = record { status_code = r.status; snippet = ""; decoded = read_health r }

  -- A wire that loses nothing.
  abbrev pub wire : Server → HttpRequest → Call S HttpResponse
  wire srv req s =
      let (r, s') =
        serve a (route_of srv req) req.authorization (as_peer req.payload) (as_peers req.payload)
          s in
      (ok (response_of r), s')
