-- ===== src/Edge/Http.antt =====
-- server/internal/edge/httpclient.go: the client of the agents. The transport is an argument; a
-- request's JSON body stays the record that it is made of.
pub mod Rejected
use Prim.Native.Char.{code}
use proxify_vpn.Base.{List, Option, String, if◌then◌else◌, map, none, not, some, ℕ, ◌&&◌, ◌/◌, ◌==◌}
use proxify_vpn.Base.Effects.{Call}
use proxify_vpn.Base.Text.{is_nil, show_ip, trim_space, ◌<>◌}
use proxify_vpn.Edge.{EdgeClient, Health, Peer}
use proxify_vpn.Errors.{Error, Result, err, noted, ok, rejected, sentinel, text, unreachable}
use proxify_vpn.Model.{Server}

-- `peerPayload`, `removePayload` and `syncPayload`.
pub record PeerPayload : Type 0 where
  pub public_key : String
  pub tunnel_ip : String
  pub revision : ℕ
  pub replaces : String

pub data Payload : Type 0 where
  peer_payload : PeerPayload → Payload
  remove_payload : String → Payload
  sync_payload : List PeerPayload → Payload

-- A request: the URL, the header `Authorization` and the body, which a GET has not.
pub record HttpRequest : Type 0 where
  pub url : String
  pub authorization : String
  pub payload : Option Payload

-- An answer: the status, the start of the body, and the body read as a health report.
pub record HttpResponse : Type 0 where
  pub status_code : ℕ
  pub snippet : String
  pub decoded : Option Health

-- `strings.TrimRight(url, "/")`
unfoldable pub trim_slashes : String → String
trim_slashes String.[] = String.[]
trim_slashes (String.◌∷◌ c s) =
    let rest = trim_slashes s in
    if code c == b'/' && is_nil rest then String.[] else String.◌∷◌ c rest

-- `statusError`: a 4xx other than 429 is a request that no retry mends.
unfoldable pub status_error : Server → HttpResponse → Error
unfolding trim_space
status_error srv resp =
    let detail = text (srv.code <> ": " <> trim_space resp.snippet) in
    if resp.status_code / 100 == 4 && not (resp.status_code == 429)
    then noted (sentinel rejected) detail
    else noted (sentinel unreachable) detail

abbrev pub payload_of : Peer → PeerPayload
payload_of p = record {
  public_key = p.public_key;
  tunnel_ip = show_ip p.tunnel_ip;
  revision = p.revision;
  replaces = p.replaces;
}

-- A peer of a full sync names no key that it replaces.
abbrev pub synced_payload : Peer → PeerPayload
synced_payload p = record {
  public_key = p.public_key;
  tunnel_ip = show_ip p.tunnel_ip;
  revision = p.revision;
  replaces = "";
}

module _ {S : Type 0} (transport : Server → HttpRequest → Call S HttpResponse) where
  abbrev pub request_to : Server → String → Option Payload → HttpRequest
  request_to srv path payload = record {
    url = trim_slashes srv.agent_url <> path;
    authorization = "Bearer " <> srv.agent_token;
    payload = payload;
  }

  abbrev pub accepted : Server → Result HttpResponse → Result (Unit {0})
  accepted srv (err e) = err (noted (sentinel unreachable) e)
  accepted srv (ok resp) =
      if resp.status_code / 100 == 2 then ok tt else err (status_error srv resp)

  -- `post`
  unfoldable pub post : Server → String → Payload → Call S (Unit {0})
  unfolding trim_slashes status_error
  post srv path payload s =
      let (r, s') = transport srv (request_to srv path (some payload)) s in (accepted srv r, s')

  unfoldable pub apply_peer : Server → Peer → Call S (Unit {0})
  unfolding post
  apply_peer srv p = post srv "/v1/peers" (peer_payload (payload_of p))

  unfoldable pub remove_peer : Server → String → Call S (Unit {0})
  unfolding post
  remove_peer srv public_key = post srv "/v1/peers/remove" (remove_payload public_key)

  unfoldable pub sync_peers : Server → List Peer → Call S (Unit {0})
  unfolding post
  sync_peers srv peers = post srv "/v1/peers/sync" (sync_payload (map synced_payload peers))

  abbrev pub reported : Server → Option Health → Result Health
  reported srv none = err (noted (sentinel unreachable) (text (srv.code <> ": decode health")))
  reported srv (some h) = ok h

  abbrev pub health_of : Server → Result HttpResponse → Result Health
  health_of srv (err e) = err (noted (sentinel unreachable) e)
  health_of srv (ok resp) =
      if resp.status_code == 200 then reported srv resp.decoded else err (status_error srv resp)

  unfoldable pub health : Server → Call S Health
  unfolding trim_slashes status_error
  health srv s =
      let (r, s') = transport srv (request_to srv "/v1/health" none) s in (health_of srv r, s')

  -- `HTTPClient` fills the interface `Client`.
  unfoldable pub http_client : EdgeClient S
  unfolding apply_peer remove_peer sync_peers health
  http_client = record {
    apply_peer = apply_peer;
    remove_peer = remove_peer;
    sync_peers = sync_peers;
    health = health;
  }
