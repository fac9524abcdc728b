-- ===== src/Agent/Service.antt =====
-- edge/internal/agent/agent.go: the handlers by which the control plane manages a box's peers. A
-- lock serializes them, so each runs to its end on the interface's state.
use proxify_vpn.Agent.Wg.{Client, Peer, is_up, peer_count, remove_peer, set_peer, sync, validate_ip}
use proxify_vpn.Base.{
  Bool, List, Option, String, [], if◌then◌else◌, length, ltb, none, not, some, ℕ, ◌=?◌, ◌||◌, ◌∷◌,
}
use proxify_vpn.Base.Text.{byte_length, drop_text, equal_fold, take_text, trim_space}
use proxify_vpn.Errors.{Error, Result, err, error_is, ok, wg_invalid_ip, wg_invalid_key}

pub record PeerRequest : Type 0 where
  pub public_key : String
  pub tunnel_ip : String
  pub revision : ℕ
  pub replaces : String

-- The report of `handleHealth`; `peer_count` is none where the source has -1.
pub record HealthReport : Type 0 where
  pub healthy : Bool
  pub boot_id : String
  pub peer_count : Option ℕ
  pub iface : String
  pub agent_version : String
  pub wireguard_up : Bool
  pub obfuscator_up : Bool

pub data ReplyBody : Type 0 where
  error_reply : String → ReplyBody
  applied_revision : ℕ → ReplyBody
  removed : ReplyBody
  synced : ℕ → ReplyBody
  health_report : HealthReport → ReplyBody

pub record Reply : Type 0 where
  pub status : ℕ
  pub body : ReplyBody

abbrev pub reply : ℕ → ReplyBody → Reply
reply status body = record { status = status; body = body }

-- `badRequest`
abbrev pub bad_request : String → Reply
bad_request msg = reply 400 (error_reply msg)

pub record Agent (S : Type 0) : Type 0 where
  pub wg : Client S
  pub token : String
  pub instance_id : String
  pub version : String
  -- whether /run/xray.pid is there
  pub obfuscator_up : S → Bool

abbrev pub is_invalid : Error → Bool
is_invalid e = error_is e wg_invalid_key || error_is e wg_invalid_ip

-- How a handler answers what the interface said.
abbrev pub replied : (Error → Bool) → Reply → Reply → Reply → Result (Unit {0}) → Reply
replied invalid refused broken fine (ok _) = fine
replied invalid refused broken fine (err e) = if invalid e then refused else broken

module _ {S : Type 0} (a : Agent S) where
  -- `authed`
  unfoldable pub authed : String → (S → Reply × S) → S → Reply × S
  unfolding byte_length equal_fold take_text drop_text trim_space
  authed authorization next s =
      if ltb (byte_length authorization) 7
        || (not (equal_fold (take_text 7 authorization) "bearer ")
            || not (trim_space (drop_text 7 authorization) =? a.token))
      then (reply 401 (error_reply "unauthorized"), s)
      else next s

  abbrev pub set_reply : ℕ → Result (Unit {0}) → Reply
  set_reply revision =
      replied is_invalid (bad_request "invalid peer") (reply 500 (error_reply "apply failed"))
        (reply 200 (applied_revision revision))

  abbrev pub set_checked : PeerRequest → Result ℕ → S → Reply × S
  set_checked req (err e) s = (bad_request "invalid tunnel_ip", s)
  set_checked req (ok ip) s =
      let (r, s') =
        set_peer a.wg (record { public_key = req.public_key; tunnel_ip = some ip }) req.replaces
          s in
      (set_reply req.revision r, s')

  -- `handleSetPeer`; none is a body that does not parse.
  unfoldable pub handle_set_peer : Option PeerRequest → S → Reply × S
  unfolding validate_ip set_peer
  handle_set_peer none s = (bad_request "could not parse body", s)
  handle_set_peer (some req) s = set_checked req (validate_ip req.tunnel_ip) s

  abbrev pub remove_reply : Result (Unit {0}) → Reply
  remove_reply =
      replied (λ e. error_is e wg_invalid_key) (bad_request "invalid public_key")
        (reply 500 (error_reply "remove failed")) (reply 200 removed)

  -- `handleRemovePeer`
  unfoldable pub handle_remove_peer : Option PeerRequest → S → Reply × S
  unfolding remove_peer
  handle_remove_peer none s = (bad_request "could not parse body", s)
  handle_remove_peer (some req) s =
      let (r, s') = remove_peer a.wg req.public_key s in (remove_reply r, s')

  abbrev pub with_ip : PeerRequest → Result ℕ → Result (List Peer) → Result (List Peer)
  with_ip req (err e) rest = err e
  with_ip req (ok ip) (err e) = err e
  with_ip req (ok ip) (ok peers) =
      ok (record { public_key = req.public_key; tunnel_ip = some ip } ∷ peers)

  -- The loop that checks the addresses of a peer set.
  unfoldable pub checked_peers : List PeerRequest → Result (List Peer)
  unfolding validate_ip
  checked_peers [] = ok []
  checked_peers (req ∷ reqs) = with_ip req (validate_ip req.tunnel_ip) (checked_peers reqs)

  abbrev pub sync_reply : ℕ → Result (Unit {0}) → Reply
  sync_reply n =
      replied is_invalid (bad_request "invalid peer set") (reply 500 (error_reply "sync failed"))
        (reply 200 (synced n))

  abbrev pub sync_checked : Result (List Peer) → S → Reply × S
  sync_checked (err e) s = (bad_request "invalid tunnel_ip in peer set", s)
  sync_checked (ok peers) s = let (r, s') = sync a.wg peers s in (sync_reply (length peers) r, s')

  -- `handleSync`
  unfoldable pub handle_sync : Option (List PeerRequest) → S → Reply × S
  unfolding checked_peers sync
  handle_sync none s = (bad_request "could not parse body", s)
  handle_sync (some reqs) s = sync_checked (checked_peers reqs) s

  -- `handleHealth`
  unfoldable pub handle_health : S → Reply × S
  unfolding is_up peer_count
  handle_health s =
      let (up, s₁) = is_up a.wg s in
      let (count, s₂) = peer_count a.wg s₁ in
      (
        reply 200 (
            health_report (record {
              healthy = up;
              boot_id = a.instance_id;
              peer_count = count;
              iface = a.wg.iface;
              agent_version = a.version;
              wireguard_up = up;
              obfuscator_up = a.obfuscator_up s₂;
            })),
        s₂,
      )

  -- `Handler`: the four routes, each behind the token. Another path is the router's 404.
  unfoldable pub serve :
      String → String → Option PeerRequest → Option (List PeerRequest) → S → Reply × S
  unfolding authed handle_set_peer handle_remove_peer handle_sync handle_health
  serve route authorization peer peers =
      if route =? "POST /v1/peers"
      then authed authorization (handle_set_peer peer)
      else (if route =? "POST /v1/peers/remove"
          then authed authorization (handle_remove_peer peer)
          else (if route =? "POST /v1/peers/sync"
              then authed authorization (handle_sync peers)
              else (if route =? "GET /v1/health" then authed authorization handle_health else λ s.
                  (reply 404 (error_reply "not found"), s))))
