-- ===== src/Provision/Engine.antt =====
-- `Service` of server/internal/provision/provision.go: a request for a tunnel.
pub mod Limit
pub mod Granted
pub mod Calls
use proxify_vpn.Base.{
  Bool, List, Option, String, [], false, if◌then◌else◌, leb, length, ltb, none, not, some, suc,
  true, ℕ, ◌&&◌, ◌+◌, ◌=?◌, ◌||◌, ◌∷◌,
}
use proxify_vpn.Base.Effects.{Call, attempt, fail, ignoring, prefixed, succeed, ◌>>=◌}
use proxify_vpn.Edge.{EdgeClient, Peer}
use proxify_vpn.Errors.{
  Error, Result, device_limit, edge_unavailable, err, error_is, no_server, not_entitled, not_found,
  noted, ok, rejected, sentinel, wrapped,
}
use proxify_vpn.Model.{Device, Entitlement, PeerAssignment, Server, applied}
use proxify_vpn.Provision.Backoff.{backoff}
use proxify_vpn.Provision.Config.{TunnelConfig, build_config}
use proxify_vpn.Provision.Selector.{Request, candidates}
use proxify_vpn.Provision.Storer.{Service, Storer}
use proxify_vpn.Store.Db.{is_null}

abbrev pub max_inline : ℕ
max_inline = 2

-- `New`
unfoldable pub new_service :
    {S : Type 0} → Storer S → EdgeClient S → (S → ℕ) → (S → ℕ) → (Error → String) → Service S
new_service store edge clock draw describe = record {
  store = store;
  edge = edge;
  clock = clock;
  draw = draw;
  describe = describe;
  max_inline_attempts = max_inline;
}

-- The loop of `checkDeviceLimit`: the device is among the first `limit`.
unfoldable pub within_first : ℕ → ℕ → String → List Device → Bool
within_first i limit device_id [] = false
within_first i limit device_id (d ∷ devices) =
    if d.id =? device_id then ltb i limit else within_first (suc i) limit device_id devices

abbrev pub at_least_one : ℕ → ℕ
at_least_one limit = if leb limit 0 then 1 else limit

-- The tests of `checkDeviceLimit` on the user's devices, the oldest first.
unfoldable pub is_allowed : String → ℕ → List Device → Bool
unfolding within_first
is_allowed device_id limit devices =
    leb (length devices) (at_least_one limit)
    || within_first 0 (at_least_one limit) device_id devices

abbrev pub peer_of : PeerAssignment → Peer
peer_of a = record {
  public_key = a.public_key;
  tunnel_ip = a.tunnel_ip;
  replaces = a.prev_public_key;
  revision = a.revision;
}

-- The errors that `Provision` ends with when no candidate was left.
abbrev pub gave_up : Option Error → Error
gave_up none = sentinel no_server
gave_up (some e) = noted (sentinel edge_unavailable) e

module _ {S : Type 0} (v : Service S) where
  abbrev pub check_device_limit : String → String → ℕ → Call S (Unit {0})
  check_device_limit user_id device_id limit = do
    devices ← prefixed "devices" (v.store.devices_by_user user_id)
    if is_allowed device_id limit devices then succeed tt else fail (sentinel device_limit)

  -- When the attempt after `attempts` failed ones is due: `s.now().Add(Backoff(attempts + 1))`.
  abbrev pub retry_at : ℕ → S → ℕ
  retry_at attempts s = v.clock s + backoff (attempts + 1) (v.draw s)

  -- What follows the edge's answer: a failure is recorded and returned; after a success only the
  -- bookkeeping is left, whose failure does not block the user.
  abbrev pub after_push : PeerAssignment → TunnelConfig → Result (Unit {0}) → Call S TunnelConfig
  after_push a cfg (err e) s =
      ignoring (v.store.mark_attempt_failed a.id (v.describe e) (retry_at a.attempts s)) (fail e) s
  after_push a cfg (ok _) s = ignoring (v.store.mark_applied a.id a.revision) (succeed cfg) s

  -- The fast path: a peer that is installed at the current revision costs no call of the edge.
  abbrev pub push_unless_applied : Server → Entitlement → PeerAssignment → Call S TunnelConfig
  push_unless_applied srv ent a =
      if applied a
      then succeed (build_config a srv ent)
      else attempt (v.edge.apply_peer srv (peer_of a)) (after_push a (build_config a srv ent))

  unfoldable pub provision_on : Device → Server → Entitlement → Call S TunnelConfig
  provision_on device srv ent = do
    a ← prefixed "ensure assignment" (v.store.ensure_assignment device.id srv.id device.public_key)
    push_unless_applied srv ent a

  -- The loop of `Provision` over the candidates, from the `i`-th on. The peers on other servers are
  -- revoked only once the new one is live.
  unfoldable pub try_servers :
      Device → Entitlement → ℕ → Option Error → List Server → Call S TunnelConfig
  try_servers device ent i last [] s = (err (gave_up last), s)
  try_servers device ent i last (srv ∷ rest) s =
      let (r, s') = provision_on device srv ent s in
      elim (leb v.max_inline_attempts i) [
        | true ↦ (err (gave_up last), s)
        | false ↦ elim r [
          | ok cfg ↦ ignoring (v.store.begin_revoke_other_servers device.id srv.id) (succeed cfg) s'
          | err e ↦ elim (error_is e rejected) [
            | true ↦ (err (gave_up (some e)), s')
            | false ↦ try_servers device ent (suc i) (some e) rest s'
          ]
        ]
      ]

  abbrev pub owns : Request → Device → Bool
  owns req device = device.user_id =? req.user_id && is_null device.revoked_at

  -- The steps of `Provision` once the user is entitled.
  abbrev pub provision_entitled : Request → Entitlement → Call S TunnelConfig
  provision_entitled req ent = do
    device ← prefixed "device" (v.store.device_by_id req.device_id)
    if not (owns req device)
        then fail (wrapped "device" (sentinel not_found))
        else check_device_limit req.user_id device.id ent.device_limit >>= λ _.
            candidates v.store req >>= λ list. try_servers device ent 0 none list

  -- `Provision`: safe to call on every launch.
  unfoldable pub provision : Request → Call S TunnelConfig
  provision req = do
    ent ← prefixed "entitlement" (v.store.entitlement req.user_id)
    if not ent.active then fail (sentinel not_entitled) else provision_entitled req ent

  unfoldable pub deprovision : String → Call S ℕ
  deprovision user_id = v.store.begin_revoke_for_user user_id

  unfoldable pub deprovision_device : String → Call S ℕ
  deprovision_device device_id = v.store.begin_revoke_for_device device_id
