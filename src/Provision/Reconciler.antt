-- ===== src/Provision/Reconciler.antt =====
-- server/internal/provision/reconciler.go: what drives the desired state onto the edge servers. The
-- goroutines of a pass are run one after the other, in the order of the batch.
pub mod Marked
pub mod Expiry
pub mod Resync
pub mod Apply
pub mod Settled
pub mod Batch
use proxify_vpn.Base.{
  List, Option, String, [], false, if◌then◌else◌, leb, length, map, none, some, ℕ, ◌=?◌, ◌∷◌,
}
use proxify_vpn.Base.Effects.{Call, attempt, ignoring, succeed, ◌>>=◌, ◌>>◌}
use proxify_vpn.Edge.{Health, Peer}
use proxify_vpn.Edge.Fake.{lookup, put}
use proxify_vpn.Errors.{Result, err, ok}
use proxify_vpn.Model.{PeerAssignment, PeerState, Server, pending, revoking}
use proxify_vpn.Provision.Engine.{peer_of, retry_at}
use proxify_vpn.Provision.Storer.{Service}

abbrev pub batch_size : ℕ
batch_size = 100

abbrev pub expiry_batch : ℕ
expiry_batch = 200

-- `r.bootIDs`: what each server reported last.
abbrev pub BootIds : Type 0
BootIds = List (String × String)

-- A peer of a full sync replaces no key.
abbrev pub synced_peer : PeerAssignment → Peer
synced_peer a = record {
  public_key = a.public_key;
  tunnel_ip = a.tunnel_ip;
  replaces = "";
  revision = a.revision;
}

module _ {S : Type 0} (v : Service S) where
  -- A call that is only logged when it fails.
  abbrev pub logging : {A : Type 0} → Call S A → Call S (Unit {0})
  logging m = ignoring m (succeed tt)

  -- The loop of `sweepExpired`.
  abbrev pub revoke_users : List String → Call S (Unit {0})
  revoke_users [] = succeed tt
  revoke_users (u ∷ users) = logging (v.store.begin_revoke_for_user u) >> revoke_users users

  unfoldable pub sweep_expired : ℕ → Call S (Unit {0})
  sweep_expired limit = v.store.expired_user_ids limit >>= revoke_users

  -- A failure of the edge or of the store is recorded and put off; a success is done.
  abbrev pub or_retry : PeerAssignment → Result (Unit {0}) → Call S (Unit {0})
  or_retry a (ok _) s = succeed tt s
  or_retry a (err e) s =
      logging (v.store.mark_attempt_failed a.id (v.describe e) (retry_at v a.attempts s)) s

  -- The `switch` of `applyOne` on the peer's state.
  abbrev pub push_or_remove : PeerState → PeerAssignment → Server → Call S (Unit {0})
  push_or_remove pending a srv =
      v.edge.apply_peer srv (peer_of a) >> v.store.mark_applied a.id a.revision
  push_or_remove revoking a srv =
      v.edge.remove_peer srv a.public_key >> v.store.mark_revoked a.id a.revision
  push_or_remove _ a srv = succeed tt

  -- `applyOne`
  unfoldable pub apply_one : PeerAssignment → Server → Call S (Unit {0})
  apply_one a srv = attempt (push_or_remove a.state a srv) (or_retry a)

  abbrev pub apply_all : List (PeerAssignment × Server) → Call S (Unit {0})
  apply_all [] = succeed tt
  apply_all ((a, srv) ∷ due) = apply_one a srv >> apply_all due

  unfoldable pub apply_due : ℕ → Call S (Unit {0})
  apply_due limit = v.store.due_assignments limit >>= apply_all

  -- `Once`: an expiry that is noticed now is acted on in the same pass.
  unfoldable pub once : Call S (Unit {0})
  once = sweep_expired expiry_batch >> apply_due batch_size

  abbrev pub confirm_if : PeerState → PeerAssignment → Call S (Unit {0})
  confirm_if pending a = logging (v.store.mark_applied a.id a.revision)
  confirm_if _ a = succeed tt

  abbrev pub confirm_all : List PeerAssignment → Call S (Unit {0})
  confirm_all [] = succeed tt
  confirm_all (a ∷ live) = confirm_if a.state a >> confirm_all live

  -- `Resync`: the full peer set of one server; rows are confirmed only if the box took it.
  unfoldable pub resync : Server → Call S (Unit {0})
  resync srv = do
    live ← v.store.live_peers_for_server srv.id
    _ ← v.edge.sync_peers srv (map synced_peer live)
    confirm_all live

  abbrev pub resync_if_fewer : Server → ℕ → Result (List PeerAssignment) → Call S (Unit {0})
  resync_if_fewer srv reported (err e) = succeed tt
  resync_if_fewer srv reported (ok live) =
      if leb (length live) reported then succeed tt else logging (resync srv)

  -- What a health report leads to: `previous` is the boot id that was known before it. On the first
  -- report after a restart the box is synced only if it lacks peers.
  abbrev pub on_report : Server → Health → Option String → Call S (Unit {0})
  on_report srv h (some previous) =
      if previous =? h.boot_id then succeed tt else logging (resync srv)
  on_report srv h none =
      attempt (v.store.live_peers_for_server srv.id) (resync_if_fewer srv h.peer_count)

  -- One round of the loop of `HealthSweep`. The boot id is remembered before anything is synced.
  abbrev pub sweep_one : Server → Result Health → BootIds → S → BootIds × S
  sweep_one srv (err e) boots s = (boots, s)
  sweep_one srv (ok h) boots s =
      (put srv.id h.boot_id boots, (on_report srv h (lookup srv.id boots) s).1)

  abbrev pub sweep_all : List Server → BootIds → S → BootIds × S
  sweep_all [] boots s = (boots, s)
  sweep_all (srv ∷ list) boots s =
      let (r, s') = v.edge.health srv s in
      let (boots', s₂) = sweep_one srv r boots s' in sweep_all list boots' s₂

  abbrev pub sweep_servers : Result (List Server) → BootIds → S → Result (Unit {0}) × (BootIds × S)
  sweep_servers (err e) boots s = (err e, (boots, s))
  sweep_servers (ok list) boots s = (ok tt, sweep_all list boots s)

  -- `HealthSweep`
  unfoldable pub health_sweep : BootIds → S → Result (Unit {0}) × (BootIds × S)
  health_sweep boots s = let (r, s') = v.store.servers false s in sweep_servers r boots s'
