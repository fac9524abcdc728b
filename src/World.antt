-- ===== src/World.antt =====
-- The world that the control plane runs in: the database behind `Store`, the boxes of the fake
-- client, the clock, the ids that `gen_random_uuid` gives, and the draws of `rand`. It fills the
-- interfaces `Storer` and `EdgeClient`.
use proxify_vpn.Store
use proxify_vpn.Edge
use proxify_vpn.Base.{Bool, List, String, false, suc, ℕ}
use proxify_vpn.Base.Effects.{Call}
use proxify_vpn.Base.Text.{show_number, text_before, ◌<>◌}
use proxify_vpn.Edge.{EdgeClient}
use proxify_vpn.Edge.Fake.{Fake, apply_peer, health, remove_peer, sync_peers}
use proxify_vpn.Errors.{Error, Result, noted, ok, sentinel, sentinel_code, text, wrapped}
use proxify_vpn.Provision.Engine.{new_service}
use proxify_vpn.Provision.Storer.{Service, Storer}
use proxify_vpn.Store.Db.{Db, PeerRow}
use proxify_vpn.Store.Devices.{device_by_id, devices_by_user}
use proxify_vpn.Store.Peers.{
  assignments_for_device, begin_revoke_for_device, begin_revoke_for_user,
  begin_revoke_other_servers, ensure_assignment, live_peers_for_server, mark_applied,
  mark_attempt_failed, mark_revoked, mark_server_peers_stale,
}
use proxify_vpn.Store.Servers.{due_assignments, server_by_code, server_by_id, servers}
use proxify_vpn.Store.Subscriptions.{entitlement, expired_user_ids}

pub record World : Type 0 where
  pub db : Db
  pub boxes : Fake
  pub now : ℕ
  pub ids : ℕ
  pub seed : ℕ

abbrev pub fresh_id : World → String
fresh_id w = "id-" <> show_number w.ids

-- A query that only reads.
abbrev pub reading : {A : Type 0} → (World → Result A) → Call World A
reading f w = (f w, w)

-- A statement on one table.
abbrev pub with_peers : {A : Type 0} → (World → Result A × List PeerRow) → Call World A
with_peers f w = ((f w).0, record w { db = record w.db { peers = (f w).1 } })

abbrev pub counted : ℕ × List PeerRow → Result ℕ × List PeerRow
counted (n, rows) = (ok n, rows)

abbrev pub done : List PeerRow → Result (Unit {0}) × List PeerRow
done rows = (ok tt, rows)

abbrev pub no_lock : PeerRow → Bool
no_lock r = false

-- The store's methods, on a database that is never down.
unfoldable pub world_store : Storer World
world_store = record {
  entitlement = λ u.
      reading (λ w. ok (Store.Subscriptions.entitlement w.now u w.db.plans w.db.subscriptions));
  device_by_id = λ d. reading (λ w. Store.Devices.device_by_id d w.db.devices);
  devices_by_user = λ u. reading (λ w. ok (Store.Devices.devices_by_user u w.db.devices));
  servers = λ b. reading (λ w. ok (Store.Servers.servers text_before b w.db.servers w.db.peers));
  server_by_code = λ c. reading (λ w. Store.Servers.server_by_code c w.db.servers w.db.peers);
  server_by_id = λ k. reading (λ w. Store.Servers.server_by_id k w.db.servers w.db.peers);
  ensure_assignment = λ d k key w.
      with_peers
        (λ v. Store.Peers.ensure_assignment v.now (fresh_id v) d k key v.db.servers v.db.peers)
        (record w { ids = suc w.ids });
  mark_applied = λ a r. with_peers (λ w. done (Store.Peers.mark_applied w.now a r w.db.peers));
  mark_revoked = λ a r. with_peers (λ w. done (Store.Peers.mark_revoked w.now a r w.db.peers));
  mark_attempt_failed =
      λ a c t. with_peers (λ w. done (Store.Peers.mark_attempt_failed w.now a c t w.db.peers));
  begin_revoke_for_user = λ u.
      with_peers (λ w. counted (Store.Peers.begin_revoke_for_user w.now u w.db.devices w.db.peers));
  begin_revoke_for_device =
      λ d. with_peers (λ w. counted (Store.Peers.begin_revoke_for_device w.now d w.db.peers));
  begin_revoke_other_servers = λ d k.
      with_peers (λ w. counted (Store.Peers.begin_revoke_other_servers w.now d k w.db.peers));
  due_assignments = λ n.
      reading (λ w. ok (Store.Servers.due_assignments w.now n no_lock w.db.servers w.db.peers));
  live_peers_for_server = λ k. reading (λ w. ok (Store.Peers.live_peers_for_server k w.db.peers));
  mark_server_peers_stale =
      λ k. with_peers (λ w. counted (Store.Peers.mark_server_peers_stale w.now k w.db.peers));
  expired_user_ids = λ n. reading (λ w.
      ok (Store.Subscriptions.expired_user_ids w.now n w.db.devices w.db.peers w.db.subscriptions));
  assignments_for_device = λ d. reading (λ w. ok (Store.Peers.assignments_for_device d w.db.peers));
}

abbrev pub on_boxes : {A : Type 0} → (Fake → Result A × Fake) → Call World A
on_boxes f w = ((f w.boxes).0, record w { boxes = (f w.boxes).1 })

unfoldable pub world_edge : EdgeClient World
world_edge = record {
  apply_peer = λ srv p. on_boxes (Edge.Fake.apply_peer srv p);
  remove_peer = λ srv key. on_boxes (Edge.Fake.remove_peer srv key);
  sync_peers = λ srv peers. on_boxes (Edge.Fake.sync_peers srv peers);
  health = λ srv. on_boxes (Edge.Fake.health srv);
}

abbrev pub describe : Error → String
describe (sentinel s) = "error " <> show_number (sentinel_code s)
describe (text m) = m
describe (wrapped m e) = m <> ": " <> describe e
describe (noted e note) = describe e <> ": " <> describe note

unfoldable pub world_service : Service World
unfolding new_service
world_service = new_service world_store world_edge (λ w. w.now) (λ w. w.seed) describe
