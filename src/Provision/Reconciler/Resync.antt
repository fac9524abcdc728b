-- ===== src/Provision/Reconciler/Resync.antt =====
-- `Resync` of server/internal/provision/reconciler.go on the store's database and the fake boxes.
use proxify_vpn.Base.{
  Bool, List, String, [], ap, arith, ltb, map, none, refl, ◌&&◌, ◌=?◌, ◌||◌, ◌∙◌, ◌∷◌, ◌≡◌,
}
use proxify_vpn.Base.Effects.{on_ok}
use proxify_vpn.Base.Rows.{exists_row, exists_row-rows_where, rows_where}
use proxify_vpn.Base.Sorting.{insert_by, sort_by}
use proxify_vpn.Edge.{Peer}
use proxify_vpn.Edge.Fake.{failure, has_peer, sync_peers}
use proxify_vpn.Edge.Fake.Held.{sync_peers-held}
use proxify_vpn.Errors.{Result, err, ok}
use proxify_vpn.Model.{
  PeerAssignment, PeerState, Server, active, is_live, pending, revoked, revoking,
}
use proxify_vpn.Provision.Engine.{new_service}
use proxify_vpn.Provision.Reconciler.{confirm_all, confirm_if, resync, synced_peer}
use proxify_vpn.Store.Db.{PeerRow}
use proxify_vpn.Store.Peers.{live_peers_for_server, scan_peer}
use proxify_vpn.World.{World, world_edge, world_service, world_store}

boxes-confirm_if :
    (st : PeerState) (a : PeerAssignment) (w : World)
    → ((confirm_if world_service st a w).0 ≡ ok tt)
      × ((confirm_if world_service st a w).1.boxes ≡ w.boxes)
unfolding world_service world_store new_service
boxes-confirm_if pending a w = (refl, refl)
boxes-confirm_if active a w = (refl, refl)
boxes-confirm_if revoking a w = (refl, refl)
boxes-confirm_if revoked a w = (refl, refl)

-- Confirming the rows calls no box.
boxes-confirm_all :
    (live : List PeerAssignment) (w : World) → (confirm_all world_service live w).1.boxes ≡ w.boxes
boxes-confirm_all [] w = refl
boxes-confirm_all (a ∷ live) w =
    let (fine, same) = boxes-confirm_if a.state a w in
    rw fine (boxes-confirm_all live (confirm_if world_service a.state a w).1 ∙ same)

-- The rows that a server should serve with this key.
abbrev pub is_wanted_on : String → String → PeerRow → Bool
is_wanted_on server_id key r = (r.server_id =? server_id && is_live r.state) && r.public_key =? key

exists_row-map :
    {A B : Type 0} (f : A → B) (q : B → Bool) (xs : List A)
    → exists_row q (map f xs) ≡ exists_row (λ x. q (f x)) xs
exists_row-map f q [] = refl
exists_row-map f q (x ∷ xs) = ground (arith, exists_row-map f q xs)

exists_row-insert_by :
    {A : Type 0} (before : A → A → Bool) (q : A → Bool) (x : A) (ys : List A)
    → exists_row q (insert_by before x ys) ≡ (q x || exists_row q ys)
exists_row-insert_by before q x [] = refl
exists_row-insert_by before q x (y ∷ ys) = ground (arith, exists_row-insert_by before q x ys)

pub exists_row-sort_by :
    {A : Type 0} (before : A → A → Bool) (q : A → Bool) (xs : List A)
    → exists_row q (sort_by before xs) ≡ exists_row q xs
exists_row-sort_by before q [] = refl
exists_row-sort_by before q (x ∷ xs) =
    ground
      (arith, exists_row-insert_by before q x (sort_by before xs), exists_row-sort_by before q xs)

wanted_peers :
    (server_id key : String) (rows : List PeerRow)
    → exists_row (λ p. p.public_key =? key) (map synced_peer (live_peers_for_server server_id rows))
      ≡ exists_row (is_wanted_on server_id key) rows
unfolding live_peers_for_server scan_peer
wanted_peers server_id key rows =
    exists_row-map synced_peer (λ p. p.public_key =? key) (live_peers_for_server server_id rows)
    ∙ exists_row-map scan_peer (λ a. a.public_key =? key) (sort_by by_address here)
    ∙ exists_row-sort_by by_address (λ r. r.public_key =? key) here
    ∙ exists_row-rows_where (λ r. r.public_key =? key) _ rows
  where
    by_address : PeerRow → PeerRow → Bool
    by_address a b = ltb a.tunnel_ip b.tunnel_ip

    here : List PeerRow
    here = rows_where (λ r. r.server_id =? server_id && is_live r.state) rows

-- A resync of a box that answers leaves on it the keys of the server's pending and active rows, and
-- no other key.
pub resync-exact :
    (srv : Server) (w : World) (key : String)
    → failure w.boxes srv ≡ none
    → has_peer srv.code key (resync world_service srv w).1.boxes
      ≡ exists_row (is_wanted_on srv.id key) w.db.peers
unfolding resync world_service world_store world_edge new_service
resync-exact srv w key up =
    ap (has_peer srv.code key) (untouched (sync_peers srv pushed w.boxes).0 answer.0)
    ∙ answer.1
    ∙ wanted_peers srv.id key w.db.peers
  where
    live : List PeerAssignment
    live = live_peers_for_server srv.id w.db.peers

    pushed : List Peer
    pushed = map synced_peer live

    answer :
        ((sync_peers srv pushed w.boxes).0 ≡ ok tt)
        × (has_peer srv.code key (sync_peers srv pushed w.boxes).1
            ≡ exists_row (λ p. p.public_key =? key) pushed)
    answer = sync_peers-held srv pushed w.boxes key up

    w' : World
    w' = record w { boxes = (sync_peers srv pushed w.boxes).1 }

    untouched :
        (r : Result (Unit {0}))
        → r ≡ ok tt
        → (on_ok (λ _. confirm_all world_service live) r w').1.boxes ≡ w'.boxes
    untouched (ok u) e = boxes-confirm_all live w'
    untouched (err x) e = absurd cc
