-- ===== src/Provision/Reconciler/Expiry.antt =====
-- `sweepExpired` of server/internal/provision/reconciler.go on the store's database.
use proxify_vpn.Base.{
  =?-eq, Bool-cases, List, String, [], arith, false, inl, inr, length, refl, subst, sym, true, ℕ,
  ◌=?◌, ◌∷◌, ◌≡◌, ◌≤◌, ◌⊎◌,
}
use proxify_vpn.Base.Rows.{change, exists_row, listed}
use proxify_vpn.Model.{Device}
use proxify_vpn.Provision.Engine.{new_service}
use proxify_vpn.Provision.Reconciler.{revoke_users, sweep_expired}
use proxify_vpn.Store.Db.{PeerRow}
use proxify_vpn.Store.Peers.{begin_revoke, begin_revoke_for_user, belongs_to, live_and}
use proxify_vpn.Store.Subscriptions.{expired_user_ids, is_current}
use proxify_vpn.Store.Subscriptions.Expired.{expired_user_ids_complete, holds_peer, lapsed}
use proxify_vpn.World.{World, world_service, world_store}

revoked_for : ℕ → String → List Device → PeerRow → PeerRow
revoked_for now k devices r = change (live_and (belongs_to k devices)) (begin_revoke now) r

clears :
    (now : ℕ) (u : String) (devices : List Device) (peers : List PeerRow)
    → holds_peer devices (begin_revoke_for_user now u devices peers).1 u ≡ false
unfolding begin_revoke_for_user
clears now u devices [] = refl
clears now u devices (r ∷ peers) = elim (Bool-cases (belongs_to u devices r)) [
  | inl theirs ↦ ground (arith, clears now u devices peers)
  | inr other ↦ ground (arith, clears now u devices peers)
]

keeps_clear :
    (now : ℕ) (u k : String) (devices : List Device) (peers : List PeerRow)
    → holds_peer devices peers u ≡ false
    → holds_peer devices (begin_revoke_for_user now k devices peers).1 u ≡ false
unfolding begin_revoke_for_user
keeps_clear now u k devices [] h = refl
keeps_clear now u k devices (r ∷ peers) h = elim (Bool-cases (belongs_to k devices r)) [
  | inl theirs ↦ ground (arith, keeps_clear now u k devices peers)
  | inr other ↦ ground (arith, keeps_clear now u k devices peers)
]

-- The user holds no live peer.
abbrev pub IsClear : String → World → Type 0
IsClear u w = holds_peer w.db.devices w.db.peers u ≡ false

abbrev revoke_one : String → World → World
revoke_one k w = (world_service.store.begin_revoke_for_user k w).1

revoke_one-IsClear :
    (u k : String) (w : World) → (IsClear u w) ⊎ (k ≡ u) → IsClear u (revoke_one k w)
unfolding world_service world_store new_service
revoke_one-IsClear u k w (inl clear) = keeps_clear w.now u k w.db.devices w.db.peers clear
revoke_one-IsClear u k w (inr same) =
    subst (λ x. IsClear u (revoke_one x w)) (sym same) (clears w.now u w.db.devices w.db.peers)

revoke_users-IsClear :
    (u : String) (users : List String) (w : World)
    → (IsClear u w) ⊎ (listed u users ≡ true)
    → IsClear u (revoke_users world_service users w).1
revoke_users-IsClear u [] w (inl clear) = clear
revoke_users-IsClear u [] w (inr h) = absurd cc
revoke_users-IsClear u (k ∷ users) w h = revoke_users-IsClear u users (revoke_one k w) (step h)
  where
    step :
        (IsClear u w) ⊎ (listed u (k ∷ users) ≡ true)
        → (IsClear u (revoke_one k w)) ⊎ (listed u users ≡ true)
    step (inl clear) = inl (revoke_one-IsClear u k w (inl clear))
    step (inr h) = elim (Bool-cases (k =? u)) [
      | inl same ↦ inl (revoke_one-IsClear u k w (inr (=?-eq k u same)))
      | inr other ↦ inr (ground arith)
    ]

-- Once the sweep has passed over a batch that holds them all, no user without a block that covers
-- now has a pending or active peer.
pub sweep_expired-IsClear :
    (w : World) (limit : ℕ) (u : String)
    → length (lapsed w.now w.db.devices w.db.peers w.db.subscriptions) ≤ limit
    → exists_row (is_current u w.now) w.db.subscriptions ≡ false
    → IsClear u (sweep_expired world_service limit w).1
unfolding world_service world_store new_service sweep_expired
sweep_expired-IsClear w limit u room out = revoke_users-IsClear u users w (found (Bool-cases _))
  where
    users : List String
    users = expired_user_ids w.now limit w.db.devices w.db.peers w.db.subscriptions

    found :
        (holds_peer w.db.devices w.db.peers u ≡ true) ⊎ (IsClear u w)
        → (IsClear u w) ⊎ (listed u users ≡ true)
    found (inl holds) = inr (
        expired_user_ids_complete w.now limit w.db.devices w.db.peers w.db.subscriptions u room
          holds out)
    found (inr clear) = inl clear
