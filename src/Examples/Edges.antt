-- ===== src/Examples/Edges.antt =====
-- The theorems of `Provision/Reconciler`, `Edge/Fake` and `Api` at concrete inputs.
use proxify_vpn.Api.RateLimit.{allow, new_rate_limiter}
use proxify_vpn.Api.RateLimit.Bound.{admitted, allow-limit}
use proxify_vpn.Base.{
  All, List, String, String_discrete, [], arith, false, greatest, refl, true, ℕ, ◌∷◌, ◌≡◌, ◌≤◌,
}
use proxify_vpn.Base.Rows.{exists_row}
use proxify_vpn.Edge.Fake.{apply_peer, failure, has_peer}
use proxify_vpn.Examples.Data.{first_row, lagos, lapsed_world, up}
use proxify_vpn.Model.{PeerAssignment, is_active}
use proxify_vpn.Provision.Reconciler.{apply_due, apply_one, resync, sweep_expired}
use proxify_vpn.Provision.Reconciler.Batch.{apply_due-settles}
use proxify_vpn.Provision.Reconciler.Expiry.{IsClear, sweep_expired-IsClear}
use proxify_vpn.Provision.Reconciler.Resync.{is_wanted_on, resync-exact}
use proxify_vpn.Provision.Reconciler.Settled.{is_due, times}
use proxify_vpn.Store.Peers.{mark_applied, scan_peer}
use proxify_vpn.Store.Subscriptions.{live_owners, owners_of}
use proxify_vpn.World.{World, world_edge, world_service, world_store}

abbrev first_peer : PeerAssignment
first_peer = scan_peer first_row

abbrev waiting : World
waiting = record up { db = record up.db { peers = first_row ∷ [] } }

-- With the box up the row goes live, and with the box down it is put off.
apply_one_test :
    (exists_row
        (λ r. is_active r.state)
        (apply_one world_service first_peer lagos waiting).1.db.peers
      ≡ true)
    × (has_peer "ng-los-1" "key-1" (apply_one world_service first_peer lagos waiting).1.boxes
        ≡ true)
unfolding apply_one scan_peer world_service world_edge apply_peer failure world_store mark_applied
    String_discrete has_peer
apply_one_test = (refl, refl)

resync-exact_example :
    has_peer "ng-los-1" "key-1" (resync world_service lagos lapsed_world).1.boxes
    ≡ exists_row (is_wanted_on "s1" "key-1") lapsed_world.db.peers
unfolding failure
resync-exact_example = resync-exact lagos lapsed_world "key-1" refl

sweep_expired-IsClear_example : IsClear "u1" (sweep_expired world_service 200 lapsed_world).1
unfolding live_owners owners_of String_discrete
sweep_expired-IsClear_example = sweep_expired-IsClear lapsed_world 200 "u1" (omega arith) refl

abbrev attempts : List (ℕ × String)
attempts = (100, "a@b.ng") ∷ (101, "x@y.ng") ∷ (102, "a@b.ng") ∷ (103, "a@b.ng") ∷ []

allow-limit_example : admitted "a@b.ng" attempts (new_rate_limiter 2 60) ≤ greatest 1 2
unfolding String_discrete
allow-limit_example = allow-limit "a@b.ng" 100 attempts (new_rate_limiter 2 60) refl refl (
  (omega arith, omega arith),
  ((omega arith, omega arith), ((omega arith, omega arith), ((omega arith, omega arith), tt))),
)

-- Two of the three attempts go through.
allow_test : admitted "a@b.ng" attempts (new_rate_limiter 2 60) ≡ 2
unfolding admitted String_discrete allow
allow_test = refl

apply_due-settles_example :
    All (λ r. is_due 10 r ≡ false) (apply_due world_service 100 waiting).1.db.peers
    × (times (apply_due world_service 100 waiting).1.db.peers ≡ times waiting.db.peers)
unfolding failure String_discrete
apply_due-settles_example = apply_due-settles waiting 100 (λ srv. refl) (refl, tt) (omega arith)

-- Before the pass that row is due.
is_due_test : is_due 10 first_row ≡ true
is_due_test = refl
