-- ===== src/Provision/Reconciler/Apply.antt =====
-- `applyOne` of server/internal/provision/reconciler.go on the store's database and the fake boxes.
use proxify_vpn.Base.{Bool, false, none, some, true, ◌+◌, ◌≡◌, ◌⊎◌}
use proxify_vpn.Base.Effects.{Call, attempt, on_ok}
use proxify_vpn.Base.Rows.{Pointwise}
use proxify_vpn.Edge.Fake.{Fake, failure, has_peer}
use proxify_vpn.Errors.{Error, Result, err, ok}
use proxify_vpn.Model.{PeerAssignment, PeerState, Server, active, pending, revoked, revoking}
use proxify_vpn.Provision.Backoff.{backoff}
use proxify_vpn.Provision.Reconciler.{or_retry, push_or_remove}
use proxify_vpn.Provision.Reconciler.Marked.{IsConfirmed, IsPutOff, IsRetired}
use proxify_vpn.World.{World, describe, world_service}

-- The box failed: it keeps its keys, and the attempt is counted and put off by the backoff.
abbrev pub PutOff : PeerAssignment → Server → World → World → Type 0
PutOff a srv w w' =
    (e : Error) × (failure w.boxes srv ≡ some e)
    × Pointwise (IsPutOff (w.now + backoff (a.attempts + 1) w.seed) (describe e) a) w.db.peers
        w'.db.peers
    × (w'.boxes.peers ≡ w.boxes.peers)

-- What a round leaves behind, by the state of the assignment that was read.
abbrev pub Outcome : PeerState → PeerAssignment → Server → World → World → Type 0
Outcome pending a srv w w' =
    ((failure w.boxes srv ≡ none)
      × Pointwise (IsConfirmed a) w.db.peers w'.db.peers
      × (has_peer srv.code a.public_key w'.boxes ≡ true))
    ⊎ PutOff a srv w w'
Outcome revoking a srv w w' =
    ((failure w.boxes srv ≡ none)
      × Pointwise (IsRetired w.now a) w.db.peers w'.db.peers
      × (has_peer srv.code a.public_key w'.boxes ≡ false))
    ⊎ PutOff a srv w w'
Outcome active a srv w w' = w' ≡ w
Outcome revoked a srv w w' = w' ≡ w

abbrev round : PeerState → PeerAssignment → Server → World → World
round st a srv w = (attempt (push_or_remove world_service st a srv) (or_retry world_service a) w).1

-- What the box answered: it took the call and now holds the key or not, or it failed.
abbrev Answer : PeerAssignment → Server → World → Bool → Result (Unit {0}) → Fake → Type 0
Answer a srv w held r f =
    ((failure w.boxes srv ≡ none) × (r ≡ ok tt) × (has_peer srv.code a.public_key f ≡ held))
    ⊎ ((e : Error) × (failure w.boxes srv ≡ some e) × (r ≡ err e) × (f.peers ≡ w.boxes.peers))

abbrev finish : Call World (Unit {0}) → PeerAssignment → World → Result (Unit {0}) → Fake → World
finish mark a w r f =
    (attempt (λ s. on_ok (λ _. mark) r s) (or_retry world_service a) (record w { boxes = f })).1
