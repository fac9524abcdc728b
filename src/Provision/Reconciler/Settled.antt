-- ===== src/Provision/Reconciler/Settled.antt =====
-- The rounds of `applyDue` of server/internal/provision/reconciler.go on boxes that answer.
use mathlib.Core.Path.{ap₂}
use proxify_vpn.Base.{
  All, All-map, Bool, Bool-cases, List, [], ap, arith, false, inl, inr, leb, map, none, refl, subst,
  sym, true, ℕ, ◌&&◌, ◌=?◌, ◌∙◌, ◌∷◌, ◌≡◌, ◌⊎◌,
}
use proxify_vpn.Base.Effects.{Call, attempt, on_ok}
use proxify_vpn.Base.Rows.{change, exists_row, update_where}
use proxify_vpn.Edge.Fake.{Fake, failure}
use proxify_vpn.Edge.Fake.Held.{apply_peer-up, remove_peer-up}
use proxify_vpn.Errors.{Result, ok}
use proxify_vpn.Model.{
  PeerAssignment, PeerState, Server, active, is_pending, is_queued, is_revoking, pending, revoked,
  revoking,
}
use proxify_vpn.Provision.Engine.{new_service, peer_of}
use proxify_vpn.Provision.Reconciler.{apply_all, apply_one, or_retry, push_or_remove}
use proxify_vpn.Store.Db.{PeerRow}
use proxify_vpn.Store.Peers.{
  applied_row, awaits, awaits_removal, mark_applied, mark_revoked, revoked_row,
}
use proxify_vpn.World.{World, world_edge, world_service, world_store}

abbrev pub is_due : ℕ → PeerRow → Bool
is_due now r = is_queued r.state && leb r.next_attempt_at now

abbrev pub same_state : PeerState → PeerState → Bool
same_state pending s = is_pending s
same_state revoking s = is_revoking s
same_state _ s = false

-- The assignment that was read is about this row's current desired state.
abbrev pub covers : PeerAssignment → PeerRow → Bool
covers a r = a.id =? r.id && (same_state a.state r.state && leb r.revision a.revision)

abbrev pub covered : List (PeerAssignment × Server) → PeerRow → Bool
covered due r = exists_row (λ p. covers p.0 r) due

-- The row is not due, or it is still to be worked on.
abbrev pub Waits : ℕ → List (PeerAssignment × Server) → PeerRow → Type 0
Waits now due r = (is_due now r ≡ false) ⊎ (covered due r ≡ true)

-- The boxes answer, and the clock stands at `now`.
abbrev pub IsUp : ℕ → World → Type 0
IsUp now w = (w.now ≡ now) × ((srv : Server) → failure w.boxes srv ≡ none)

Waits-applied :
    (now at : ℕ) (a : PeerAssignment) (srv : Server) (due : List (PeerAssignment × Server))
    (r : PeerRow)
    → a.state ≡ pending
    → Waits now ((a, srv) ∷ due) r
    → Waits now due (change (awaits a.id a.revision) (applied_row at a.revision) r)
Waits-applied now at a srv due r st h = ground arith

Waits-revoked :
    (now at : ℕ) (a : PeerAssignment) (srv : Server) (due : List (PeerAssignment × Server))
    (r : PeerRow)
    → a.state ≡ revoking
    → Waits now ((a, srv) ∷ due) r
    → Waits now due (change (awaits_removal a.id a.revision) (revoked_row at a.revision) r)
Waits-revoked now at a srv due r st h = ground arith

Waits-other :
    (now : ℕ) (a : PeerAssignment) (srv : Server) (due : List (PeerAssignment × Server))
    (r : PeerRow)
    → is_queued a.state ≡ false
    → Waits now ((a, srv) ∷ due) r
    → Waits now due r
Waits-other now a srv due r st h = ground arith

All-change :
    {P : PeerRow → Type 0} (Q : PeerRow → Type 0) (p : PeerRow → Bool) (f : PeerRow → PeerRow)
    (rows : List PeerRow)
    → ((r : PeerRow) → P r → Q (change p f r))
    → All P rows
    → All Q (update_where p f rows)
All-change Q p f [] step h = tt
All-change Q p f (r ∷ rows) step h = (step r h.0, All-change Q p f rows step h.1)

-- When each row is to be worked on.
abbrev pub times : List PeerRow → List ℕ
times rows = map (λ r. r.next_attempt_at) rows

times-update :
    (p : PeerRow → Bool) (f : PeerRow → PeerRow) (rows : List PeerRow)
    → ((r : PeerRow) → (f r).next_attempt_at ≡ r.next_attempt_at)
    → times (update_where p f rows) ≡ times rows
times-update p f [] same = refl
times-update p f (r ∷ rows) same = elim (Bool-cases (p r)) [
  | inl hit ↦ rw hit (ap₂ ◌∷◌ (same r) (times-update p f rows same))
  | inr miss ↦ rw miss (ap (λ xs. r.next_attempt_at ∷ xs) (times-update p f rows same))
]

-- A round that came off: it failed at nothing, and the rest of the batch is still all there is to do.
abbrev Progress : ℕ → List (PeerAssignment × Server) → World → Result (Unit {0}) × World → Type 0
Progress now due w x =
    (x.0 ≡ ok tt)
    × (IsUp now x.1 × (All (Waits now due) x.1.db.peers × (times x.1.db.peers ≡ times w.db.peers)))

module _ (now : ℕ) (a : PeerAssignment) (srv : Server) (due : List (PeerAssignment × Server))
    (w : World) (answers : IsUp now w) (waits : All (Waits now ((a, srv) ∷ due)) w.db.peers) where
  -- What follows the edge's answer.
  abbrev after_edge : Call World (Unit {0}) → Result (Unit {0}) × Fake → Result (Unit {0}) × World
  after_edge mark x =
      attempt (λ s. on_ok (λ _. mark) x.0 s) (or_retry world_service a) (record w { boxes = x.1 })

  Progress-pending :
      a.state ≡ pending
      → Progress now due w
          (attempt (push_or_remove world_service pending a srv) (or_retry world_service a) w)
  unfolding world_service world_store world_edge new_service failure mark_applied
  Progress-pending st =
      subst
        (λ x. Progress now due w (after_edge (world_service.store.mark_applied a.id a.revision) x))
        (sym (apply_peer-up srv (peer_of a) w.boxes (answers.1 srv)))
        (refl, ((answers.0, λ o. answers.1 o), (settled, kept_times)))
    where
      settled :
          All
            (Waits now due)
            (update_where (awaits a.id a.revision) (applied_row w.now a.revision) w.db.peers)
      settled =
          All-change (Waits now due) (awaits a.id a.revision) (applied_row w.now a.revision)
            w.db.peers (λ r h. Waits-applied now w.now a srv due r st h) waits

      kept_times :
          times (update_where (awaits a.id a.revision) (applied_row w.now a.revision) w.db.peers)
          ≡ times w.db.peers
      kept_times =
          times-update (awaits a.id a.revision) (applied_row w.now a.revision) w.db.peers
            (λ r. refl)

  Progress-revoking :
      a.state ≡ revoking
      → Progress now due w
          (attempt (push_or_remove world_service revoking a srv) (or_retry world_service a) w)
  unfolding world_service world_store world_edge new_service failure mark_revoked
  Progress-revoking st =
      subst
        (λ x. Progress now due w (after_edge (world_service.store.mark_revoked a.id a.revision) x))
        (sym (remove_peer-up srv a.public_key w.boxes (answers.1 srv)))
        (refl, ((answers.0, λ o. answers.1 o), (settled, kept_times)))
    where
      settled :
          All (Waits now due) (
            update_where (awaits_removal a.id a.revision) (revoked_row w.now a.revision) w.db.peers)
      settled =
          All-change (Waits now due) (awaits_removal a.id a.revision) (revoked_row w.now a.revision)
            w.db.peers (λ r h. Waits-revoked now w.now a srv due r st h) waits

      kept_times :
          times (
            update_where (awaits_removal a.id a.revision) (revoked_row w.now a.revision) w.db.peers)
          ≡ times w.db.peers
      kept_times =
          times-update (awaits_removal a.id a.revision) (revoked_row w.now a.revision) w.db.peers
            (λ r. refl)

  Progress-other : is_queued a.state ≡ false → Progress now due w (ok tt, w)
  Progress-other st = (
    refl,
    (answers, (All-map _ _ w.db.peers (λ r h. Waits-other now a srv due r st h) waits, refl)),
  )

  Progress-state :
      (st : PeerState)
      → a.state ≡ st
      → Progress now due w
          (attempt (push_or_remove world_service st a srv) (or_retry world_service a) w)
  Progress-state pending e = Progress-pending e
  Progress-state revoking e = Progress-revoking e
  Progress-state active e = Progress-other (rw e refl)
  Progress-state revoked e = Progress-other (rw e refl)

  progress : Progress now due w (apply_one world_service a srv w)
  unfolding apply_one
  progress = Progress-state a.state refl

pub apply_all-settles :
    (now : ℕ) (due : List (PeerAssignment × Server)) (w : World)
    → IsUp now w
    → All (Waits now due) w.db.peers
    → All (Waits now []) (apply_all world_service due w).1.db.peers
      × (times (apply_all world_service due w).1.db.peers ≡ times w.db.peers)
apply_all-settles now [] w answers waits = (waits, refl)
apply_all-settles now ((a, srv) ∷ due) w answers waits =
    let (fine, (answers', (waits', same))) = progress now a srv due w answers waits in
    let (settled, same') =
      apply_all-settles now due (apply_one world_service a srv w).1 answers' waits' in
    rw fine (settled, same' ∙ same)
