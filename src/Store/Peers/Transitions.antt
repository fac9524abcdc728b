-- ===== src/Store/Peers/Transitions.antt =====
-- The life of one row, as the comment on peer_assignments in server/migrations/0001_init.sql draws it.
use proxify_vpn.Base.{
  Bool, Bool-cases, List, String, [], ap, arith, false, inl, inr, refl, some, true, ℕ, ◌=?◌, ◌∙◌,
  ◌∷◌, ◌≡◌, ◌≤◌, ◌⊎◌,
}
use proxify_vpn.Base.Rows.{
  All-true, change, exists_row-All, find_row, find_row-All, find_row-test, find_row-update_where,
  update_where,
}
use proxify_vpn.Errors.{Result}
use proxify_vpn.Model.{PeerAssignment, PeerState, active, is_held, pending, revoked, revoking}
use proxify_vpn.Store.Db.{PeerRow}
use proxify_vpn.Store.Peers.{
  applied_row, awaits, awaits_removal, begin_revoke, begin_revoke_for_device, begin_revoke_for_user,
  begin_revoke_other_servers, belongs_to, clash, failed_row, is_assignment_of, live_and,
  mark_applied, mark_attempt_failed, mark_revoked, mark_server_peers_stale, new_row, on_device,
  on_other_server, on_server, revoked_row, rotate_row, stale_row,
}
use proxify_vpn.Store.Peers.Ensure.{
  Ensured, created, ensure_assignment-Ensured, errored, kept, rotated,
}
use proxify_vpn.Store.Peers.Invariant.{NoClash, same_id-held}
use proxify_vpn.Store.Peers.Machine.{
  PeerCall, applies, drops_device, drops_others, drops_user, ensures, fails, peer_run, peer_step,
  peer_step-NoClash, revokes, stales,
}

-- What a row's state may become in one statement.
abbrev pub may_become : PeerState → PeerState → Bool
may_become pending revoked = false
may_become pending _ = true
may_become active revoked = false
may_become active _ = true
may_become revoking active = false
may_become revoking _ = true
may_become revoked revoked = true
may_become revoked _ = false

abbrev pub by_id : String → PeerRow → Bool
by_id id r = r.id =? id

pub record Follows (r s : PeerRow) : Type 0 where
  pub edge : may_become r.state s.state ≡ true
  pub forward : r.revision ≤ s.revision
  pub same_ip : s.tunnel_ip ≡ r.tunnel_ip

abbrev pub Next : String → PeerRow → List PeerRow → Type 0
Next id r rows = (s : PeerRow) × (find_row (by_id id) rows ≡ some s) × Follows r s

Follows-refl : (r : PeerRow) → Follows r r
Follows-refl r =
    elim r.state as (λ st. st ≡ r.state → Follows r r) [
      | pending ↦ λ e. ground arith
      | active ↦ λ e. ground arith
      | revoking ↦ λ e. ground arith
      | revoked ↦ λ e. ground arith
    ]
      refl

module _ (p : PeerRow → Bool) (f : PeerRow → PeerRow) (id : String) where
  update-Next :
      (rows : List PeerRow) (r : PeerRow)
      → ((x : PeerRow) → (f x).id ≡ x.id)
      → (p r ≡ true → Follows r (f r))
      → find_row (by_id id) rows ≡ some r
      → Next id r (update_where p f rows)
  update-Next rows r same next found = (
    change p f r,
    find_row-update_where (by_id id) p f rows r
        (All-true rows (λ x hit. ap (λ k. k =? id) (same x))) found,
    follow (Bool-cases (p r)),
  )
    where
      follow : (p r ≡ true) ⊎ (p r ≡ false) → Follows r (change p f r)
      follow (inl hit) = rw hit (next hit)
      follow (inr miss) = rw miss (Follows-refl r)

Ensured-Next :
    (now : ℕ) (fresh_id device_id server_id key id : String) (rows : List PeerRow) (r : PeerRow)
    {x : Result PeerAssignment × List PeerRow}
    → Ensured now fresh_id device_id server_id key rows x
    → NoClash rows
    → find_row (by_id id) rows ≡ some r
    → Next id r x.1
Ensured-Next now f d s key id rows r (errored e) h found = (r, found, Follows-refl r)
Ensured-Next now f d s key id rows r (kept p old same live) h found = (r, found, Follows-refl r)
Ensured-Next now f d s key id rows r (rotated p old new) h found =
    update-Next (λ x. x.id =? p.id) (rotate_row now key) id rows r (λ x. refl)
      (λ hit. restart (not_revoked hit)) found
  where
    held : is_held p.state ≡ true
    held = ground (arith, find_row-test (is_assignment_of d s) rows p old)

    not_revoked : (r.id =? p.id) ≡ true → is_held r.state ≡ true
    not_revoked =
        find_row-All (λ x. (x.id =? p.id) ≡ true → is_held x.state ≡ true) (by_id id) rows
          (same_id-held (is_assignment_of d s) rows p h old held) found

    restart : is_held r.state ≡ true → Follows r (rotate_row now key r)
    restart h = ground arith
Ensured-Next now f d s key id rows r (created ip missing free fresh) h found =
    (r, behind, Follows-refl r)
  where
    other : (f =? r.id) ≡ false
    other =
        let no_clash = exists_row-All (clash (new_row now f d s key ip)) rows fresh in
        let apart =
          find_row-All (λ x. clash (new_row now f d s key ip) x ≡ false) (by_id id) rows no_clash
            found in
        ground arith

    behind : find_row (by_id id) (new_row now f d s key ip ∷ rows) ≡ some r
    behind = ground (arith, other, find_row-test (by_id id) rows r found)

-- One statement takes a row along an edge of the diagram: the reconciler's two edges, a revocation,
-- a restart, or none. Its revision never falls and its address stays.
pub peer_step-Next :
    (c : ℕ × PeerCall) (id : String) (rows : List PeerRow) (r : PeerRow)
    → NoClash rows
    → find_row (by_id id) rows ≡ some r
    → Next id r (peer_step c rows)
unfolding peer_step mark_applied mark_revoked mark_attempt_failed begin_revoke_for_user
    begin_revoke_for_device begin_revoke_other_servers mark_server_peers_stale
peer_step-Next (now, ensures f d s key servers) id rows r h found =
    Ensured-Next now f d s key id rows r (ensure_assignment-Ensured now f d s key rows servers) h
      found
peer_step-Next (now, applies k revision) id rows r h found =
    update-Next (awaits k revision) (applied_row now revision) id rows r (λ x. refl)
      (λ hit. ground arith) found
peer_step-Next (now, revokes k revision) id rows r h found =
    update-Next (awaits_removal k revision) (revoked_row now revision) id rows r (λ x. refl)
      (λ hit. ground arith) found
peer_step-Next (now, fails k cause at) id rows r h found =
    update-Next (λ x. x.id =? k) (failed_row now cause at) id rows r (λ x. refl)
      (λ hit. still (Follows-refl r)) found
  where
    still : Follows r r → Follows r (failed_row now cause at r)
    still f = record { edge = f.edge; forward = f.forward; same_ip = refl }
peer_step-Next (now, drops_user u devices) id rows r h found =
    update-Next (live_and (belongs_to u devices)) (begin_revoke now) id rows r (λ x. refl)
      (λ hit. ground arith) found
peer_step-Next (now, drops_device d) id rows r h found =
    update-Next (live_and (on_device d)) (begin_revoke now) id rows r (λ x. refl)
      (λ hit. ground arith) found
peer_step-Next (now, drops_others d keep) id rows r h found =
    update-Next (live_and (on_other_server d keep)) (begin_revoke now) id rows r (λ x. refl)
      (λ hit. ground arith) found
peer_step-Next (now, stales s) id rows r h found =
    update-Next (live_and (on_server s)) (stale_row now) id rows r (λ x. refl) (λ hit. ground arith)
      found

-- `revoked` is terminal and the revision only grows: after any statements the row is still there
-- under its id, with the same address, and revoked if it was.
pub peer_run-terminal :
    (cs : List (ℕ × PeerCall)) (id : String) (rows : List PeerRow) (r : PeerRow)
    → NoClash rows
    → find_row (by_id id) rows ≡ some r
    → (s : PeerRow) × (find_row (by_id id) (peer_run cs rows) ≡ some s)
      × (r.revision ≤ s.revision)
      × (s.tunnel_ip ≡ r.tunnel_ip)
      × ((is_held r.state ≡ true) ⊎ (s.state ≡ revoked))
unfolding peer_run
peer_run-terminal [] id rows r h found = (r, found, omega arith, refl, ground arith)
peer_run-terminal (c ∷ cs) id rows r h found =
    let (s, next, f) = peer_step-Next c id rows r h found in
    let (t, last, forward, same, end) =
      peer_run-terminal cs id (peer_step c rows) s (peer_step-NoClash c rows h) next in
    (t, last, ground arith, same ∙ f.same_ip, ground arith)
