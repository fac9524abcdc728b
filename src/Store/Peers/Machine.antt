-- ===== src/Store/Peers/Machine.antt =====
-- Any sequence of the statements of server/internal/store/peers.go, by any callers and at any times,
-- with the arguments that each was given. The servers and devices tables are those of each call.
use proxify_vpn.Base.{
  All, All-map, Bool, Bool-cases, List, String, [], arith, inl, inr, refl, true, ℕ, ◌=?◌, ◌∷◌, ◌≡◌,
}
use proxify_vpn.Base.Rows.{All-update_where, change, exists_row-All, find_row-test, update_where}
use proxify_vpn.Errors.{Result}
use proxify_vpn.Model.{Device, PeerAssignment, Server, is_held}
use proxify_vpn.Store.Db.{PeerRow}
use proxify_vpn.Store.Peers.{
  applied_row, awaits, awaits_removal, begin_revoke, begin_revoke_for_device, begin_revoke_for_user,
  begin_revoke_other_servers, belongs_to, clash, ensure_assignment, failed_row, is_assignment_of,
  live_and, mark_applied, mark_attempt_failed, mark_revoked, mark_server_peers_stale, new_row,
  on_device, on_other_server, on_server, revoked_row, rotate_row, stale_row,
}
use proxify_vpn.Store.Peers.Ensure.{
  Ensured, created, ensure_assignment-Ensured, errored, kept, rotated,
}
use proxify_vpn.Store.Peers.Invariant.{
  All-Tame, IsSettled, NoClash, NoClash-update_where, Tame, same_id-held,
}

pub data PeerCall : Type 0 where
  ensures : (fresh_id device_id server_id key : String) → List Server → PeerCall
  applies : (id : String) → (revision : ℕ) → PeerCall
  revokes : (id : String) → (revision : ℕ) → PeerCall
  fails : (id cause : String) → (retry_at : ℕ) → PeerCall
  drops_user : (user_id : String) → List Device → PeerCall
  drops_device : (device_id : String) → PeerCall
  drops_others : (device_id keep : String) → PeerCall
  stales : (server_id : String) → PeerCall

unfoldable pub peer_step : ℕ × PeerCall → List PeerRow → List PeerRow
peer_step (now, ensures fresh_id device_id server_id key servers) rows =
    (ensure_assignment now fresh_id device_id server_id key servers rows).1
peer_step (now, applies id revision) rows = mark_applied now id revision rows
peer_step (now, revokes id revision) rows = mark_revoked now id revision rows
peer_step (now, fails id cause retry_at) rows = mark_attempt_failed now id cause retry_at rows
peer_step (now, drops_user user_id devices) rows =
    (begin_revoke_for_user now user_id devices rows).1
peer_step (now, drops_device device_id) rows = (begin_revoke_for_device now device_id rows).1
peer_step (now, drops_others device_id keep) rows =
    (begin_revoke_other_servers now device_id keep rows).1
peer_step (now, stales server_id) rows = (mark_server_peers_stale now server_id rows).1

unfoldable pub peer_run : List (ℕ × PeerCall) → List PeerRow → List PeerRow
peer_run [] rows = rows
peer_run (c ∷ cs) rows = peer_run cs (peer_step c rows)

Ensured-NoClash :
    (now : ℕ) (fresh_id device_id server_id key : String) (rows : List PeerRow)
    {x : Result PeerAssignment × List PeerRow}
    → Ensured now fresh_id device_id server_id key rows x
    → NoClash rows
    → NoClash x.1
Ensured-NoClash now f d s key rows (errored e) h = h
Ensured-NoClash now f d s key rows (kept p found same live) h = h
Ensured-NoClash now f d s key rows (rotated p found new) h =
    NoClash-update_where (λ r. r.id =? p.id) (rotate_row now key) rows
      (All-map _ _ rows tame (same_id-held (is_assignment_of d s) rows p h found held)) h
  where
    held : is_held p.state ≡ true
    held = ground (arith, find_row-test (is_assignment_of d s) rows p found)

    tame :
        (r : PeerRow)
        → ((r.id =? p.id) ≡ true → is_held r.state ≡ true)
        → Tame r (change (λ r. r.id =? p.id) (rotate_row now key) r)
    tame r held = elim (Bool-cases (r.id =? p.id)) [
      | inl hit ↦ rw hit (record {
        same_id = refl;
        same_device = refl;
        same_server = refl;
        same_ip = refl;
        held_before = λ _. held hit;
      })
      | inr miss ↦ rw miss (record {
        same_id = refl;
        same_device = refl;
        same_server = refl;
        same_ip = refl;
        held_before = λ e. e;
      })
    ]
Ensured-NoClash now f d s key rows (created ip missing free fresh) h =
    (exists_row-All (clash (new_row now f d s key ip)) rows fresh, h)

Ensured-IsSettled :
    (now : ℕ) (fresh_id device_id server_id key : String) (rows : List PeerRow)
    {x : Result PeerAssignment × List PeerRow}
    → Ensured now fresh_id device_id server_id key rows x
    → All IsSettled rows
    → All IsSettled x.1
Ensured-IsSettled now f d s key rows (errored e) h = h
Ensured-IsSettled now f d s key rows (kept p found same live) h = h
Ensured-IsSettled now f d s key rows (rotated p found new) h =
    All-update_where IsSettled (λ r. r.id =? p.id) (rotate_row now key) rows (λ r hit k. inl refl) h
Ensured-IsSettled now f d s key rows (created ip missing free fresh) h = (inl refl, h)

update-NoClash :
    (p : PeerRow → Bool) (f : PeerRow → PeerRow) (rows : List PeerRow)
    → ((r : PeerRow) → p r ≡ true → Tame r (f r))
    → NoClash rows
    → NoClash (update_where p f rows)
update-NoClash p f rows tame h = NoClash-update_where p f rows (All-Tame p f tame rows) h

-- No statement, whatever its arguments, lets two rows clash.
pub peer_step-NoClash :
    (c : ℕ × PeerCall) (rows : List PeerRow) → NoClash rows → NoClash (peer_step c rows)
unfolding peer_step mark_applied mark_revoked mark_attempt_failed begin_revoke_for_user
    begin_revoke_for_device begin_revoke_other_servers mark_server_peers_stale
peer_step-NoClash (now, ensures f d s key servers) rows h =
    Ensured-NoClash now f d s key rows (ensure_assignment-Ensured now f d s key rows servers) h
peer_step-NoClash (now, applies id revision) rows h =
    update-NoClash (awaits id revision) (applied_row now revision) rows (λ r hit. ground arith) h
peer_step-NoClash (now, revokes id revision) rows h =
    update-NoClash (awaits_removal id revision) (revoked_row now revision) rows
      (λ r hit. ground arith) h
peer_step-NoClash (now, fails id cause at) rows h =
    update-NoClash (λ r. r.id =? id) (failed_row now cause at) rows (λ r hit. ground arith) h
peer_step-NoClash (now, drops_user u devices) rows h =
    update-NoClash (live_and (belongs_to u devices)) (begin_revoke now) rows (λ r hit. ground arith)
      h
peer_step-NoClash (now, drops_device d) rows h =
    update-NoClash (live_and (on_device d)) (begin_revoke now) rows (λ r hit. ground arith) h
peer_step-NoClash (now, drops_others d keep) rows h =
    update-NoClash (live_and (on_other_server d keep)) (begin_revoke now) rows
      (λ r hit. ground arith) h
peer_step-NoClash (now, stales s) rows h =
    update-NoClash (live_and (on_server s)) (stale_row now) rows (λ r hit. ground arith) h

peer_step-IsSettled :
    (c : ℕ × PeerCall) (rows : List PeerRow) → All IsSettled rows → All IsSettled (peer_step c rows)
unfolding peer_step mark_applied mark_revoked mark_attempt_failed begin_revoke_for_user
    begin_revoke_for_device begin_revoke_other_servers mark_server_peers_stale
peer_step-IsSettled (now, ensures f d s key servers) rows h =
    Ensured-IsSettled now f d s key rows (ensure_assignment-Ensured now f d s key rows servers) h
peer_step-IsSettled (now, applies id revision) rows h =
    All-update_where IsSettled (awaits id revision) (applied_row now revision) rows
      (λ r hit k. ground arith) h
peer_step-IsSettled (now, revokes id revision) rows h =
    All-update_where IsSettled (awaits_removal id revision) (revoked_row now revision) rows
      (λ r hit k. inl refl) h
peer_step-IsSettled (now, fails id cause at) rows h =
    All-update_where IsSettled (λ r. r.id =? id) (failed_row now cause at) rows (λ r hit k. k) h
peer_step-IsSettled (now, drops_user u devices) rows h =
    All-update_where IsSettled (live_and (belongs_to u devices)) (begin_revoke now) rows
      (λ r hit k. inl refl) h
peer_step-IsSettled (now, drops_device d) rows h =
    All-update_where IsSettled (live_and (on_device d)) (begin_revoke now) rows
      (λ r hit k. inl refl) h
peer_step-IsSettled (now, drops_others d keep) rows h =
    All-update_where IsSettled (live_and (on_other_server d keep)) (begin_revoke now) rows
      (λ r hit k. inl refl) h
peer_step-IsSettled (now, stales s) rows h =
    All-update_where IsSettled (live_and (on_server s)) (stale_row now) rows (λ r hit k. inl refl) h

peer_run-NoClash :
    (cs : List (ℕ × PeerCall)) (rows : List PeerRow) → NoClash rows → NoClash (peer_run cs rows)
unfolding peer_run
peer_run-NoClash [] rows h = h
peer_run-NoClash (c ∷ cs) rows h =
    peer_run-NoClash cs (peer_step c rows) (peer_step-NoClash c rows h)

peer_run-IsSettled :
    (cs : List (ℕ × PeerCall)) (rows : List PeerRow)
    → All IsSettled rows
    → All IsSettled (peer_run cs rows)
unfolding peer_run
peer_run-IsSettled [] rows h = h
peer_run-IsSettled (c ∷ cs) rows h =
    peer_run-IsSettled cs (peer_step c rows) (peer_step-IsSettled c rows h)

-- Whatever statements have run on an empty table, no two rows clash: a device has at most one row
-- that is not revoked on a server, and no two such rows of a server hold the same address.
pub peer_run_unique : (cs : List (ℕ × PeerCall)) → NoClash (peer_run cs [])
peer_run_unique cs = peer_run-NoClash cs [] tt

-- Whatever statements have run on an empty table, an active row is one whose current revision the
-- edge has confirmed, and it has no superseded key left to remove.
pub peer_run-confirmed : (cs : List (ℕ × PeerCall)) → All IsSettled (peer_run cs [])
peer_run-confirmed cs = peer_run-IsSettled cs [] tt
