-- ===== src/Store/Peers.antt =====
-- server/internal/store/peers.go: the desired-state table of peer assignments.
pub mod Invariant
pub mod Allocation
pub mod Ensure
pub mod Machine
pub mod Transitions
pub mod Release
pub mod Desired
use proxify_vpn.Base.{
  Bool, List, Option, String, false, greatest, if◌then◌else◌, leb, ltb, map, none, not, some, suc,
  true, zero, ℕ, ◌&&◌, ◌+◌, ◌-◌, ◌==◌, ◌=?◌, ◌^◌, ◌||◌, ◌∷◌,
}
use proxify_vpn.Base.Rows.{affected, exists_row, find_row, rows_where, update_where}
use proxify_vpn.Base.Sorting.{sort_by, take}
use proxify_vpn.Base.Text.{take_text}
use proxify_vpn.Errors.{Result, err, no_addresses, no_rows, ok, sentinel, text, unique_violation}
use proxify_vpn.Model.{
  Device, PeerAssignment, Prefix, Server, active, is_held, is_live, is_pending, is_queued,
  is_revoking, pending, revoked, revoking,
}
use proxify_vpn.Store.Db.{PeerRow, coalesce, in_tx}

-- `peerCols` and `scanPeer`: the columns that every query selects, as the domain type.
unfoldable pub scan_peer : PeerRow → PeerAssignment
scan_peer r = record {
  id = r.id;
  device_id = r.device_id;
  server_id = r.server_id;
  public_key = r.public_key;
  prev_public_key = coalesce r.prev_public_key "";
  tunnel_ip = r.tunnel_ip;
  state = r.state;
  revision = r.revision;
  applied_revision = r.applied_revision;
  attempts = r.attempts;
  last_error = coalesce r.last_error "";
  next_attempt_at = r.next_attempt_at;
  created_at = r.created_at;
  activated_at = r.activated_at;
}

-- The row that holds an address of a server's subnet, as the query of `allocateIP` tests it.
abbrev pub holds_ip : String → ℕ → PeerRow → Bool
holds_ip server_id ip r = (r.server_id =? server_id && is_held r.state) && r.tunnel_ip == ip

-- The `LIMIT 1` over `generate_series`: a free address from `ip` on, among `rounds`. The query names no
-- order; this one looks at the candidates as the series gives them.
unfoldable pub first_free : ℕ → ℕ → String → List PeerRow → Option ℕ
first_free zero ip server_id rows = none
first_free (suc rounds) ip server_id rows = elim (exists_row (holds_ip server_id ip) rows) [
  | true ↦ first_free rounds (suc ip) server_id rows
  | false ↦ some ip
]

-- `int64(1)<<hostBits - 2`; where Go's value is not positive this one is 0.
abbrev pub max_offset : Prefix → ℕ
max_offset p = 2 ^ (32 - p.bits) - 2

abbrev pub or_exhausted : Option ℕ → Result ℕ
or_exhausted none = err (sentinel no_addresses)
or_exhausted (some ip) = ok ip

-- `allocateIP`: a free host address; .1 is the server, so offsets start at 2.
unfoldable pub allocate_ip : String → Prefix → List PeerRow → Result ℕ
allocate_ip server_id p rows =
    if not p.is4
    then err (text "tunnel subnet is not IPv4")
    else (if ltb (max_offset p) 1
        then err (sentinel no_addresses)
        else or_exhausted (first_free (max_offset p - 1) (p.addr + 2) server_id rows))

-- The row that `EnsureAssignment` inserts; the other columns take the table's defaults.
abbrev pub new_row : ℕ → String → String → String → String → ℕ → PeerRow
new_row now id device_id server_id public_key ip = record {
  id = id;
  device_id = device_id;
  server_id = server_id;
  public_key = public_key;
  prev_public_key = none;
  tunnel_ip = ip;
  state = pending;
  revision = 1;
  applied_revision = 0;
  attempts = 0;
  last_error = none;
  next_attempt_at = now;
  created_at = now;
  updated_at = now;
  activated_at = none;
  revoked_at = none;
}

-- The `UPDATE` of `EnsureAssignment`: a new desired state on the same address.
abbrev pub rotate_row : ℕ → String → PeerRow → PeerRow
rotate_row now key r = record r {
  public_key = key;
  prev_public_key =
      if r.public_key =? key
      then r.prev_public_key
      else some (coalesce r.prev_public_key r.public_key);
  revision = r.revision + 1;
  state = pending;
  attempts = 0;
  last_error = none;
  next_attempt_at = now;
  revoked_at = none;
  updated_at = now;
}

-- Two rows that the primary key or one of the two partial UNIQUE indexes does not allow together.
abbrev pub clash : PeerRow → PeerRow → Bool
clash r s =
    r.id =? s.id
    || ((is_held r.state && is_held s.state)
        && (r.server_id =? s.server_id
            && (r.device_id =? s.device_id || r.tunnel_ip == s.tunnel_ip)))

abbrev pub insert_peer : PeerRow → List PeerRow → Result PeerAssignment × List PeerRow
insert_peer r rows =
    if exists_row (clash r) rows
    then (err (sentinel unique_violation), rows)
    else (ok (scan_peer r), r ∷ rows)

abbrev pub is_assignment_of : String → String → PeerRow → Bool
is_assignment_of device_id server_id r =
    (r.device_id =? device_id && r.server_id =? server_id) && is_held r.state

module _ (now : ℕ) (fresh_id : String) (device_id server_id public_key : String) where
  -- A live row with the same key is returned untouched; any other is given a new revision.
  abbrev pub ensure_existing : PeerRow → List PeerRow → Result PeerAssignment × List PeerRow
  ensure_existing p rows =
      if p.public_key =? public_key && not (is_revoking p.state)
      then (ok (scan_peer p), rows)
      else (
        ok (scan_peer (rotate_row now public_key p)),
        update_where (λ r. r.id =? p.id) (rotate_row now public_key) rows,
      )

  abbrev pub ensure_new : Result ℕ → List PeerRow → Result PeerAssignment × List PeerRow
  ensure_new (err e) rows = (err e, rows)
  ensure_new (ok ip) rows =
      insert_peer (new_row now fresh_id device_id server_id public_key ip) rows

  -- The `switch` on the row found under the server's lock.
  abbrev pub ensure_on :
      Prefix → Option PeerRow → List PeerRow → Result PeerAssignment × List PeerRow
  ensure_on subnet (some p) rows = ensure_existing p rows
  ensure_on subnet none rows = ensure_new (allocate_ip server_id subnet rows) rows

  abbrev pub ensure_body : Option Server → List PeerRow → Result PeerAssignment × List PeerRow
  ensure_body none rows = (err (sentinel no_rows), rows)
  ensure_body (some srv) rows =
      ensure_on srv.tunnel_subnet (find_row (is_assignment_of device_id server_id) rows) rows

  unfoldable pub ensure_assignment :
      List Server → List PeerRow → Result PeerAssignment × List PeerRow
  ensure_assignment servers rows =
      in_tx (ensure_body (find_row (λ v. v.id =? server_id) servers)) rows

-- The `SET` of `MarkApplied`. The superseded key is gone from the box, so it is forgotten.
abbrev pub applied_row : ℕ → ℕ → PeerRow → PeerRow
applied_row now revision r = record r {
  state = active;
  applied_revision = greatest r.applied_revision revision;
  prev_public_key = none;
  attempts = 0;
  last_error = none;
  activated_at = some (coalesce r.activated_at now);
  updated_at = now;
}

-- `WHERE id = $1 AND state = 'pending' AND revision <= $2`: a late reply about an old revision
-- changes nothing.
abbrev pub awaits : String → ℕ → PeerRow → Bool
awaits id revision r = (r.id =? id && is_pending r.state) && leb r.revision revision

unfoldable pub mark_applied : ℕ → String → ℕ → List PeerRow → List PeerRow
mark_applied now id revision = update_where (awaits id revision) (applied_row now revision)

-- The `SET` and the `WHERE` of `MarkRevoked`.
abbrev pub revoked_row : ℕ → ℕ → PeerRow → PeerRow
revoked_row now revision r = record r {
  state = revoked;
  applied_revision = greatest r.applied_revision revision;
  revoked_at = some now;
  attempts = 0;
  last_error = none;
  updated_at = now;
}

abbrev pub awaits_removal : String → ℕ → PeerRow → Bool
awaits_removal id revision r = (r.id =? id && is_revoking r.state) && leb r.revision revision

unfoldable pub mark_revoked : ℕ → String → ℕ → List PeerRow → List PeerRow
mark_revoked now id revision = update_where (awaits_removal id revision) (revoked_row now revision)

-- The `SET` of `MarkAttemptFailed`: `left($2, 500)` of the cause.
abbrev pub failed_row : ℕ → String → ℕ → PeerRow → PeerRow
failed_row now cause retry_at r = record r {
  attempts = r.attempts + 1;
  last_error = some (take_text 500 cause);
  next_attempt_at = retry_at;
  updated_at = now;
}

unfoldable pub mark_attempt_failed : ℕ → String → String → ℕ → List PeerRow → List PeerRow
mark_attempt_failed now id cause retry_at =
    update_where (λ r. r.id =? id) (failed_row now cause retry_at)

-- The `SET` that the three `BeginRevoke…` statements share.
abbrev pub begin_revoke : ℕ → PeerRow → PeerRow
begin_revoke now r = record r {
  state = revoking;
  revision = r.revision + 1;
  attempts = 0;
  next_attempt_at = now;
  updated_at = now;
}

-- `FROM devices d WHERE d.id = pa.device_id AND d.user_id = $1`
abbrev pub belongs_to : String → List Device → PeerRow → Bool
belongs_to user_id devices r = exists_row (λ d. d.id =? r.device_id && d.user_id =? user_id) devices

-- `WHERE … AND state IN ('pending', 'active')`
abbrev pub live_and : (PeerRow → Bool) → PeerRow → Bool
live_and p r = p r && is_live r.state

abbrev pub revoke_where : (PeerRow → Bool) → ℕ → List PeerRow → ℕ × List PeerRow
revoke_where p now rows =
    (affected (live_and p) rows, update_where (live_and p) (begin_revoke now) rows)

unfoldable pub begin_revoke_for_user : ℕ → String → List Device → List PeerRow → ℕ × List PeerRow
begin_revoke_for_user now user_id devices = revoke_where (belongs_to user_id devices) now

abbrev pub on_device : String → PeerRow → Bool
on_device device_id r = r.device_id =? device_id

unfoldable pub begin_revoke_for_device : ℕ → String → List PeerRow → ℕ × List PeerRow
begin_revoke_for_device now device_id = revoke_where (on_device device_id) now

abbrev pub on_other_server : String → String → PeerRow → Bool
on_other_server device_id keep r = r.device_id =? device_id && not (r.server_id =? keep)

unfoldable pub begin_revoke_other_servers : ℕ → String → String → List PeerRow → ℕ × List PeerRow
begin_revoke_other_servers now device_id keep = revoke_where (on_other_server device_id keep) now

abbrev pub on_server : String → PeerRow → Bool
on_server server_id r = r.server_id =? server_id

abbrev pub stale_row : ℕ → PeerRow → PeerRow
stale_row now r = record (begin_revoke now r) { state = pending }

unfoldable pub mark_server_peers_stale : ℕ → String → List PeerRow → ℕ × List PeerRow
mark_server_peers_stale now server_id rows = (
  affected (live_and (on_server server_id)) rows,
  update_where (live_and (on_server server_id)) (stale_row now) rows,
)

unfoldable pub assignments_for_device : String → List PeerRow → List PeerAssignment
assignments_for_device device_id rows = map scan_peer (
    sort_by (λ a b. ltb a.created_at b.created_at)
      (rows_where (λ r. r.device_id =? device_id && is_held r.state) rows))

-- The full desired peer set of one edge server, by address.
unfoldable pub live_peers_for_server : String → List PeerRow → List PeerAssignment
live_peers_for_server server_id rows = map scan_peer (
    sort_by (λ a b. ltb a.tunnel_ip b.tunnel_ip)
      (rows_where (λ r. r.server_id =? server_id && is_live r.state) rows))

-- The rows of `DueAssignments`, before the join with their servers. `locked` are the rows that
-- another transaction holds, which `SKIP LOCKED` leaves out.
unfoldable pub due_rows : ℕ → ℕ → (PeerRow → Bool) → List PeerRow → List PeerRow
due_rows now limit locked rows = take limit (
    sort_by (λ a b. ltb a.next_attempt_at b.next_attempt_at)
      (rows_where (λ r. (is_queued r.state && leb r.next_attempt_at now) && not (locked r)) rows))
