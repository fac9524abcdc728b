-- ===== src/Store/Servers.antt =====
-- server/internal/store/servers.go: the edge servers, with the number of live peers of each.
use proxify_vpn.Base.{
  Bool, List, Option, String, [], if◌then◌else◌, ltb, map, none, not, some, ℕ, ◌&&◌, ◌==◌, ◌=?◌,
  ◌||◌, ◌∷◌,
}
use proxify_vpn.Base.Rows.{affected, exists_row, find_row, rows_where, update_where}
use proxify_vpn.Base.Sorting.{sort_by}
use proxify_vpn.Errors.{Result, err, map_err, no_rows, not_found, ok, sentinel}
use proxify_vpn.Model.{PeerAssignment, Server, ServerStatus, is_in_service}
use proxify_vpn.Store.Db.{PeerRow}
use proxify_vpn.Store.Peers.{due_rows, live_and, on_server, scan_peer}

-- The subquery of `serverCols`.
abbrev pub with_live_peers : List PeerRow → Server → Server
with_live_peers peers s = record s { live_peers = affected (live_and (on_server s.id)) peers }

abbrev pub read_server : List PeerRow → Option Server → Result Server
read_server peers none = err (map_err (sentinel no_rows))
read_server peers (some s) = ok (with_live_peers peers s)

unfoldable pub server_by_id : String → List Server → List PeerRow → Result Server
server_by_id id rows peers = read_server peers (find_row (λ s. s.id =? id) rows)

unfoldable pub server_by_code : String → List Server → List PeerRow → Result Server
server_by_code code rows peers = read_server peers (find_row (λ s. s.code =? code) rows)

-- `ORDER BY s.priority, s.code`, where `text_before` is the database's collation of the codes.
abbrev pub server_before : (String → String → Bool) → Server → Server → Bool
server_before text_before a b =
    ltb a.priority b.priority || (a.priority == b.priority && text_before a.code b.code)

unfoldable pub servers : (String → String → Bool) → Bool → List Server → List PeerRow → List Server
servers text_before only_active rows peers = map (with_live_peers peers) (
    sort_by (server_before text_before)
      (rows_where (λ s. not only_active || is_in_service s.status) rows))

-- The columns that `UpsertServer` writes: a server's, without the id, the count and the last contact.
abbrev pub registered : Server → Server → Server
registered p s = record p { id = s.id; last_seen_at = s.last_seen_at; live_peers = s.live_peers }

abbrev pub coded : String → Server → Bool
coded code s = s.code =? code

-- `UpsertServer`: the parameters are the record `p`, whose id, count and last contact are not read.
unfoldable pub upsert_server :
    String → Server → List Server → List PeerRow → Result Server × List Server
unfolding server_by_id
upsert_server fresh_id p rows peers = elim (find_row (coded p.code) rows) [
  | none ↦
      let added = record p { id = fresh_id; last_seen_at = none; live_peers = 0 } ∷ rows in
      (server_by_id fresh_id added peers, added)
  | some old ↦
      let changed = update_where (coded p.code) (registered p) rows in
      (server_by_id old.id changed peers, changed)
]

-- `MarkServerSeen`
unfoldable pub mark_server_seen : ℕ → String → List Server → List Server
mark_server_seen now id = update_where (λ s. s.id =? id) (λ s. record s { last_seen_at = some now })

-- `SetServerStatus`
unfoldable pub set_server_status :
    String → ServerStatus → List Server → Result (Unit {0}) × List Server
set_server_status code status rows =
    if exists_row (λ s. s.code =? code) rows
    then (ok tt, update_where (λ s. s.code =? code) (λ s. record s { status = status }) rows)
    else (err (sentinel not_found), rows)

-- Each row with its server; a row without one falls out of the join.
unfoldable pub join_servers :
    List Server → List PeerRow → List PeerRow → List (PeerAssignment × Server)
join_servers rows peers [] = []
join_servers rows peers (r ∷ rs) =
    let rest = join_servers rows peers rs in
    elim (find_row (λ s. s.id =? r.server_id) rows) [
      | none ↦ rest
      | some s ↦ (scan_peer r, with_live_peers peers s) ∷ rest
    ]

-- `DueAssignments`: the peers that the reconciler works on.
unfoldable pub due_assignments :
    ℕ → ℕ → (PeerRow → Bool) → List Server → List PeerRow → List (PeerAssignment × Server)
due_assignments now limit locked rows peers =
    join_servers rows peers (due_rows now limit locked peers)
