-- ===== src/Store/Peers/Desired.antt =====
-- The contract of `EnsureAssignment` of server/internal/store/peers.go: the desired state of a device
-- on a server is "this key, installed", asked for as often as the caller likes.
use proxify_vpn.Base.{
  List, Option-cases, String, ap, arith, inl, inr, none, refl, some, sym, true, ℕ, ◌+◌, ◌=?◌, ◌∙◌,
  ◌≡◌, ◌⊎◌,
}
use proxify_vpn.Base.Rows.{find_row}
use proxify_vpn.Errors.{Result, ok}
use proxify_vpn.Model.{PeerAssignment, Server, is_live, pending}
use proxify_vpn.Store.Db.{PeerRow, coalesce}
use proxify_vpn.Store.Peers.{ensure_assignment, is_assignment_of, new_row, rotate_row, scan_peer}
use proxify_vpn.Store.Peers.Ensure.{
  Ensured, created, ensure_assignment-Ensured, errored, kept, rotated, rotated-found,
}
use proxify_vpn.Store.Peers.Invariant.{NoClash}

abbrev pub Wanted : String → String → String → PeerAssignment → List PeerRow → Type 0
Wanted device_id server_id key a rows =
    (r : PeerRow) × (find_row (is_assignment_of device_id server_id) rows ≡ some r)
    × (scan_peer r ≡ a)
    × (r.public_key ≡ key)
    × (is_live r.state ≡ true)

module _ (now : ℕ) (fresh_id device_id server_id key : String) (rows : List PeerRow) where
  Wanted-of :
      {x : Result PeerAssignment × List PeerRow} (a : PeerAssignment) (rows' : List PeerRow)
      → NoClash rows
      → Ensured now fresh_id device_id server_id key rows x
      → x ≡ (ok a, rows')
      → Wanted device_id server_id key a rows'
  Wanted-of a rows' apart (errored e) h = absurd (cc)
  Wanted-of a rows' apart (kept p found same live) h = (p, ground arith, ground arith, same, live)
  Wanted-of a rows' apart (rotated p found new) h = (
    rotate_row now key p,
    (ap (find_row (is_assignment_of device_id server_id)) (sym (ap (λ x. x.1) h))
        ∙ rotated-found now device_id server_id key rows p apart found),
    ground arith,
    refl,
    refl,
  )
  Wanted-of a rows' apart (created ip missing free fresh) h =
      (new_row now fresh_id device_id server_id key ip, ground arith, ground arith, refl, refl)

  stable_of :
      {x : Result PeerAssignment × List PeerRow} (a : PeerAssignment) (rows' : List PeerRow)
      (p : PeerRow)
      → find_row (is_assignment_of device_id server_id) rows ≡ some p
      → Ensured now fresh_id device_id server_id key rows x
      → x ≡ (ok a, rows')
      → (a.id ≡ p.id)
        × (a.tunnel_ip ≡ p.tunnel_ip)
        × ((p.public_key ≡ key)
            ⊎ ((a.revision ≡ p.revision + 1)
                × (a.state ≡ pending)
                × (a.prev_public_key ≡ coalesce p.prev_public_key p.public_key)))
  unfolding scan_peer
  stable_of a rows' p old (errored e) h = absurd (cc)
  stable_of a rows' p old (kept q found same live) h = ground arith
  stable_of a rows' p old (rotated q found new) h = ground arith
  stable_of a rows' p old (created ip missing free fresh) h = absurd (cc)

module _ (now : ℕ) (fresh_id device_id server_id key : String) (servers : List Server)
    (rows rows' : List PeerRow) (a : PeerAssignment) where
  ensured-server :
      ensure_assignment now fresh_id device_id server_id key servers rows ≡ (ok a, rows')
      → (v : Server) × (find_row (λ v. v.id =? server_id) servers ≡ some v)
  unfolding ensure_assignment
  ensured-server h = elim (Option-cases (find_row (λ v. v.id =? server_id) servers)) [
    | inl missing ↦ absurd (refused missing)
    | inr found ↦ found
  ]
    where
      refused : find_row (λ v. v.id =? server_id) servers ≡ none → ⊥
      refused e = ground arith

  -- After a successful `EnsureAssignment` the table's row for the device and the server holds the
  -- requested key, is pending or active, and is the assignment that was returned.
  pub ensure_assignment-Wanted :
      NoClash rows
      → ensure_assignment now fresh_id device_id server_id key servers rows ≡ (ok a, rows')
      → Wanted device_id server_id key a rows'
  ensure_assignment-Wanted apart h =
      Wanted-of now fresh_id device_id server_id key rows a rows' apart
        (ensure_assignment-Ensured now fresh_id device_id server_id key rows servers) h

  -- Where the device already has a row on the server that is not revoked, the row and its address
  -- stay; either the key is the same, or the revision grows by one, the row is pending again, and the
  -- oldest key that may still be installed is remembered for removal.
  pub ensure_assignment-stable :
      (p : PeerRow)
      → find_row (is_assignment_of device_id server_id) rows ≡ some p
      → ensure_assignment now fresh_id device_id server_id key servers rows ≡ (ok a, rows')
      → (a.id ≡ p.id)
        × (a.tunnel_ip ≡ p.tunnel_ip)
        × ((p.public_key ≡ key)
            ⊎ ((a.revision ≡ p.revision + 1)
                × (a.state ≡ pending)
                × (a.prev_public_key ≡ coalesce p.prev_public_key p.public_key)))
  ensure_assignment-stable p old h =
      stable_of now fresh_id device_id server_id key rows a rows' p old
        (ensure_assignment-Ensured now fresh_id device_id server_id key rows servers) h

  ensure_again :
      (later : ℕ) (other_id : String) (v : Server) (r : PeerRow)
      → find_row (λ v. v.id =? server_id) servers ≡ some v
      → find_row (is_assignment_of device_id server_id) rows' ≡ some r
      → r.public_key ≡ key
      → is_live r.state ≡ true
      → ensure_assignment later other_id device_id server_id key servers rows'
        ≡ (ok (scan_peer r), rows')
  unfolding ensure_assignment
  ensure_again later other_id v r e found same live = ground arith

  -- A repeated request, at any later time, returns the same assignment and changes no row.
  pub ensure_assignment-idempotent :
      (later : ℕ) (other_id : String)
      → NoClash rows
      → ensure_assignment now fresh_id device_id server_id key servers rows ≡ (ok a, rows')
      → ensure_assignment later other_id device_id server_id key servers rows' ≡ (ok a, rows')
  ensure_assignment-idempotent later other_id apart h =
      let (r, found, same, own, live) = ensure_assignment-Wanted apart h in
      let (v, e) = ensured-server h in
      ensure_again later other_id v r e found own live ∙ ap (λ x. (ok x, rows')) same
