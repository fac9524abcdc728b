-- ===== src/Store/Peers/Ensure.antt =====
-- `EnsureAssignment` of server/internal/store/peers.go: what a request for a peer leaves behind.
use proxify_vpn.Base.{
  All, All-map, Bool-cases, List, Option, String, arith, false, inl, inr, none, not, refl, some,
  true, ℕ, ◌&&◌, ◌=?◌, ◌∙◌, ◌∷◌, ◌≡◌, ◌≢◌, ◌⊎◌,
}
use proxify_vpn.Base.Rows.{exists_row, find_row, find_row-test, find_row-update_where, update_where}
use proxify_vpn.Errors.{Error, Result, err, map_err, no_rows, ok, sentinel, unique_violation}
use proxify_vpn.Model.{PeerAssignment, Prefix, Server, is_held, is_live, is_revoking, revoking}
use proxify_vpn.Store.Db.{PeerRow, in_tx}
use proxify_vpn.Store.Peers.{
  allocate_ip, clash, ensure_assignment, ensure_body, ensure_new, ensure_on, holds_ip,
  is_assignment_of, new_row, rotate_row, scan_peer,
}
use proxify_vpn.Store.Peers.Allocation.{allocate_ip-IsFree}
use proxify_vpn.Store.Peers.Invariant.{NoClash, same_id-held}
use proxify_vpn.Store.Servers.{servers}

-- The row of a rotation is found again, with its new desired state.
pub rotated-found :
    (now : ℕ) (device_id server_id key : String) (rows : List PeerRow) (p : PeerRow)
    → NoClash rows
    → find_row (is_assignment_of device_id server_id) rows ≡ some p
    → find_row
        (is_assignment_of device_id server_id)
        (update_where (λ r. r.id =? p.id) (rotate_row now key) rows)
      ≡ some (rotate_row now key p)
rotated-found now d s key rows p apart e =
    find_row-update_where (is_assignment_of d s) (λ r. r.id =? p.id) (rotate_row now key) rows p
      (All-map _ _ rows (λ r held hit. ground (arith, held hit)) held_rows) e
    ∙ ground arith
  where
    held : is_held p.state ≡ true
    held = ground (arith, find_row-test (is_assignment_of d s) rows p e)

    held_rows : All (λ r. (r.id =? p.id) ≡ true → is_held r.state ≡ true) rows
    held_rows = same_id-held (is_assignment_of d s) rows p apart e held

module _ (now : ℕ) (fresh_id device_id server_id key : String) where
  -- The outcomes of `EnsureAssignment`: the error paths leave the table alone.
  pub data Ensured (rows : List PeerRow) : Result PeerAssignment × List PeerRow → Type 0 where
    errored : (e : Error) → Ensured rows (err e, rows)
    kept :
        (p : PeerRow)
        → find_row (is_assignment_of device_id server_id) rows ≡ some p
        → p.public_key ≡ key
        → is_live p.state ≡ true
        → Ensured rows (ok (scan_peer p), rows)
    rotated :
        (p : PeerRow)
        → find_row (is_assignment_of device_id server_id) rows ≡ some p
        → (p.public_key ≢ key) ⊎ (p.state ≡ revoking)
        → Ensured rows (
          ok (scan_peer (rotate_row now key p)),
          update_where (λ r. r.id =? p.id) (rotate_row now key) rows,
        )
    created :
        (ip : ℕ)
        → find_row (is_assignment_of device_id server_id) rows ≡ none
        → exists_row (holds_ip server_id ip) rows ≡ false
        → exists_row (clash (new_row now fresh_id device_id server_id key ip)) rows ≡ false
        → Ensured rows (
          ok (scan_peer (new_row now fresh_id device_id server_id key ip)),
          new_row now fresh_id device_id server_id key ip ∷ rows,
        )

  module _ (rows : List PeerRow) where
    Ensured-existing :
        (p : PeerRow) (subnet : Prefix)
        → find_row (is_assignment_of device_id server_id) rows ≡ some p
        → Ensured rows (in_tx (ensure_on now fresh_id device_id server_id key subnet (some p)) rows)
    Ensured-existing p subnet e =
        elim (Bool-cases (p.public_key =? key && not (is_revoking p.state))) [
          | inl same ↦ rw (same) (kept p e (ground arith) (ground (arith, held)))
          | inr new ↦ rw (new) (rotated p e (ground arith))
        ]
      where
        held : is_held p.state ≡ true
        held = ground (arith, find_row-test (is_assignment_of device_id server_id) rows p e)

    Ensured-new :
        (ip : Result ℕ) (subnet : Prefix)
        → allocate_ip server_id subnet rows ≡ ip
        → find_row (is_assignment_of device_id server_id) rows ≡ none
        → Ensured rows (in_tx (ensure_new now fresh_id device_id server_id key ip) rows)
    Ensured-new (err x) subnet a e = errored (map_err x)
    Ensured-new (ok ip) subnet a e =
        elim (Bool-cases
          (exists_row (clash (new_row now fresh_id device_id server_id key ip)) rows)) [
            | inl taken ↦ rw (taken) (errored (map_err (sentinel unique_violation)))
            | inr free ↦
                rw (free, in_tx)
                  (created ip e (allocate_ip-IsFree server_id subnet rows ip a).3 free)
          ]

    Ensured-row :
        (o : Option PeerRow) (subnet : Prefix)
        → find_row (is_assignment_of device_id server_id) rows ≡ o
        → Ensured rows (in_tx (ensure_on now fresh_id device_id server_id key subnet o) rows)
    Ensured-row (some p) subnet e = Ensured-existing p subnet e
    Ensured-row none subnet e = Ensured-new (allocate_ip server_id subnet rows) subnet refl e

    Ensured-server :
        (o : Option Server)
        → Ensured rows (in_tx (ensure_body now fresh_id device_id server_id key o) rows)
    Ensured-server none = errored (map_err (sentinel no_rows))
    Ensured-server (some v) =
        Ensured-row (find_row (is_assignment_of device_id server_id) rows) v.tunnel_subnet refl

    pub ensure_assignment-Ensured :
        (servers : List Server)
        → Ensured rows (ensure_assignment now fresh_id device_id server_id key servers rows)
    unfolding ensure_assignment
    ensure_assignment-Ensured servers = Ensured-server (find_row (λ v. v.id =? server_id) servers)
