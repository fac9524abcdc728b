-- ===== src/Store/Peers/Release.antt =====
-- `MarkRevoked` of server/internal/store/peers.go: what becomes of the address, and the guards of the
-- two terminal statements.
use mathlib.Core.Path.{ap₂}
use proxify_vpn.Base.{
  All, All-map, Bool, Bool-cases, List, [], arith, false, inl, inr, refl, some, ℕ, ◌<◌, ◌∷◌, ◌≡◌,
  ◌≤◌, ◌⊎◌,
}
use proxify_vpn.Base.Rows.{change, exists_row, find_row, find_row-All, update_where}
use proxify_vpn.Model.{revoking}
use proxify_vpn.Store.Db.{PeerRow}
use proxify_vpn.Store.Peers.{
  applied_row, awaits, awaits_removal, clash, holds_ip, mark_applied, mark_revoked, revoked_row,
}
use proxify_vpn.Store.Peers.Invariant.{NoClash}
use proxify_vpn.Store.Peers.Transitions.{by_id}

clash_sym : (r s : PeerRow) → clash r s ≡ false → clash s r ≡ false
clash_sym r s h = ground arith

-- Every row is the one found, or does not clash with it.
others :
    (q : PeerRow → Bool) (rows : List PeerRow) (r : PeerRow)
    → NoClash rows
    → find_row q rows ≡ some r
    → All (λ x. (x ≡ r) ⊎ (clash x r ≡ false)) rows
others q [] r h found = tt
others q (x ∷ rows) r h found = elim (Bool-cases (q x)) [
  | inl hit ↦ at_head (ground arith)
  | inr miss ↦ (inr (behind (ground arith)), others q rows r h.1 (ground arith))
]
  where
    at_head : x ≡ r → All (λ y. (y ≡ r) ⊎ (clash y r ≡ false)) (x ∷ rows)
    at_head e = (inl e, All-map _ _ rows (λ y c. inr (rw (← e) (clash_sym x y c))) h.0)

    behind : find_row q rows ≡ some r → clash x r ≡ false
    behind e = find_row-All (λ y. clash x y ≡ false) q rows h.0 e

freed :
    (now revision : ℕ) (r x : PeerRow)
    → r.state ≡ revoking
    → r.revision ≤ revision
    → (x ≡ r) ⊎ (clash x r ≡ false)
    → holds_ip r.server_id r.tunnel_ip
        (change (awaits_removal r.id revision) (revoked_row now revision) x)
      ≡ false
freed now revision r x st le (inl e) = rw e (ground arith)
freed now revision r x st le (inr c) = ground arith

All-freed :
    (now revision : ℕ) (r : PeerRow) (rows : List PeerRow)
    → r.state ≡ revoking
    → r.revision ≤ revision
    → All (λ x. (x ≡ r) ⊎ (clash x r ≡ false)) rows
    → exists_row
        (holds_ip r.server_id r.tunnel_ip)
        (update_where (awaits_removal r.id revision) (revoked_row now revision) rows)
      ≡ false
All-freed now revision r [] st le h = refl
All-freed now revision r (x ∷ rows) st le h =
    ground (arith, freed now revision r x st le h.0, All-freed now revision r rows st le h.1)

-- As soon as a removal is confirmed, the row's address counts as free on its server: the next
-- allocation may hand it out.
pub mark_revoked-frees :
    (now revision : ℕ) (rows : List PeerRow) (r : PeerRow)
    → NoClash rows
    → find_row (by_id r.id) rows ≡ some r
    → r.state ≡ revoking
    → r.revision ≤ revision
    → exists_row (holds_ip r.server_id r.tunnel_ip) (mark_revoked now r.id revision rows) ≡ false
unfolding mark_revoked
mark_revoked-frees now revision rows r h found st le =
    All-freed now revision r rows st le (others (by_id r.id) rows r h found)

stale-unchanged :
    (now revision : ℕ) (r x : PeerRow)
    → revision < r.revision
    → (x ≡ r) ⊎ (clash x r ≡ false)
    → (change (awaits r.id revision) (applied_row now revision) x ≡ x)
      × (change (awaits_removal r.id revision) (revoked_row now revision) x ≡ x)
stale-unchanged now revision r x lt (inl e) = rw e (ground arith)
stale-unchanged now revision r x lt (inr c) = ground arith

All-unchanged :
    (now revision : ℕ) (r : PeerRow) (rows : List PeerRow)
    → revision < r.revision
    → All (λ x. (x ≡ r) ⊎ (clash x r ≡ false)) rows
    → (update_where (awaits r.id revision) (applied_row now revision) rows ≡ rows)
      × (update_where (awaits_removal r.id revision) (revoked_row now revision) rows ≡ rows)
All-unchanged now revision r [] lt h = (refl, refl)
All-unchanged now revision r (x ∷ rows) lt h =
    let (a, b) = stale-unchanged now revision r x lt h.0 in
    let (c, d) = All-unchanged now revision r rows lt h.1 in (ap₂ ◌∷◌ a c, ap₂ ◌∷◌ b d)

-- A confirmation of a revision older than the row's, of an install or of a removal, changes no row:
-- a slow reply about an old key cannot mark a newer one live.
pub mark_applied-stale :
    (now revision : ℕ) (rows : List PeerRow) (r : PeerRow)
    → NoClash rows
    → find_row (by_id r.id) rows ≡ some r
    → revision < r.revision
    → (mark_applied now r.id revision rows ≡ rows) × (mark_revoked now r.id revision rows ≡ rows)
unfolding mark_applied mark_revoked
mark_applied-stale now revision rows r h found lt =
    All-unchanged now revision r rows lt (others (by_id r.id) rows r h found)
