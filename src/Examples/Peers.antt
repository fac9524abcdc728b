-- ===== src/Examples/Peers.antt =====
-- The theorems of `Store/Peers` at concrete rows.
use proxify_vpn.Base.{
  All, List, String_discrete, [], arith, false, length, refl, some, true, ℕ, ◌&&◌, ◌*◌, ◌+◌, ◌-◌,
  ◌=?◌, ◌^◌, ◌∷◌, ◌≡◌, ◌≤◌, ◌⊎◌,
}
use proxify_vpn.Base.Rows.{exists_row, find_row}
use proxify_vpn.Errors.{ok}
use proxify_vpn.Examples.Data.{first_row, lagos, leaving_row, servers_table}
use proxify_vpn.Model.{is_active, is_held, revoked}
use proxify_vpn.Store.Db.{PeerRow}
use proxify_vpn.Store.Peers.{
  allocate_ip, ensure_assignment, first_free, holds_ip, mark_applied, new_row, scan_peer,
}
use proxify_vpn.Store.Peers.Allocation.{allocate_ip-IsFree, allocate_ip_complete}
use proxify_vpn.Store.Peers.Desired.{Wanted, ensure_assignment-Wanted}
use proxify_vpn.Store.Peers.Invariant.{IsSettled, NoClash}
use proxify_vpn.Store.Peers.Machine.{
  PeerCall, applies, ensures, peer_run, peer_run-confirmed, peer_run_unique, peer_step,
}
use proxify_vpn.Store.Peers.Transitions.{Next, by_id, peer_run-terminal, peer_step-Next}

abbrev first_ip : ℕ
first_ip = 10 * 2 ^ 24 + 77 * 2 ^ 16 + 2

abbrev row_two : PeerRow
row_two = new_row 20 "a2" "d2" "s1" "key-2" (first_ip + 1)

abbrev with_two : List PeerRow
with_two = row_two ∷ first_row ∷ []

apart : NoClash (first_row ∷ [])
apart = (tt, tt)

abbrev calls : List (ℕ × PeerCall)
calls =
    (10, ensures "a1" "d1" "s1" "key-1" servers_table)
    ∷ (11, applies "a1" 1)
    ∷ (12, ensures "a2" "d2" "s1" "key-2" servers_table)
    ∷ []

peer_run_unique_example : NoClash (peer_run calls [])
peer_run_unique_example = peer_run_unique calls

peer_run-confirmed_example : All IsSettled (peer_run calls [])
peer_run-confirmed_example = peer_run-confirmed calls

-- After those calls the first row is live.
calls_test :
    (exists_row (λ r. r.id =? "a1" && is_active r.state) (peer_run calls []) ≡ true)
    × (length (peer_run calls []) ≡ 2)
unfolding String_discrete peer_run peer_step ensure_assignment mark_applied allocate_ip first_free
calls_test = (refl, refl)

peer_step-Next_example : Next "a1" first_row (peer_step (20, applies "a1" 1) (first_row ∷ []))
unfolding String_discrete
peer_step-Next_example =
    peer_step-Next (20, applies "a1" 1) "a1" (first_row ∷ []) first_row (tt, tt) refl

peer_run-terminal_example :
    (s : PeerRow) × (find_row (by_id "a1") (peer_run calls (leaving_row ∷ [])) ≡ some s)
    × (leaving_row.revision ≤ s.revision)
    × (s.tunnel_ip ≡ leaving_row.tunnel_ip)
    × ((is_held leaving_row.state ≡ true) ⊎ (s.state ≡ revoked))
unfolding String_discrete
peer_run-terminal_example =
    peer_run-terminal calls "a1" (leaving_row ∷ []) leaving_row (tt, tt) refl

allocate_ip-IsFree_example :
    (lagos.tunnel_subnet.is4 ≡ true)
    × (lagos.tunnel_subnet.addr + 2 ≤ first_ip + 1)
    × (first_ip + 1 + 2 ≤ lagos.tunnel_subnet.addr + 2 ^ (32 - lagos.tunnel_subnet.bits))
    × (exists_row (holds_ip "s1" (first_ip + 1)) (first_row ∷ []) ≡ false)
unfolding String_discrete allocate_ip first_free
allocate_ip-IsFree_example =
    allocate_ip-IsFree "s1" lagos.tunnel_subnet (first_row ∷ []) (first_ip + 1) refl

allocate_ip_complete_example :
    (a : ℕ) × (allocate_ip "s1" lagos.tunnel_subnet (first_row ∷ []) ≡ ok a)
unfolding String_discrete
allocate_ip_complete_example =
    allocate_ip_complete "s1" lagos.tunnel_subnet (first_row ∷ []) refl (omega arith)

ensure_assignment-Wanted_example : Wanted "d2" "s1" "key-2" (scan_peer row_two) with_two
unfolding String_discrete ensure_assignment allocate_ip first_free
ensure_assignment-Wanted_example =
    ensure_assignment-Wanted 20 "a2" "d2" "s1" "key-2" servers_table (first_row ∷ []) with_two
      (scan_peer row_two) (tt, tt) refl
