-- ===== src/Provision/Reconciler/Batch.antt =====
-- `applyDue` of server/internal/provision/reconciler.go: a batch that holds all that is due clears the
-- queue when the boxes answer.
use proxify_vpn.Base.{
  =?-refl, All, All-map, Bool, Bool-cases, List, Option-cases, [], ap, arith, false, inl, inr,
  length, ltb, none, not, refl, suc, true, ℕ, ◌&&◌, ◌=?◌, ◌∙◌, ◌∷◌, ◌≡◌, ◌≤◌, ◌⊎◌,
}
use proxify_vpn.Base.Rows.{
  All-exists_row, All-rows_where, exists_row, exists_row-rows_where, find_row, find_row-none,
  rows_where,
}
use proxify_vpn.Base.Sorting.{All-sort_by, insert_by, sort_by, take, take_all}
use proxify_vpn.Edge.Fake.{failure}
use proxify_vpn.Model.{Server}
use proxify_vpn.Provision.Engine.{new_service}
use proxify_vpn.Provision.Reconciler.{apply_due}
use proxify_vpn.Provision.Reconciler.Resync.{exists_row-sort_by}
use proxify_vpn.Provision.Reconciler.Settled.{
  Waits, apply_all-settles, covered, covers, is_due, times,
}
use proxify_vpn.Store.Db.{PeerRow}
use proxify_vpn.Store.Peers.{due_rows, scan_peer}
use proxify_vpn.Store.Servers.{due_assignments, join_servers, servers}
use proxify_vpn.World.{World, no_lock, world_service, world_store}

-- A row that is due is covered by its own reading.
covers_self : (now : ℕ) (r : PeerRow) → is_due now r ≡ true → covers (scan_peer r) r ≡ true
unfolding scan_peer
covers_self now r h = ground (arith, =?-refl r.id)

-- With its server in the table, a listed row is in the join.
covered-join :
    (servers : List Server) (peers rows : List PeerRow) (r : PeerRow)
    → All (λ x. exists_row (λ s. s.id =? x.server_id) servers ≡ true) rows
    → exists_row (λ x. covers (scan_peer x) r) rows ≡ true
    → covered (join_servers servers peers rows) r ≡ true
unfolding join_servers
covered-join servers peers [] r here h = h
covered-join servers peers (x ∷ rows) r here h =
    elim (Option-cases (find_row (λ s. s.id =? x.server_id) servers)) [
      | inl missing ↦
          let absent =
            All-exists_row (λ s. s.id =? x.server_id) servers
              (find_row-none (λ s. s.id =? x.server_id) servers missing) in
          absurd (ground arith)
      | inr (s, found) ↦
          rw (found, join_servers) (ground (arith, covered-join servers peers rows r here.1))
    ]

-- Each row that is due is among those that are due.
self-covered :
    (now : ℕ) (rows : List PeerRow)
    → All
        (λ r.
          (is_due now r ≡ false)
          ⊎ (exists_row (λ x. is_due now x && covers (scan_peer x) r) rows ≡ true))
        rows
self-covered now [] = tt
self-covered now (r ∷ rows) = (
  elim (Bool-cases (is_due now r)) [
    | inl due ↦ inr (ground (arith, covers_self now r due))
    | inr rests ↦ inl rests
  ],
  All-map _ _ rows (λ x h. ground arith) (self-covered now rows),
)

length-insert_by :
    {A : Type 0} (before : A → A → Bool) (x : A) (ys : List A)
    → length (insert_by before x ys) ≡ suc (length ys)
length-insert_by before x [] = refl
length-insert_by before x (y ∷ ys) = ground (arith, length-insert_by before x ys)

length-sort_by :
    {A : Type 0} (before : A → A → Bool) (xs : List A) → length (sort_by before xs) ≡ length xs
length-sort_by before [] = refl
length-sort_by before (x ∷ xs) =
    length-insert_by before x (sort_by before xs) ∙ ap suc (length-sort_by before xs)

abbrev by_attempt : PeerRow → PeerRow → Bool
by_attempt a b = ltb a.next_attempt_at b.next_attempt_at

-- A batch that is large enough holds all that is due.
due_rows-all :
    (now limit : ℕ) (rows : List PeerRow)
    → length (rows_where (is_due now) rows) ≤ limit
    → due_rows now limit no_lock rows ≡ sort_by by_attempt (rows_where (is_due now) rows)
unfolding due_rows
due_rows-all now limit rows room =
    ap (λ xs. take limit (sort_by by_attempt xs)) (unlocked rows)
    ∙ take_all limit (sort_by by_attempt (rows_where (is_due now) rows))
        (omega (arith, length-sort_by by_attempt (rows_where (is_due now) rows), room))
  where
    unlocked :
        (xs : List PeerRow)
        → rows_where (λ r. is_due now r && not (no_lock r)) xs ≡ rows_where (is_due now) xs
    unlocked [] = refl
    unlocked (x ∷ xs) = ground (arith, unlocked xs)

-- When every box answers, every row's server is in the table and the batch holds all that is due,
-- then after `applyDue` no row is due any more, and that not because one was put off: the time of each
-- row's next attempt is as it was.
pub apply_due-settles :
    (w : World) (limit : ℕ)
    → ((srv : Server) → failure w.boxes srv ≡ none)
    → All (λ r. exists_row (λ s. s.id =? r.server_id) w.db.servers ≡ true) w.db.peers
    → length (rows_where (is_due w.now) w.db.peers) ≤ limit
    → All (λ r. is_due w.now r ≡ false) (apply_due world_service limit w).1.db.peers
      × (times (apply_due world_service limit w).1.db.peers ≡ times w.db.peers)
unfolding apply_due world_service world_store new_service due_assignments
apply_due-settles w limit answers placed room =
    let (settled, same) =
      apply_all-settles w.now (join_servers w.db.servers w.db.peers batch) w (refl, answers)
        (All-map _ (Waits w.now (join_servers w.db.servers w.db.peers batch)) w.db.peers waiting
          (self-covered w.now w.db.peers)) in
    (All-map (Waits w.now []) (λ r. is_due w.now r ≡ false) _ done_waiting settled, same)
  where
    batch : List PeerRow
    batch = due_rows w.now limit no_lock w.db.peers

    done_waiting : (r : PeerRow) → Waits w.now [] r → is_due w.now r ≡ false
    done_waiting r (inl rests) = rests
    done_waiting r (inr h) = absurd cc

    placed_batch : All (λ r. exists_row (λ s. s.id =? r.server_id) w.db.servers ≡ true) batch
    placed_batch = rw (due_rows-all w.now limit w.db.peers room) (
        All-sort_by by_attempt _ (rows_where (is_due w.now) w.db.peers) (
          All-map _ _ (rows_where (is_due w.now) w.db.peers) (λ r h. h.0)
            (All-rows_where (λ r. exists_row (λ s. s.id =? r.server_id) w.db.servers ≡ true)
              (is_due w.now) w.db.peers placed)))

    waiting :
        (r : PeerRow)
        → (is_due w.now r ≡ false)
          ⊎ (exists_row (λ x. is_due w.now x && covers (scan_peer x) r) w.db.peers ≡ true)
        → Waits w.now (join_servers w.db.servers w.db.peers batch) r
    waiting r (inl rests) = inl rests
    waiting r (inr h) = inr (
        covered-join w.db.servers w.db.peers batch r placed_batch (
          ap (exists_row (λ x. covers (scan_peer x) r)) (due_rows-all w.now limit w.db.peers room)
          ∙ exists_row-sort_by by_attempt (λ x. covers (scan_peer x) r)
              (rows_where (is_due w.now) w.db.peers)
          ∙ exists_row-rows_where (λ x. covers (scan_peer x) r) (is_due w.now) w.db.peers
          ∙ h))
