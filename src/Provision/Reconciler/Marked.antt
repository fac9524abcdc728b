-- ===== src/Provision/Reconciler/Marked.antt =====
-- What `MarkApplied`, `MarkRevoked` and `MarkAttemptFailed` of server/internal/store/peers.go make of
-- each row, field by field.
use proxify_vpn.Base.{
  List, String, arith, false, inl, inr, none, refl, some, true, ℕ, ◌+◌, ◌<◌, ◌=?◌, ◌≡◌, ◌≢◌, ◌≤◌,
  ◌⊎◌,
}
use proxify_vpn.Base.Rows.{Pointwise, Pointwise-update_where}
use proxify_vpn.Base.Text.{take_text}
use proxify_vpn.Model.{PeerAssignment, active, is_pending, is_revoking, revoked}
use proxify_vpn.Provision.Engine.{retry_at}
use proxify_vpn.Store.Db.{PeerRow}
use proxify_vpn.Store.Peers.{
  awaits, awaits_removal, mark_applied, mark_attempt_failed, mark_revoked,
}

-- The row is still about the same key at the same address, as asked for at the same revision.
abbrev pub IsSamePeer : PeerRow → PeerRow → Type 0
IsSamePeer r r' =
    (r'.id ≡ r.id)
    × (r'.device_id ≡ r.device_id)
    × (r'.server_id ≡ r.server_id)
    × (r'.public_key ≡ r.public_key)
    × (r'.tunnel_ip ≡ r.tunnel_ip)
    × (r'.revision ≡ r.revision)

-- The work on a row is done: its confirmed revision reaches the one that was applied and is not
-- lowered, and no failure is left on it.
abbrev pub IsDone : PeerAssignment → PeerRow → PeerRow → Type 0
IsDone a r r' =
    IsSamePeer r r'
    × (a.revision ≤ r'.applied_revision)
    × (r.applied_revision ≤ r'.applied_revision)
    × (r'.attempts ≡ 0)
    × (r'.last_error ≡ none)

-- The pending row that the assignment was read from, at no later revision, is live and owes no
-- removal of an older key; every other row is unchanged.
abbrev pub IsConfirmed : PeerAssignment → PeerRow → PeerRow → Type 0
IsConfirmed a r r' =
    ((r.id ≡ a.id)
      × (is_pending r.state ≡ true)
      × (r.revision ≤ a.revision)
      × (r'.state ≡ active)
      × (r'.prev_public_key ≡ none)
      × IsDone a r r')
    ⊎ (((r.id ≢ a.id) ⊎ (is_pending r.state ≡ false) ⊎ (a.revision < r.revision)) × (r' ≡ r))

-- The row under revocation that the assignment was read from, at no later revision, is revoked as of
-- now; every other row is unchanged.
abbrev pub IsRetired : ℕ → PeerAssignment → PeerRow → PeerRow → Type 0
IsRetired now a r r' =
    ((r.id ≡ a.id)
      × (is_revoking r.state ≡ true)
      × (r.revision ≤ a.revision)
      × (r'.state ≡ revoked)
      × (r'.revoked_at ≡ some now)
      × IsDone a r r')
    ⊎ (((r.id ≢ a.id) ⊎ (is_revoking r.state ≡ false) ⊎ (a.revision < r.revision)) × (r' ≡ r))

-- The row of the assignment has one attempt more, is due again at `retry_at` and carries the first
-- 500 characters of the cause, in the state and under the keys it had; every other row is unchanged.
abbrev pub IsPutOff : ℕ → String → PeerAssignment → PeerRow → PeerRow → Type 0
IsPutOff retry_at cause a r r' =
    ((r.id ≡ a.id)
      × IsSamePeer r r'
      × (r'.state ≡ r.state)
      × (r'.applied_revision ≡ r.applied_revision)
      × (r'.prev_public_key ≡ r.prev_public_key)
      × (r'.attempts ≡ r.attempts + 1)
      × (r'.next_attempt_at ≡ retry_at)
      × (r'.last_error ≡ some (take_text 500 cause)))
    ⊎ ((r.id ≢ a.id) × (r' ≡ r))

pub mark_applied-IsConfirmed :
    (now : ℕ) (a : PeerAssignment) (rows : List PeerRow)
    → Pointwise (IsConfirmed a) rows (mark_applied now a.id a.revision rows)
unfolding mark_applied
mark_applied-IsConfirmed now a rows =
    Pointwise-update_where (IsConfirmed a) (awaits a.id a.revision) _ rows
      (λ r hit. inl (
        ground arith,
        ground arith,
        ground arith,
        refl,
        refl,
        ((refl, refl, refl, refl, refl, refl), ground arith, ground arith, refl, refl),
      ))
      (λ r miss. inr (passed r miss, refl))
  where
    passed :
        (r : PeerRow)
        → awaits a.id a.revision r ≡ false
        → (r.id ≢ a.id) ⊎ (is_pending r.state ≡ false) ⊎ (a.revision < r.revision)
    passed r miss = ground arith

pub mark_revoked-IsRetired :
    (now : ℕ) (a : PeerAssignment) (rows : List PeerRow)
    → Pointwise (IsRetired now a) rows (mark_revoked now a.id a.revision rows)
unfolding mark_revoked
mark_revoked-IsRetired now a rows =
    Pointwise-update_where (IsRetired now a) (awaits_removal a.id a.revision) _ rows
      (λ r hit. inl (
        ground arith,
        ground arith,
        ground arith,
        refl,
        refl,
        ((refl, refl, refl, refl, refl, refl), ground arith, ground arith, refl, refl),
      ))
      (λ r miss. inr (passed r miss, refl))
  where
    passed :
        (r : PeerRow)
        → awaits_removal a.id a.revision r ≡ false
        → (r.id ≢ a.id) ⊎ (is_revoking r.state ≡ false) ⊎ (a.revision < r.revision)
    passed r miss = ground arith

pub mark_attempt_failed-IsPutOff :
    (now retry_at : ℕ) (cause : String) (a : PeerAssignment) (rows : List PeerRow)
    → Pointwise (IsPutOff retry_at cause a) rows (mark_attempt_failed now a.id cause retry_at rows)
unfolding mark_attempt_failed
mark_attempt_failed-IsPutOff now retry_at cause a rows =
    Pointwise-update_where (IsPutOff retry_at cause a) (λ r. r.id =? a.id) _ rows
      (λ r hit.
        inl
          (ground arith, (refl, refl, refl, refl, refl, refl), refl, refl, refl, refl, refl, refl))
      (λ r miss. inr ((λ e. ground arith), refl))
