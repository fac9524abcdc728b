-- ===== src/Store/Subscriptions/Expired.antt =====
-- `ExpiredUserIDs` of server/internal/store/subscriptions.go: the deprovisioning worklist.
use proxify_vpn.Base.{
  All, All-map, Bool, Bool-cases, List, String, [], arith, false, inl, inr, length, not, refl, sym,
  true, ℕ, ◌&&◌, ◌=?◌, ◌||◌, ◌∙◌, ◌∷◌, ◌≡◌, ◌≤◌,
}
use proxify_vpn.Base.Rows.{All-listed, All-rows_where, exists_row, listed, rows_where}
use proxify_vpn.Base.Sorting.{All-take, take_all}
use proxify_vpn.Model.{Device, is_live}
use proxify_vpn.Store.Db.{PeerRow, SubscriptionRow}
use proxify_vpn.Store.Peers.{belongs_to}
use proxify_vpn.Store.Subscriptions.{expired_user_ids, is_current, live_owners, owners_of}

abbrev pub holds_peer : List Device → List PeerRow → String → Bool
holds_peer devices peers u = exists_row (λ r. is_live r.state && belongs_to u devices r) peers

listed-owners_of :
    (u : String) (r : PeerRow) (devices : List Device) (ids : List String)
    → listed u (owners_of r devices ids) ≡ (belongs_to u devices r || listed u ids)
unfolding owners_of
listed-owners_of u r [] ids = refl
listed-owners_of u r (d ∷ devices) ids = ground (arith, listed-owners_of u r devices ids)

listed-live_owners :
    (u : String) (devices : List Device) (peers : List PeerRow)
    → listed u (live_owners devices peers) ≡ holds_peer devices peers u
unfolding live_owners
listed-live_owners u devices [] = refl
listed-live_owners u devices (r ∷ peers) = ground (
  arith,
  listed-live_owners u devices peers,
  listed-owners_of u r devices (live_owners devices peers),
)

-- The worklist names only users who hold a live peer and have no block that covers now.
pub expired_user_ids_sound :
    (now limit : ℕ) (devices : List Device) (peers : List PeerRow) (rows : List SubscriptionRow)
    → All
        (λ u. (holds_peer devices peers u ≡ true) × (exists_row (is_current u now) rows ≡ false))
        (expired_user_ids now limit devices peers rows)
unfolding expired_user_ids
expired_user_ids_sound now limit devices peers rows = All-take _ limit _ (
    All-map _ _ _ (λ u h. (sym (listed-live_owners u devices peers) ∙ h.0, ground (arith, h.1)))
      (All-rows_where (λ u. listed u owners ≡ true) (λ u. not (exists_row (is_current u now) rows))
        owners (All-listed owners)))
  where
    owners : List String
    owners = live_owners devices peers

abbrev pub lapsed : ℕ → List Device → List PeerRow → List SubscriptionRow → List String
lapsed now devices peers rows =
    rows_where (λ u. not (exists_row (is_current u now) rows)) (live_owners devices peers)

-- With a batch that holds them all, it misses none of them.
pub expired_user_ids_complete :
    (now limit : ℕ) (devices : List Device) (peers : List PeerRow) (rows : List SubscriptionRow)
    (u : String)
    → length (lapsed now devices peers rows) ≤ limit
    → holds_peer devices peers u ≡ true
    → exists_row (is_current u now) rows ≡ false
    → listed u (expired_user_ids now limit devices peers rows) ≡ true
unfolding expired_user_ids
expired_user_ids_complete now limit devices peers rows u room holds out =
    rw (take_all limit (lapsed now devices peers rows) room)
      (kept (live_owners devices peers) (listed-live_owners u devices peers ∙ holds))
  where
    kept :
        (ids : List String)
        → listed u ids ≡ true
        → listed u (rows_where (λ k. not (exists_row (is_current k now) rows)) ids) ≡ true
    kept [] h = h
    kept (k ∷ ids) h = elim (Bool-cases (k =? u)) [
      | inl same ↦ ground arith
      | inr other ↦ ground (arith, kept ids)
    ]
