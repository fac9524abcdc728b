-- ===== src/Store/Peers/Invariant.antt =====
-- The table's two invariants, which every statement of server/internal/store/peers.go keeps: no two
-- rows clash, and an active row is one whose revision the edge has confirmed.
use proxify_vpn.Base.{
  All, Bool, Bool-cases, List, [], arith, false, inl, inr, none, refl, some, true, ◌=?◌, ◌∷◌, ◌≡◌,
  ◌≤◌, ◌⊎◌,
}
use proxify_vpn.Base.Rows.{change, find_row, find_row-All, update_where}
use proxify_vpn.Model.{is_active, is_held}
use proxify_vpn.Store.Db.{PeerRow}
use proxify_vpn.Store.Peers.{clash}

abbrev pub NoClash : List PeerRow → Type 0
NoClash [] = Unit
NoClash (r ∷ rows) = All (λ s. clash r s ≡ false) rows × NoClash rows

abbrev pub IsSettled : PeerRow → Type 0
IsSettled r =
    (is_active r.state ≡ false) ⊎ ((r.revision ≤ r.applied_revision) × (r.prev_public_key ≡ none))

-- A statement's effect on a row: its keys and address stay, and no revoked row comes back.
pub record Tame (r s : PeerRow) : Type 0 where
  pub same_id : s.id ≡ r.id
  pub same_device : s.device_id ≡ r.device_id
  pub same_server : s.server_id ≡ r.server_id
  pub same_ip : s.tunnel_ip ≡ r.tunnel_ip
  pub held_before : is_held s.state ≡ true → is_held r.state ≡ true

clash-Tame : (r r' s s' : PeerRow) → Tame r r' → Tame s s' → clash r s ≡ false → clash r' s' ≡ false
clash-Tame r r' s s' t u h = ground arith

module _ (p : PeerRow → Bool) (f : PeerRow → PeerRow) where
  All-clash-update :
      (r r' : PeerRow) (rows : List PeerRow)
      → Tame r r'
      → All (λ s. Tame s (change p f s)) rows
      → All (λ s. clash r s ≡ false) rows
      → All (λ s. clash r' s ≡ false) (update_where p f rows)
  All-clash-update r r' [] t tame h = tt
  All-clash-update r r' (s ∷ rows) t tame h =
      (clash-Tame r r' s (change p f s) t tame.0 h.0, All-clash-update r r' rows t tame.1 h.1)

  pub NoClash-update_where :
      (rows : List PeerRow)
      → All (λ s. Tame s (change p f s)) rows
      → NoClash rows
      → NoClash (update_where p f rows)
  NoClash-update_where [] tame h = tt
  NoClash-update_where (r ∷ rows) tame h = (
    All-clash-update r (change p f r) rows tame.0 tame.1 h.0,
    NoClash-update_where rows tame.1 h.1,
  )

  -- A statement whose `SET` is tame wherever its `WHERE` holds.
  pub All-Tame :
      ((r : PeerRow) → p r ≡ true → Tame r (f r))
      → (rows : List PeerRow) → All (λ s. Tame s (change p f s)) rows
  All-Tame h [] = tt
  All-Tame h (r ∷ rows) = (head, All-Tame h rows)
    where
      head : Tame r (change p f r)
      head = elim (Bool-cases (p r)) [
        | inl hit ↦ rw hit (h r hit)
        | inr miss ↦ rw miss (record {
          same_id = refl;
          same_device = refl;
          same_server = refl;
          same_ip = refl;
          held_before = λ e. e;
        })
      ]

-- Every row under the id of a held row is held: the primary key allows the id only once.
pub same_id-held :
    (q : PeerRow → Bool) (rows : List PeerRow) (p : PeerRow)
    → NoClash rows
    → find_row q rows ≡ some p
    → is_held p.state ≡ true
    → All (λ r. (r.id =? p.id) ≡ true → is_held r.state ≡ true) rows
same_id-held q [] p h e held = tt
same_id-held q (x ∷ rows) p h e held = elim (Bool-cases (q x)) [
  | inl hit ↦ at_head (ground arith)
  | inr miss ↦ (in_tail (ground arith), same_id-held q rows p h.1 (ground arith) held)
]
  where
    apart :
        (xs : List PeerRow)
        → All (λ s. clash x s ≡ false) xs
        → x ≡ p
        → All (λ r. (r.id =? p.id) ≡ true → is_held r.state ≡ true) xs
    apart [] c e = tt
    apart (y ∷ ys) c e = (λ same. ground (arith, c.0), apart ys c.1 e)

    at_head : x ≡ p → All (λ r. (r.id =? p.id) ≡ true → is_held r.state ≡ true) (x ∷ rows)
    at_head e = (λ _. rw e held, apart rows h.0 e)

    in_tail : find_row q rows ≡ some p → (x.id =? p.id) ≡ true → is_held x.state ≡ true
    in_tail e same = let differ = find_row-All (λ s. clash x s ≡ false) q rows h.0 e in ground arith
