-- ===== src/Store/Subscriptions/Blocks.antt =====
-- `GrantTimeBlock` of server/internal/store/subscriptions.go: blocks stack and no paid time is lost.
use proxify_vpn.Base.{
  All, All-map, Bool, List, Option-cases, String, [], ap, arith, false, inl, inr, leb, ltb, none,
  some, true, ℕ, ◌&&◌, ◌+◌, ◌<◌, ◌==◌, ◌=?◌, ◌||◌, ◌∙◌, ◌∷◌, ◌≡◌, ◌≤◌, ◌⊎◌,
}
use proxify_vpn.Base.Rows.{exists_row, find_row}
use proxify_vpn.Errors.{ok}
use proxify_vpn.Model.{Subscription}
use proxify_vpn.Store.Db.{PlanRow, SubscriptionRow, coalesce, is_null}
use proxify_vpn.Store.Subscriptions.{
  block_start, grant_time_block, is_current, is_open, last_expiry, new_block, plan_coded,
}

-- An open block ends by the last expiry.
abbrev EndsBy : String → ℕ → ℕ → SubscriptionRow → Type 0
EndsBy user_id now limit s = (is_open user_id now s ≡ false) ⊎ (s.expires_at ≤ limit)

EndsBy-mono :
    (user_id : String) (now m n : ℕ) (rows : List SubscriptionRow)
    → m ≤ n
    → All (EndsBy user_id now m) rows
    → All (EndsBy user_id now n) rows
EndsBy-mono u now m n rows le h = All-map _ _ rows widen h
  where
    widen : (s : SubscriptionRow) → EndsBy u now m s → EndsBy u now n s
    widen s (inl closed) = inl closed
    widen s (inr ends) = inr (omega arith)

last_expiry-bound :
    (user_id : String) (now : ℕ) (rows : List SubscriptionRow)
    → All (EndsBy user_id now (coalesce (last_expiry user_id now rows) now)) rows
unfolding last_expiry
last_expiry-bound u now [] = tt
last_expiry-bound u now (s ∷ rows) = (
  ground arith,
  EndsBy-mono u now (coalesce (last_expiry u now rows) now)
      (coalesce (last_expiry u now (s ∷ rows)) now) rows (ground arith)
      (last_expiry-bound u now rows),
)

-- A block of the user's that is not revoked and ends after now, at the given time.
abbrev pub ends_at : String → ℕ → ℕ → SubscriptionRow → Bool
ends_at user_id now t s =
    ((s.user_id =? user_id && is_null s.revoked_at) && ltb now s.expires_at) && s.expires_at == t

last_attained :
    (user_id : String) (now : ℕ) (rows : List SubscriptionRow) (t : ℕ)
    → last_expiry user_id now rows ≡ some t
    → (exists_row (ends_at user_id now t) rows ≡ true) × (now < t)
unfolding last_expiry
last_attained u now [] t h = absurd (cc)
last_attained u now (s ∷ rows) t h = elim (Option-cases (last_expiry u now rows)) [
  | inl first ↦ ground arith
  | inr (m, e) ↦ let (there, later) = last_attained u now rows m e in ground arith
]

start_attained :
    (user_id : String) (now : ℕ) (rows : List SubscriptionRow)
    → (block_start user_id now rows ≡ now)
      ⊎ (exists_row (ends_at user_id now (block_start user_id now rows)) rows ≡ true)
unfolding block_start
start_attained u now rows = elim (Option-cases (last_expiry u now rows)) [
  | inl none_open ↦ inl (ground arith)
  | inr (t, e) ↦
      let (there, later) = last_attained u now rows t e in
      let same : block_start u now rows ≡ t = ground arith in
      inr (ap (λ x. exists_row (ends_at u now x) rows) same ∙ there)
]

module _ (now : ℕ) (fresh_id user_id plan_code source : String) (plans : List PlanRow)
    (rows rows' : List SubscriptionRow) (b : Subscription) where
  pub granted_block :
      grant_time_block now fresh_id user_id plan_code source plans rows ≡ (ok b, rows')
      → (p : PlanRow) × (find_row (plan_coded plan_code) plans ≡ some p)
        × (b ≡ new_block fresh_id user_id source (block_start user_id now rows) p.plan)
        × (rows' ≡ record { block = b; revoked_at = none } ∷ rows)
        × (b.starts_at < b.expires_at)
  unfolding grant_time_block
  granted_block h = elim (Option-cases (find_row (plan_coded plan_code) plans)) [
    | inl missing ↦ absurd (refused missing)
    | inr (p, found) ↦ (p, found, ground arith, ground arith, ground arith)
  ]
    where
      refused : find_row (plan_coded plan_code) plans ≡ none → ⊥
      refused e = ground arith

  -- A granted block is the user's, of the plan. It starts now, or exactly when an open block of the
  -- user's ends, and no open block ends later than it starts; it lasts as long as its plan says; and no
  -- other block is touched.
  pub grant_time_block-stacks :
      grant_time_block now fresh_id user_id plan_code source plans rows ≡ (ok b, rows')
      → (p : PlanRow) × (find_row (plan_coded plan_code) plans ≡ some p)
        × ((b.starts_at ≡ now) ⊎ (exists_row (ends_at user_id now b.starts_at) rows ≡ true))
        × (now ≤ b.starts_at)
        × All (λ s. (is_open user_id now s ≡ false) ⊎ (s.expires_at ≤ b.starts_at)) rows
        × (b.expires_at ≡ b.starts_at + p.duration)
        × ((b.user_id ≡ user_id) × (b.plan_code ≡ p.code) × (b.source ≡ source))
        × (rows' ≡ record { block = b; revoked_at = none } ∷ rows)
  unfolding block_start
  grant_time_block-stacks h =
      let (p, found, e, added, window) = granted_block h in
      (
        p,
        found,
        started p e (start_attained user_id now rows),
        ground arith,
        EndsBy-mono user_id now (coalesce (last_expiry user_id now rows) now) b.starts_at rows
            (ground arith) (last_expiry-bound user_id now rows),
        ground arith,
        (ground arith, ground arith, ground arith),
        added,
      )
    where
      started :
          (p : PlanRow)
          → b ≡ new_block fresh_id user_id source (block_start user_id now rows) p.plan
          → (block_start user_id now rows ≡ now)
            ⊎ (exists_row (ends_at user_id now (block_start user_id now rows)) rows ≡ true)
          → (b.starts_at ≡ now) ⊎ (exists_row (ends_at user_id now b.starts_at) rows ≡ true)
      started p e (inl at_once) = inl (ap (λ x. x.starts_at) e ∙ at_once)
      started p e (inr behind) =
          inr (ap (λ x. exists_row (ends_at user_id now x.starts_at) rows) e ∙ behind)

  -- The user's paid time after a grant ends exactly the plan's duration after it would have ended
  -- without, or that long from now if nothing was left.
  pub grant_time_block-extends :
      grant_time_block now fresh_id user_id plan_code source plans rows ≡ (ok b, rows')
      → (p : PlanRow) × (find_row (plan_coded plan_code) plans ≡ some p)
        × (last_expiry user_id now rows' ≡ some (block_start user_id now rows + p.duration))
  unfolding block_start
  grant_time_block-extends h =
      let (p, found, e, added, window) = granted_block h in (p, found, rw added (ground arith))

  -- A grant adds the block's own window to the times at which the user is covered, and takes none
  -- away.
  pub grant_time_block-covers :
      (t : ℕ)
      → grant_time_block now fresh_id user_id plan_code source plans rows ≡ (ok b, rows')
      → exists_row (is_current user_id t) rows'
        ≡ ((leb b.starts_at t && ltb t b.expires_at) || exists_row (is_current user_id t) rows)
  grant_time_block-covers t h =
      let (p, found, e, added, window) = granted_block h in rw added (ground arith)
