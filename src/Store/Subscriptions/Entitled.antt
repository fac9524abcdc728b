-- ===== src/Store/Subscriptions/Entitled.antt =====
-- `Entitlement` of server/internal/store/subscriptions.go: who may hold a tunnel, and on which block.
use mathlib.Core.List.{Mem, mem-cons_of_mem, mem-cons_self}
use proxify_vpn.Base.{
  All, All-map, Bool, Bool-cases, List, Option, Option-cases, String, [], ap, arith, false, inl,
  inr, none, not, refl, some, sym, true, ℕ, ◌&&◌, ◌<◌, ◌∙◌, ◌∷◌, ◌≡◌, ◌≤◌, ◌⊎◌,
}
use proxify_vpn.Base.Rows.{exists_row, find_row, rows_where}
use proxify_vpn.Base.Sorting.{
  All-sort_by, All-sort_by-out, IsOrdered, IsOrdered-head, IsOrdered-sort_by, is_empty,
  is_empty-sort_by, sort_by,
}
use proxify_vpn.Model.{Entitlement}
use proxify_vpn.Store.Db.{PlanRow, SubscriptionRow, is_null}
use proxify_vpn.Store.Subscriptions.{
  better_block, entitled_by, entitlement, is_current, plan_coded, with_limits,
}

abbrev pub has_plan : List PlanRow → SubscriptionRow → Bool
has_plan plans s = exists_row (plan_coded s.plan_code) plans

find_row-exists :
    (s : SubscriptionRow) (plans : List PlanRow)
    → is_null (find_row (plan_coded s.plan_code) plans) ≡ not (has_plan plans s)
find_row-exists s [] = refl
find_row-exists s (p ∷ plans) = ground (arith, find_row-exists s plans)

is_empty-with_limits :
    (plans : List PlanRow) (p : SubscriptionRow → Bool) (rows : List SubscriptionRow)
    → is_empty (with_limits plans (rows_where p rows))
      ≡ not (exists_row (λ s. p s && has_plan plans s) rows)
unfolding with_limits
is_empty-with_limits plans p [] = refl
is_empty-with_limits plans p (s ∷ rows) =
    ground (arith, find_row-exists s plans, is_empty-with_limits plans p rows)

entitled_by-active : (xs : List (SubscriptionRow × ℕ)) → (entitled_by xs).active ≡ not (is_empty xs)
entitled_by-active [] = refl
entitled_by-active ((s, n) ∷ xs) = refl

-- A user is entitled exactly when some block of theirs that is not revoked covers now and its plan
-- is in the table.
pub entitlement-active :
    (now : ℕ) (user_id : String) (plans : List PlanRow) (rows : List SubscriptionRow)
    → (entitlement now user_id plans rows).active
      ≡ exists_row (λ s. is_current user_id now s && has_plan plans s) rows
unfolding entitlement
entitlement-active now u plans rows =
    entitled_by-active (sort_by better_block found)
    ∙ ap not (is_empty-sort_by better_block found)
    ∙ ap not (is_empty-with_limits plans (is_current u now) rows)
    ∙ not_not (exists_row (λ s. is_current u now s && has_plan plans s) rows)
  where
    found : List (SubscriptionRow × ℕ)
    found = with_limits plans (rows_where (is_current u now) rows)

    not_not : (b : Bool) → not (not b) ≡ b
    not_not true = refl
    not_not false = refl

better_block-asym : (a b : SubscriptionRow × ℕ) → better_block a b ≡ true → better_block b a ≡ false
better_block-asym (a, m) (b, n) h = ground arith

better_block_trans :
    (a b c : SubscriptionRow × ℕ)
    → better_block b a ≡ false
    → better_block c b ≡ false
    → better_block c a ≡ false
better_block_trans (a, m) (b, n) (c, k) p q = ground arith

abbrev pub IsNoBetter : Entitlement → SubscriptionRow × ℕ → Type 0
IsNoBetter e (s, limit) =
    (limit ≤ e.device_limit) × ((limit < e.device_limit) ⊎ (s.expires_at ≤ e.expires_at))

entitled_by-best :
    (xs : List (SubscriptionRow × ℕ))
    → IsOrdered better_block xs
    → All (IsNoBetter (entitled_by xs)) xs
entitled_by-best [] h = tt
entitled_by-best ((s, n) ∷ xs) h = (
  (omega arith, inr (omega arith)),
  All-map (λ y. better_block y (s, n) ≡ false) (IsNoBetter (entitled_by ((s, n) ∷ xs))) xs no_better
      (IsOrdered-head better_block better_block_trans (s, n) xs h),
)
  where
    no_better :
        (y : SubscriptionRow × ℕ)
        → better_block y (s, n) ≡ false
        → IsNoBetter (entitled_by ((s, n) ∷ xs)) y
    no_better (t, m) k = ground arith

-- A row of the table, a block of the user's that is not revoked and covers now, with the limit of its
-- plan.
abbrev IsBlock : ℕ → String → List PlanRow → List SubscriptionRow → SubscriptionRow × ℕ → Type 0
IsBlock now user_id plans rows (s, limit) =
    Mem s rows
    × (is_current user_id now s ≡ true)
    × ((p : PlanRow) × (find_row (plan_coded s.plan_code) plans ≡ some p)
        × (limit ≡ p.device_limit))

All-with_limits :
    (P : SubscriptionRow → Type 0) (plans : List PlanRow) (rows : List SubscriptionRow)
    → All P rows
    → All
        (λ (s, limit).
          P s
          × ((p : PlanRow) × (find_row (plan_coded s.plan_code) plans ≡ some p)
              × (limit ≡ p.device_limit)))
        (with_limits plans rows)
unfolding with_limits
All-with_limits P plans [] h = tt
All-with_limits P plans (s ∷ rows) h =
    elim (Option-cases (find_row (plan_coded s.plan_code) plans)) [
      | inl gone ↦ rw (gone, All) (All-with_limits P plans rows h.1)
      | inr (p, found) ↦ rw (found, All) ((h.0, (p, found, refl)), All-with_limits P plans rows h.1)
    ]

All-Mem :
    (p : SubscriptionRow → Bool) (all rows : List SubscriptionRow)
    → ((s : SubscriptionRow) → Mem s rows → Mem s all)
    → All (λ s. Mem s all × (p s ≡ true)) (rows_where p rows)
All-Mem p all [] h = tt
All-Mem p all (s ∷ rows) h = elim (Bool-cases (p s)) [
  | inl hit ↦
      rw hit ((h s mem-cons_self, hit), All-Mem p all rows (λ t m. h t (mem-cons_of_mem s m)))
  | inr miss ↦ rw miss (All-Mem p all rows (λ t m. h t (mem-cons_of_mem s m)))
]

-- What the entitlement says is what such a block gives, or no block of the user's gives any.
abbrev pub IsGiven : ℕ → String → List PlanRow → List SubscriptionRow → Entitlement → Type 0
IsGiven now user_id plans rows e =
    ((e.active ≡ false)
      × All (λ s. (is_current user_id now s ≡ false) ⊎ (has_plan plans s ≡ false)) rows)
    ⊎ ((s : SubscriptionRow) × (p : PlanRow) × Mem s rows
        × (s.user_id ≡ user_id)
        × (s.revoked_at ≡ none)
        × (s.starts_at ≤ now)
        × (now < s.expires_at)
        × (find_row (plan_coded s.plan_code) plans ≡ some p)
        × (e ≡ record {
          active = true;
          plan_code = s.plan_code;
          expires_at = s.expires_at;
          device_limit = p.device_limit;
        }))

not_revoked : (at : Option ℕ) → is_null at ≡ true → at ≡ none
not_revoked none h = refl
not_revoked (some n) h = absurd cc

not_any :
    (p : SubscriptionRow → Bool) (plans : List PlanRow) (rows : List SubscriptionRow)
    → exists_row (λ s. p s && has_plan plans s) rows ≡ false
    → All (λ s. (p s ≡ false) ⊎ (has_plan plans s ≡ false)) rows
not_any p plans [] h = tt
not_any p plans (s ∷ rows) h = (head, not_any p plans rows (ground arith))
  where
    head : (p s ≡ false) ⊎ (has_plan plans s ≡ false)
    head = ground arith

IsGiven-by :
    (now : ℕ) (user_id : String) (plans : List PlanRow) (rows : List SubscriptionRow)
    (xs : List (SubscriptionRow × ℕ))
    → All (IsBlock now user_id plans rows) xs
    → (entitled_by xs).active ≡ exists_row (λ s. is_current user_id now s && has_plan plans s) rows
    → IsGiven now user_id plans rows (entitled_by xs)
IsGiven-by now u plans rows [] h e = inl (refl, not_any (is_current u now) plans rows (sym e))
IsGiven-by now u plans rows ((s, limit) ∷ xs) h e =
    let (m, current, (p, found, same)) = h.0 in
    inr (
      s,
      p,
      m,
      ground arith,
      not_revoked s.revoked_at (ground arith),
      ground arith,
      ground arith,
      found,
      rw same refl,
    )

-- A user is entitled to what one of their blocks gives, that is not revoked and covers now: its plan,
-- until it ends, with the device limit of the plan; or to nothing, when none of their blocks does
-- whose plan is in the table. And it is the best of these blocks: none has a plan with a larger device
-- limit, and none with the same limit lasts longer.
pub entitlement-best :
    (now : ℕ) (user_id : String) (plans : List PlanRow) (rows : List SubscriptionRow)
    → IsGiven now user_id plans rows (entitlement now user_id plans rows)
      × All
          (IsNoBetter (entitlement now user_id plans rows))
          (with_limits plans (rows_where (is_current user_id now) rows))
unfolding entitlement
entitlement-best now u plans rows = (
  IsGiven-by now u plans rows (sort_by better_block found) sorted
      (entitlement-active now u plans rows),
  All-sort_by-out _ better_block found (
      entitled_by-best (sort_by better_block found)
        (IsOrdered-sort_by better_block better_block-asym found)),
)
  where
    found : List (SubscriptionRow × ℕ)
    found = with_limits plans (rows_where (is_current u now) rows)

    sorted : All (IsBlock now u plans rows) (sort_by better_block found)
    sorted = All-sort_by better_block (IsBlock now u plans rows) found (
        All-map _ _ found (λ (s, limit) ((m, current), plan). (m, current, plan))
          (All-with_limits (λ s. Mem s rows × (is_current u now s ≡ true)) plans
            (rows_where (is_current u now) rows) (All-Mem (is_current u now) rows rows (λ s m. m))))
