-- ===== src/Store/Subscriptions.antt =====
-- server/internal/store/subscriptions.go: plans, prepaid time blocks, and who is entitled now.
pub mod Blocks
pub mod Entitled
pub mod Expired
use mathlib.Core.Option
use proxify_vpn.Base.{
  Bool, List, Option, String, [], false, greatest, if◌then◌else◌, leb, ltb, map, none, not, some,
  true, ℕ, ◌&&◌, ◌+◌, ◌==◌, ◌=?◌, ◌||◌, ◌∷◌,
}
use proxify_vpn.Base.Rows.{exists_row, find_row, rows_where}
use proxify_vpn.Base.Sorting.{sort_by, take}
use proxify_vpn.Errors.{Result, device_limit, err, map_err, no_rows, ok, sentinel, text}
use proxify_vpn.Model.{Device, Entitlement, Plan, Subscription, active, is_live}
use proxify_vpn.Store.Db.{PeerRow, PlanRow, SubscriptionRow, coalesce, is_null}

abbrev pub plan_coded : String → PlanRow → Bool
plan_coded code p = p.code =? code

abbrev pub or_not_found {ℓ} : {A : Type ℓ} → Option A → Result A
or_not_found none = err (map_err (sentinel no_rows))
or_not_found (some a) = ok a

-- `Plan`: only a plan on sale is found.
unfoldable pub plan_by_code : String → List PlanRow → Result Plan
plan_by_code code plans =
    or_not_found (Option.map (λ p. p.plan) (find_row (λ p. p.code =? code && p.on_sale) plans))

-- `Plans`
unfoldable pub plans_on_sale : List PlanRow → List Plan
plans_on_sale plans =
    map (λ p. p.plan)
      (sort_by (λ a b. ltb a.sort_order b.sort_order) (rows_where (λ p. p.on_sale) plans))

-- A block of the user's that has not ended: what `GrantTimeBlock` stacks on.
abbrev pub is_open : String → ℕ → SubscriptionRow → Bool
is_open user_id now s = (s.user_id =? user_id && is_null s.revoked_at) && ltb now s.expires_at

-- A block that covers now: what `Entitlement` looks for.
abbrev pub is_current : String → ℕ → SubscriptionRow → Bool
is_current user_id now s =
    (s.user_id =? user_id && is_null s.revoked_at) && (leb s.starts_at now && ltb now s.expires_at)

abbrev pub later_of : Option ℕ → ℕ → ℕ
later_of none n = n
later_of (some m) n = greatest m n

-- `SELECT max(expires_at)` over the open blocks; NULL if there is none.
unfoldable pub last_expiry : String → ℕ → List SubscriptionRow → Option ℕ
last_expiry user_id now [] = none
last_expiry user_id now (s ∷ rows) =
    let rest = last_expiry user_id now rows in
    if is_open user_id now s then some (later_of rest s.expires_at) else rest

-- `GREATEST(now(), COALESCE(…, now()))`
unfoldable pub block_start : String → ℕ → List SubscriptionRow → ℕ
unfolding last_expiry
block_start user_id now rows = greatest now (coalesce (last_expiry user_id now rows) now)

abbrev pub new_block : String → String → String → ℕ → Plan → Subscription
new_block id user_id source starts_at p = record {
  id = id;
  user_id = user_id;
  plan_code = p.code;
  source = source;
  starts_at = starts_at;
  expires_at = starts_at + p.duration;
  data_cap_bytes = p.data_cap_bytes;
}

-- The `INSERT`, under the table's constraint `expires_at > starts_at`.
abbrev pub insert_block :
    Subscription → List SubscriptionRow → Result Subscription × List SubscriptionRow
insert_block b rows =
    if ltb b.starts_at b.expires_at
    then (ok b, record { block = b; revoked_at = none } ∷ rows)
    else (err (text "subscriptions_window"), rows)

abbrev pub grant_plan :
    ℕ
    → String
    → String
    → String
    → Option PlanRow
    → List SubscriptionRow
    → Result Subscription × List SubscriptionRow
grant_plan now fresh_id user_id source none rows = (err (map_err (sentinel no_rows)), rows)
grant_plan now fresh_id user_id source (some p) rows =
    insert_block (new_block fresh_id user_id source (block_start user_id now rows) p.plan) rows

-- `GrantTimeBlock`: a block bought while another is live starts when that one ends.
unfoldable pub grant_time_block :
    ℕ
    → String
    → String
    → String
    → String
    → List PlanRow
    → List SubscriptionRow
    → Result Subscription × List SubscriptionRow
grant_time_block now fresh_id user_id plan_code source plans rows =
    grant_plan now fresh_id user_id source (find_row (plan_coded plan_code) plans) rows

-- `subscriptions s JOIN plans p`: each block with its plan's device limit.
unfoldable pub with_limits : List PlanRow → List SubscriptionRow → List (SubscriptionRow × ℕ)
with_limits plans [] = []
with_limits plans (s ∷ rows) =
    let rest = with_limits plans rows in
    elim (find_row (plan_coded s.plan_code) plans) [
      | none ↦ rest
      | some p ↦ (s, p.device_limit) ∷ rest
    ]

-- `ORDER BY p.device_limit DESC, s.expires_at DESC`
abbrev pub better_block : SubscriptionRow × ℕ → SubscriptionRow × ℕ → Bool
better_block (a, m) (b, n) = ltb n m || (m == n && ltb b.expires_at a.expires_at)

abbrev pub not_entitled_now : Entitlement
not_entitled_now = record { active = false; plan_code = ""; expires_at = 0; device_limit = 0 }

abbrev pub entitled_by : List (SubscriptionRow × ℕ) → Entitlement
entitled_by [] = not_entitled_now
entitled_by ((s, limit) ∷ rest) = record {
  active = true;
  plan_code = s.plan_code;
  expires_at = s.expires_at;
  device_limit = limit;
}

-- `Entitlement`: no live block is no error, and leaves the user inactive.
unfoldable pub entitlement : ℕ → String → List PlanRow → List SubscriptionRow → Entitlement
entitlement now user_id plans rows =
    entitled_by
      (sort_by better_block (with_limits plans (rows_where (is_current user_id now) rows)))

-- `HasSubscriptionOfSource`
unfoldable pub has_subscription_of_source : String → String → List SubscriptionRow → Bool
has_subscription_of_source user_id source rows =
    exists_row (λ s. s.user_id =? user_id && s.source =? source) rows

abbrev pub add_distinct : String → List String → List String
add_distinct id ids = if exists_row (λ k. k =? id) ids then ids else id ∷ ids

-- The owners of one live peer: `JOIN devices d ON d.id = pa.device_id`, with `DISTINCT`.
unfoldable pub owners_of : PeerRow → List Device → List String → List String
owners_of r [] ids = ids
owners_of r (d ∷ devices) ids =
    let rest = owners_of r devices ids in
    if d.id =? r.device_id then add_distinct d.user_id rest else rest

-- The owners of the live peers, without the `NOT EXISTS`.
unfoldable pub live_owners : List Device → List PeerRow → List String
live_owners devices [] = []
live_owners devices (r ∷ rows) =
    let rest = live_owners devices rows in
    if is_live r.state then owners_of r devices rest else rest

-- `ExpiredUserIDs`: users with live peers and no block that covers now.
unfoldable pub expired_user_ids :
    ℕ → ℕ → List Device → List PeerRow → List SubscriptionRow → List String
expired_user_ids now limit devices peers rows =
    take limit
      (rows_where (λ u. not (exists_row (is_current u now) rows)) (live_owners devices peers))
