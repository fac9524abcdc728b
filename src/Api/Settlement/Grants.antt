-- ===== src/Api/Settlement/Grants.antt =====
-- What `settleCharge` of server/internal/api/payment_handlers.go grants, and for what.
use proxify_vpn.Base.{String, none, some, ◌+◌, ◌∷◌, ◌≡◌}
use proxify_vpn.Base.Rows.{find_row}
use proxify_vpn.Model.{Subscription}
use proxify_vpn.Paystack.{Event}
use proxify_vpn.Store.Db.{PlanRow}
use proxify_vpn.Store.Payments.{Payment, or_default}
use proxify_vpn.Store.Subscriptions.{plan_coded}
use proxify_vpn.World.{World}

-- The user and the plan of the grant: the payment row's, or those of the event.
abbrev pub payer : Event → Payment → String
payer ev settled = or_default settled.user_id ev.user_id

abbrev pub bought : Event → Payment → String
bought ev settled = or_default settled.plan_code ev.plan_code

-- The block that was added, and nothing else of the table's.
abbrev pub IsAdded : String → String → World → World → Type 0
IsAdded user_id plan_code w w' =
    (b : Subscription) × (p : PlanRow) × (w'.db.subscriptions
      ≡ record { block = b; revoked_at = none } ∷ w.db.subscriptions)
    × (b.user_id ≡ user_id)
    × (find_row (plan_coded plan_code) w.db.plans ≡ some p)
    × (b.plan_code ≡ p.code)
    × (b.source ≡ "paystack")
    × (b.expires_at ≡ b.starts_at + p.duration)
