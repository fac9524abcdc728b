-- ===== src/Examples/Billing.antt =====
-- The theorems of `Store/Subscriptions`, `Store/Payments` and `Api` at concrete inputs.
use proxify_vpn.Api.Settlement.{settle_charge}
use proxify_vpn.Api.Settlement.Final.{settle_charge-final, settled_world}
use proxify_vpn.Base.{
  All, List, String, String_discrete, [], false, inl, none, refl, some, true, ◌+◌, ◌∷◌, ◌≡◌, ◌≤◌,
  ◌⊎◌,
}
use proxify_vpn.Base.Rows.{exists_row, find_row, rows_where}
use proxify_vpn.Errors.{ok}
use proxify_vpn.Examples.Data.{up, week_one, weekly}
use proxify_vpn.Model.{Subscription}
use proxify_vpn.Paystack.{Event}
use proxify_vpn.Store.Db.{PlanRow, SubscriptionRow, WebhookRow}
use proxify_vpn.Store.Payments.{record_webhook_event, settle_payment}
use proxify_vpn.Store.Payments.Deliveries.{handles, record_webhook_event-once, webhook_run}
use proxify_vpn.Store.Subscriptions.{
  block_start, entitlement, grant_time_block, is_current, is_open, plan_coded, with_limits,
}
use proxify_vpn.Store.Subscriptions.Blocks.{ends_at, grant_time_block-stacks}
use proxify_vpn.Store.Subscriptions.Entitled.{IsGiven, IsNoBetter, entitlement-best}

abbrev week_two : Subscription
week_two = record week_one.block { id = "b2"; starts_at = 700; expires_at = 1400 }

abbrev both_weeks : List SubscriptionRow
both_weeks = record { block = week_two; revoked_at = none } ∷ week_one ∷ []

grant_time_block-stacks_example :
    (p : PlanRow) × (find_row (plan_coded "weekly") (weekly ∷ []) ≡ some p)
    × ((week_two.starts_at ≡ 10)
        ⊎ (exists_row (ends_at "u1" 10 week_two.starts_at) (week_one ∷ []) ≡ true))
    × (10 ≤ week_two.starts_at)
    × All (λ s. (is_open "u1" 10 s ≡ false) ⊎ (s.expires_at ≤ week_two.starts_at)) (week_one ∷ [])
    × (week_two.expires_at ≡ week_two.starts_at + p.duration)
    × ((week_two.user_id ≡ "u1") × (week_two.plan_code ≡ p.code) × (week_two.source ≡ "paystack"))
    × (both_weeks ≡ record { block = week_two; revoked_at = none } ∷ week_one ∷ [])
unfolding String_discrete grant_time_block block_start
grant_time_block-stacks_example =
    grant_time_block-stacks 10 "b2" "u1" "weekly" "paystack" (weekly ∷ []) (week_one ∷ [])
      both_weeks week_two refl

entitlement-best_example :
    IsGiven 900 "u1" (weekly ∷ []) both_weeks (entitlement 900 "u1" (weekly ∷ []) both_weeks)
    × All
        (IsNoBetter (entitlement 900 "u1" (weekly ∷ []) both_weeks))
        (with_limits (weekly ∷ []) (rows_where (is_current "u1" 900) both_weeks))
entitlement-best_example = entitlement-best 900 "u1" (weekly ∷ []) both_weeks

abbrev delivered : List WebhookRow
delivered = (record_webhook_event 20 "w1" "paystack" "e1" "charge.success" "{}" []).1

record_webhook_event-once_example :
    record_webhook_event 40 "w2" "paystack" "e1" "charge.success" "{}"
      (webhook_run ((30, handles "paystack" "e1") ∷ []) delivered)
    ≡ (false, webhook_run ((30, handles "paystack" "e1") ∷ []) delivered)
record_webhook_event-once_example =
    record_webhook_event-once 20 40 "w1" "w2" "paystack" "e1" "charge.success" "charge.success" "{}"
      "{}" [] ((30, handles "paystack" "e1") ∷ [])

abbrev charge : Event
charge = record {
  event = "charge.success";
  id = 7;
  reference = "ref-1";
  status = "success";
  amount = 50000;
  user_id = "u1";
  plan_code = "weekly";
}

abbrev encode : Event → String
encode ev = ev.reference

settle_charge-final_example :
    settle_charge encode charge (settled_world encode charge [] up)
    ≡ (ok false, settled_world encode charge [] up)
unfolding String_discrete settle_charge settle_payment grant_time_block block_start
settle_charge-final_example = settle_charge-final encode charge charge up [] refl refl (inl refl)
