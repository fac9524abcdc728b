-- ===== src/Api/Settlement.antt =====
-- `settleCharge` and `processWebhook` of server/internal/api/payment_handlers.go, over the events of Paystack.antt.
pub mod Final
pub mod Grants
use proxify_vpn.Base.{Bool, List, String, false, if◌then◌else◌, ltb, not, suc, true, ◌=?◌, ◌||◌}
use proxify_vpn.Base.Effects.{Call, attempt, fail, prefixed, succeed, ◌>>=◌, ◌>>◌}
use proxify_vpn.Base.Text.{◌<>◌}
use proxify_vpn.Errors.{Result, err, ok, text}
use proxify_vpn.Model.{Subscription}
use proxify_vpn.Paystack.{Event, event_key}
use proxify_vpn.Store.Db.{PaymentRow, SubscriptionRow, WebhookRow}
use proxify_vpn.Store.Payments.{
  Payment, mark_webhook_handled, or_default, payment_by_ref, record_webhook_event, settle_payment,
}
use proxify_vpn.Store.Subscriptions.{grant_time_block}
use proxify_vpn.World.{World, fresh_id, reading}

abbrev pub with_payments : {A : Type 0} → (World → Result A × List PaymentRow) → Call World A
with_payments f w = ((f w).0, record w { db = record w.db { payments = (f w).1 } })

abbrev pub with_webhooks : {A : Type 0} → (World → A × List WebhookRow) → Call World A
with_webhooks f w =
    (ok (f w).0, record w { db = record w.db { webhook_events = (f w).1 }; ids = suc w.ids })

abbrev pub with_subscriptions :
    {A : Type 0} → (World → Result A × List SubscriptionRow) → Call World A
with_subscriptions f w =
    ((f w).0, record w { db = record w.db { subscriptions = (f w).1 }; ids = suc w.ids })

abbrev pub read_ref : String → Call World Payment
read_ref ref = reading (λ w. payment_by_ref "paystack" ref w.db.payments)

abbrev pub settle : String → String → Call World (Payment × Bool)
settle ref raw = with_payments (λ w. settle_payment w.now "paystack" ref raw w.db.payments)

abbrev pub grant : String → String → Call World Subscription
grant user_id plan_code = with_subscriptions (λ w.
    grant_time_block w.now (fresh_id w) user_id plan_code "paystack" w.db.plans w.db.subscriptions)

-- `encode` is `json.Marshal` of an event.
module _ (encode : Event → String) where
  -- The time is granted only by the call that settled the payment.
  abbrev pub grant_settled : Event → Payment × Bool → Call World Bool
  grant_settled ev (settled, false) = succeed false
  grant_settled ev (settled, true) =
      let user_id = or_default settled.user_id ev.user_id in
      let plan_code = or_default settled.plan_code ev.plan_code in
      if user_id =? "" || plan_code =? ""
      then fail (text ("settled payment " <> ev.reference <> " has no user/plan to grant"))
      else prefixed "grant time block" (grant user_id plan_code) >>= λ _. succeed true

  -- A reference that was never initialized grants nothing, nor does one that is underpaid.
  abbrev pub settle_known : Event → Result Payment → Call World Bool
  settle_known ev (err e) = succeed false
  settle_known ev (ok payment) =
      if ltb ev.amount payment.amount_kobo
      then succeed false
      else settle ev.reference (encode ev) >>= grant_settled ev

  unfoldable pub settle_charge : Event → Call World Bool
  settle_charge ev =
      if ev.reference =? ""
      then fail (text "charge.success without a reference")
      else attempt (read_ref ev.reference) (settle_known ev)

  abbrev pub mark_handled : Event → Call World (Unit {0})
  mark_handled ev =
      with_webhooks
        (λ w. (tt, mark_webhook_handled w.now "paystack" (event_key ev) w.db.webhook_events))

  abbrev pub handle_fresh : Event → Bool → Call World (Unit {0})
  handle_fresh ev fresh =
      if not fresh
      then succeed tt
      else (if ev.event =? "charge.success"
          then settle_charge ev >> mark_handled ev
          else mark_handled ev)

  -- `processWebhook`
  unfoldable pub process_webhook : Event → String → Call World (Unit {0})
  process_webhook ev body =
      with_webhooks (λ w.
        record_webhook_event w.now (fresh_id w) "paystack" (event_key ev) ev.event body
          w.db.webhook_events)
      >>= handle_fresh ev
