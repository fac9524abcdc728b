-- ===== src/Store/Payments.antt =====
-- server/internal/store/payments.go: payment rows, and the receipts of webhook deliveries.
pub mod Once
pub mod Deliveries
use proxify_vpn.Base.{
  Bool, List, String, false, if◌then◌else◌, none, not, some, true, ℕ, ◌&&◌, ◌=?◌, ◌∷◌,
}
use proxify_vpn.Base.Rows.{exists_row, find_row, update_where}
use proxify_vpn.Errors.{Result, err, map_err, no_rows, ok, sentinel}
use proxify_vpn.Store.Db.{PaymentRow, PaymentStatus, WebhookRow, success, unsettled}

abbrev pub is_event : String → String → WebhookRow → Bool
is_event provider event_id w = w.provider =? provider && w.event_id =? event_id

-- `RecordWebhookEvent`: false if the delivery was already seen. (`ON CONFLICT … DO NOTHING`)
unfoldable pub record_webhook_event :
    ℕ → String → String → String → String → String → List WebhookRow → Bool × List WebhookRow
record_webhook_event now fresh_id provider event_id event_type payload rows =
    if exists_row (is_event provider event_id) rows then (false, rows) else (
      true,
      record {
        id = fresh_id;
        provider = provider;
        event_id = event_id;
        event_type = event_type;
        payload = payload;
        received_at = now;
        handled_at = none;
      }
          ∷ rows,
    )

unfoldable pub mark_webhook_handled : ℕ → String → String → List WebhookRow → List WebhookRow
mark_webhook_handled now provider event_id =
    update_where (is_event provider event_id) (λ w. record w { handled_at = some now })

abbrev pub is_success : PaymentStatus → Bool
is_success success = true
is_success _ = false

abbrev pub is_unsettled : PaymentStatus → Bool
is_unsettled unsettled = true
is_unsettled _ = false

pub record PaymentParams : Type 0 where
  pub user_id : String
  pub provider : String
  pub provider_ref : String
  pub plan_code : String
  pub amount_kobo : ℕ
  pub currency : String
  pub status : PaymentStatus
  pub payload : String

pub record Payment : Type 0 where
  pub id : String
  pub user_id : String
  pub plan_code : String
  pub status : PaymentStatus
  pub amount_kobo : ℕ
  pub provider_ref : String

abbrev pub or_default : String → String → String
or_default v def = if v =? "" then def else v

abbrev pub is_payment : String → String → PaymentRow → Bool
is_payment provider ref p = p.provider =? provider && p.provider_ref =? ref

abbrev pub payment_row : ℕ → String → PaymentParams → PaymentRow
payment_row now fresh_id p = record {
  id = fresh_id;
  user_id = p.user_id;
  provider = or_default p.provider "paystack";
  provider_ref = p.provider_ref;
  plan_code = p.plan_code;
  amount_kobo = p.amount_kobo;
  currency = or_default p.currency "NGN";
  status = p.status;
  payload = or_default p.payload "{}";
  updated_at = now;
}

-- `ON CONFLICT … DO UPDATE`: the status only moves out of 'pending'.
abbrev pub upsert_row : ℕ → PaymentRow → PaymentRow → PaymentRow
upsert_row now new old = record old {
  status = if is_unsettled old.status then new.status else old.status;
  payload = new.payload;
  updated_at = now;
}

unfoldable pub upsert_payment :
    ℕ → String → PaymentParams → List PaymentRow → String × List PaymentRow
upsert_payment now fresh_id params rows =
    let new = payment_row now fresh_id params in
    elim (find_row (is_payment new.provider new.provider_ref) rows) [
      | none ↦ (fresh_id, new ∷ rows)
      | some old ↦ (
        old.id,
        update_where (is_payment new.provider new.provider_ref) (upsert_row now new) rows,
      )
    ]

abbrev pub read_payment : PaymentRow → Payment
read_payment p = record {
  id = p.id;
  user_id = p.user_id;
  plan_code = p.plan_code;
  status = p.status;
  amount_kobo = p.amount_kobo;
  provider_ref = p.provider_ref;
}

unfoldable pub payment_by_ref : String → String → List PaymentRow → Result Payment
payment_by_ref provider ref rows = elim (find_row (is_payment provider ref) rows) [
  | none ↦ err (map_err (sentinel no_rows))
  | some p ↦ ok (read_payment p)
]

abbrev pub settled_row : ℕ → String → PaymentRow → PaymentRow
settled_row now payload p = record p {
  status = success;
  payload = or_default payload "{}";
  updated_at = now;
}

-- `WHERE provider = $1 AND provider_ref = $2 AND status <> 'success'`
abbrev pub is_settleable : String → String → PaymentRow → Bool
is_settleable provider ref p = is_payment provider ref p && not (is_success p.status)

abbrev pub not_first : Result Payment → Result (Payment × Bool)
not_first (ok p) = ok (p, false)
not_first (err e) = err e

-- `SettlePayment`: true for the one call that made the payment successful.
unfoldable pub settle_payment :
    ℕ → String → String → String → List PaymentRow → Result (Payment × Bool) × List PaymentRow
unfolding payment_by_ref
settle_payment now provider ref payload rows = elim (find_row (is_settleable provider ref) rows) [
  | none ↦ (not_first (payment_by_ref provider ref rows), rows)
  | some p ↦ (
    ok (read_payment (settled_row now payload p), true),
    update_where (is_settleable provider ref) (settled_row now payload) rows,
  )
]
