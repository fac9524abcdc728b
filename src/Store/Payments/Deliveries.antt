-- ===== src/Store/Payments/Deliveries.antt =====
-- `RecordWebhookEvent` of server/internal/store/payments.go: a delivery is fresh once.
use proxify_vpn.Base.{List, String, [], arith, false, refl, true, ℕ, ◌∙◌, ◌∷◌, ◌≡◌}
use proxify_vpn.Base.Rows.{exists_row}
use proxify_vpn.Store.Db.{WebhookRow}
use proxify_vpn.Store.Payments.{is_event, mark_webhook_handled, record_webhook_event}

pub data WebhookCall : Type 0 where
  records : (fresh_id provider event_id event_type payload : String) → WebhookCall
  handles : (provider event_id : String) → WebhookCall

unfoldable pub webhook_run : List (ℕ × WebhookCall) → List WebhookRow → List WebhookRow
webhook_run [] rows = rows
webhook_run ((now, records fresh_id provider event_id event_type payload) ∷ cs) rows =
    webhook_run cs (record_webhook_event now fresh_id provider event_id event_type payload rows).1
webhook_run ((now, handles provider event_id) ∷ cs) rows =
    webhook_run cs (mark_webhook_handled now provider event_id rows)

seen-handled :
    (now : ℕ) (provider event_id p e : String) (rows : List WebhookRow)
    → exists_row (is_event provider event_id) (mark_webhook_handled now p e rows)
      ≡ exists_row (is_event provider event_id) rows
unfolding mark_webhook_handled
seen-handled now provider event_id p e [] = refl
seen-handled now provider event_id p e (r ∷ rows) =
    ground (arith, seen-handled now provider event_id p e rows)

seen-run :
    (cs : List (ℕ × WebhookCall)) (provider event_id : String) (rows : List WebhookRow)
    → exists_row (is_event provider event_id) rows ≡ true
    → exists_row (is_event provider event_id) (webhook_run cs rows) ≡ true
unfolding webhook_run record_webhook_event
seen-run [] provider event_id rows h = h
seen-run ((now, records f p e t x) ∷ cs) provider event_id rows h =
    seen-run cs provider event_id (record_webhook_event now f p e t x rows).1 (ground arith)
seen-run ((now, handles p e) ∷ cs) provider event_id rows h =
    seen-run cs provider event_id (mark_webhook_handled now p e rows)
      (seen-handled now provider event_id p e rows ∙ h)

-- A delivery that was recorded once is never fresh again, whatever other deliveries are recorded or
-- handled since, and recording it again changes no row.
pub record_webhook_event-once :
    (now later : ℕ) (f f' provider event_id t t' x x' : String) (rows : List WebhookRow)
    (cs : List (ℕ × WebhookCall))
    → let rows' = webhook_run cs (record_webhook_event now f provider event_id t x rows).1 in
      record_webhook_event later f' provider event_id t' x' rows' ≡ (false, rows')
unfolding record_webhook_event
record_webhook_event-once now later f f' provider event_id t t' x x' rows cs = ground (
  arith,
  seen-run cs provider event_id (record_webhook_event now f provider event_id t x rows).1
      (ground arith),
)
