-- ===== src/Api/Billing.antt =====
-- The payment endpoints of server/internal/api/payment_handlers.go. A webhook's work is done at once,
-- where the source starts it in the background; its error is only logged.
pub mod Verified
pub mod Once
use proxify_vpn.Api.Respond.{
  Response, Step, answer, call, call_or, checkout, decode_json, go_on, logged_only, received,
  refuse_if, result_or, settled_answer, unpaid, write_error, write_json, ◌>>=◌, ◌>>◌,
}
use proxify_vpn.Api.Settlement.{process_webhook, read_ref, settle_charge}
use proxify_vpn.Api.Site.{ApiServer, Site, drawing, in_world, read_entitlement}
use proxify_vpn.Base.{
  Option, String, [], if◌then◌else◌, none, not, some, suc, ℕ, ◌==◌, ◌=?◌, ◌||◌, ◌∷◌,
}
use proxify_vpn.Base.Effects.{Call}
use proxify_vpn.Base.Text.{◌<>◌}
use proxify_vpn.Errors.{Error, Result, err, ok}
use proxify_vpn.Model.{Plan}
use proxify_vpn.Paystack.{
  Event, InitializeParams, initialize, parse_event, verify_charge, verify_signature,
}
use proxify_vpn.Store.Db.{unsettled}
use proxify_vpn.Store.Payments.{PaymentParams, or_default, upsert_payment}
use proxify_vpn.Store.Subscriptions.{plan_by_code}
use proxify_vpn.Store.Users.{user_by_id}
use proxify_vpn.World.{World, done, fresh_id, reading}

pub record InitializePaymentRequest : Type 0 where
  pub plan_code : String
  pub callback_url : String

abbrev pub unknown_plan : Error → Response
unknown_plan e = write_error 404 "unknown_plan" "no such plan"

abbrev pub unknown_reference : Response
unknown_reference = write_error 404 "unknown_reference" "no such payment"

abbrev pub not_started : Error → Response
not_started e = write_error 502 "payment_provider_error" "could not start the payment"

abbrev pub not_verified : Error → Response
not_verified e = write_error 502 "payment_provider_error" "could not verify the payment"

abbrev pub pending_payment_of : String → String → Plan → PaymentParams
pending_payment_of user_id reference plan = record {
  user_id = user_id;
  provider = "paystack";
  provider_ref = reference;
  plan_code = plan.code;
  amount_kobo = plan.price_kobo;
  currency = plan.currency;
  status = unsettled;
  payload = "";
}

-- `UpsertPayment` with a draw of an id.
abbrev pub save_payment : PaymentParams → Call World String
save_payment params w =
    let (id, rows) = upsert_payment w.now (fresh_id w) params w.db.payments in
    (ok id, record w { db = record w.db { payments = rows }; ids = suc w.ids })

module _ (api : ApiServer) where
  abbrev pub reference_of : Result String → Result String
  reference_of (ok buf) = ok ("pxf_" <> api.crypto.encode64 buf)
  reference_of (err e) = err e

  -- `newReference`
  unfoldable pub new_reference : ℕ → Result String
  new_reference n = reference_of (api.crypto.random n)

  abbrev pub checkout_params : String → String → String → String → Plan → InitializeParams
  checkout_params user_id email reference callback_url plan = record {
    email = or_default email (user_id <> "@users.proxify.ng");
    amount_kobo = plan.price_kobo;
    reference = reference;
    metadata = record { user_id = user_id; plan_code = plan.code };
    callback_url = callback_url;
    channels = "card" ∷ "bank" ∷ "ussd" ∷ "bank_transfer" ∷ "mobile_money" ∷ [];
  }

  -- `handleInitializePayment`: the row is written before Paystack is called.
  unfoldable pub handle_initialize_payment :
      String → Option InitializePaymentRequest → Step Site Response
  unfolding new_reference
  handle_initialize_payment user_id body = do
    req ← decode_json body
    plan ← call_or unknown_plan (in_world (reading (λ w. plan_by_code req.plan_code w.db.plans)))
    refuse_if (plan.is_free || plan.price_kobo == 0)
        (write_error 400 "not_purchasable" "that plan is not purchasable")
    user ← call (in_world (reading (λ w. user_by_id user_id w.db.users)))
    reference ← call (in_world (drawing new_reference))
    _ ← call (in_world (save_payment (pending_payment_of user_id reference plan)))
    result ← call_or not_started (
        in_world (
          initialize api.paystack
            (checkout_params user_id user.email reference req.callback_url plan)))
    go_on (
        write_json 200 (
          checkout result.reference result.authorization_url result.access_code plan.price_kobo
            plan.code))

  -- The steps of `handleVerifyPayment` once the charge is known to have succeeded.
  abbrev pub settle_verified : String → Event → Step Site Response
  settle_verified user_id event = do
    done ← call (in_world (settle_charge api.encode event))
    ent ← call (in_world (read_entitlement user_id))
    go_on (write_json 200 (settled_answer done ent))

  -- `handleVerifyPayment`; the body is the request's `reference`.
  unfoldable pub handle_verify_payment : String → Option String → Step Site Response
  handle_verify_payment user_id body = do
    reference ← decode_json body
    refuse_if (reference =? "") (write_error 400 "invalid_request" "reference is required")
    payment ← call_or (λ e. unknown_reference) (in_world (read_ref reference))
    refuse_if (not (payment.user_id =? user_id)) unknown_reference
    event ← call_or not_verified (in_world (verify_charge api.paystack reference))
    if not (event.status =? "success")
        then go_on (write_json 200 (unpaid event.status))
        else settle_verified user_id event

  abbrev pub readable : Option String → Step Site String
  readable none = answer (write_error 400 "invalid_request" "could not read body")
  readable (some body) = go_on body

  abbrev pub bad_event : Error → Response
  bad_event e = write_error 400 "invalid_event" "could not parse event"

  -- `handlePaystackWebhook`, with the header `x-paystack-signature`.
  unfoldable pub handle_paystack_webhook : String → Option String → Step Site Response
  handle_paystack_webhook signature content = do
    body ← readable content
    refuse_if (not (verify_signature api.paystack body signature))
        (write_error 401 "bad_signature" "signature verification failed")
    event ← result_or bad_event (parse_event api.paystack body)
    logged_only (in_world (process_webhook api.encode event body))
    go_on (write_json 200 received)
