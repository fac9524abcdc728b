-- ===== src/Api/Billing/Verified.antt =====
-- What the payment endpoints let through.
use proxify_vpn.Api.Billing.{handle_paystack_webhook, handle_verify_payment, settle_verified}
use proxify_vpn.Api.Respond.{
  Body, Outcome, Response, answered, going, received, settled_answer, write_error, write_json,
}
use proxify_vpn.Api.Settlement.{process_webhook, settle_charge}
use proxify_vpn.Api.Site.{ApiServer, Site}
use proxify_vpn.Base.{
  =?-eq, Bool, Bool-cases, Option, String, ap, arith, false, if◌then◌else◌, inl, inr, none, refl,
  some, subst, sym, ◌=?◌, ◌∙◌, ◌≡◌, ◌≢◌, ◌⊎◌,
}
use proxify_vpn.Base.Effects.{on_ok, rename_error}
use proxify_vpn.Base.Text.{◌<>◌}
use proxify_vpn.Errors.{Error, Result, Result-cases, err, ok}
use proxify_vpn.Paystack.{Client, Event, hex_encode, parse_event, verify_charge, verify_signature}
use proxify_vpn.Store.Payments.{Payment, payment_by_ref}
use proxify_vpn.World.{World, done}

-- What is assumed of Paystack: a call touches nothing of ours, and the transaction that it reports
-- is the one that was asked for.
pub record IsFaithful (c : Client World) : Type 0 where
  pub quiet : (path bearer : String) (w : World) → (c.gateway.get path bearer w).1 ≡ w
  pub asked :
      (reference : String) (w : World) (ev : Event)
      → (verify_charge c reference w).0 ≡ ok ev
      → ev.reference ≡ reference

-- An answer that says that time was granted.
abbrev pub is_grant_body : Body → Bool
is_grant_body (settled_answer done ent) = done
is_grant_body _ = false

abbrev pub is_grant : Outcome Response → Bool
is_grant (going r) = is_grant_body r.body
is_grant (answered r) = false

decoding-quiet :
    (k : String → Result Event) (r : Result String) (w : World)
    → (on_ok (λ raw s. (k raw, s)) r w).1 ≡ w
decoding-quiet k (ok raw) w = refl
decoding-quiet k (err e) w = refl

verify_charge-quiet :
    (c : Client World)
    → IsFaithful c
    → (reference : String) (w : World) → (verify_charge c reference w).1 ≡ w
unfolding verify_charge
verify_charge-quiet c F reference w =
    decoding-quiet _
      (rename_error "paystack: verify"
        (c.gateway.get ("/transaction/verify/" <> reference) ("Bearer " <> c.secret_key) w).0)
      _
    ∙ F.quiet _ _ w

=?-ne : (a b : String) → a ≢ b → (a =? b) ≡ false
=?-ne a b h = ground arith

module _ (api : ApiServer) where
  -- A delivery that was processed: it is signed with the webhook's key over its exact bytes, and it
  -- is an event.
  pub record IsProcessed (signature : String) (content : Option String) (s s' : Site) : Type 0 where
    pub body : String
    pub present : content ≡ some body
    pub signed : hex_encode (api.paystack.gateway.hmac512 api.paystack.webhook_key body) ≡ signature
    pub event : Event
    pub parsed : parse_event api.paystack body ≡ ok event
    pub processed : s' ≡ record s { world = (process_webhook api.encode event body s.world).1 }

  -- The answer to a delivery that is not processed.
  abbrev pub refusal_of : Option String → String → Response
  refusal_of none signature = write_error 400 "invalid_request" "could not read body"
  refusal_of (some body) signature =
      if hex_encode (api.paystack.gateway.hmac512 api.paystack.webhook_key body) =? signature
      then write_error 400 "invalid_event" "could not parse event"
      else write_error 401 "bad_signature" "signature verification failed"

  -- A webhook is answered 200 and processed only if its signature is right and it is an event. Any
  -- other changes nothing and is answered 401 for a wrong signature, and 400 for a body that cannot be
  -- read or is not an event.
  pub handle_paystack_webhook-IsProcessed :
      (signature : String) (content : Option String) (s : Site)
      → ((handle_paystack_webhook api signature content s).0 ≡ going (write_json 200 received))
          × IsProcessed signature content s (handle_paystack_webhook api signature content s).1
        ⊎ (handle_paystack_webhook api signature content s
            ≡ (answered (refusal_of content signature), s))
  unfolding handle_paystack_webhook verify_signature
  handle_paystack_webhook-IsProcessed signature none s = inr refl
  handle_paystack_webhook-IsProcessed signature (some body) s =
      elim (Bool-cases
        (hex_encode (api.paystack.gateway.hmac512 api.paystack.webhook_key body) =? signature)) [
          | inr forged ↦ inr (rw forged refl)
          | inl genuine ↦ elim (Result-cases (parse_event api.paystack body)) [
            | inr (e, bad) ↦ inr (rw (genuine, bad) refl)
            | inl (event, parsed) ↦ inl (
              rw (genuine, parsed) refl,
              record {
                body = body;
                present = refl;
                signed = =?-eq _ _ genuine;
                event = event;
                parsed = parsed;
                processed = rw (genuine, parsed) refl;
              },
            )
          ]
        ]

  settle_verified-world :
      (user_id : String) (event : Event) (s : Site)
      → (settle_verified api user_id event s).1
        ≡ record s { world = (settle_charge api.encode event s.world).1 }
  settle_verified-world user_id event s =
      elim (Result-cases (settle_charge api.encode event s.world).0) [
        | inl (done, e) ↦ rw e refl
        | inr (x, e) ↦ rw e refl
      ]

  -- A charge that was settled on request: the caller's own payment, which Paystack says succeeded.
  pub record IsSettledFor (user_id : String) (body : Option String) (s : Site)
      (o : Outcome Response) (s' : Site) : Type 0 where
    pub reference : String
    pub asked : body ≡ some reference
    pub given : (reference =? "") ≡ false
    pub payment : Payment
    pub recorded : payment_by_ref "paystack" reference s.world.db.payments ≡ ok payment
    pub own : payment.user_id ≡ user_id
    pub event : Event
    pub confirmed : (verify_charge api.paystack reference s.world).0 ≡ ok event
    pub succeeded : event.status ≡ "success"
    pub settled : s' ≡ record s { world = (settle_charge api.encode event s.world).1 }
    pub answer : o ≡ (settle_verified api user_id event s).0

  verified-IsSettledFor :
      IsFaithful api.paystack
      → (user_id : String) (body : Option String) (s : Site)
      → IsSettledFor user_id body s
          (handle_verify_payment api user_id body s).0
          (handle_verify_payment api user_id body s).1
        ⊎ (is_grant (handle_verify_payment api user_id body s).0 ≡ false)
          × ((handle_verify_payment api user_id body s).1 ≡ s)
  unfolding handle_verify_payment
  verified-IsSettledFor F user_id none s = inr (refl, refl)
  verified-IsSettledFor F user_id (some reference) s = elim (Bool-cases (reference =? "")) [
    | inl empty ↦ inr (rw empty (refl, refl))
    | inr given ↦ elim (Result-cases (payment_by_ref "paystack" reference s.world.db.payments)) [
      | inr (e, unknown) ↦ inr (rw (given, unknown) (refl, refl))
      | inl (payment, found) ↦ elim (Bool-cases (payment.user_id =? user_id)) [
        | inr foreign ↦ inr (rw (given, found, foreign) (refl, refl))
        | inl own ↦ elim (Result-cases (verify_charge api.paystack reference s.world).0) [
          | inr (e, unreached) ↦ inr (
              rw (given, found, own, unreached)
                (
                  refl,
                  ap (λ w. record s { world = w })
                      (verify_charge-quiet api.paystack F reference s.world),
                ))
          | inl (event, confirmed) ↦ elim (Bool-cases (event.status =? "success")) [
            | inr not_yet ↦ inr (
                rw (given, found, own, confirmed, not_yet)
                  (
                    refl,
                    ap (λ w. record s { world = w })
                        (verify_charge-quiet api.paystack F reference s.world),
                  ))
            | inl paid_for ↦ inl (record {
              reference = reference;
              asked = refl;
              given = given;
              payment = payment;
              recorded = found;
              own = =?-eq payment.user_id user_id own;
              event = event;
              confirmed = confirmed;
              succeeded = =?-eq event.status "success" paid_for;
              settled =
                  rw (given, found, own, confirmed, paid_for)
                    (settle_verified-world user_id event _
                      ∙ ap (λ w. record s { world = (settle_charge api.encode event w).1 })
                          (verify_charge-quiet api.paystack F reference s.world));
              answer =
                  rw (given, found, own, confirmed, paid_for)
                    (ap (λ w. (settle_verified api user_id event (record s { world = w })).0)
                      (verify_charge-quiet api.paystack F reference s.world));
            })
          ]
        ]
      ]
    ]
  ]

  -- A reference that the caller has no payment of: unknown, or somebody else's.
  abbrev pub IsNotOwn : String → String → Site → Type 0
  IsNotOwn user_id reference s =
      ((e : Error) × (payment_by_ref "paystack" reference s.world.db.payments ≡ err e))
      ⊎ ((p : Payment) × (payment_by_ref "paystack" reference s.world.db.payments ≡ ok p)
          × (p.user_id ≢ user_id))

  not_own-refused :
      (user_id reference : String) (s : Site)
      → reference ≢ ""
      → IsNotOwn user_id reference s
      → handle_verify_payment api user_id (some reference) s
        ≡ (answered (write_error 404 "unknown_reference" "no such payment"), s)
  unfolding handle_verify_payment
  not_own-refused user_id reference s given (inl (e, unknown)) =
      rw (=?-ne reference "" given, unknown) refl
  not_own-refused user_id reference s given (inr (p, found, foreign)) =
      rw (=?-ne reference "" given, found, =?-ne p.user_id user_id foreign) refl

  -- `handleVerifyPayment` settles only a payment of the caller that Paystack itself confirms, and in
  -- any other case nothing changes. A reference that is unknown and one that is somebody else's get
  -- the same answer, 404 with one text, and change nothing.
  pub handle_verify_payment-IsSettledFor :
      IsFaithful api.paystack
      → (user_id : String) (body : Option String) (s : Site)
      → (IsSettledFor user_id body s
            (handle_verify_payment api user_id body s).0
            (handle_verify_payment api user_id body s).1
          ⊎ (is_grant (handle_verify_payment api user_id body s).0 ≡ false)
            × ((handle_verify_payment api user_id body s).1 ≡ s))
        × ((reference : String)
            → body ≡ some reference
            → reference ≢ ""
            → IsNotOwn user_id reference s
            → handle_verify_payment api user_id body s
              ≡ (answered (write_error 404 "unknown_reference" "no such payment"), s))
  handle_verify_payment-IsSettledFor F user_id body s = (
    verified-IsSettledFor F user_id body s,
    λ reference asked given foreign.
        subst
          (λ b.
            handle_verify_payment api user_id b s
            ≡ (answered (write_error 404 "unknown_reference" "no such payment"), s))
          (sym asked) (not_own-refused user_id reference s given foreign),
  )
