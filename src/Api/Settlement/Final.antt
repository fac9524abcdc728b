-- ===== src/Api/Settlement/Final.antt =====
-- `settleCharge` of server/internal/api/payment_handlers.go grants a reference at most once.
use proxify_vpn.Api.Settlement.{grant, grant_settled, settle, settle_charge, settle_known}
use proxify_vpn.Base.{
  Bool, Bool-cases, List, String, ap, arith, false, inl, inr, ltb, refl, subst, sym, true, ℕ, ◌=?◌,
  ◌||◌, ◌∙◌, ◌≡◌, ◌⊎◌,
}
use proxify_vpn.Base.Effects.{on_ok, rename_error, succeed, ◌>>=◌}
use proxify_vpn.Errors.{Result, err, ok}
use proxify_vpn.Model.{Subscription}
use proxify_vpn.Paystack.{Event}
use proxify_vpn.Store.Payments.{Payment, or_default, payment_by_ref}
use proxify_vpn.Store.Payments.Once.{
  IsPaid, PaymentCall, payment_run, payment_run-IsPaid, settle_payment-IsPaid, settle_payment-paid,
  settle_payment-read,
}
use proxify_vpn.World.{World}

payments-grant_settled :
    (encode : Event → String) (ev : Event) (p : Payment) (first : Bool) (w : World)
    → (grant_settled encode ev (p, first) w).1.db.payments ≡ w.db.payments
payments-grant_settled encode ev p false w = refl
payments-grant_settled encode ev p true w =
    elim (Bool-cases
      (or_default p.user_id ev.user_id =? "" || or_default p.plan_code ev.plan_code =? "")) [
        | inl unnamed ↦ rw unnamed refl
        | inr both ↦ rw both (granted (grant user_id plan_code w).0)
      ]
  where
    user_id : String
    user_id = or_default p.user_id ev.user_id

    plan_code : String
    plan_code = or_default p.plan_code ev.plan_code

    w' : World
    w' = (grant user_id plan_code w).1

    granted :
        (r : Result Subscription)
        → (on_ok (λ _. succeed true) (rename_error "grant time block" r) w').1.db.payments
          ≡ w.db.payments
    granted (ok b) = refl
    granted (err e) = refl

-- The call that got as far as settling leaves the payment paid, whatever comes of the grant.
settled-IsPaid :
    (encode : Event → String) (ev : Event) (payment : Payment) (w : World)
    → payment_by_ref "paystack" ev.reference w.db.payments ≡ ok payment
    → IsPaid "paystack" ev.reference
        ((settle ev.reference (encode ev) >>= grant_settled encode ev) w).1.db.payments
settled-IsPaid encode ev payment w found =
    let (q, first, rows', e) =
      settle_payment-read w.now "paystack" ev.reference (encode ev) w.db.payments payment found in
    let paid =
      settle_payment-IsPaid w.now "paystack" ev.reference (encode ev) w.db.payments rows' q first
        e in
    after (settle ev.reference (encode ev) w).0
      (subst (IsPaid "paystack" ev.reference) (sym (ap (λ x. x.1) e)) paid)
  where
    w' : World
    w' = (settle ev.reference (encode ev) w).1

    after :
        (r : Result (Payment × Bool))
        → IsPaid "paystack" ev.reference w'.db.payments
        → IsPaid "paystack" ev.reference (on_ok (grant_settled encode ev) r w').1.db.payments
    after (ok (q, first)) paid =
        subst (IsPaid "paystack" ev.reference) (sym (payments-grant_settled encode ev q first w'))
          paid
    after (err x) paid = paid

paid-known :
    (encode : Event → String) (ev : Event) (w : World) (r : Result Payment)
    → IsPaid "paystack" ev.reference w.db.payments
    → payment_by_ref "paystack" ev.reference w.db.payments ≡ r
    → settle_known encode ev r w ≡ (ok false, w)
paid-known encode ev w (err e) paid found = refl
paid-known encode ev w (ok payment) paid found =
    elim (Bool-cases (ltb ev.amount payment.amount_kobo)) [
      | inl under ↦ rw under refl
      | inr enough ↦
          rw
            (
              enough,
              settle_payment-paid w.now "paystack" ev.reference (encode ev) w.db.payments payment
                  paid found,
            )
            refl
    ]

pub settle_charge-paid :
    (encode : Event → String) (ev : Event) (w : World)
    → (ev.reference =? "") ≡ false
    → IsPaid "paystack" ev.reference w.db.payments
    → settle_charge encode ev w ≡ (ok false, w)
unfolding settle_charge
settle_charge-paid encode ev w named paid = rw named (paid-known encode ev w _ paid refl)

reads_first :
    (encode : Event → String) (ev : Event) (w : World)
    → (ev.reference =? "") ≡ false
    → settle_charge encode ev w
      ≡ settle_known encode ev (payment_by_ref "paystack" ev.reference w.db.payments) w
unfolding settle_charge
reads_first encode ev w named = rw named refl

granted-IsPaid :
    (encode : Event → String) (ev : Event) (w : World) (r : Result Payment)
    → payment_by_ref "paystack" ev.reference w.db.payments ≡ r
    → (settle_known encode ev r w).0 ≡ ok true
    → IsPaid "paystack" ev.reference (settle_known encode ev r w).1.db.payments
granted-IsPaid encode ev w (err e) found h = absurd cc
granted-IsPaid encode ev w (ok payment) found h =
    elim (Bool-cases (ltb ev.amount payment.amount_kobo)) [
      | inl under ↦ absurd (skipped under h)
      | inr enough ↦ rw enough (settled-IsPaid encode ev payment w found)
    ]
  where
    skipped :
        ltb ev.amount payment.amount_kobo ≡ true
        → (settle_known encode ev (ok payment) w).0 ≡ ok true
        → ⊥
    skipped under h = ground arith

pub settle_charge-IsPaid :
    (encode : Event → String) (ev : Event) (w : World)
    → (ev.reference =? "") ≡ false
    → (settle_charge encode ev w).0 ≡ ok true
    → IsPaid "paystack" ev.reference (settle_charge encode ev w).1.db.payments
settle_charge-IsPaid encode ev w named h =
    subst (λ x. IsPaid "paystack" ev.reference x.1.db.payments)
      (sym (reads_first encode ev w named))
      (granted-IsPaid encode ev w (payment_by_ref "paystack" ev.reference w.db.payments) refl
        (subst (λ x. x.0 ≡ ok true) (reads_first encode ev w named) h))

-- The world after a call of `settleCharge`, and after the payments that followed it.
abbrev pub settled_world : (Event → String) → Event → List (ℕ × PaymentCall) → World → World
settled_world encode ev cs w =
    let w' = (settle_charge encode ev w).1 in
    record w' { db = record w'.db { payments = payment_run cs w'.db.payments } }

-- Once a call of `settleCharge` has granted the time of a reference, or has left its payment
-- successful though the grant after that failed, no later call for the reference grants anything or
-- changes the world, whatever payments are initialized or settled in between. So no reference is
-- granted twice, and a grant that failed is not made up for. Of a call that fails before its payment
-- is settled it says nothing.
pub settle_charge-final :
    (encode : Event → String) (ev later : Event) (w : World) (cs : List (ℕ × PaymentCall))
    → (ev.reference =? "") ≡ false
    → later.reference ≡ ev.reference
    → ((settle_charge encode ev w).0 ≡ ok true)
      ⊎ IsPaid "paystack" ev.reference (settle_charge encode ev w).1.db.payments
    → settle_charge encode later (settled_world encode ev cs w)
      ≡ (ok false, settled_world encode ev cs w)
settle_charge-final encode ev later w cs named same final =
    settle_charge-paid encode later (settled_world encode ev cs w) (ap (λ r. r =? "") same ∙ named)
      (subst (λ r. IsPaid "paystack" r (settled_world encode ev cs w).db.payments) (sym same)
        (payment_run-IsPaid cs "paystack" ev.reference (settle_charge encode ev w).1.db.payments
          (paid final)))
  where
    paid :
        ((settle_charge encode ev w).0 ≡ ok true)
          ⊎ IsPaid "paystack" ev.reference (settle_charge encode ev w).1.db.payments
        → IsPaid "paystack" ev.reference (settle_charge encode ev w).1.db.payments
    paid (inl granted) = settle_charge-IsPaid encode ev w named granted
    paid (inr settled) = settled
