-- ===== src/Api/Billing/Once.antt =====
-- A payment that was verified twice.
use proxify_vpn.Api.Billing.{handle_verify_payment, settle_verified}
use proxify_vpn.Api.Billing.Verified.{IsFaithful, handle_verify_payment-IsSettledFor, is_grant}
use proxify_vpn.Api.Respond.{Outcome, Response, answer}
use proxify_vpn.Api.Settlement.{settle_charge}
use proxify_vpn.Api.Settlement.Final.{settle_charge-IsPaid, settle_charge-paid}
use proxify_vpn.Api.Site.{ApiServer, Site}
use proxify_vpn.Base.{
  Bool, List, String, ap, false, inl, inr, refl, some, subst, sym, true, ℕ, ◌=?◌, ◌∙◌, ◌≡◌,
}
use proxify_vpn.Errors.{Result-cases, ok}
use proxify_vpn.Paystack.{Event}
use proxify_vpn.Store.Payments.Once.{IsPaid, PaymentCall, payment_run, payment_run-IsPaid}
use proxify_vpn.World.{done}

module _ (api : ApiServer) where
  granted_charge :
      (user_id : String) (event : Event) (s : Site)
      → is_grant (settle_verified api user_id event s).0 ≡ true
      → (settle_charge api.encode event s.world).0 ≡ ok true
  granted_charge user_id event s h =
      elim (Result-cases (settle_charge api.encode event s.world).0) [
        | inl (done, e) ↦ e ∙ ap ok (rw e at h)
        | inr (x, e) ↦ absurd (refused_grant (rw e at h))
      ]
    where
      refused_grant : false ≡ true → ⊥
      refused_grant k = cc

  same_text : {a b : String} → some a ≡ some b → a ≡ b
  same_text e = cc

  granted-IsPaid :
      IsFaithful api.paystack
      → (user_id reference : String) (s : Site)
      → is_grant (handle_verify_payment api user_id (some reference) s).0 ≡ true
      → IsPaid "paystack" reference
          (handle_verify_payment api user_id (some reference) s).1.world.db.payments
  granted-IsPaid F user_id reference s granting =
      elim (handle_verify_payment-IsSettledFor api F user_id (some reference) s).0 [
        | inr (ungranted, _) ↦ absurd (both ungranted granting)
        | inl first ↦
            let known : first.reference ≡ reference = same_text (sym first.asked) in
            let named = F.asked first.reference s.world first.event first.confirmed in
            let charged =
              granted_charge user_id first.event s (ap is_grant (sym first.answer) ∙ granting) in
            subst (λ t. IsPaid "paystack" reference t.world.db.payments) (sym first.settled)
              (subst
                (λ r.
                  IsPaid "paystack" r (settle_charge api.encode first.event s.world).1.db.payments)
                (named ∙ known)
                (settle_charge-IsPaid api.encode first.event s.world
                  (ap (λ r. r =? "") named ∙ first.given) charged))
      ]
    where
      both : {b : Bool} → b ≡ false → b ≡ true → ⊥
      both e k = cc

  nothing_more :
      (user_id : String) (event : Event) (s : Site) (o : Outcome Response) (s' : Site)
      → o ≡ (settle_verified api user_id event s).0
      → s' ≡ record s { world = (settle_charge api.encode event s.world).1 }
      → settle_charge api.encode event s.world ≡ (ok false, s.world)
      → (is_grant o ≡ false) × (s' ≡ s)
  nothing_more user_id event s o s' answer settled e =
      (ap is_grant answer ∙ rw e refl, settled ∙ rw e refl)

  -- Once `handleVerifyPayment` has said that a payment granted time, asking again for the same
  -- reference grants nothing and changes nothing, whatever payments were initialized or settled in
  -- between and whoever asks.
  pub handle_verify_payment-once :
      IsFaithful api.paystack
      → (user_id other : String) (reference : String) (s s₂ : Site) (cs : List (ℕ × PaymentCall))
      → is_grant (handle_verify_payment api user_id (some reference) s).0 ≡ true
      → s₂.world.db.payments
        ≡ payment_run cs (handle_verify_payment api user_id (some reference) s).1.world.db.payments
      → (is_grant (handle_verify_payment api other (some reference) s₂).0 ≡ false)
        × ((handle_verify_payment api other (some reference) s₂).1 ≡ s₂)
  handle_verify_payment-once F user_id other reference s s₂ cs granting since =
      elim (handle_verify_payment-IsSettledFor api F other (some reference) s₂).0 [
        | inr (ungranted, unchanged) ↦ (ungranted, unchanged)
        | inl again ↦
            let known : again.reference ≡ reference = same_text (sym again.asked) in
            let named = F.asked again.reference s₂.world again.event again.confirmed in
            let paid_before : IsPaid "paystack" reference s₂.world.db.payments = rw since (
              payment_run-IsPaid cs "paystack" reference _
                (granted-IsPaid F user_id reference s granting)) in
            nothing_more other again.event s₂ _ _ again.answer again.settled (
              settle_charge-paid api.encode again.event s₂.world
                (ap (λ r. r =? "") named ∙ again.given)
                (subst (λ r. IsPaid "paystack" r s₂.world.db.payments) (sym (named ∙ known))
                  paid_before))
      ]
