-- ===== src/Store/Payments/Once.antt =====
-- `SettlePayment` and `UpsertPayment` of server/internal/store/payments.go: a payment is settled once.
use proxify_vpn.Base.{
  All, Bool, List, Option-cases, String, [], arith, false, inl, inr, none, refl, some, subst, true,
  ℕ, ◌&&◌, ◌=?◌, ◌∙◌, ◌∷◌, ◌≡◌, ◌⊎◌,
}
use proxify_vpn.Base.Rows.{All-update_where, change, exists_row, find_row, update_where}
use proxify_vpn.Errors.{ok}
use proxify_vpn.Store.Db.{PaymentRow, success}
use proxify_vpn.Store.Payments.{
  Payment, PaymentParams, is_payment, is_settleable, or_default, payment_by_ref, payment_row,
  read_payment, settle_payment, settled_row, upsert_payment, upsert_row,
}

pub data PaymentCall : Type 0 where
  upserts : (fresh_id : String) → PaymentParams → PaymentCall
  settles : (provider ref payload : String) → PaymentCall

unfoldable pub payment_step : ℕ × PaymentCall → List PaymentRow → List PaymentRow
payment_step (now, upserts fresh_id params) rows = (upsert_payment now fresh_id params rows).1
payment_step (now, settles provider ref payload) rows =
    (settle_payment now provider ref payload rows).1

unfoldable pub payment_run : List (ℕ × PaymentCall) → List PaymentRow → List PaymentRow
payment_run [] rows = rows
payment_run (c ∷ cs) rows = payment_run cs (payment_step c rows)

-- Some row of the reference is there, and each of them is successful.
abbrev pub IsPaid : String → String → List PaymentRow → Type 0
IsPaid provider ref rows =
    (exists_row (is_payment provider ref) rows ≡ true)
    × All (λ p. (is_payment provider ref p ≡ false) ⊎ (p.status ≡ success)) rows

settled-status :
    (now : ℕ) (provider ref payload : String) (p : PaymentRow)
    → (is_payment provider ref (change (is_settleable provider ref) (settled_row now payload) p)
        ≡ false)
      ⊎ ((change (is_settleable provider ref) (settled_row now payload) p).status ≡ success)
settled-status now provider ref payload p = ground arith

All-settled :
    (now : ℕ) (provider ref payload : String) (rows : List PaymentRow)
    → All
        (λ p. (is_payment provider ref p ≡ false) ⊎ (p.status ≡ success))
        (update_where (is_settleable provider ref) (settled_row now payload) rows)
All-settled now provider ref payload [] = tt
All-settled now provider ref payload (p ∷ rows) =
    (settled-status now provider ref payload p, All-settled now provider ref payload rows)

module _ (q p : PaymentRow → Bool) (f : PaymentRow → PaymentRow) where
  exists-update :
      (rows : List PaymentRow)
      → ((r : PaymentRow) → q (f r) ≡ q r)
      → exists_row q (update_where p f rows) ≡ exists_row q rows
  exists-update [] same = refl
  exists-update (r ∷ rows) same = ground (arith, same r, exists-update rows same)

found-exists :
    (provider ref : String) (rows : List PaymentRow) (p : PaymentRow)
    → find_row (is_settleable provider ref) rows ≡ some p
    → exists_row (is_payment provider ref) rows ≡ true
found-exists provider ref [] p h = cc
found-exists provider ref (x ∷ rows) p h = ground (arith, found-exists provider ref rows p)

none-paid :
    (provider ref : String) (rows : List PaymentRow)
    → find_row (is_settleable provider ref) rows ≡ none
    → All (λ p. (is_payment provider ref p ≡ false) ⊎ (p.status ≡ success)) rows
none-paid provider ref [] h = tt
none-paid provider ref (x ∷ rows) h = (ground arith, none-paid provider ref rows (ground arith))

found-ref :
    (provider ref : String) (rows : List PaymentRow) (p : PaymentRow)
    → find_row (is_payment provider ref) rows ≡ some p
    → exists_row (is_payment provider ref) rows ≡ true
found-ref provider ref [] p h = cc
found-ref provider ref (x ∷ rows) p h = ground (arith, found-ref provider ref rows p)

-- A successful `SettlePayment` leaves the reference paid, whether or not it was the first.
pub settle_payment-IsPaid :
    (now : ℕ) (provider ref payload : String) (rows rows' : List PaymentRow) (p : Payment)
    (first : Bool)
    → settle_payment now provider ref payload rows ≡ (ok (p, first), rows')
    → IsPaid provider ref rows'
unfolding settle_payment
settle_payment-IsPaid now provider ref payload rows rows' p first h =
    elim (Option-cases (find_row (is_settleable provider ref) rows)) [
      | inl settled ↦ elim (Option-cases (find_row (is_payment provider ref) rows)) [
        | inl missing ↦ absurd (ground arith)
        | inr (r, found) ↦
            subst (IsPaid provider ref) (ground arith)
              (found-ref provider ref rows r found, none-paid provider ref rows settled)
      ]
      | inr (r, found) ↦ subst (IsPaid provider ref) (ground arith) (
        exists-update (is_payment provider ref) (is_settleable provider ref)
              (settled_row now payload) rows (λ r. refl)
            ∙ found-exists provider ref rows r found,
        All-settled now provider ref payload rows,
      )
    ]

IsPaid-update :
    (provider ref : String) (p : PaymentRow → Bool) (f : PaymentRow → PaymentRow)
    (rows : List PaymentRow)
    → ((r : PaymentRow) → is_payment provider ref (f r) ≡ is_payment provider ref r)
    → ((r : PaymentRow) → r.status ≡ success → (f r).status ≡ success)
    → IsPaid provider ref rows
    → IsPaid provider ref (update_where p f rows)
IsPaid-update provider ref p f rows same keep h = (
  exists-update (is_payment provider ref) p f rows same ∙ h.0,
  All-update_where _ p f rows still h.1,
)
  where
    still :
        (r : PaymentRow)
        → p r ≡ true
        → (is_payment provider ref r ≡ false) ⊎ (r.status ≡ success)
        → (is_payment provider ref (f r) ≡ false) ⊎ ((f r).status ≡ success)
    still r hit (inl other) = inl (same r ∙ other)
    still r hit (inr paid) = inr (keep r paid)

other_ref :
    (a b c d : String) (rows : List PaymentRow)
    → find_row (is_payment a b) rows ≡ none
    → exists_row (is_payment c d) rows ≡ true
    → (a =? c && b =? d) ≡ false
other_ref a b c d [] missing there = cc
other_ref a b c d (r ∷ rows) missing there = ground (arith, other_ref a b c d rows)

-- No later initialization or settlement, of any payment, undoes that.
pub payment_step-IsPaid :
    (c : ℕ × PaymentCall) (provider ref : String) (rows : List PaymentRow)
    → IsPaid provider ref rows
    → IsPaid provider ref (payment_step c rows)
unfolding payment_step upsert_payment settle_payment
payment_step-IsPaid (now, upserts fresh_id params) provider ref rows h =
    elim (Option-cases
      (find_row (is_payment (or_default params.provider "paystack") params.provider_ref) rows)) [
        | inl missing ↦ rw (missing, payment_step, upsert_payment) (present, (other missing, h.1))
        | inr (old, found) ↦
            rw (found, payment_step, upsert_payment)
              (IsPaid-update provider ref
                (is_payment (or_default params.provider "paystack") params.provider_ref)
                (upsert_row now (payment_row now fresh_id params)) rows (λ r. refl)
                (λ r paid. ground arith) h)
      ]
  where
    other :
        find_row (is_payment (or_default params.provider "paystack") params.provider_ref) rows
          ≡ none
        → (is_payment provider ref (payment_row now fresh_id params) ≡ false)
          ⊎ (params.status ≡ success)
    other missing = inl (
        other_ref (or_default params.provider "paystack") params.provider_ref provider ref rows
          missing h.0)

    present : exists_row (is_payment provider ref) (payment_row now fresh_id params ∷ rows) ≡ true
    present = ground arith
payment_step-IsPaid (now, settles other other_ref payload) provider ref rows h =
    elim (Option-cases (find_row (is_settleable other other_ref) rows)) [
      | inl settled ↦ rw (settled, payment_step, settle_payment) h
      | inr (r, found) ↦
          rw (found, payment_step, settle_payment)
            (IsPaid-update provider ref (is_settleable other other_ref) (settled_row now payload)
              rows (λ r. refl) (λ r paid. refl) h)
    ]

pub payment_run-IsPaid :
    (cs : List (ℕ × PaymentCall)) (provider ref : String) (rows : List PaymentRow)
    → IsPaid provider ref rows
    → IsPaid provider ref (payment_run cs rows)
unfolding payment_run
payment_run-IsPaid [] provider ref rows h = h
payment_run-IsPaid (c ∷ cs) provider ref rows h =
    payment_run-IsPaid cs provider ref (payment_step c rows)
      (payment_step-IsPaid c provider ref rows h)

paid-none :
    (provider ref : String) (rows : List PaymentRow)
    → All (λ p. (is_payment provider ref p ≡ false) ⊎ (p.status ≡ success)) rows
    → find_row (is_settleable provider ref) rows ≡ none
paid-none provider ref [] h = refl
paid-none provider ref (p ∷ rows) h = ground (arith, h.0, paid-none provider ref rows h.1)

paid-again :
    (now : ℕ) (provider ref payload : String) (rows rows' : List PaymentRow) (p : Payment)
    (first : Bool)
    → IsPaid provider ref rows
    → settle_payment now provider ref payload rows ≡ (ok (p, first), rows')
    → (first ≡ false) × (rows' ≡ rows)
unfolding settle_payment
paid-again now provider ref payload rows rows' p first h e =
    ground (arith, paid-none provider ref rows h.1)

-- Settling what is paid finds the payment and changes nothing.
pub settle_payment-paid :
    (now : ℕ) (provider ref payload : String) (rows : List PaymentRow) (p : Payment)
    → IsPaid provider ref rows
    → payment_by_ref provider ref rows ≡ ok p
    → settle_payment now provider ref payload rows ≡ (ok (p, false), rows)
unfolding settle_payment
settle_payment-paid now provider ref payload rows p h found =
    rw (paid-none provider ref rows h.1, found, settle_payment) refl

-- A payment that can be read can be settled.
pub settle_payment-read :
    (now : ℕ) (provider ref payload : String) (rows : List PaymentRow) (p : Payment)
    → payment_by_ref provider ref rows ≡ ok p
    → (q : Payment) × (first : Bool) × (rows' : List PaymentRow) × (settle_payment now provider ref
          payload rows
        ≡ (ok (q, first), rows'))
unfolding settle_payment
settle_payment-read now provider ref payload rows p found =
    elim (Option-cases (find_row (is_settleable provider ref) rows)) [
      | inl settled ↦ (p, false, rows, rw (settled, found, settle_payment) refl)
      | inr (r, open_row) ↦ (
        read_payment (settled_row now payload r),
        true,
        update_where (is_settleable provider ref) (settled_row now payload) rows,
        rw (open_row, settle_payment) refl,
      )
    ]

-- After a successful `SettlePayment` of a reference, and whatever payments are initialized or settled
-- since, no later one of that reference is the first again, and it changes no row.
pub settle_payment-once :
    (now later : ℕ) (provider ref payload payload' : String) (rows rows' : List PaymentRow)
    (p q : Payment) (first again : Bool) (cs : List (ℕ × PaymentCall)) (rows'' : List PaymentRow)
    → settle_payment now provider ref payload rows ≡ (ok (p, first), rows')
    → settle_payment later provider ref payload' (payment_run cs rows') ≡ (ok (q, again), rows'')
    → (again ≡ false) × (rows'' ≡ payment_run cs rows')
settle_payment-once now later provider ref payload payload' rows rows' p q first again cs rows'' h
      e =
    paid-again later provider ref payload' (payment_run cs rows') rows'' q again
      (payment_run-IsPaid cs provider ref rows'
        (settle_payment-IsPaid now provider ref payload rows rows' p first h))
      e
