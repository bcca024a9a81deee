-- ===== src/Payment/Initiation.antt =====
-- backend/api/src/modules/payment/payment.service.ts, with `latestPending`, `insertPending`,
-- `markInitiationFailed` and `storeCheckout` of payment.repository.ts. The provider's answer, the
-- random reference and the id that the database gives are arguments. Times are seconds.
use wedding_saas.Payment.Repository.{same_payment_status}
use wedding_saas.Order.Checkout.{with_payable_order}
use wedding_saas.Errors.{
  internal, payment_unavailable, payment_in_progress, service_unavailable, conflict, AppError,
}
use wedding_saas.Base.Table.{update_where}
use wedding_saas.Base.{
  thrown, is_none, ◌+◌, ok, if◌then◌else◌, ◌&&◌, some, ltb, keep, none, Outcome, Option, Bool, ℕ,
  ◌==◌, ◌++◌, List, [], ◌∷◌,
}
use wedding_saas.Db.{Db, Payment, PaymentStatus, Order, Tx}

abbrev pub in_flight_seconds : ℕ
in_flight_seconds = 30

pub record CheckoutDto : Type 0 where
  -- the payment page's address and token
  pub page : ℕ × ℕ
  pub expires_at : ℕ

pub data InitiationPlan : Type 0 where
  reuse : ℕ × ℕ → InitiationPlan
  -- the payment, the reference and the amount
  new_page : ℕ → ℕ → ℕ → InitiationPlan

-- The provider gives a page, refuses or is unreachable (`PaymentProviderError`), or something else
-- is thrown.
pub data GatewayAnswer : Type 0 where
  created : ℕ × ℕ → GatewayAnswer
  provider_error other_error : GatewayAnswer

abbrev pub is_pending_of : ℕ → ℕ → Payment → Bool
is_pending_of order_id provider p =
    (p.order_id == order_id)
    && (p.provider == provider)
    && same_payment_status p.status PaymentStatus.pending

-- `order by created_at desc limit 1`; between rows of one instant the database is free, and the
-- first is taken.
unfoldable pub newest : List Payment → Option Payment
newest [] = none
newest (p ∷ ps) = elim (newest ps) [
  | none ↦ some p
  | some q ↦ if ltb p.created_at q.created_at then some q else some p
]

-- `latestPending`
abbrev pub latest_pending : ℕ → ℕ → Db → Option Payment
latest_pending order_id provider db = newest (keep (is_pending_of order_id provider) db.payments)

-- `created_at > now() - make_interval(secs => …)`
abbrev pub is_recent : ℕ → Payment → Bool
is_recent now p = ltb now (p.created_at + in_flight_seconds)

abbrev pub pending_row : ℕ → ℕ → ℕ → ℕ → ℕ → ℕ → Payment
pending_row id order_id provider reference amount now = record {
  id = id;
  order_id = order_id;
  provider = provider;
  provider_reference_id = reference;
  amount = amount;
  status = PaymentStatus.pending;
  method = none;
  checkout = none;
  verified_at = none;
  created_at = now;
}

-- `insertPending`
abbrev pub insert_pending : Payment → Db → Db
insert_pending p db = record db { payments = db.payments ++ p ∷ [] }

abbrev pub is_pageless : ℕ → Payment → Bool
is_pageless id p =
    (p.id == id) && same_payment_status p.status PaymentStatus.pending && is_none p.checkout

-- `markInitiationFailed`
unfoldable pub mark_initiation_failed : ℕ → Db → Db
mark_initiation_failed id db = record db {
  payments =
      update_where (is_pageless id) (λ p. record p { status = PaymentStatus.failed }) db.payments;
}

-- `storeCheckout`
unfoldable pub store_checkout : ℕ → ℕ × ℕ → Db → Db
store_checkout id page db = record db {
  payments = update_where (λ p. p.id == id) (λ p. record p { checkout = some page }) db.payments;
}

module _ (provider now id reference : ℕ) where
  abbrev pub new_attempt : Order → Db → Outcome AppError ((InitiationPlan × ℕ) × Db)
  new_attempt order db = ok (
    (new_page id reference order.amount_total, order.expired_at),
    insert_pending (pending_row id order.id provider reference order.amount_total now) db,
  )

  -- The callback of `withPayableOrder`, with the order's deadline.
  unfoldable pub plan_payment : Order → Tx (InitiationPlan × ℕ)
  plan_payment order db = elim (latest_pending order.id provider db) [
    | none ↦ new_attempt order db
    | some p ↦ elim p.checkout [
      | some page ↦ ok ((reuse page, order.expired_at), db)
      | none ↦
          if is_recent now p
          then thrown (conflict payment_in_progress none)
          else new_attempt order (mark_initiation_failed p.id db)
    ]
  ]

-- The provider's answer and what the request does with it.
unfoldable pub conclude : ℕ → ℕ → GatewayAnswer → Db → Outcome AppError CheckoutDto × Db
conclude id expires_at (created page) db =
    (ok (record { page = page; expires_at = expires_at }), store_checkout id page db)
conclude id expires_at provider_error db =
    (thrown (service_unavailable payment_unavailable), mark_initiation_failed id db)
conclude id expires_at other_error db = (thrown internal, mark_initiation_failed id db)

abbrev pub carry_out :
    (Db → Db) → GatewayAnswer → InitiationPlan × ℕ → Db → Outcome AppError CheckoutDto × Db
carry_out between answer (reuse page, expires_at) db =
    (ok (record { page = page; expires_at = expires_at }), db)
carry_out between answer (new_page id reference amount, expires_at) db =
    conclude id expires_at answer (between db)

module _ (digest : ℕ → ℕ → List ℕ → ℕ) (key_digest : ℕ → ℕ → ℕ) (is_uuid : ℕ → Bool)
    (provider : ℕ) where
  -- `initiate`; `between` is what other requests do to the tables while the provider is called, with
  -- nothing locked.
  unfoldable pub initiate :
      ℕ → ℕ → ℕ → ℕ → ℕ → (Db → Db) → GatewayAnswer → Db → Outcome AppError CheckoutDto × Db
  initiate scope order_id now id reference between answer db =
      elim (with_payable_order digest key_digest is_uuid scope order_id now
        (plan_payment provider now id reference) db) [
          | thrown e ↦ (thrown e, db)
          | ok (plan, db1) ↦ carry_out between answer plan db1
        ]
