-- ===== src/Payment/Queries.antt =====
-- The provider's answer to a query about a payment, which the status request and the reconciliation
-- of backend/api/src/modules/payment apply. What it answers is an argument; times are seconds.
use wedding_saas.Payment.Repository.{same_payment_status}
use wedding_saas.Base.{false, true, ℕ, Bool}
use wedding_saas.Db.{Db, Payment, PaymentStatus}
use wedding_saas.Outcomes.{NotificationSource, PaymentOutcome}
use wedding_saas.Payment.Webhook.{
  NotificationVerdict, VerifiedPaymentEvent, apply_verified, Handled,
}

-- `queryStatus`: it throws, or finds no such payment, or tells its state.
pub data QueryAnswer : Type 0 where
  unreachable unknown_payment : QueryAnswer
  told : VerifiedPaymentEvent → QueryAnswer

-- An answer, with the time at which it is applied and the id of its row
pub record Query : Type 0 where
  pub answer : QueryAnswer
  pub now : ℕ
  pub row : ℕ

abbrev pub is_pending_outcome : PaymentOutcome → Bool
is_pending_outcome o = elim o [ PaymentOutcome.pending ↦ true | _ ↦ false ]

abbrev pub is_success_outcome : PaymentOutcome → Bool
is_success_outcome o = elim o [ PaymentOutcome.success ↦ true | _ ↦ false ]

abbrev pub is_success : Payment → Bool
is_success p = same_payment_status p.status PaymentStatus.success

module _ (add_months : ℕ → ℕ → ℕ) (provider : ℕ) (verify : ℕ → NotificationVerdict) where
  abbrev pub apply_answer :
      NotificationSource
      → Bool
      → Query
      → VerifiedPaymentEvent
      → Db
      → Handled add_months provider verify
  apply_answer source force_review q event db =
      apply_verified add_months provider verify source force_review q.now q.row event db
