-- ===== src/Payment/Repository.antt =====
-- backend/api/src/modules/payment/payment.repository.ts: the statements of the webhook.
use wedding_saas.Outcomes.{handled_as, WebhookResult}
use wedding_saas.Base.Table.{update_where}
use wedding_saas.Db.{Payment, Db, PaymentStatus, Notification}
use wedding_saas.Base.{
  false, not, [], ◌∷◌, ◌&&◌, true, ◌==◌, ◌++◌, some, find, count_if, any, Option, Bool, ℕ,
}

abbrev pub same_payment_status : PaymentStatus → PaymentStatus → Bool
same_payment_status PaymentStatus.pending PaymentStatus.pending = true
same_payment_status PaymentStatus.success PaymentStatus.success = true
same_payment_status PaymentStatus.failed PaymentStatus.failed = true
same_payment_status _ _ = false

-- `recordNotification`: `id` is the id that the database generates.
unfoldable pub record_notification : Notification → Db → Db
record_notification n db = record db { notifications = db.notifications ++ n ∷ [] }

-- `flagForReview`
unfoldable pub flag_for_review : ℕ → Db → Db
flag_for_review id db = record db {
  notifications =
      update_where (λ n. n.id == id) (λ n. record n { needs_review = true }) db.notifications;
}

-- `completeNotification`
unfoldable pub complete_notification : ℕ → Option ℕ → WebhookResult → Bool → Db → Db
complete_notification id payment_id result needs_review db = record db {
  notifications =
      update_where (λ n. n.id == id)
        (λ n. record n {
          payment_id = payment_id;
          result = some (handled_as result);
          needs_review = needs_review;
        })
        db.notifications;
}

-- `lockByReference`
abbrev pub lock_by_reference : ℕ → ℕ → Db → Option Payment
lock_by_reference provider reference db =
    find (λ p. (p.provider == provider) && (p.provider_reference_id == reference)) db.payments

abbrev pub is_unsuccessful : ℕ → Payment → Bool
is_unsuccessful id p = (p.id == id) && not (same_payment_status p.status PaymentStatus.success)

abbrev pub verified : ℕ → PaymentStatus → Option ℕ → Payment → Payment
verified now status method p = record p { status = status; method = method; verified_at = some now }

-- `recordVerifiedOutcome`: whether exactly one row changed, and the table after
unfoldable pub record_verified_outcome : ℕ → ℕ → PaymentStatus → Option ℕ → Db → Bool × Db
record_verified_outcome now id status method db = (
  count_if (is_unsuccessful id) db.payments == 1,
  record db {
    payments = update_where (is_unsuccessful id) (verified now status method) db.payments;
  },
)

-- `recordMethod`
unfoldable pub record_method : ℕ → ℕ → Db → Db
record_method id method db = record db {
  payments = update_where (λ p. p.id == id) (λ p. record p { method = some method }) db.payments;
}

-- `hasOtherLivePayment`
unfoldable pub has_other_live_payment : ℕ → ℕ → Db → Bool
has_other_live_payment order_id except_id db =
    any
      (λ p.
        (p.order_id == order_id)
        && not (p.id == except_id)
        && not (same_payment_status p.status PaymentStatus.failed))
      db.payments
