-- ===== src/Payment/Webhook.antt =====
-- backend/api/src/modules/payment/payment-webhook.service.ts: what a notification does. The
-- provider's verification of a body is a parameter, as are the provider's name and the calendar.
-- References and methods are numbers, so that a cut to a column's length does not show.
use wedding_saas.Order.Settlement.{settle_failed, settle_paid}
use wedding_saas.Payment.Repository.{
  has_other_live_payment, record_verified_outcome, flag_for_review, same_payment_status,
  complete_notification, record_notification, record_method, lock_by_reference,
}
use wedding_saas.Errors.{unauthenticated, not_found, AppError}
use wedding_saas.Db.{PaymentStatus, Tx, Payment, Notification, Db}
use wedding_saas.Outcomes.{
  failed_other_payment_live, no_change, of_settlement, duplicate, amount_mismatch,
  unknown_reference, webhook, PaymentOutcome, NotificationSource, WebhookResult,
}
use wedding_saas.Base.{
  ◌||◌, ◌==◌, ◌&&◌, ◌∷◌, thrown, not, false, true, ok, if◌then◌else◌, [], some, none, Outcome, Bool,
  ℕ, Option, List,
}

pub record VerifiedPaymentEvent : Type 0 where
  pub provider_reference_id : ℕ
  pub outcome : PaymentOutcome
  pub amount : ℕ
  pub method : Option ℕ

pub data NotificationVerdict : Type 0 where
  valid : VerifiedPaymentEvent → NotificationVerdict
  -- with the reference that the body claims
  invalid : Option ℕ → NotificationVerdict

-- What is queued after the commit.
pub data Job : Type 0 where
  order_paid_email invoice : ℕ → Job

-- What `finish` returns.
pub record Finished : Type 0 where
  pub result : WebhookResult
  pub needs_review : Bool
  pub became_paid : Bool
  pub order_id : Option ℕ

-- `event.method ?? payment.method`
abbrev pub method_or : Option ℕ → Option ℕ → Option ℕ
method_or none method = method
method_or (some method) _ = some method

abbrev pub finish : ℕ → Payment → WebhookResult → Bool → Bool → Tx Finished
finish n payment result needs_review became_paid db = ok (
  record {
    result = result;
    needs_review = needs_review;
    became_paid = became_paid;
    order_id = some payment.order_id;
  },
  complete_notification n (some payment.id) result needs_review db,
)

-- A verified event that names no payment.
abbrev pub finish_unknown : ℕ → Tx Finished
finish_unknown n db = ok (
  record { result = unknown_reference; needs_review = true; became_paid = false; order_id = none },
  complete_notification n none unknown_reference true db,
)

-- The `pending` case: the method, where the event names the first one.
abbrev pub note_method : Option ℕ → Option ℕ → ℕ → Db → Db
note_method (some method) none id db = record_method id method db
note_method _ _ id db = db

abbrev pub settled_order : Finished → List Job
settled_order f = elim f.order_id [
  | none ↦ []
  | some id ↦ if f.became_paid then order_paid_email id ∷ invoice id ∷ [] else []
]

module _ (add_months : ℕ → ℕ → ℕ) (provider : ℕ) (verify : ℕ → NotificationVerdict) where
  -- `apply`
  unfoldable pub apply : ℕ → ℕ → VerifiedPaymentEvent → Payment → PaymentOutcome → Tx Finished
  apply now n event payment PaymentOutcome.success db =
      if same_payment_status payment.status PaymentStatus.success
      then finish n payment duplicate false false db
      else let (recorded, db1) =
          record_verified_outcome now payment.id PaymentStatus.success
            (method_or event.method payment.method) db in
        if not recorded
        then finish n payment duplicate false false db1
        else elim (settle_paid add_months now payment.order_id db1) [
          | thrown e ↦ thrown e
          | ok (s, db2) ↦
              finish n payment (of_settlement s.result)
                (s.needs_review || same_payment_status payment.status PaymentStatus.failed)
                s.became_paid db2
        ]
  apply now n event payment PaymentOutcome.failed db =
      if not (same_payment_status payment.status PaymentStatus.pending)
      then finish n payment no_change false false db
      else let (recorded, db1) =
          record_verified_outcome now payment.id PaymentStatus.failed
            (method_or event.method payment.method) db in
        if has_other_live_payment payment.order_id payment.id db1
        then finish n payment failed_other_payment_live false false db1
        else elim (settle_failed payment.order_id db1) [
          | thrown e ↦ thrown e
          | ok (r, db2) ↦ finish n payment WebhookResult.failed false false db2
        ]
  apply now n event payment PaymentOutcome.pending db =
      finish n payment no_change false false (note_method event.method payment.method payment.id db)
  apply now n event payment PaymentOutcome.ignored db =
      finish n payment WebhookResult.ignored true false db

  -- The transaction of `applyVerified`.
  unfoldable pub process : ℕ → ℕ → VerifiedPaymentEvent → Tx Finished
  process now n event db = elim (lock_by_reference provider event.provider_reference_id db) [
    | none ↦ finish_unknown n db
    | some payment ↦
        if not (event.amount == payment.amount)
        then finish n payment amount_mismatch true false db
        else apply now n event payment event.outcome db
  ]

  -- The answer, the tables, and the jobs that were queued.
  pub record Handled : Type 0 where
    pub answer : Outcome AppError WebhookResult
    pub db : Db
    pub jobs : List Job

  abbrev pub arrival : NotificationSource → ℕ → VerifiedPaymentEvent → Notification
  arrival source n event = record {
    id = n;
    source = source;
    provider = provider;
    claimed_reference = some event.provider_reference_id;
    payment_id = none;
    signature_valid = true;
    outcome = some event.outcome;
    amount = some event.amount;
    result = none;
    needs_review = false;
  }

  -- `applyVerified`. The row of the arrival is committed before the transaction.
  unfoldable pub apply_verified :
      NotificationSource → Bool → ℕ → ℕ → VerifiedPaymentEvent → Db → Handled
  apply_verified source force_review now n event db =
      let arrived = record_notification (arrival source n event) db in
      elim (process now n event arrived) [
        | thrown e ↦ record { answer = thrown e; db = arrived; jobs = [] }
        | ok (f, db') ↦ record {
          answer = ok f.result;
          db = if force_review && not f.needs_review then flag_for_review n db' else db';
          jobs = settled_order f;
        }
      ]

  abbrev pub forged_arrival : ℕ → Option ℕ → Notification
  forged_arrival n claimed = record {
    id = n;
    source = webhook;
    provider = provider;
    claimed_reference = claimed;
    payment_id = none;
    signature_valid = false;
    outcome = none;
    amount = none;
    result = none;
    needs_review = false;
  }

  -- `handle`. `recorded` says whether the row of an invalid notification could be written.
  unfoldable pub handle : ℕ → ℕ → Bool → ℕ → ℕ → Db → Handled
  handle named body recorded now n db =
      if not (named == provider)
      then record { answer = thrown not_found; db = db; jobs = [] }
      else elim (verify body) [
        | invalid claimed ↦ record {
          answer = thrown unauthenticated;
          db = if recorded then record_notification (forged_arrival n claimed) db else db;
          jobs = [];
        }
        | valid event ↦ apply_verified webhook false now n event db
      ]
