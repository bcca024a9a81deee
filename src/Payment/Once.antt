-- ===== src/Payment/Once.antt =====
-- Fulfilment over every sequence of arrivals.
use wedding_saas.Payment.Queued.{deliver-Queues}
use wedding_saas.Order.Kept.{is_paid}
use wedding_saas.Payment.Repository.{lock_by_reference}
use wedding_saas.Payment.Kept.{trans-Settles, stays, Settles}
use wedding_saas.Db.{Payment, Db}
use wedding_saas.Outcomes.{PaymentOutcome}
use wedding_saas.Payment.Webhook.{
  invoice, VerifiedPaymentEvent, order_paid_email, NotificationVerdict, Job,
}
use wedding_saas.Base.{
  ◌≢◌, count_if-append, ==_iff, ◌≤◌, Bool-cases, if◌then◌else◌, true, inr, inl, some, arith, ◌+◌,
  [], ◌≡◌, ◌∷◌, ◌==◌, false, count_if, List, Bool, ℕ,
}
use wedding_saas.Payment.Arrivals.{event_of, deliver_all, deliver, Arrival}

abbrev pub emails : ℕ → Job → Bool
emails order (order_paid_email id) = id == order
emails order (invoice id) = false

abbrev pub invoices : ℕ → Job → Bool
invoices order (order_paid_email id) = false
invoices order (invoice id) = id == order

module _ (add_months : ℕ → ℕ → ℕ) (provider : ℕ) (verify : ℕ → NotificationVerdict) where
  -- Whatever arrives, an order that is paid stays paid, and a payment that succeeded stays so.
  pub deliver_all-Settles :
      (arrivals : List Arrival) (db : Db)
      → Settles db (deliver_all add_months provider verify arrivals db).1
  unfolding deliver_all
  deliver_all-Settles [] db = stays
  deliver_all-Settles (a ∷ rest) db =
      trans-Settles (deliver-Queues add_months provider verify a db).0
        (deliver_all-Settles rest (deliver add_months provider verify a db).db)

  -- How often the jobs of an order can still be queued.
  abbrev remaining : ℕ → Db → ℕ
  remaining order db = if is_paid order db then 0 else 1

  queued_once :
      (a : Arrival) (db : Db) (order : ℕ)
      → let r = deliver add_months provider verify a db in
        (count_if (emails order) r.jobs + remaining order r.db ≤ remaining order db)
        × (count_if (invoices order) r.jobs + remaining order r.db ≤ remaining order db)
  queued_once a db order =
      let r = deliver add_months provider verify a db in
      let (s, queues) = deliver-Queues add_months provider verify a db in
      elim queues [
        | inl nothing ↦ rw nothing (omega (arith, fewer), omega (arith, fewer))
        | inr (event, p, carried, found, success, amount, before, after, jobs) ↦
            rw jobs (elim (Bool-cases (p.order_id == order)) [
              | inr other ↦ rw other (omega (arith, fewer), omega (arith, fewer))
              | inl same ↦
                  let e = (==_iff p.order_id order).0 same in
                  let unpaid : is_paid order db ≡ false = rw e at before in
                  let now_paid : is_paid order r.db ≡ true = rw e at after in
                  rw (same, unpaid, now_paid) (omega arith, omega arith)
            ])
      ]
    where
      fewer : remaining order (deliver add_months provider verify a db).db ≤ remaining order db
      fewer = elim (Bool-cases (is_paid order db)) [
        | inl already ↦
            rw (already, (deliver-Queues add_months provider verify a db).0.paid order already)
              (omega arith)
        | inr unpaid ↦
            rw unpaid
              (elim (Bool-cases (is_paid order (deliver add_months provider verify a db).db)) [
                | inl yet ↦ rw yet (omega arith)
                | inr not_yet ↦ rw not_yet (omega arith)
              ])
      ]

  -- Whatever arrives and in whatever order, from the webhook, status queries and the
  -- reconciliation, forged, repeated or failing halfway: the confirmation and the invoice of an
  -- order are queued at most once each, and never for an order that was paid already.
  pub fulfilled_once :
      (arrivals : List Arrival) (db : Db) (order : ℕ)
      → let jobs = (deliver_all add_months provider verify arrivals db).0 in
        (count_if (emails order) jobs ≤ (if is_paid order db then 0 else 1))
        × (count_if (invoices order) jobs ≤ (if is_paid order db then 0 else 1))
  unfolding deliver_all
  fulfilled_once [] db order = (omega arith, omega arith)
  fulfilled_once (a ∷ rest) db order =
      let r = deliver add_months provider verify a db in
      let later = (deliver_all add_months provider verify rest r.db).0 in
      let (e, i) = queued_once a db order in
      let (es, is) = fulfilled_once rest r.db order in
      (
        omega (arith, e, es, count_if-append (emails order) r.jobs later),
        omega (arith, i, is, count_if-append (invoices order) r.jobs later),
      )

  -- An arrival queues jobs only if it carries a verified event of a success whose amount is that of
  -- the payment that its reference names; then they are that payment's order's, which was not paid
  -- before and is paid after.
  pub fulfilled-verified :
      (a : Arrival) (db : Db)
      → let r = deliver add_months provider verify a db in
        r.jobs ≢ []
        → (event : VerifiedPaymentEvent) × (p : Payment) × (event_of add_months provider verify a
            ≡ some event)
          × (lock_by_reference provider event.provider_reference_id db ≡ some p)
          × (event.outcome ≡ PaymentOutcome.success)
          × (event.amount ≡ p.amount)
          × (is_paid p.order_id db ≡ false)
          × (is_paid p.order_id r.db ≡ true)
          × (r.jobs ≡ order_paid_email p.order_id ∷ invoice p.order_id ∷ [])
  fulfilled-verified a db some_jobs = elim (deliver-Queues add_months provider verify a db).1 [
    | inl nothing ↦ absurd (some_jobs nothing)
    | inr found ↦ found
  ]
