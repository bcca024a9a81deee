-- ===== src/Payment/Processed.antt =====
-- What the transaction of one verified event leaves, on every branch.
use wedding_saas.Payment.Kept.{
  Keeps-Settles, trans-Settles, finish-Settles, stays, note_method-Settles,
  record_verified_outcome-Settles, finish-Paying, untouched-Settles, Paying, Settles,
}
use wedding_saas.Order.Fulfilled.{settle_paid-Keeps, settle_failed-Keeps}
use wedding_saas.Order.Settlement.{settle_paid, settle_failed}
use wedding_saas.Payment.Webhook.{
  process, method_or, VerifiedPaymentEvent, apply, NotificationVerdict, Finished,
}
use wedding_saas.Outcomes.{
  amount_mismatch, of_settlement, duplicate, failed_other_payment_live, no_change, WebhookResult,
  PaymentOutcome,
}
use wedding_saas.Order.Kept.{is_paid}
use wedding_saas.Db.{PaymentStatus, Payment, Db}
use wedding_saas.Base.{
  ==_iff, Option-cases, sym, ◌||◌, Outcome-cases, inl, inr, Bool-cases, ok, false, some, arith,
  refl, ◌∙◌, true, ◌≡◌, ◌==◌, Option, Bool, ℕ,
}
use wedding_saas.Payment.Repository.{
  lock_by_reference, has_other_live_payment, complete_notification, record_verified_outcome,
  same_payment_status,
}

module _ (add_months : ℕ → ℕ → ℕ) (provider : ℕ) (verify : ℕ → NotificationVerdict) where
  success-Settles :
      (now n : ℕ) (event : VerifiedPaymentEvent) (payment : Payment) (db db' : Db) {f : Finished}
      → apply add_months provider verify now n event payment PaymentOutcome.success db ≡ ok (f, db')
      → Settles db db' × Paying payment PaymentOutcome.success db f db'
  unfolding apply
  success-Settles now n event payment db db' {f} h =
      elim (Bool-cases (same_payment_status payment.status PaymentStatus.success)) [
        | inl again ↦
            finish-Paying n payment PaymentOutcome.success duplicate false db db db' stays
              (rw (again, apply) at h)
        | inr first ↦
            let k = rw (first, apply) at h in
            elim (Bool-cases recorded) [
              | inr lost ↦
                  finish-Paying n payment PaymentOutcome.success duplicate false db db1 db' s1
                    (rw lost at k)
              | inl one ↦
                  let k' = rw one at k in
                  elim (Outcome-cases (settle_paid add_months now payment.order_id db1)) [
                    | inl (e, threw) ↦ let l = rw threw at k' in cc
                    | inr ((s, db2), done) ↦
                        let (kept, paying) =
                          settle_paid-Keeps add_months now payment.order_id db1 db2 done in
                        let (t, became, id, same) =
                          finish-Settles n payment (of_settlement s.result)
                            (s.needs_review
                              || same_payment_status payment.status PaymentStatus.failed)
                            s.became_paid db2 db' (rw done at k') in
                        (
                          trans-Settles s1 (trans-Settles (Keeps-Settles kept) t),
                          λ b.
                              let (before, after) = paying (sym became ∙ b) in
                              (
                                refl,
                                id,
                                unfold record_verified_outcome in before,
                                same payment.order_id ∙ after,
                              ),
                        )
                  ]
            ]
      ]
    where
      m : Option ℕ
      m = method_or event.method payment.method

      recorded : Bool
      recorded = (record_verified_outcome now payment.id PaymentStatus.success m db).0

      db1 : Db
      db1 = (record_verified_outcome now payment.id PaymentStatus.success m db).1

      s1 : Settles db db1
      s1 = record_verified_outcome-Settles now payment.id PaymentStatus.success m db

  apply-Settles :
      (now n : ℕ) (event : VerifiedPaymentEvent) (payment : Payment) (outcome : PaymentOutcome)
      (db db' : Db) {f : Finished}
      → apply add_months provider verify now n event payment outcome db ≡ ok (f, db')
      → Settles db db' × Paying payment outcome db f db'
  unfolding apply
  apply-Settles now n event payment PaymentOutcome.pending db db' h =
      finish-Paying n payment PaymentOutcome.pending no_change false db _ db'
        (note_method-Settles event.method payment.method payment.id db) h
  apply-Settles now n event payment PaymentOutcome.ignored db db' h =
      finish-Paying n payment PaymentOutcome.ignored WebhookResult.ignored true db db db' stays h
  apply-Settles now n event payment PaymentOutcome.failed db db' h =
      elim (Bool-cases (same_payment_status payment.status PaymentStatus.pending)) [
        | inr over ↦
            finish-Paying n payment PaymentOutcome.failed no_change false db db db' stays
              (rw (over, apply) at h)
        | inl waits ↦
            let k = rw (waits, apply) at h in
            let m = method_or event.method payment.method in
            let (recorded, db1) =
              record_verified_outcome now payment.id PaymentStatus.failed m db in
            let s1 = record_verified_outcome-Settles now payment.id PaymentStatus.failed m db in
            elim (Bool-cases (has_other_live_payment payment.order_id payment.id db1)) [
              | inl live ↦
                  finish-Paying n payment PaymentOutcome.failed failed_other_payment_live false db
                    db1 db' s1 (rw live at k)
              | inr last ↦
                  let k' = rw last at k in
                  elim (Outcome-cases (settle_failed payment.order_id db1)) [
                    | inl (e, threw) ↦ let l = rw threw at k' in cc
                    | inr ((r, db2), done) ↦
                        finish-Paying n payment PaymentOutcome.failed WebhookResult.failed false db
                          db2 db'
                          (trans-Settles s1
                            (Keeps-Settles (settle_failed-Keeps payment.order_id db1 db2 done)))
                          (rw done at k')
                  ]
            ]
      ]
  apply-Settles now n event payment PaymentOutcome.success db db' h =
      success-Settles now n event payment db db' h

  -- What the transaction of one event says of the payment that it settles.
  abbrev pub Fulfils : VerifiedPaymentEvent → Db → Finished → Db → Type 0
  Fulfils event db f db' =
      f.became_paid ≡ true
      → (p : Payment) × (lock_by_reference provider event.provider_reference_id db ≡ some p)
        × (event.outcome ≡ PaymentOutcome.success)
        × (event.amount ≡ p.amount)
        × (f.order_id ≡ some p.order_id)
        × (is_paid p.order_id db ≡ false)
        × (is_paid p.order_id db' ≡ true)

  pub process-Settles :
      (now n : ℕ) (event : VerifiedPaymentEvent) (db db' : Db) {f : Finished}
      → process add_months provider verify now n event db ≡ ok (f, db')
      → Settles db db' × Fulfils event db f db'
  unfolding process
  process-Settles now n event db db' {f} h =
      elim (Option-cases (lock_by_reference provider event.provider_reference_id db)) [
        | inl unknown ↦
            let k = rw (unknown, process) at h in
            let orders : db'.orders ≡ db.orders = unfold complete_notification in (ground arith) in
            let payments : db'.payments ≡ db.payments =
              unfold complete_notification in (ground arith) in
            let never : f.became_paid ≡ false = ground arith in
            (untouched-Settles orders payments, λ b. absurd (ground arith))
        | inr (p, found) ↦
            let k = rw (found, process) at h in
            elim (Bool-cases (event.amount == p.amount)) [
              | inr other ↦
                  let (s, never, id, same) =
                    finish-Settles n p amount_mismatch true false db db' (rw other at k) in
                  (s, λ b. absurd (ground arith))
              | inl same ↦
                  let (s, paying) =
                    apply-Settles now n event p event.outcome db db' (rw same at k) in
                  (
                    s,
                    λ b.
                        let (success, id, before, after) = paying b in
                        (p, found, success, (==_iff _ _).0 same, id, before, after),
                  )
            ]
      ]
