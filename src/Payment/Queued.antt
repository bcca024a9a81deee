-- ===== src/Payment/Queued.antt =====
-- What one arrival queues, and what it cannot undo.
use wedding_saas.Payment.Processed.{Fulfils, process-Settles}
use wedding_saas.Order.Kept.{is_paid}
use wedding_saas.Payment.Repository.{flag_for_review, lock_by_reference, record_notification}
use wedding_saas.Payment.Kept.{trans-Settles, stays, untouched-Settles, Settles}
use wedding_saas.Db.{Payment, Db}
use wedding_saas.Outcomes.{webhook, PaymentOutcome, NotificationSource}
use wedding_saas.Payment.Webhook.{
  invalid, valid, forged_arrival, handle, settled_order, Finished, process, arrival, invoice,
  VerifiedPaymentEvent, order_paid_email, apply_verified, NotificationVerdict, Job,
}
use wedding_saas.Base.{
  none, Option-cases, Bool-cases, not, ◌&&◌, if◌then◌else◌, true, inr, inl, Outcome-cases, refl,
  ◌⊎◌, some, [], ◌≡◌, ◌∷◌, ◌==◌, false, Option, List, Bool, ℕ,
}
use wedding_saas.Payment.Arrivals.{notified, asked, event_of, deliver, Arrival}

abbrev pub jobs_of : ℕ → List Job
jobs_of id = order_paid_email id ∷ invoice id ∷ []

verdict-cases :
    (v : NotificationVerdict)
    → ((event : VerifiedPaymentEvent) × (v ≡ valid event))
      ⊎ ((claimed : Option ℕ) × (v ≡ invalid claimed))
verdict-cases (valid event) = inl (event, refl)
verdict-cases (invalid claimed) = inr (claimed, refl)

settled_order-unpaid : (f : Finished) → f.became_paid ≡ false → settled_order f ≡ []
settled_order-unpaid f h = elim (Option-cases f.order_id) [
  | inl none_named ↦ rw none_named refl
  | inr (id, named) ↦ rw (named, h)
]

module _ (add_months : ℕ → ℕ → ℕ) (provider : ℕ) (verify : ℕ → NotificationVerdict) where
  -- What one arrival queues: nothing, or the jobs of an order that it made paid.
  abbrev pub Queues : Option VerifiedPaymentEvent → List Job → Db → Db → Type 0
  Queues carried jobs db db' =
      (jobs ≡ [])
      ⊎ ((event : VerifiedPaymentEvent) × (p : Payment) × (carried ≡ some event)
          × (lock_by_reference provider event.provider_reference_id db ≡ some p)
          × (event.outcome ≡ PaymentOutcome.success)
          × (event.amount ≡ p.amount)
          × (is_paid p.order_id db ≡ false)
          × (is_paid p.order_id db' ≡ true)
          × (jobs ≡ jobs_of p.order_id))

  apply_verified-Queues :
      (source : NotificationSource) (force_review : Bool) (now n : ℕ) (event : VerifiedPaymentEvent)
      (db : Db)
      → let r = apply_verified add_months provider verify source force_review now n event db in
        Settles db r.db × Queues (some event) r.jobs db r.db
  unfolding apply_verified
  apply_verified-Queues source force_review now n event db =
      elim (Outcome-cases (process add_months provider verify now n event arrived)) [
        | inl (e, threw) ↦ rw (threw, apply_verified) (settles_arrived, inl refl)
        | inr ((f, db'), done) ↦
            let (s, fulfils) =
              process-Settles add_months provider verify now n event arrived db' done in
            rw (done, apply_verified)
              (
                trans-Settles settles_arrived (trans-Settles s (flagged f db')),
                queued f db' fulfils (Bool-cases f.became_paid),
              )
      ]
    where
      arrived : Db
      arrived = record_notification (arrival add_months provider verify source n event) db

      settles_arrived : Settles db arrived
      settles_arrived = unfold record_notification in (untouched-Settles refl refl)

      last : Finished → Db → Db
      last f db' = if force_review && not f.needs_review then flag_for_review n db' else db'

      flagged : (f : Finished) (db' : Db) → Settles db' (last f db')
      flagged f db' = elim (Bool-cases (force_review && not f.needs_review)) [
        | inl flags ↦ rw flags (unfold flag_for_review in (untouched-Settles refl refl))
        | inr leaves ↦ rw leaves stays
      ]

      queued :
          (f : Finished) (db' : Db)
          → Fulfils add_months provider verify event arrived f db'
          → (f.became_paid ≡ true) ⊎ (f.became_paid ≡ false)
          → Queues (some event) (settled_order f) db (last f db')
      queued f db' fulfils (inl became) =
          let (p, found, success, amount, id, before, after) = fulfils became in
          inr (
            event,
            p,
            refl,
            unfold record_notification in found,
            success,
            amount,
            unfold record_notification in before,
            (flagged f db').paid p.order_id after,
            rw id (rw became refl),
          )
      queued f db' fulfils (inr unpaid) = inl (settled_order-unpaid f unpaid)

  pub deliver-Queues :
      (a : Arrival) (db : Db)
      → let r = deliver add_months provider verify a db in
        Settles db r.db × Queues (event_of add_months provider verify a) r.jobs db r.db
  unfolding deliver handle
  deliver-Queues (asked source force_review now n event) db =
      apply_verified-Queues source force_review now n event db
  deliver-Queues (notified named body recorded now n) db = elim (Bool-cases (named == provider)) [
    | inr other ↦ rw (other, handle) (stays, inl refl)
    | inl same ↦ elim (verdict-cases (verify body)) [
      | inl (event, good) ↦
          rw (same, handle) (rw good (apply_verified-Queues webhook false now n event db))
      | inr (claimed, bad) ↦ rw (same, handle) (rw bad (forged claimed (Bool-cases recorded)))
    ]
  ]
    where
      forged :
          (claimed : Option ℕ)
          → (recorded ≡ true) ⊎ (recorded ≡ false)
          → let db' =
              if recorded
              then record_notification (forged_arrival add_months provider verify n claimed) db
              else db in
            Settles db db' × Queues none [] db db'
      forged claimed (inl written) =
          rw written (unfold record_notification in (untouched-Settles refl refl), inl refl)
      forged claimed (inr dropped) = rw dropped (stays, inl refl)
