-- ===== src/Payment/Again.antt =====
-- A settlement of an order that an earlier one moved to `paid`, with any deliveries between them.
use wedding_saas.Order.Kept.{is_paid}
use wedding_saas.Order.Repository.{order_by_id}
use wedding_saas.Order.Settled.{duplicate, settle_order-paid, settle_order-stores}
use wedding_saas.Order.Settlement.{settle_paid, Settlement}
use wedding_saas.Payment.Arrivals.{deliver_all, Arrival}
use wedding_saas.Payment.Once.{deliver_all-Settles}
use wedding_saas.Payment.Webhook.{NotificationVerdict}
use wedding_saas.Db.{Db, OrderStatus, same_order_status}
use wedding_saas.Base.{◌≡◌, ok, true, inl, inr, refl, Option-cases, ℕ, List}

is_paid_status :
    (s : OrderStatus) → same_order_status s OrderStatus.paid ≡ true → s ≡ OrderStatus.paid
is_paid_status OrderStatus.paid h = refl
is_paid_status OrderStatus.pending h = absurd cc
is_paid_status OrderStatus.expired h = absurd cc
is_paid_status OrderStatus.failed h = absurd cc
is_paid_status OrderStatus.refunded h = absurd cc

module _ (add_months : ℕ → ℕ → ℕ) where
  settle_paid-is_paid :
      (now id : ℕ) (db db' : Db) {s : Settlement}
      → settle_paid add_months now id db ≡ ok (s, db')
      → s.became_paid ≡ true
      → is_paid id db' ≡ true
  unfolding settle_paid
  settle_paid-is_paid now id db db' h became = elim (Option-cases (order_by_id id db)) [
    | inl missing ↦ let k = rw (missing, settle_paid) at h in cc
    | inr (order, found) ↦
        let stored =
          settle_order-stores add_months now id order db db' found (rw (found, settle_paid) at h)
            became in
        rw stored refl
  ]

  settle_paid-duplicate :
      (now id : ℕ) (db : Db)
      → is_paid id db ≡ true
      → settle_paid add_months now id db ≡ ok (duplicate add_months, db)
  unfolding settle_paid
  settle_paid-duplicate now id db h = elim (Option-cases (order_by_id id db)) [
    | inl missing ↦ let k = rw missing at h in cc
    | inr (order, found) ↦
        rw (found, settle_paid)
          (settle_order-paid add_months now order db (is_paid_status order.status (rw found at h)))
  ]

  -- After a settlement that moved an order to `paid`, and after whatever notifications and answers to
  -- queries are delivered on the tables that it left, another settlement of the order answers
  -- `duplicate_charge`, asks for review, grants nothing, and changes nothing that is stored.
  pub settle_paid-deliver_all :
      (provider : ℕ) (verify : ℕ → NotificationVerdict) (arrivals : List Arrival) (now later id : ℕ)
      (db db' : Db) {s : Settlement}
      → settle_paid add_months now id db ≡ ok (s, db')
      → s.became_paid ≡ true
      → let end_ = (deliver_all add_months provider verify arrivals db').1 in
        settle_paid add_months later id end_ ≡ ok (duplicate add_months, end_)
  settle_paid-deliver_all provider verify arrivals now later id db db' h became =
      settle_paid-duplicate later id (deliver_all add_months provider verify arrivals db').1 (
        (deliver_all-Settles add_months provider verify arrivals db').paid id
          (settle_paid-is_paid now id db db' h became))
