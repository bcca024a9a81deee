-- ===== src/Order/Fulfilled.antt =====
-- A settlement moves an order to `paid` at most once, and never away from it.
use wedding_saas.Order.Settled.{settle_order-stores}
use wedding_saas.Outcomes.{SettlementResult}
use wedding_saas.Order.Repository.{order_by_id, set_order_status}
use wedding_saas.Db.{same_order_status, OrderStatus, Order, Db}
use wedding_saas.Base.{
  ◌∙◌, refl, ap, Outcome-cases, Bool-cases, inr, ◌⊎◌, arith, some, inl, Option-cases, false, true,
  ok, ◌≡◌, Bool, ℕ,
}
use wedding_saas.Order.Settlement.{
  return_to_draft, opening, Settlement, settle_order, settle_paid, settle_failed,
}
use wedding_saas.Order.Kept.{
  stands_paid, return_to_draft-SameBut, update-Keeps, grant-SameBut, unpaid_opening, same-Keeps,
  is_paid, Keeps,
}

pub settle_failed-Keeps :
    (id : ℕ) (db db' : Db) {b : Bool} → settle_failed id db ≡ ok (b, db') → Keeps db db'
unfolding settle_failed
settle_failed-Keeps id db db' h = elim (Option-cases (order_by_id id db)) [
  | inl missing ↦
      let k = rw (missing, settle_failed) at h in
      let same : db ≡ db' = ground arith in same-Keeps same
  | inr (order, found) ↦
      let k = rw (found, settle_failed) at h in
      elim (Bool-cases (same_order_status order.status OrderStatus.pending)) [
        | inl waits ↦
            let k' = rw waits at k in
            elim (Outcome-cases (
              return_to_draft order.order_type order "payment webhook: payment failed"
                (failed_db order))) [
                  | inl (e, threw) ↦ let l = rw threw at k' in cc
                  | inr ((returned, db''), done) ↦
                      let l = rw done at k' in
                      let same : db'' ≡ db' = ground arith in
                      let frame =
                        return_to_draft-SameBut order.order_type order
                          "payment webhook: payment failed" (failed_db order) db'' done in
                      rw (← same) (
                        update-Keeps order.id OrderStatus.pending OrderStatus.failed db db'' refl (
                          unfold set_order_status in
                          (frame.orders, frame.payments, frame.notifications)))
                ]
        | inr other ↦
            let k' = rw other at k in let same : db ≡ db' = ground arith in same-Keeps same
      ]
]
  where
    failed_db : Order → Db
    failed_db order = (set_order_status order.id OrderStatus.pending OrderStatus.failed db).1

pub settle_paid-Keeps :
    (add_months : ℕ → ℕ → ℕ) (now id : ℕ) (db db' : Db) {s : Settlement}
    → settle_paid add_months now id db ≡ ok (s, db')
    → Keeps db db' × (s.became_paid ≡ true → (is_paid id db ≡ false) × (is_paid id db' ≡ true))
unfolding settle_paid settle_order
settle_paid-Keeps add_months now id db db' h = elim (Option-cases (order_by_id id db)) [
  | inl missing ↦ let k = rw (missing, settle_paid) at h in cc
  | inr (order, found) ↦ settled_order order found (rw (found, settle_paid) at h)
]
  where
    settled_order :
        (order : Order) {s' : Settlement}
        → order_by_id id db ≡ some order
        → settle_order add_months now order db ≡ ok (s', db')
        → Keeps db db' × (s'.became_paid ≡ true → (is_paid id db ≡ false) × (is_paid id db' ≡ true))
    settled_order order {s'} found k = go (opening order.status) refl
      where
        paid_db : Db
        paid_db = (set_order_status order.id order.status OrderStatus.paid db).1

        go :
            (o : SettlementResult ⊎ SettlementResult)
            → opening order.status ≡ o
            → Keeps db db'
              × (s'.became_paid ≡ true → (is_paid id db ≡ false) × (is_paid id db' ≡ true))
        go (inr answer) e =
            let l = rw (e, settle_order) at k in
            let same : db ≡ db' = ground arith in (same-Keeps same, λ became. absurd (ground arith))
        go (inl result) e =
            let l = rw (e, settle_order) at k in
            let unpaid = unpaid_opening order.status e in
            elim (Bool-cases (set_order_status order.id order.status OrderStatus.paid db).0) [
              | inl one ↦
                  let frame =
                    grant-SameBut add_months now order.order_type order result paid_db db'
                      (rw one at l) in
                  (
                    update-Keeps order.id order.status OrderStatus.paid db db' unpaid (
                        unfold set_order_status in
                        (frame.orders, frame.payments, frame.notifications)),
                    λ became. (
                      ap stands_paid found ∙ unpaid,
                      ap stands_paid
                          (settle_order-stores add_months now id order db db' found k became),
                    ),
                  )
              | inr none_changed ↦ let l' = rw none_changed at l in cc
            ]
