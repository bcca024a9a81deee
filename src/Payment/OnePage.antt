-- ===== src/Payment/OnePage.antt =====
-- One payment page at a time: an order has at most one pending payment with a provider.
use wedding_saas.Payment.Pages.{
  count-keep, count_if-update_where_drop, newest-counted, newest-none, newest-holds,
  mark_initiation_failed-pages, store_checkout-pages, pages, keep-none, OnePage,
}
use wedding_saas.Order.Repository.{find_owned_order}
use wedding_saas.Order.Checkout.{with_payable_order}
use wedding_saas.Payment.Initiation.{
  other_error, new_page, reuse, provider_error, created, carry_out, is_recent, initiate, conclude,
  GatewayAnswer, insert_pending, pending_row, new_attempt, is_pageless, is_pending_of, plan_payment,
  newest, mark_initiation_failed, InitiationPlan,
}
use wedding_saas.Base.{
  leb, Outcome-cases, ==_refl, All-keep_of, Bool-cases, inr, count_if-append, inl, arith,
  Option-cases, ◌<◌, some, ok, none, ◌≡◌, keep, Bool, ℕ, true, List, [], ◌∷◌,
}
use wedding_saas.Db.{OrderStatus, same_order_status, Db, Payment, PaymentStatus, Order, Tx}

module _ (provider now id reference : ℕ) where
  new_attempt-OnePage :
      (order : Order) (db : Db) (r : (InitiationPlan × ℕ) × Db)
      → OnePage db
      → pages order.id provider db ≡ 0
      → new_attempt provider now id reference order db ≡ ok r
      → OnePage r.1
  new_attempt-OnePage order db r one empty h order_id other =
      let row = pending_row id order.id provider reference order.amount_total now in
      let same : insert_pending row db ≡ r.1 = cc in
      rw (← same) (
        rw (count_if-append (is_pending_of order_id other) db.payments (row ∷ []))
          (elim (Bool-cases (is_pending_of order_id other row)) [
            | inr elsewhere ↦ rw elsewhere (omega (arith, one order_id other))
            | inl here ↦
                let own : order.id ≡ order_id = ground arith in
                let with_ : provider ≡ other = ground arith in
                let zero_ : pages order_id other db ≡ 0 = rw (own, with_) at empty in
                rw here (omega (arith, zero_))
          ]))

  given_up :
      (order : Order) (db : Db) (p : Payment)
      → OnePage db
      → newest (keep (is_pending_of order.id provider) db.payments) ≡ some p
      → p.checkout ≡ none
      → pages order.id provider (mark_initiation_failed p.id db) ≡ 0
  unfolding mark_initiation_failed
  given_up order db p one last pageless =
      let q = is_pending_of order.id provider in
      let waits : q p ≡ true =
        newest-holds q (keep q db.payments) p (All-keep_of q db.payments) last in
      let shut : is_pageless p.id p ≡ true = ground (arith, ==_refl p.id, pageless, waits) in
      let seen = newest-counted (is_pageless p.id) (keep q db.payments) p last shut in
      let less =
        count_if-update_where_drop q (is_pageless p.id)
          (λ x. record x { status = PaymentStatus.failed }) (λ x a. ground arith) db.payments
          (rw (count-keep q (is_pageless p.id) db.payments) at seen) in
      omega (arith, less, one order.id provider)

  plan_payment-OnePage :
      (order : Order) (db : Db) (r : (InitiationPlan × ℕ) × Db)
      → OnePage db
      → plan_payment provider now id reference order db ≡ ok r
      → OnePage r.1
  unfolding plan_payment
  plan_payment-OnePage order db r one h =
      let waiting = keep (is_pending_of order.id provider) db.payments in
      elim (Option-cases (newest waiting)) [
        | inl empty ↦
            let k = rw (empty, plan_payment) at h in
            let nothing =
              keep-none (is_pending_of order.id provider) db.payments (newest-none waiting empty) in
            new_attempt-OnePage order db r one nothing k
        | inr (p, last) ↦
            let k = rw (last, plan_payment) at h in
            elim (Option-cases p.checkout) [
              | inr (page, shown) ↦
                  let l = rw shown at k in let same : db ≡ r.1 = cc in rw (← same) one
              | inl pageless ↦
                  let l = rw pageless at k in
                  elim (Bool-cases (is_recent now p)) [
                    | inl recent ↦ let m = rw recent at l in cc
                    | inr old ↦
                        let m = rw old at l in
                        new_attempt-OnePage order (mark_initiation_failed p.id db) r
                          (λ order_id other. omega (
                            arith,
                            one order_id other,
                            mark_initiation_failed-pages order_id other p.id db,
                          ))
                          (given_up order db p one last pageless) m
                  ]
            ]
      ]

conclude-OnePage :
    (id expires_at : ℕ) (answer : GatewayAnswer) (db : Db)
    → OnePage db
    → OnePage (conclude id expires_at answer db).1
unfolding conclude
conclude-OnePage id expires_at (created page) db one order_id provider =
    omega (arith, one order_id provider, store_checkout-pages order_id provider id page db)
conclude-OnePage id expires_at provider_error db one order_id provider =
    omega (arith, one order_id provider, mark_initiation_failed-pages order_id provider id db)
conclude-OnePage id expires_at other_error db one order_id provider =
    omega (arith, one order_id provider, mark_initiation_failed-pages order_id provider id db)

carry_out-OnePage :
    (between : Db → Db) (answer : GatewayAnswer) (plan : InitiationPlan × ℕ) (db : Db)
    → ((d : Db) → OnePage d → OnePage (between d))
    → OnePage db
    → OnePage (carry_out between answer plan db).1
carry_out-OnePage between answer (reuse page, expires_at) db keeps one = one
carry_out-OnePage between answer (new_page id reference amount, expires_at) db keeps one =
    conclude-OnePage id expires_at answer (between db) (keeps db one)

module _ (digest : ℕ → ℕ → List ℕ → ℕ) (key_digest : ℕ → ℕ → ℕ) (is_uuid : ℕ → Bool)
    (provider : ℕ) where
  -- A payment is planned only for an order of the caller's that is pending and not over.
  with_payable_order-payable :
      {R : Type 0} (scope order_id now : ℕ) (work : Order → Tx R) (db : Db) (r : R × Db)
      → with_payable_order digest key_digest is_uuid scope order_id now work db ≡ ok r
      → (order : Order) × (find_owned_order order_id scope db ≡ some order)
        × (same_order_status order.status OrderStatus.pending ≡ true)
        × (now < order.expired_at)
        × (work order db ≡ ok r)
  unfolding with_payable_order
  with_payable_order-payable scope order_id now work db r h = elim (Bool-cases (is_uuid order_id)) [
    | inr malformed ↦ let k = rw (malformed, with_payable_order) at h in cc
    | inl known ↦
        let k = rw (known, with_payable_order) at h in
        elim (Option-cases (find_owned_order order_id scope db)) [
          | inl missing ↦ let l = rw missing at k in cc
          | inr (order, found) ↦
              let l = rw found at k in
              elim (Bool-cases (same_order_status order.status OrderStatus.pending)) [
                | inr settled ↦ let m = rw settled at l in cc
                | inl waits ↦
                    let m = rw waits at l in
                    elim (Bool-cases (leb order.expired_at now)) [
                      | inl over ↦ let n = rw over at m in cc
                      | inr open_ ↦ (order, found, waits, ground arith, rw open_ at m)
                    ]
              ]
        ]
  ]

  -- An initiation keeps at most one pending payment for an order and a provider, whatever the
  -- provider answers, if what other requests do meanwhile keeps it too.
  pub initiate-OnePage :
      (scope order_id now id reference : ℕ) (between : Db → Db) (answer : GatewayAnswer) (db : Db)
      → ((d : Db) → OnePage d → OnePage (between d))
      → OnePage db
      → OnePage
          (initiate digest key_digest is_uuid provider scope order_id now id reference between
            answer db).1
  unfolding initiate
  initiate-OnePage scope order_id now id reference between answer db keeps one =
      elim (Outcome-cases (
        with_payable_order digest key_digest is_uuid scope order_id now
          (plan_payment provider now id reference) db)) [
            | inl (why, refused) ↦ rw (refused, initiate) one
            | inr ((plan, db1), planned) ↦
                let (order, found, waits, open_, work) =
                  with_payable_order-payable scope order_id now
                    (plan_payment provider now id reference) db (plan, db1) planned in
                rw (planned, initiate)
                  (carry_out-OnePage between answer plan db1 keeps
                    (plan_payment-OnePage provider now id reference order db (plan, db1) one work))
          ]
