-- ===== src/Order/Settled.antt =====
-- What settling an order stores.
use wedding_saas.Status.Frame.{transition_within-SameBut}
use wedding_saas.Status.Service.{transition_within}
use wedding_saas.Base.Table.{find-update_where}
use wedding_saas.Status.Rules.{same_status, InvitationStatus}
use wedding_saas.Order.Repository.{in_status, apply_renewal, order_by_id, set_order_status}
use wedding_saas.Order.Settlement.{
  opening, renewal_reason, settle_order, system_actor, publish_reason, try_transition, grant,
  Settlement,
}
use wedding_saas.Outcomes.{late_payment, applied, duplicate_charge, SettlementResult}
use wedding_saas.Db.{renewal, new_publish, same_order_status, Db, Order, OrderStatus, OrderType}
use wedding_saas.Base.{
  ◌≢◌, find, ap, ◌⊎◌, ==_iff, false, Bool-cases, find_sound, ◌∙◌, arith, ◌==◌, refl, Outcome-cases,
  Option-cases, ok, true, ◌≡◌, String, ℕ, none, some, inl, inr,
}

-- What the settlement of an order that was neither paid nor refunded is called: late, unless the
-- order still waited for its payment.
abbrev pub settlement_of : OrderStatus → SettlementResult
settlement_of OrderStatus.pending = applied
settlement_of _ = late_payment

pub opening-settlement_of :
    (s : OrderStatus)
    → s ≢ OrderStatus.paid
    → s ≢ OrderStatus.refunded
    → opening s ≡ inl (settlement_of s)
opening-settlement_of OrderStatus.pending p r = refl
opening-settlement_of OrderStatus.expired p r = refl
opening-settlement_of OrderStatus.failed p r = refl
opening-settlement_of OrderStatus.paid p r = absurd (p refl)
opening-settlement_of OrderStatus.refunded p r = absurd (r refl)

same_order_status_refl : (s : OrderStatus) → same_order_status s s ≡ true
same_order_status_refl OrderStatus.pending = refl
same_order_status_refl _ = refl

-- The order that was found has the new status.
pub order_by_id-set_order_status :
    (id : ℕ) (to : OrderStatus) (db : Db) (order : Order)
    → order_by_id id db ≡ some order
    → order_by_id id (set_order_status id order.status to db).1
      ≡ some (record order { status = to })
unfolding set_order_status
order_by_id-set_order_status id to db order found =
    find-update_where (λ o. o.id == id) (in_status id order.status) (λ o. record o { status = to })
      (λ o. refl) db.orders
    ∙ rw found (
        ground (
          arith,
          find_sound (λ o. o.id == id) db.orders order found,
          same_order_status_refl order.status,
        ))

try_transition-orders :
    (order : Order) (to : InvitationStatus) (reason : String) (result : SettlementResult)
    (db db' : Db) {s : Settlement}
    → try_transition order to reason result db ≡ ok (s, db')
    → (db'.orders ≡ db.orders) × (s.became_paid ≡ true)
try_transition-orders order to reason result db db' h =
    elim (Outcome-cases (transition_within order.invitation_id to system_actor (some reason) db)) [
      | inl (e, failed) ↦ let k = rw (failed, try_transition) at h in ground arith
      | inr ((r, moved), done) ↦
          let k = rw (done, try_transition) at h in
          let frame =
            transition_within-SameBut order.invitation_id to system_actor (some reason) db moved
              done in
          ground (arith, frame.orders)
    ]

module _ (add_months : ℕ → ℕ → ℕ) where
  apply_renewal-orders :
      (now invitation pkg_id : ℕ) (db db1 : Db) {status : InvitationStatus}
      → apply_renewal add_months now invitation pkg_id db ≡ some (status, db1)
      → db1.orders ≡ db.orders
  unfolding apply_renewal
  apply_renewal-orders now invitation pkg_id db db1 h = ground arith

  grant-orders :
      (now : ℕ) (type : OrderType) (order : Order) (result : SettlementResult) (db db' : Db)
      {s : Settlement}
      → grant add_months now type order result db ≡ ok (s, db')
      → (db'.orders ≡ db.orders) × (s.became_paid ≡ true)
  unfolding grant
  grant-orders now new_publish order result db db' h =
      try_transition-orders order InvitationStatus.paid (publish_reason result) result db db' h
  grant-orders now renewal order result db db' h =
      elim (Option-cases (apply_renewal add_months now order.invitation_id order.package_id db)) [
        | inl gone ↦ let k = rw (gone, grant) at h in ground arith
        | inr ((status, db1), done) ↦
            let k = rw (done, grant) at h in
            let kept = apply_renewal-orders now order.invitation_id order.package_id db db1 done in
            elim (Bool-cases (same_status status InvitationStatus.expired)) [
              | inl over ↦
                  let (same, became) =
                    try_transition-orders order InvitationStatus.published (renewal_reason result)
                      result db1 db' (rw over at k) in
                  (same ∙ kept, became)
              | inr live ↦ let k' = rw live at k in ground arith
            ]
      ]

  abbrev pub duplicate : Settlement
  duplicate = record {
    result = duplicate_charge;
    became_paid = false;
    needs_review = true;
    invitation_id = none;
  }

  pub settle_order-paid :
      (now : ℕ) (order : Order) (db : Db)
      → order.status ≡ OrderStatus.paid
      → settle_order add_months now order db ≡ ok (duplicate, db)
  unfolding settle_order
  settle_order-paid now order db h = ground arith

  -- An order that a settlement moved to `paid` is stored as `paid` afterwards.
  pub settle_order-stores :
      (now id : ℕ) (order : Order) (db db' : Db) {s : Settlement}
      → order_by_id id db ≡ some order
      → settle_order add_months now order db ≡ ok (s, db')
      → s.became_paid ≡ true
      → order_by_id id db' ≡ some (record order { status = OrderStatus.paid })
  unfolding settle_order
  settle_order-stores now id order db db' found h became = go (opening order.status) refl
    where
      same_id : order.id ≡ id
      same_id = (==_iff order.id id).0 (find_sound (λ o. o.id == id) db.orders order found)

      go :
          (o : SettlementResult ⊎ SettlementResult)
          → opening order.status ≡ o
          → order_by_id id db' ≡ some (record order { status = OrderStatus.paid })
      go (inr answer) e = let k = rw (e, settle_order) at h in ground arith
      go (inl result) e =
          let k = rw (e, settle_order) at h in
          let (changed, db1) = set_order_status order.id order.status OrderStatus.paid db in
          elim (Bool-cases changed) [
            | inl one ↦
                let granted = rw one at k in
                let kept = (grant-orders now order.order_type order result db1 db' granted).0 in
                ap (find (λ o. o.id == id)) kept
                ∙ ap (λ n. order_by_id id (set_order_status n order.status OrderStatus.paid db).1)
                    same_id
                ∙ order_by_id-set_order_status id OrderStatus.paid db order found
            | inr none_changed ↦ let k' = rw none_changed at k in ground arith
          ]
