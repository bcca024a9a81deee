-- ===== src/Order/Settlement.antt =====
-- `settlePaid`, `settleFailed`, `expireIfOverdue` and `expireOverdueOrders` of
-- backend/api/src/modules/order/order.service.ts.
use wedding_saas.Outcomes.{
  SettlementResult, applied, late_payment, duplicate_charge, refunded_order,
  applied_entitlement_skipped,
}
use wedding_saas.Errors.{is_invalid_transition, internal, AppError}
use wedding_saas.Status.Service.{transition_within}
use wedding_saas.Order.Repository.{
  overdue_order_ids, set_order_status, order_by_id, lock_overdue_order, apply_renewal,
}
use wedding_saas.Base.{
  ◌-◌, [], ◌+◌, length, ◌∷◌, not, thrown, if◌then◌else◌, some, ok, none, inr, inl, false, Outcome,
  List, ◌⊎◌, ℕ, true, String, Bool, Option,
}
use wedding_saas.Db.{same_order_status, renewal, new_publish, Db, Order, OrderStatus, OrderType, Tx}
use wedding_saas.Status.Rules.{same_status, system, InvitationStatus, Actor}

pub record Settlement : Type 0 where
  pub result : SettlementResult
  pub became_paid : Bool
  pub needs_review : Bool
  pub invitation_id : Option ℕ

abbrev pub system_actor : Actor
system_actor = record { kind = system; user_id = none }

abbrev pub is_late : SettlementResult → Bool
is_late late_payment = true
is_late _ = false

-- The `switch` on the order's status: the result of a settlement that goes on, or the answer.
abbrev pub opening : OrderStatus → SettlementResult ⊎ SettlementResult
opening OrderStatus.pending = inl applied
opening OrderStatus.expired = inl late_payment
opening OrderStatus.failed = inl late_payment
opening OrderStatus.paid = inr duplicate_charge
opening OrderStatus.refunded = inr refunded_order

abbrev pub settled : SettlementResult → Order → Settlement
settled result order = record {
  result = result;
  became_paid = true;
  needs_review = is_late result;
  invitation_id = some order.invitation_id;
}

abbrev pub skipped : Order → Settlement
skipped order = record {
  result = applied_entitlement_skipped;
  became_paid = true;
  needs_review = true;
  invitation_id = some order.invitation_id;
}

abbrev pub publish_reason : SettlementResult → String
publish_reason late_payment =
    "payment webhook: late payment confirmed after the order expired (review)"
publish_reason _ = "payment webhook confirmed"

abbrev pub renewal_reason : SettlementResult → String
renewal_reason late_payment = "payment webhook: late renewal payment confirmed (review)"
renewal_reason _ = "renewal payment confirmed"

-- `try { await this.status.transitionWithin(…) } catch`: an `INVALID_STATUS_TRANSITION` leaves the
-- tables as they were before the call, and the settlement goes on without the entitlement.
abbrev pub try_transition : Order → InvitationStatus → String → SettlementResult → Tx Settlement
try_transition order to reason result db =
    elim (transition_within order.invitation_id to system_actor (some reason) db) [
      | ok (r, db') ↦ ok (settled result order, db')
      | thrown e ↦ if is_invalid_transition e then ok (skipped order, db) else thrown e
    ]

module _ (add_months : ℕ → ℕ → ℕ) where
  -- What the order's type grants, once the order is paid.
  unfoldable pub grant : ℕ → OrderType → Order → SettlementResult → Tx Settlement
  grant now new_publish order result db =
      try_transition order InvitationStatus.paid (publish_reason result) result db
  grant now renewal order result db =
      elim (apply_renewal add_months now order.invitation_id order.package_id db) [
        | none ↦ ok (skipped order, db)
        | some (status, db') ↦
            if same_status status InvitationStatus.expired
            then try_transition order InvitationStatus.published (renewal_reason result) result db'
            else ok (settled result order, db')
      ]

  unfoldable pub settle_order : ℕ → Order → Tx Settlement
  settle_order now order db = elim (opening order.status) [
    | inr answer ↦ ok (
      record { result = answer; became_paid = false; needs_review = true; invitation_id = none },
      db,
    )
    | inl result ↦
        let (changed, db') = set_order_status order.id order.status OrderStatus.paid db in
        if changed then grant now order.order_type order result db' else thrown internal
  ]

  unfoldable pub settle_paid : ℕ → ℕ → Tx Settlement
  settle_paid now order_id db = elim (order_by_id order_id db) [
    | none ↦ thrown internal
    | some order ↦ settle_order now order db
  ]

-- The invitation of a new publication goes back to `draft`; a machine that does not allow it
-- leaves it where it is. Whether it went back.
unfoldable pub return_to_draft : OrderType → Order → String → Tx Bool
return_to_draft renewal order reason db = ok (false, db)
return_to_draft new_publish order reason db =
    elim (transition_within order.invitation_id InvitationStatus.draft system_actor (some reason)
      db) [
        | ok (r, db') ↦ ok (true, db')
        | thrown e ↦ if is_invalid_transition e then ok (false, db) else thrown e
      ]

unfoldable pub settle_failed : ℕ → Tx Bool
settle_failed order_id db = elim (order_by_id order_id db) [
  | none ↦ ok (false, db)
  | some order ↦
      if not (same_order_status order.status OrderStatus.pending)
      then ok (false, db)
      else elim (return_to_draft order.order_type order "payment webhook: payment failed"
          (set_order_status order.id OrderStatus.pending OrderStatus.failed db).1) [
            | thrown e ↦ thrown e
            | ok (returned, db') ↦ ok (true, db')
          ]
]

-- `null` is `none`; otherwise the status that the invitation went back to, if it did.
unfoldable pub expire_if_overdue : Bool → ℕ → ℕ → Tx (Option (Option InvitationStatus))
expire_if_overdue held now order_id db = elim (lock_overdue_order held order_id now db) [
  | none ↦ ok (none, db)
  | some order ↦
      elim (return_to_draft order.order_type order "order expired unpaid"
        (set_order_status order.id OrderStatus.pending OrderStatus.expired db).1) [
          | thrown e ↦ thrown e
          | ok (returned, db') ↦
              ok (some (if returned then some InvitationStatus.draft else none), db')
        ]
]

-- The sweep: each id in its own transaction, which commits before the next; an error ends the
-- sweep with what was committed. `held` says which rows other transactions hold meanwhile.
unfoldable pub sweep : (ℕ → Bool) → ℕ → List ℕ → ℕ → Db → Outcome AppError ℕ × Db
sweep held now [] expired db = (ok expired, db)
sweep held now (id ∷ ids) expired db = elim (expire_if_overdue (held id) now id db) [
  | thrown e ↦ (thrown e, db)
  | ok (none, db') ↦ sweep held now ids expired db'
  | ok (some back, db') ↦ sweep held now ids (expired + 1) db'
]

pub record SweepSummary : Type 0 where
  pub expired : ℕ
  pub skipped : ℕ

unfoldable pub expire_overdue_orders : (ℕ → Bool) → ℕ → ℕ → Db → Outcome AppError SweepSummary × Db
unfolding sweep
expire_overdue_orders held limit now db =
    let ids = overdue_order_ids limit now db in
    let (swept, db') = sweep held now ids 0 db in
    (
      elim swept [
        | thrown e ↦ thrown e
        | ok n ↦ ok (record { expired = n; skipped = length ids - n })
      ],
      db',
    )
