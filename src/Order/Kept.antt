-- ===== src/Order/Kept.antt =====
-- Orders that are paid stay paid, and no settlement touches a payment's row.
use wedding_saas.Status.Service.{transition_within}
use wedding_saas.Status.Frame.{transition_within-SameBut, SameBut}
use wedding_saas.Base.Table.{find-update_where}
use wedding_saas.Order.Settlement.{
  renewal_reason, publish_reason, grant, return_to_draft, system_actor, try_transition, Settlement,
  opening,
}
use wedding_saas.Status.Rules.{same_status, InvitationStatus}
use wedding_saas.Outcomes.{SettlementResult}
use wedding_saas.Order.Repository.{apply_renewal, in_status, order_by_id, set_order_status}
use wedding_saas.Db.{new_publish, renewal, OrderType, same_order_status, Db, OrderStatus, Order}
use wedding_saas.Base.{
  if◌then◌else◌, ◌∙◌, find, sym, ap, Option, Bool-cases, arith, inr, Outcome-cases, Option-cases,
  ok, ◌==◌, some, refl, none, inl, true, false, ◌≡◌, String, Bool, ℕ,
}
use mathlib.Core.Option

abbrev pub stands_paid : Option Order → Bool
stands_paid none = false
stands_paid (some o) = same_order_status o.status OrderStatus.paid

-- Whether the order that stands under an id is paid.
abbrev pub is_paid : ℕ → Db → Bool
is_paid id db = stands_paid (order_by_id id db)

apart_from_paid :
    (s from : OrderStatus)
    → same_order_status s OrderStatus.paid ≡ true
    → same_order_status from OrderStatus.paid ≡ false
    → same_order_status s from ≡ false
apart_from_paid OrderStatus.paid OrderStatus.paid h k = cc
apart_from_paid OrderStatus.paid _ h k = refl
apart_from_paid _ from h k = cc

set_order_status-is_paid :
    (id j : ℕ) (from to : OrderStatus) (db : Db)
    → same_order_status from OrderStatus.paid ≡ false
    → is_paid j db ≡ true
    → is_paid j (set_order_status id from to db).1 ≡ true
unfolding set_order_status
set_order_status-is_paid id j from to db unpaid h =
    let e =
      find-update_where {A = Order} (λ o. o.id == j) (in_status id from)
        (λ o. record o { status = to }) (λ o. refl) db.orders in
    ap stands_paid e ∙ still_paid (order_by_id j db) h
  where
    still_paid :
        (found : Option Order)
        → stands_paid found ≡ true
        → stands_paid
            (Option.map (λ o. if in_status id from o then record o { status = to } else o) found)
          ≡ true
    still_paid none k = cc
    still_paid (some o) k = ground (arith, apart_from_paid o.status from k unpaid)

pub unpaid_opening :
    (s : OrderStatus) {r : SettlementResult}
    → opening s ≡ inl r
    → same_order_status s OrderStatus.paid ≡ false
unpaid_opening OrderStatus.paid h = cc
unpaid_opening _ h = refl

same_db : {db db' : Db} → db ≡ db' → SameBut db db'
same_db {db} e = record {
  orders = sym (ap (λ d. d.orders) e);
  packages = sym (ap (λ d. d.packages) e);
  addons = sym (ap (λ d. d.addons) e);
  payments = sym (ap (λ d. d.payments) e);
  notifications = sym (ap (λ d. d.notifications) e);
}

trans-SameBut : {db db' db'' : Db} → SameBut db db' → SameBut db' db'' → SameBut db db''
trans-SameBut f g = record {
  orders = g.orders ∙ f.orders;
  packages = g.packages ∙ f.packages;
  addons = g.addons ∙ f.addons;
  payments = g.payments ∙ f.payments;
  notifications = g.notifications ∙ f.notifications;
}

try_transition-SameBut :
    (order : Order) (to : InvitationStatus) (reason : String) (result : SettlementResult)
    (db db' : Db) {s : Settlement}
    → try_transition order to reason result db ≡ ok (s, db')
    → SameBut db db'
try_transition-SameBut order to reason result db db' h =
    elim (Outcome-cases (transition_within order.invitation_id to system_actor (some reason) db)) [
      | inl (e, failed) ↦
          let k = rw (failed, try_transition) at h in
          let same : db ≡ db' = ground arith in same_db same
      | inr ((r, moved), done) ↦
          let k = rw (done, try_transition) at h in
          let same : moved ≡ db' = ground arith in
          rw (← same) (
            transition_within-SameBut order.invitation_id to system_actor (some reason) db moved
              done)
    ]

pub return_to_draft-SameBut :
    (type : OrderType) (order : Order) (reason : String) (db db' : Db) {b : Bool}
    → return_to_draft type order reason db ≡ ok (b, db')
    → SameBut db db'
unfolding return_to_draft
return_to_draft-SameBut renewal order reason db db' h =
    let same : db ≡ db' = ground arith in same_db same
return_to_draft-SameBut new_publish order reason db db' h =
    elim (Outcome-cases (
      transition_within order.invitation_id InvitationStatus.draft system_actor (some reason) db)) [
        | inl (e, failed) ↦
            let k = rw (failed, return_to_draft) at h in
            let same : db ≡ db' = ground arith in same_db same
        | inr ((r, moved), done) ↦
            let k = rw (done, return_to_draft) at h in
            let same : moved ≡ db' = ground arith in
            rw (← same) (
              transition_within-SameBut order.invitation_id InvitationStatus.draft system_actor
                (some reason) db moved done)
      ]

-- What settlements leave alone: the payments, the notifications, and an order that is paid.
pub record Keeps (db db' : Db) : Type 0 where
  pub payments : db'.payments ≡ db.payments
  pub notifications : db'.notifications ≡ db.notifications
  pub paid : (j : ℕ) → is_paid j db ≡ true → is_paid j db' ≡ true

-- A status update of an order that is not paid, and then changes elsewhere.
pub update-Keeps :
    (id : ℕ) (from to : OrderStatus) (db db' : Db)
    → same_order_status from OrderStatus.paid ≡ false
    → (db'.orders ≡ (set_order_status id from to db).1.orders)
      × (db'.payments ≡ db.payments)
      × (db'.notifications ≡ db.notifications)
    → Keeps db db'
update-Keeps id from to db db' unpaid (orders, payments, notifications) = record {
  payments = payments;
  notifications = notifications;
  paid = λ j h.
      ap (λ os. stands_paid (find (λ o. o.id == j) os)) orders
      ∙ set_order_status-is_paid id j from to db unpaid h;
}

pub same-Keeps : {db db' : Db} → db ≡ db' → Keeps db db'
same-Keeps {db} e = record {
  payments = sym (ap (λ d. d.payments) e);
  notifications = sym (ap (λ d. d.notifications) e);
  paid = λ j h. rw (← e) h;
}

apply_renewal-SameBut :
    (add_months : ℕ → ℕ → ℕ) (now invitation pkg_id : ℕ) (db db1 : Db) {status : InvitationStatus}
    → apply_renewal add_months now invitation pkg_id db ≡ some (status, db1)
    → SameBut db db1
unfolding apply_renewal
apply_renewal-SameBut add_months now invitation pkg_id db db1 h = record {
  orders = ground arith;
  packages = ground arith;
  addons = ground arith;
  payments = ground arith;
  notifications = ground arith;
}

pub grant-SameBut :
    (add_months : ℕ → ℕ → ℕ) (now : ℕ) (type : OrderType) (order : Order)
    (result : SettlementResult) (db db' : Db) {s : Settlement}
    → grant add_months now type order result db ≡ ok (s, db')
    → SameBut db db'
unfolding grant
grant-SameBut add_months now new_publish order result db db' h =
    try_transition-SameBut order InvitationStatus.paid (publish_reason result) result db db' h
grant-SameBut add_months now renewal order result db db' h =
    elim (Option-cases (apply_renewal add_months now order.invitation_id order.package_id db)) [
      | inl gone ↦
          let k = rw (gone, grant) at h in let same : db ≡ db' = ground arith in same_db same
      | inr ((status, db1), done) ↦
          let k = rw (done, grant) at h in
          let first =
            apply_renewal-SameBut add_months now order.invitation_id order.package_id db db1 done in
          elim (Bool-cases (same_status status InvitationStatus.expired)) [
            | inl over ↦ trans-SameBut first (
                try_transition-SameBut order InvitationStatus.published (renewal_reason result)
                  result db1 db' (rw over at k))
            | inr live ↦
                let k' = rw live at k in let same : db1 ≡ db' = ground arith in rw (← same) first
          ]
    ]
