-- ===== src/Order/Repository.antt =====
-- backend/api/src/shared/tenancy/order-repository.ts: the queries on orders, with the database
-- clock `now` in seconds. Calendar arithmetic on months is Postgres's, a parameter.
use wedding_saas.Status.Service.{invitation_by_id}
use wedding_saas.Base.Table.{update_where}
use wedding_saas.Base.{
  none, some, Option, map, ◌++◌, leb, keep, is_none, any, ◌*◌, ◌&&◌, take, max, if◌then◌else◌, find,
  false, [], ◌∷◌, ◌==◌, ◌+◌, count_if, ℕ, List, Bool,
}
use wedding_saas.Status.Rules.{InvitationStatus}
use mathlib.Core.Option
use wedding_saas.Db.{
  wib_day, same_order_status, OrderType, Invitation, Db, Order, OrderStatus, pending,
}

-- `lockForSettlement`
abbrev pub order_by_id : ℕ → Db → Option Order
order_by_id id db = find (λ o. o.id == id) db.orders

-- `findOwnedOrder`
unfoldable pub find_owned_order : ℕ → ℕ → Db → Option Order
find_owned_order id scope db = find (λ o. (o.id == id) && (o.user_id == scope)) db.orders

abbrev pub is_pending_for : ℕ → Order → Bool
is_pending_for invitation o = (o.invitation_id == invitation) && same_order_status o.status pending

-- What `withLockedInvitation` reads under the lock of the invitation's row.
pub record LockedCheckout : Type 0 where
  pub invitation_status : InvitationStatus
  pub pending_order : Option Order
  pub pending_overdue : Bool

abbrev overdue_at : ℕ → Option Order → Bool
overdue_at now none = false
overdue_at now (some o) = leb o.expired_at now

abbrev pub owned_by : ℕ → ℕ → Invitation → Bool
owned_by id scope i = (i.id == id) && (i.owner_id == scope) && is_none i.deleted_at

unfoldable pub locked_invitation : ℕ → ℕ → ℕ → Db → Option LockedCheckout
locked_invitation id scope now db =
    Option.map
      (λ i.
        let waiting = find (is_pending_for id) db.orders in
        record {
          invitation_status = i.status;
          pending_order = waiting;
          pending_overdue = overdue_at now waiting;
        })
      (find (owned_by id scope) db.invitations)

pub record NewOrder : Type 0 where
  pub invitation_id : ℕ
  pub package_id : ℕ
  pub addon_ids : List ℕ
  pub amount_total : ℕ
  pub order_type : OrderType
  pub payment_window_hours : ℕ

abbrev pub new_row : ℕ → ℕ → ℕ → NewOrder → Order
new_row id scope now o = record {
  id = id;
  invitation_id = o.invitation_id;
  user_id = scope;
  package_id = o.package_id;
  addon_ids = o.addon_ids;
  amount_total = o.amount_total;
  status = pending;
  order_type = o.order_type;
  expired_at = now + o.payment_window_hours * 3600;
  created_at = now;
}

-- `insertPendingOrder`; `none` is "conflict", the refusal of the partial unique index on the
-- pending orders of an invitation. `id` is the id that the database generates.
unfoldable pub insert_pending_order : ℕ → ℕ → ℕ → NewOrder → Db → Option (Order × Db)
insert_pending_order id scope now o db =
    if any (is_pending_for o.invitation_id) db.orders
    then none
    else some
        (new_row id scope now o, record db { orders = db.orders ++ new_row id scope now o ∷ [] })

-- `lockOverdueOrder`; `held` says whether another transaction holds the row.
unfoldable pub lock_overdue_order : Bool → ℕ → ℕ → Db → Option Order
lock_overdue_order held id now db =
    if held
    then none
    else find (λ o. (o.id == id) && same_order_status o.status pending && leb o.expired_at now)
        db.orders

abbrev pub in_status : ℕ → OrderStatus → Order → Bool
in_status id from o = (o.id == id) && same_order_status o.status from

-- `setOrderStatus`: whether exactly one row changed, and the table after
unfoldable pub set_order_status : ℕ → OrderStatus → OrderStatus → Db → Bool × Db
set_order_status id from to db = (
  count_if (in_status id from) db.orders == 1,
  record db { orders = update_where (in_status id from) (λ o. record o { status = to }) db.orders },
)

-- `overdueOrderIds`: the pending orders past their deadline, oldest deadline first. The order of
-- rows with one deadline is the database's.
insert_by_deadline : Order → List Order → List Order
insert_by_deadline o [] = o ∷ []
insert_by_deadline o (p ∷ ps) =
    if leb o.expired_at p.expired_at then o ∷ p ∷ ps else p ∷ insert_by_deadline o ps

by_deadline : List Order → List Order
by_deadline [] = []
by_deadline (o ∷ os) = insert_by_deadline o (by_deadline os)

unfoldable pub overdue_order_ids : ℕ → ℕ → Db → List ℕ
unfolding insert_by_deadline by_deadline
overdue_order_ids limit now db =
    map (λ o. o.id)
      (take limit (
        by_deadline
          (keep (λ o. same_order_status o.status pending && leb o.expired_at now) db.orders)))

module _ (add_months : ℕ → ℕ → ℕ) where
  abbrev pub later_expiry : ℕ → ℕ → Option ℕ → ℕ
  later_expiry now months none = add_months (max (wib_day now) (wib_day now)) months
  later_expiry now months (some expiry) = add_months (max expiry (wib_day now)) months

  abbrev pub extend_expiry : ℕ → ℕ → ℕ → Db → Db
  extend_expiry now invitation months db = record db {
    invitations =
        update_where (λ i. i.id == invitation)
          (λ i. record i { expiry_date = some (later_expiry now months i.expiry_date) })
          db.invitations;
  }

  -- `applyRenewal`: the invitation's status before, and the tables after
  unfoldable pub apply_renewal : ℕ → ℕ → ℕ → Db → Option (InvitationStatus × Db)
  apply_renewal now invitation pkg_id db = elim (find (λ p. p.id == pkg_id) db.packages) [
    | none ↦ none
    | some pkg ↦ elim (invitation_by_id invitation db) [
      | none ↦ none
      | some i ↦ some (i.status, extend_expiry now invitation pkg.duration_months db)
    ]
  ]
