-- ===== src/Admin/Refund.antt =====
-- `refundOrder` of backend/api/src/modules/admin/admin-orders.service.ts, with a cache and a queue.
-- The form of a UUID is a parameter. An order's row is locked, then its invitation's.
use wedding_saas.Status.Service.{transition_within, invitation_by_id}
use wedding_saas.Order.Repository.{order_by_id}
use wedding_saas.Base.Text.{trim, utf16_length}
use wedding_saas.Errors.{validation, order_not_paid, conflict, not_found, AppError}
use wedding_saas.Status.Rules.{same_status, admin, InvitationStatus, Actor}
use wedding_saas.Publishing.Publish.{enqueue_invalidation, invalidate_cache, Effect}
use wedding_saas.Base.Table.{update_where}
use Prim.Native.String
use wedding_saas.Base.{
  ◌++◌, ◌>>=◌, ◌∷◌, none, ltb, ok, thrown, some, not, ◌==◌, if◌then◌else◌, [], Outcome, Bool, ℕ,
  String, Option, List,
}
use wedding_saas.Db.{same_order_status, OrderStatus, Invitation, Order, Db}

-- The row of `audit_logs`, without the states' constant words
pub record AuditLog : Type 0 where
  pub admin_id : ℕ
  pub action : String
  pub resource_id : ℕ
  pub reason : String
  pub invitation_status_before : InvitationStatus
  pub amount_total_before : ℕ

pub record RefundResult : Type 0 where
  pub order_id : ℕ
  pub invitation_id : ℕ
  pub invitation_slug : Option String
  pub previous_invitation_status : InvitationStatus

-- The tables with the audit log
pub record AdminDb : Type 0 where
  pub tables : Db
  pub audit : List AuditLog

abbrev pub by_admin : ℕ → Actor
by_admin id = record { kind = admin; user_id = some id }

-- `UPDATE orders SET status = 'refunded' WHERE id = …`
abbrev pub demote_order : ℕ → Db → Db
demote_order id db = record db {
  orders =
      update_where (λ o. o.id == id) (λ o. record o { status = OrderStatus.refunded }) db.orders;
}

abbrev pub refund_reason : String → String
refund_reason reason = String.◌++◌ "admin refund: " reason

abbrev pub refund_log : ℕ → String → Order → Invitation → AuditLog
refund_log admin_id reason o i = record {
  admin_id = admin_id;
  action = "order.refund";
  resource_id = o.id;
  reason = reason;
  invitation_status_before = i.status;
  amount_total_before = o.amount_total;
}

abbrev pub refund_result : Order → Invitation → RefundResult
refund_result o i = record {
  order_id = o.id;
  invitation_id = i.id;
  invitation_slug = i.slug;
  previous_invitation_status = i.status;
}

abbrev pub existing {ℓ} : {A : Type ℓ} → Option A → Outcome AppError A
existing none = thrown not_found
existing (some a) = ok a

abbrev pub assert_paid : Order → Outcome AppError (Unit {0})
assert_paid o =
    if same_order_status o.status OrderStatus.paid
    then ok tt
    else thrown (conflict order_not_paid none)

-- The transaction's callback
unfoldable pub refund_within : ℕ → ℕ → String → AdminDb → Outcome AppError (RefundResult × AdminDb)
refund_within admin_id id reason s = do
  o ← existing (order_by_id id s.tables)
  is_paid ← assert_paid o
  i ← existing (invitation_by_id o.invitation_id s.tables)
  moved ←
      transition_within i.id InvitationStatus.draft (by_admin admin_id)
        (some (refund_reason reason)) (demote_order id s.tables)
  ok (
    refund_result o i,
    record { tables = moved.1; audit = s.audit ++ refund_log admin_id reason o i ∷ [] },
  )

-- After the commit
abbrev pub invalidations : Option String → ℕ → List Effect
invalidations none id = []
invalidations (some String.[]) id = []
invalidations (some slug) id = invalidate_cache slug id ∷ enqueue_invalidation slug id ∷ []

abbrev pub refund_effects : RefundResult → List Effect
refund_effects r =
    if same_status r.previous_invitation_status InvitationStatus.published
    then invalidations r.invitation_slug r.invitation_id
    else []

module _ (is_uuid : ℕ → Bool) where
  -- `refundOrder`
  unfoldable pub refund_order :
      ℕ → ℕ → String → AdminDb → Outcome AppError (RefundResult × List Effect × AdminDb)
  refund_order admin_id id reason s =
      if not (is_uuid id)
      then thrown not_found
      else if ltb (utf16_length (trim reason)) 5
      then thrown (validation [])
      else do
        result ← refund_within admin_id id (trim reason) s
        ok (result.0, refund_effects result.0, result.1)
