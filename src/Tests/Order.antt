-- ===== src/Tests/Order.antt =====
-- Settlements of an order for a first publication and of a renewal.
use wedding_saas.Status.Rules.{InvitationStatus}
use wedding_saas.Order.Repository.{order_by_id}
use wedding_saas.Status.Service.{invitation_by_id}
use wedding_saas.Base.{refl, some, ok, ◌≡◌}
use wedding_saas.Order.Settlement.{settle_paid, Settlement}
use wedding_saas.Db.{OrderStatus, renewal, new_publish, Order, Db}
use wedding_saas.Tests.Data.{basic, invitation_in, order_of, db_with, created_only, add_months}
use wedding_saas.Order.Granted.{Granted}
use wedding_saas.Order.Renewed.{renewal_of, settle_paid-renews}

abbrev publish_order : Order
publish_order = order_of new_publish OrderStatus.pending

abbrev renewal_order : Order
renewal_order = order_of renewal OrderStatus.expired

abbrev expired_db : Db
expired_db = db_with InvitationStatus.expired renewal_order created_only

settle_paid-renews_example :
    (db' : Db) × (settle_paid add_months 100000 2 expired_db
      ≡ ok (renewal_of add_months 100000 renewal_order, db'))
    × (order_by_id 2 db' ≡ some (record renewal_order { status = OrderStatus.paid }))
    × (invitation_by_id 1 db'
        ≡ some (record (invitation_in InvitationStatus.expired) {
          status = InvitationStatus.published;
          expiry_date = some (add_months 1 6);
        }))
settle_paid-renews_example =
    settle_paid-renews add_months 100000 expired_db renewal_order
      (invitation_in InvitationStatus.expired) basic refl refl refl refl refl (λ e. cc) (λ e. cc)
