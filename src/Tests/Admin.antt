-- ===== src/Tests/Admin.antt =====
-- A published invitation that was bought and renewed: two paid orders, of which one can be refunded.
use wedding_saas.Admin.Refund.{refund_within, refund_order, AdminDb}
use wedding_saas.Status.Service.{transition_within, change}
use wedding_saas.Status.Rules.{assert_allowed, rules_for, transitions, from_any, InvitationStatus}
use wedding_saas.Base.Text.{utf16_length, trim_end, trim_start}
use wedding_saas.Errors.{invalid_status_transition, business_rule}
use wedding_saas.Tests.Data.{created_only, order_of, invitation_in, db_with}
use wedding_saas.Db.{OrderStatus, OrderType, Order}
use wedding_saas.Base.{◌∷◌, refl, [], ltb, thrown, Bool, ◌≡◌, ℕ}
use wedding_saas.Admin.Refunded.{refunded_db}

abbrev purchase : Order
purchase = order_of OrderType.new_publish OrderStatus.paid

abbrev renewal_order : Order
renewal_order = record (order_of OrderType.renewal OrderStatus.paid) { id = 4 }

abbrev shop : AdminDb
shop = record {
  tables = record (db_with InvitationStatus.published purchase created_only) {
    orders = purchase ∷ renewal_order ∷ [];
  };
  audit = [];
}

-- Ids below 10 are well formed.
abbrev short_id : ℕ → Bool
short_id id = ltb id 10

abbrev shop_after : AdminDb
shop_after =
    refunded_db 8 2 shop purchase (invitation_in InvitationStatus.published) refl refl "on request"

-- The invitation is a draft by then: an order of its that is paid as well cannot be refunded.
second_refund :
    refund_order short_id 9 4 "another reason" shop_after
    ≡ thrown (business_rule invalid_status_transition)
unfolding refund_order utf16_length trim_end trim_start refund_within transition_within change
    assert_allowed rules_for transitions from_any
second_refund = refl
