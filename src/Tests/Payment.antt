-- ===== src/Tests/Payment.antt =====
-- A checkout that is paid twice: two notifications of one success, and a forged one between.
use wedding_saas.Payment.Again.{settle_paid-deliver_all}
use wedding_saas.Order.Settled.{duplicate}
use wedding_saas.Status.Laws.{changed}
use wedding_saas.Order.Settlement.{system_actor, settled, grant, settle_order, settle_paid}
use wedding_saas.Outcomes.{applied, PaymentOutcome, query}
use wedding_saas.Status.Rules.{InvitationStatus, from_any, transitions, rules_for, assert_allowed}
use wedding_saas.Db.{OrderStatus, new_publish, PaymentStatus, Payment, Db}
use wedding_saas.Tests.Data.{order_of, add_months, draft_db}
use wedding_saas.Base.{
  ok, ◌≢◌, refl, false, ◌≤◌, ◌==◌, some, ◌≡◌, true, none, if◌then◌else◌, count_if, [], ◌∷◌, ℕ, List,
}
use wedding_saas.Status.Service.{change, transition_within}
use wedding_saas.Order.Repository.{set_order_status}
use wedding_saas.Order.Kept.{is_paid}
use wedding_saas.Payment.Repository.{
  complete_notification, record_verified_outcome, record_notification, lock_by_reference,
}
use wedding_saas.Payment.Once.{
  fulfilled-verified, fulfilled_once, invoices, emails, deliver_all-Settles,
}
use wedding_saas.Payment.Webhook.{
  invoice, order_paid_email, invalid, apply, valid, process, apply_verified, handle,
  NotificationVerdict, VerifiedPaymentEvent,
}
use wedding_saas.Payment.Kept.{Settles}
use wedding_saas.Payment.Arrivals.{asked, notified, event_of, deliver, deliver_all, Arrival}

abbrev pub attempt_row : Payment
attempt_row = record {
  id = 11;
  order_id = 2;
  provider = 4;
  provider_reference_id = 77;
  amount = 124000;
  status = PaymentStatus.pending;
  method = none;
  checkout = none;
  verified_at = none;
  created_at = 10;
}

abbrev pub paying_db : Db
paying_db = record draft_db { payments = attempt_row ∷ [] }

abbrev pub success_event : VerifiedPaymentEvent
success_event = record {
  provider_reference_id = 77;
  outcome = PaymentOutcome.success;
  amount = 124000;
  method = some 1;
}

-- The body 1 is the provider's; every other one is forged.
abbrev pub verify : ℕ → NotificationVerdict
verify body = if body == 1 then valid success_event else invalid (some 77)

abbrev first_delivery : Arrival
first_delivery = notified 4 1 true 100 20

abbrev deliveries : List Arrival
deliveries =
    notified 4 6 true 90 19
    ∷ first_delivery
    ∷ asked query false 110 21 success_event
    ∷ notified 4 1 true 120 22
    ∷ []

deliveries_once :
    (deliver_all add_months 4 verify deliveries paying_db).0 ≡ order_paid_email 2 ∷ invoice 2 ∷ []
unfolding deliver_all deliver handle apply_verified process apply record_notification
    record_verified_outcome settle_paid settle_order grant set_order_status transition_within change
    assert_allowed rules_for transitions from_any complete_notification
deliveries_once = refl

fulfilled_once_example :
    let jobs = (deliver_all add_months 4 verify deliveries paying_db).0 in
    (count_if (emails 2) jobs ≤ 1) × (count_if (invoices 2) jobs ≤ 1)
fulfilled_once_example = fulfilled_once add_months 4 verify deliveries paying_db 2

deliver_all-Settles_example :
    Settles paying_db (deliver_all add_months 4 verify deliveries paying_db).1
deliver_all-Settles_example = deliver_all-Settles add_months 4 verify deliveries paying_db

first_delivery_jobs : (deliver add_months 4 verify first_delivery paying_db).jobs ≢ []
unfolding deliver_all deliver handle apply_verified process apply record_notification
    record_verified_outcome settle_paid settle_order grant set_order_status transition_within change
    assert_allowed rules_for transitions from_any complete_notification
first_delivery_jobs h = cc

fulfilled-verified_example :
    (event : VerifiedPaymentEvent) × (p : Payment) × (event_of add_months 4 verify first_delivery
      ≡ some event)
    × (lock_by_reference 4 event.provider_reference_id paying_db ≡ some p)
    × (event.outcome ≡ PaymentOutcome.success)
    × (event.amount ≡ p.amount)
    × (is_paid p.order_id paying_db ≡ false)
    × (is_paid p.order_id (deliver add_months 4 verify first_delivery paying_db).db ≡ true)
    × ((deliver add_months 4 verify first_delivery paying_db).jobs
        ≡ order_paid_email p.order_id ∷ invoice p.order_id ∷ [])
fulfilled-verified_example =
    fulfilled-verified add_months 4 verify first_delivery paying_db first_delivery_jobs

-- The tables after a first settlement
abbrev settled_db : Db
settled_db =
    changed 1 InvitationStatus.draft InvitationStatus.paid system_actor
      (some "payment webhook confirmed")
      (set_order_status 2 OrderStatus.pending OrderStatus.paid paying_db).1

settle_paid-deliver_all_example :
    let end_ = (deliver_all add_months 4 verify deliveries settled_db).1 in
    settle_paid add_months 200 2 end_ ≡ ok (duplicate add_months, end_)
unfolding settle_paid settle_order grant transition_within change assert_allowed rules_for
    transitions from_any set_order_status
settle_paid-deliver_all_example =
    settle_paid-deliver_all add_months 4 verify deliveries 100 200 2 paying_db settled_db
      {s = settled applied (order_of new_publish OrderStatus.pending)} refl refl
