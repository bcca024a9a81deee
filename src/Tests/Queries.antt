-- ===== src/Tests/Queries.antt =====
-- A page that polls a checkout of two minutes ago, and the daily reconciliation of the same payment.
use wedding_saas.Payment.StatusService.{first_shown, status}
use wedding_saas.Payment.Throttled.{status-asks_once, count_asked}
use wedding_saas.Payment.Reconciliation.{
  reconcile, insert_by_creation, reconcile_all, run_reconciliation, reconciliation_candidates,
  Progress,
}
use wedding_saas.Payment.Queries.{told, Query}
use wedding_saas.Payment.Polled.{poll, StatusRequest}
use wedding_saas.Db.{Payment, OrderStatus, PaymentStatus}
use wedding_saas.Order.Repository.{find_owned_order, set_order_status}
use wedding_saas.Payment.Webhook.{apply, apply_verified, process}
use wedding_saas.Payment.Repository.{
  complete_notification, record_notification, record_verified_outcome, flag_for_review,
}
use wedding_saas.Order.Settlement.{settle_order, settle_paid, grant}
use wedding_saas.Status.Service.{transition_within, change}
use wedding_saas.Status.Rules.{from_any, transitions, rules_for, assert_allowed}
use wedding_saas.Tests.Data.{add_months}
use wedding_saas.Base.{false, true, arith, ok, ◌≤◌, some, ◌∷◌, [], refl, ◌≡◌, ℕ}
use wedding_saas.Tests.Payment.{paying_db, verify, success_event}

abbrev settled_query : ℕ → Query
settled_query now = record { answer = told success_event; now = now; row = 30 }

abbrev request_at : ℕ → StatusRequest
request_at now = record {
  scope = 7;
  order_id = 2;
  now = now;
  cache = record { reads = true; writes = true };
  query = settled_query now;
  db = paying_db;
}

-- The page asks, and answers with what the provider said.
asked_once :
    let p = poll add_months 4 verify (request_at 131) [] in
    (p.asked ≡ some 77)
    × (p.throttle ≡ (77, 161) ∷ [])
    × (p.answer
        ≡ ok (record {
          order_status = OrderStatus.paid;
          payment_status = some PaymentStatus.success;
          paid_at = some 131;
        }))
unfolding status find_owned_order first_shown apply_verified process record_notification apply
    record_verified_outcome settle_paid settle_order set_order_status grant transition_within change
    assert_allowed rules_for transitions from_any complete_notification
asked_once = (refl, refl, refl)

-- Half a minute later it may ask again, and not before.
asked_again :
    (count_asked add_months 4 verify 77 (request_at 131 ∷ request_at 160 ∷ request_at 161 ∷ []) [])
    ≡ 2
unfolding count_asked status find_owned_order first_shown
asked_again = refl

-- With the cache out of reach, nothing holds the second back.
asked_twice :
    let request : ℕ → StatusRequest =
      λ now. record (request_at now) { cache = record { reads = false; writes = true } } in
    count_asked add_months 4 verify 77 (request 131 ∷ request 132 ∷ []) [] ≡ 2
unfolding count_asked status find_owned_order first_shown
asked_twice = refl

status-asks_once_example :
    count_asked add_months 4 verify 77 (request_at 131 ∷ request_at 160 ∷ []) [] ≤ 1
status-asks_once_example =
    status-asks_once add_months 4 verify 77 131 (request_at 131 ∷ request_at 160 ∷ []) [] (
      record { after = omega arith; before = omega arith; reads = refl; writes = refl },
      (record { after = omega arith; before = omega arith; reads = refl; writes = refl }, tt),
    )

abbrev run_of : Progress
run_of = run_reconciliation add_months 4 verify 10 48 1000 700 (λ p. settled_query 700) paying_db

run_recovers : run_of.summary ≡ record { checked = 1; recovered = 1; flagged = 1; errors = 0 }
unfolding run_reconciliation reconcile_all reconciliation_candidates insert_by_creation reconcile
    flag_for_review apply_verified process record_notification apply record_verified_outcome
    settle_paid settle_order set_order_status grant transition_within change assert_allowed
    rules_for transitions from_any complete_notification
run_recovers = refl

abbrev asked_then : Payment → Query
asked_then p = settled_query 700
