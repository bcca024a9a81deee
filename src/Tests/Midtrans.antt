-- ===== src/Tests/Midtrans.antt =====
-- A settlement that Midtrans posts, with a digest that leaves its text as it is.
use wedding_saas.Order.Kept.{is_paid}
use wedding_saas.Midtrans.Formats.{IsSuccess}
use wedding_saas.Db.{Payment}
use wedding_saas.Midtrans.Fulfilled.{posted, fulfilled-Signed, verify_body}
use wedding_saas.Tests.Data.{add_months}
use wedding_saas.Payment.Arrivals.{notified, Arrival, deliver}
use wedding_saas.Midtrans.Gateway.{
  big_int, Body, is_order_id_unit, normalize_midtrans_status, Checked, object, MidtransPayload,
  verify_midtrans_payload, text, missing,
}
use wedding_saas.Midtrans.Signed.{verify_midtrans_payload-Signed_iff, IsSigned}
use wedding_saas.Slug.Service.{same_units, units}
use wedding_saas.Outcomes.{PaymentOutcome}
use wedding_saas.Tests.Payment.{paying_db}
use wedding_saas.Base.{◌∷◌, false, [], ◌≢◌, true, ◌↔◌, refl, ◌≡◌, some, if◌then◌else◌, ℕ, List}
use wedding_saas.Order.Repository.{set_order_status}
use wedding_saas.Payment.Webhook.{
  invoice, order_paid_email, valid, VerifiedPaymentEvent, apply, apply_verified, process, handle,
}
use wedding_saas.Payment.Repository.{
  lock_by_reference, complete_notification, record_notification, record_verified_outcome,
}
use wedding_saas.Order.Settlement.{settle_order, settle_paid, grant}
use wedding_saas.Status.Service.{transition_within, change}
use wedding_saas.Status.Rules.{from_any, transitions, rules_for, assert_allowed}

abbrev plain : List ℕ → List ℕ
plain t = t

abbrev name : List ℕ → ℕ
name t = if same_units t (units "R-77") then 77 else 0

abbrev key : List ℕ
key = units "SB-key"

abbrev settlement : List ℕ → MidtransPayload
settlement status = record {
  order_id = text (units "R-77");
  status_code = text (units "200");
  gross_amount = text (units "124000.00");
  signature_key = text (units "R-77200124000.00SB-key");
  transaction_status = text status;
  fraud_status = missing;
  payment_type = text (units "qris");
}

abbrev settled_event : VerifiedPaymentEvent
settled_event = record {
  provider_reference_id = 77;
  outcome = PaymentOutcome.success;
  amount = 124000;
  method = some 0;
}

verifies :
    verify_midtrans_payload plain name key (object (settlement (units "settlement")))
    ≡ valid settled_event
unfolding verify_midtrans_payload units is_order_id_unit normalize_midtrans_status
verifies = refl

-- The signature does not cover the status word: another one verifies with it.
refunded_verifies :
    verify_midtrans_payload plain name key (object (settlement (units "refund")))
    ≡ valid (record settled_event { outcome = PaymentOutcome.ignored })
unfolding verify_midtrans_payload units is_order_id_unit normalize_midtrans_status
refunded_verifies = refl

verify_midtrans_payload-Signed_iff_example :
    (verify_midtrans_payload plain name key (object (settlement (units "settlement")))
      ≡ valid settled_event)
    ↔ ((f : Checked) × (digits : List ℕ) × IsSigned plain name key
          (settlement (units "settlement"))
          f
          digits
          settled_event)
verify_midtrans_payload-Signed_iff_example =
    verify_midtrans_payload-Signed_iff plain name key (settlement (units "settlement"))
      settled_event

abbrev payload_of : ℕ → Body
payload_of body = object (settlement (units "settlement"))

abbrev settling : Arrival
settling = notified 4 1 true 100 20

settling_jobs :
    (deliver add_months 4
      (verify_body plain name key payload_of add_months 4)
      settling
      paying_db).jobs
    ≢ []
unfolding deliver handle apply_verified process apply record_notification record_verified_outcome
    settle_paid settle_order grant set_order_status transition_within change assert_allowed
    rules_for transitions from_any complete_notification verify_midtrans_payload units
    is_order_id_unit normalize_midtrans_status
settling_jobs h = cc

fulfilled-Signed_example :
    let r =
      deliver add_months 4
        (verify_body plain name key payload_of add_months 4)
        settling
        paying_db in
    (p : MidtransPayload) × (f : Checked) × (digits : List ℕ) × (event : VerifiedPaymentEvent)
    × (payment : Payment) × (object (settlement (units "settlement")) ≡ object p)
    × IsSigned plain name key p f digits event
    × IsSuccess f
    × (lock_by_reference 4 (name f.order_id) paying_db ≡ some payment)
    × (big_int 0 digits ≡ payment.amount)
    × (is_paid payment.order_id paying_db ≡ false)
    × (r.jobs ≡ order_paid_email payment.order_id ∷ invoice payment.order_id ∷ [])
fulfilled-Signed_example =
    fulfilled-Signed plain name key payload_of add_months 4 (posted 4 1 true 100 20) settling
      paying_db refl settling_jobs
