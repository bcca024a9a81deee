-- ===== src/Midtrans/Signed.antt =====
-- What stands behind a notification that verifies, and behind an order that is paid by one.
use wedding_saas.Slug.Service.{same_units}
use mathlib.Core.Option
use wedding_saas.Midtrans.Rule.{outcome_rule, outcome_rule-normalize, decimal, big_int-decimal}
use wedding_saas.Outcomes.{PaymentOutcome}
use wedding_saas.Payment.Webhook.{invalid, valid, VerifiedPaymentEvent}
use wedding_saas.Midtrans.Formats.{
  exec_gross_amount-IsAmount, exec_gross_amount_read, same_units_iff, IsAmount,
  matches_order_id-IsOrderId, IsOrderId,
}
use wedding_saas.Base.{
  ◌∙◌, Option-cases, ◌↔◌, some_injective, refl, ◌++◌, inr, inl, Option, Bool-cases, ℕ, List, ◌⊎◌,
  none, ◌≡◌, some,
}
use mathlib.Core.Path.{sym, ap}
use wedding_saas.Midtrans.Gateway.{
  big_int, normalize_midtrans_status, text_of, exec_gross_amount, midtrans_signature,
  verified_event, object, matches_order_id, verify_midtrans_payload, MidtransPayload, check_fields,
  Checked, Field, text, missing, other_value,
}

-- The fields of a body that is not malformed are texts, but the fraud status may be absent.
pub record HasFields (o s g k t fraud : Field) (f : Checked) : Type 0 where
  pub order_id : o ≡ text f.order_id
  pub status_code : s ≡ text f.status_code
  pub gross_amount : g ≡ text f.gross_amount
  pub signature_key : k ≡ text f.signature
  pub transaction_status : t ≡ text f.transaction_status
  pub fraud_status :
      ((fraud ≡ missing) × (f.fraud_status ≡ none))
      ⊎ ((w : List ℕ) × (fraud ≡ text w) × (f.fraud_status ≡ some w))
  pub reference : IsOrderId f.order_id

abbrev checked_of : List ℕ → List ℕ → List ℕ → List ℕ → List ℕ → Option (List ℕ) → Checked
checked_of o s g k t fraud = record {
  order_id = o;
  status_code = s;
  gross_amount = g;
  signature = k;
  transaction_status = t;
  fraud_status = fraud;
}

check_fields-HasFields :
    (o s g k t fraud : Field) (f : Checked)
    → check_fields o s g k t fraud ≡ some f
    → HasFields o s g k t fraud f
check_fields-HasFields missing s g k t fraud f h = absurd cc
check_fields-HasFields other_value s g k t fraud f h = absurd cc
check_fields-HasFields (text o) missing g k t fraud f h = absurd cc
check_fields-HasFields (text o) other_value g k t fraud f h = absurd cc
check_fields-HasFields (text o) (text s) missing k t fraud f h = absurd cc
check_fields-HasFields (text o) (text s) other_value k t fraud f h = absurd cc
check_fields-HasFields (text o) (text s) (text g) missing t fraud f h = absurd cc
check_fields-HasFields (text o) (text s) (text g) other_value t fraud f h = absurd cc
check_fields-HasFields (text o) (text s) (text g) (text k) missing fraud f h = absurd cc
check_fields-HasFields (text o) (text s) (text g) (text k) other_value fraud f h = absurd cc
check_fields-HasFields (text o) (text s) (text g) (text k) (text t) other_value f h = absurd cc
check_fields-HasFields (text o) (text s) (text g) (text k) (text t) missing f h =
    elim (Bool-cases (matches_order_id o)) [
      | inr bad ↦ let e : ◌≡◌ {A = Option Checked} none (some f) = rw bad at h in absurd cc
      | inl good ↦
          let e : f ≡ checked_of o s g k t (none) = sym (some_injective (rw good at h)) in
          rw e (record {
            order_id = refl;
            status_code = refl;
            gross_amount = refl;
            signature_key = refl;
            transaction_status = refl;
            fraud_status = inl (refl, refl);
            reference = (matches_order_id-IsOrderId o).0 good;
          })
    ]
check_fields-HasFields (text o) (text s) (text g) (text k) (text t) (text w) f h =
    elim (Bool-cases (matches_order_id o)) [
      | inr bad ↦ let e : ◌≡◌ {A = Option Checked} none (some f) = rw bad at h in absurd cc
      | inl good ↦
          let e : f ≡ checked_of o s g k t (some w) = sym (some_injective (rw good at h)) in
          rw e (record {
            order_id = refl;
            status_code = refl;
            gross_amount = refl;
            signature_key = refl;
            transaction_status = refl;
            fraud_status = inr (w, refl, refl);
            reference = (matches_order_id-IsOrderId o).0 good;
          })
    ]

check_fields_of :
    (o s g k t fraud : Field) (f : Checked)
    → HasFields o s g k t fraud f
    → check_fields o s g k t fraud ≡ some f
check_fields_of o s g k t fraud f h =
    let good = (matches_order_id-IsOrderId f.order_id).1 h.reference in
    elim h.fraud_status [
      | inl (absent, none_) ↦
          rw
            (
              h.order_id, h.status_code, h.gross_amount, h.signature_key, h.transaction_status,
              absent, good,
            )
            (ap some (rw none_ refl))
      | inr (w, present, some_) ↦
          rw
            (
              h.order_id, h.status_code, h.gross_amount, h.signature_key, h.transaction_status,
              present, good,
            )
            (ap some (rw some_ refl))
    ]

invalid_never :
    {claimed : Option ℕ} (event : VerifiedPaymentEvent) → ¬ (invalid claimed ≡ valid event)
invalid_never event h = cc

valid_injective : (a b : VerifiedPaymentEvent) → valid a ≡ valid b → b ≡ a
valid_injective a b h = cc

-- An event by its fields
event-fields :
    (e : VerifiedPaymentEvent) (reference : ℕ) (outcome : PaymentOutcome) (amount : ℕ)
    (method : Option ℕ)
    → e.provider_reference_id ≡ reference
    → e.outcome ≡ outcome
    → e.amount ≡ amount
    → e.method ≡ method
    → e ≡ record {
      provider_reference_id = reference;
      outcome = outcome;
      amount = amount;
      method = method;
    }
event-fields e reference outcome amount method h1 h2 h3 h4 =
    rw (sym h1, sym h2, sym h3, sym h4) refl

module _ (sha512_hex : List ℕ → List ℕ) (name : List ℕ → ℕ) where
  -- The method that the payment type names, if it is a text
  abbrev pub method_name : Field → Option ℕ
  method_name (text t) = some (name t)
  method_name _ = none

  method_name-text_of : (field : Field) → Option.map name (text_of field) ≡ method_name field
  method_name-text_of (text t) = refl
  method_name-text_of _ = refl

  -- A body that is signed with the key, and the event that it tells of.
  pub record IsSigned (server_key : List ℕ) (p : MidtransPayload) (f : Checked) (digits : List ℕ)
      (event : VerifiedPaymentEvent) : Type 0 where
    pub fields :
        HasFields p.order_id p.status_code p.gross_amount p.signature_key p.transaction_status
          p.fraud_status f
    pub signed :
        f.signature ≡ sha512_hex (f.order_id ++ f.status_code ++ f.gross_amount ++ server_key)
    pub amount : IsAmount digits f.gross_amount
    pub reference : event.provider_reference_id ≡ name f.order_id
    pub outcome : event.outcome ≡ outcome_rule f.transaction_status f.status_code f.fraud_status
    pub value : event.amount ≡ decimal 0 digits
    pub method : event.method ≡ method_name p.payment_type

  verify-Signed :
      (server_key : List ℕ) (p : MidtransPayload) (event : VerifiedPaymentEvent)
      → verify_midtrans_payload sha512_hex name server_key (object p) ≡ valid event
      → (f : Checked) × (digits : List ℕ) × IsSigned server_key p f digits event
  unfolding verify_midtrans_payload
  verify-Signed server_key p event h =
      elim (Option-cases (
        check_fields p.order_id p.status_code p.gross_amount p.signature_key p.transaction_status
          p.fraud_status)) [
            | inl malformed ↦
                absurd (invalid_never event (rw (verify_midtrans_payload, malformed) at h))
            | inr (f, whole) ↦
                elim (Bool-cases (
                  same_units f.signature (
                    midtrans_signature sha512_hex name f.order_id f.status_code f.gross_amount
                      server_key))) [
                        | inr forged ↦
                            absurd (
                              invalid_never event
                                (rw (verify_midtrans_payload, whole, forged) at h))
                        | inl same ↦ elim (Option-cases (exec_gross_amount f.gross_amount)) [
                          | inl odd ↦ absurd (
                              invalid_never event
                                (rw (verify_midtrans_payload, whole, same, odd) at h))
                          | inr (digits, read) ↦
                              let told =
                                valid_injective
                                  (verified_event sha512_hex name f digits p.payment_type) event
                                  (rw (verify_midtrans_payload, whole, same, read) at h) in
                              (
                                f,
                                digits,
                                record {
                                  fields =
                                      check_fields-HasFields p.order_id p.status_code p.gross_amount
                                        p.signature_key p.transaction_status p.fraud_status f whole;
                                  signed =
                                      (same_units_iff f.signature (
                                          midtrans_signature sha512_hex name f.order_id
                                            f.status_code f.gross_amount server_key)).0
                                        same;
                                  amount = exec_gross_amount-IsAmount f.gross_amount digits read;
                                  reference = ap (λ e. e.provider_reference_id) told;
                                  outcome =
                                      ap (λ e. e.outcome) told
                                      ∙ outcome_rule-normalize f.transaction_status f.status_code
                                          f.fraud_status;
                                  value = ap (λ e. e.amount) told ∙ big_int-decimal 0 digits;
                                  method =
                                      ap (λ e. e.method) told ∙ method_name-text_of p.payment_type;
                                },
                              )
                        ]
                      ]
          ]

  pub event_of_it :
      {server_key : List ℕ} (f : Checked) (digits : List ℕ) (p : MidtransPayload)
      (event : VerifiedPaymentEvent)
      → IsSigned server_key p f digits event
      → event ≡ verified_event sha512_hex name f digits p.payment_type
  event_of_it f digits p event h =
      event-fields event (name f.order_id)
        (normalize_midtrans_status f.transaction_status f.status_code f.fraud_status)
        (big_int 0 digits) (Option.map name (text_of p.payment_type)) h.reference
        (h.outcome ∙ sym (outcome_rule-normalize f.transaction_status f.status_code f.fraud_status))
        (h.value ∙ sym (big_int-decimal 0 digits))
        (h.method ∙ sym (method_name-text_of p.payment_type))

  -- A body that is an object passes the verification, as an event, exactly when its fields are texts,
  -- but the fraud status may be absent, its order id has 1 to 50 permitted characters, its signature
  -- is the digest of the order id, the status code, the gross amount and the server key one after the
  -- other, and its gross amount is 1 to 15 digits and `.00`; the event then has that order id, that
  -- amount, the outcome that the words of the statuses stand for, and the payment type for its method.
  pub verify_midtrans_payload-Signed_iff :
      (server_key : List ℕ) (p : MidtransPayload) (event : VerifiedPaymentEvent)
      → (verify_midtrans_payload sha512_hex name server_key (object p) ≡ valid event)
        ↔ ((f : Checked) × (digits : List ℕ) × IsSigned server_key p f digits event)
  unfolding verify_midtrans_payload
  verify_midtrans_payload-Signed_iff server_key p event = (
    verify-Signed server_key p event,
    λ (f, digits, h).
        let whole =
          check_fields_of p.order_id p.status_code p.gross_amount p.signature_key
            p.transaction_status p.fraud_status f h.fields in
        let same =
          (same_units_iff f.signature (
              midtrans_signature sha512_hex name f.order_id f.status_code f.gross_amount
                server_key)).1
            h.signed in
        rw
          (
            verify_midtrans_payload,
            whole,
            same,
            exec_gross_amount_read f.gross_amount digits h.amount,
          )
          (ap valid (sym (event_of_it f digits p event h))),
  )
