-- ===== src/Midtrans/Fulfilled.antt =====
-- From Midtrans's messages to orders that are paid: notifications, and answers to the queries of a
-- polling page and of the reconciliation.
use wedding_saas.Order.Kept.{is_paid}
use wedding_saas.Midtrans.Formats.{normalize-success, IsSuccess}
use wedding_saas.Midtrans.Signed.{verify_midtrans_payload-Signed_iff, IsSigned, event_of_it}
use wedding_saas.Payment.Arrivals.{deliver, notified, event_of, asked, Arrival}
use wedding_saas.Midtrans.Gateway.{
  big_int, object, Checked, MidtransPayload, says_404, matches_order_id, no_response,
  verify_midtrans_payload, response, FetchResult, query_status, not_an_object, Body,
}
use wedding_saas.Base.{
  ◌∙◌, ◌∷◌, false, refl, [], ◌≢◌, some_injective, sym, ap, leb, ◌||◌, inr, inl, ◌==◌, not,
  if◌then◌else◌, Bool-cases, none, ◌≡◌, some, Option, Bool, ℕ, List,
}
use wedding_saas.Payment.Once.{fulfilled-verified}
use wedding_saas.Payment.Webhook.{
  VerifiedPaymentEvent, NotificationVerdict, order_paid_email, invoice, valid, invalid,
}
use wedding_saas.Payment.Queries.{unknown_payment, unreachable, QueryAnswer, told}
use wedding_saas.Db.{Payment, Db}
use wedding_saas.Payment.Repository.{lock_by_reference}
use wedding_saas.Outcomes.{NotificationSource}

-- A notification that is posted, as in an arrival, or the response to a query about a reference.
pub data Message : Type 0 where
  posted : ℕ → ℕ → Bool → ℕ → ℕ → Message
  queried : NotificationSource → Bool → ℕ → ℕ → List ℕ → FetchResult → Message

module _ (sha512_hex : List ℕ → List ℕ) (name : List ℕ → ℕ) (server_key : List ℕ)
    (payload_of : ℕ → Body) (add_months : ℕ → ℕ → ℕ) (provider : ℕ) where
  abbrev pub verify_body : ℕ → NotificationVerdict
  verify_body body = verify_midtrans_payload sha512_hex name server_key (payload_of body)

  abbrev pub answer_arrival : NotificationSource → Bool → ℕ → ℕ → QueryAnswer → Option Arrival
  answer_arrival source force_review now row (told event) =
      some (asked source force_review now row event)
  answer_arrival source force_review now row _ = none

  abbrev pub arrival_of : Message → Option Arrival
  arrival_of (posted named body recorded now row) = some (notified named body recorded now row)
  arrival_of (queried source force_review now row reference r) =
      answer_arrival source force_review now row
        (query_status sha512_hex name server_key reference r)

  abbrev pub body_of : Message → Body
  body_of (posted named body recorded now row) = payload_of body
  body_of (queried source force_review now row reference no_response) = not_an_object
  body_of (queried source force_review now row reference (response http_status body)) = body

  abbrev answer_of : NotificationVerdict → List ℕ → QueryAnswer
  answer_of verdict reference = elim verdict [
    | invalid claimed ↦ unreachable
    | valid event ↦
        if not (event.provider_reference_id == name reference) then unreachable else told event
  ]

  verdict-valid :
      (verdict : NotificationVerdict) (reference : List ℕ) (event : VerifiedPaymentEvent)
      → answer_of verdict reference ≡ told event
      → verdict ≡ valid event
  verdict-valid (invalid claimed) reference event h = absurd cc
  verdict-valid (valid e) reference event h =
      elim (Bool-cases (e.provider_reference_id == name reference)) [
        | inl same ↦ let t : told e ≡ told event = rw same at h in cc
        | inr other ↦ let t : unreachable ≡ told event = rw other at h in absurd cc
      ]

  told-valid :
      (reference : List ℕ) (http_status : ℕ) (body : Body) (event : VerifiedPaymentEvent)
      → query_status sha512_hex name server_key reference (response http_status body) ≡ told event
      → verify_midtrans_payload sha512_hex name server_key body ≡ valid event
  unfolding query_status
  told-valid reference http_status body event h =
      elim (Bool-cases (not (matches_order_id reference) || leb 500 http_status)) [
        | inl bad ↦ let e : unreachable ≡ told event = rw (query_status, bad) at h in absurd cc
        | inr asked_ ↦ elim (Bool-cases ((http_status == 404) || says_404 body)) [
          | inl gone ↦
              let e : unknown_payment ≡ told event = rw (query_status, asked_, gone) at h in
              absurd cc
          | inr known ↦ elim (Bool-cases (http_status == 200)) [
            | inr odd ↦
                let e : unreachable ≡ told event = rw (query_status, asked_, known, odd) at h in
                absurd cc
            | inl fine ↦
                verdict-valid (verify_midtrans_payload sha512_hex name server_key body) reference
                  event (rw (query_status, asked_, known, fine) at h)
          ]
        ]
      ]

  posted-valid :
      (named body : ℕ) (recorded : Bool) (now row : ℕ) (event : VerifiedPaymentEvent)
      → event_of add_months provider verify_body (notified named body recorded now row) ≡ some event
      → verify_body body ≡ valid event
  posted-valid named body recorded now row event h = elim (Bool-cases (named == provider)) [
    | inr other ↦
        let e : ◌≡◌ {A = Option VerifiedPaymentEvent} none (some event) = rw other at h in absurd cc
    | inl ours ↦ carried (verify_body body) event (rw ours at h)
  ]
    where
      carried :
          (verdict : NotificationVerdict) (e : VerifiedPaymentEvent)
          → ◌≡◌ {A = Option VerifiedPaymentEvent}
              (elim verdict [ invalid claimed ↦ none | valid found ↦ some found ])
              (some e)
          → verdict ≡ valid e
      carried (invalid claimed) e k = absurd cc
      carried (valid found) e k = ap valid (some_injective k)

  answer_arrival-told :
      (source : NotificationSource) (force_review : Bool) (now row : ℕ) (answer : QueryAnswer)
      (a : Arrival) (event : VerifiedPaymentEvent)
      → answer_arrival source force_review now row answer ≡ some a
      → event_of add_months provider verify_body a ≡ some event
      → answer ≡ told event
  answer_arrival-told source force_review now row unreachable a event h k = absurd cc
  answer_arrival-told source force_review now row unknown_payment a event h k = absurd cc
  answer_arrival-told source force_review now row (told e) a event h k =
      ap told (some_injective (rw (sym (some_injective h)) at k))

  arrival_of-valid :
      (m : Message) (a : Arrival) (event : VerifiedPaymentEvent)
      → arrival_of m ≡ some a
      → event_of add_months provider verify_body a ≡ some event
      → verify_midtrans_payload sha512_hex name server_key (body_of m) ≡ valid event
  unfolding query_status
  arrival_of-valid (posted named body recorded now row) a event h k =
      posted-valid named body recorded now row event (rw (sym (some_injective h)) at k)
  arrival_of-valid (queried source force_review now row reference no_response) a event h k =
      absurd cc
  arrival_of-valid (queried source force_review now row reference (response http_status body)) a
        event h k =
      told-valid reference http_status body event (
        answer_arrival-told source force_review now row
          (query_status sha512_hex name server_key reference (response http_status body)) a event h
          k)

  body-Signed :
      (body : Body) (event : VerifiedPaymentEvent)
      → verify_midtrans_payload sha512_hex name server_key body ≡ valid event
      → (p : MidtransPayload) × (f : Checked) × (digits : List ℕ) × (body ≡ object p)
        × IsSigned sha512_hex name server_key p f digits event
  unfolding verify_midtrans_payload
  body-Signed not_an_object event h = absurd cc
  body-Signed (object p) event h =
      let (f, digits, signed) =
        (verify_midtrans_payload-Signed_iff sha512_hex name server_key p event).0 h in
      (p, f, digits, refl, signed)

  -- A message of Midtrans, posted or the response to a query, queues jobs only if its body is
  -- signed with the server key and tells of a success by the documented rule, of the amount of the
  -- payment that its order id names; then they are that payment's order's, which was not paid before.
  pub fulfilled-Signed :
      (m : Message) (a : Arrival) (db : Db)
      → arrival_of m ≡ some a
      → let r = deliver add_months provider verify_body a db in
        r.jobs ≢ []
        → (p : MidtransPayload) × (f : Checked) × (digits : List ℕ) × (event : VerifiedPaymentEvent)
          × (payment : Payment) × (body_of m ≡ object p)
          × IsSigned sha512_hex name server_key p f digits event
          × IsSuccess f
          × (lock_by_reference provider (name f.order_id) db ≡ some payment)
          × (big_int 0 digits ≡ payment.amount)
          × (is_paid payment.order_id db ≡ false)
          × (r.jobs ≡ order_paid_email payment.order_id ∷ invoice payment.order_id ∷ [])
  fulfilled-Signed m a db comes some_jobs =
      let (event, payment, carried, found, success, amount, before, after, jobs) =
        fulfilled-verified add_months provider verify_body a db some_jobs in
      let (p, f, digits, body, signed) =
        body-Signed (body_of m) event (arrival_of-valid m a event comes carried) in
      let same = event_of_it sha512_hex name f digits p event signed in
      (
        p,
        f,
        digits,
        event,
        payment,
        body,
        signed,
        normalize-success f (sym (ap (λ e. e.outcome) same) ∙ success),
        rw same at found,
        sym (ap (λ e. e.amount) same) ∙ amount,
        before,
        jobs,
      )
