-- ===== src/Midtrans/Gateway.antt =====
-- backend/api/src/modules/payment/midtrans/midtrans.gateway.ts: the verification of what Midtrans
-- sends. A text is the list of its code units; SHA-512 in hexadecimal is an argument, and so is the
-- number that stands for a text in the tables. The requests themselves and the logs are left out.
use mathlib.Core.Option
use wedding_saas.Base.{
  ◌==◌, ◌-◌, ◌&&◌, zero, ◌||◌, ◌+◌, true, suc, not, leb, false, ◌++◌, ◌*◌, if◌then◌else◌, Bool,
  List, ℕ, String, Option, some, none, ◌∷◌, [],
}
use wedding_saas.Slug.Service.{units, same_units}
use wedding_saas.Outcomes.{PaymentOutcome}
use wedding_saas.Payment.Webhook.{NotificationVerdict, valid, invalid, VerifiedPaymentEvent}
use wedding_saas.Payment.Queries.{QueryAnswer, unreachable, unknown_payment, told}

-- A field of the body, as `typeof` tells it.
pub data Field : Type 0 where
  missing other_value : Field
  text : List ℕ → Field

abbrev pub text_of : Field → Option (List ℕ)
text_of (text t) = some t
text_of _ = none

pub record MidtransPayload : Type 0 where
  pub order_id : Field
  pub status_code : Field
  pub gross_amount : Field
  pub signature_key : Field
  pub transaction_status : Field
  pub fraud_status : Field
  pub payment_type : Field

pub data Body : Type 0 where
  not_an_object : Body
  object : MidtransPayload → Body

unfoldable pub is_digit : ℕ → Bool
is_digit c = leb 48 c && leb c 57

-- `[A-Za-z0-9\-_~.]`
unfoldable pub is_order_id_unit : ℕ → Bool
unfolding is_digit
is_order_id_unit c =
    (leb 65 c && leb c 90)
    || (leb 97 c && leb c 122)
    || is_digit c
    || (c == 45)
    || (c == 95)
    || (c == 126)
    || (c == 46)

abbrev pub at_most : ℕ → List ℕ → Bool
at_most n [] = true
at_most zero (c ∷ cs) = false
at_most (suc n) (c ∷ cs) = is_order_id_unit c && at_most n cs

-- `ORDER_ID`
abbrev pub matches_order_id : List ℕ → Bool
matches_order_id [] = false
matches_order_id (c ∷ cs) = is_order_id_unit c && at_most 49 cs

-- The rest of `GROSS_AMOUNT` after a digit: at most so many more, and `.00`. It gives the digits.
abbrev pub more_digits : ℕ → List ℕ → Option (List ℕ)
more_digits n [] = none
more_digits zero (c ∷ cs) = if same_units (c ∷ cs) (units ".00") then some [] else none
more_digits (suc n) (c ∷ cs) =
    let rest = more_digits n cs in
    if is_digit c
    then Option.map (λ ds. c ∷ ds) rest
    else if same_units (c ∷ cs) (units ".00")
    then some []
    else none

abbrev pub exec_gross_amount : List ℕ → Option (List ℕ)
exec_gross_amount [] = none
exec_gross_amount (c ∷ cs) =
    if is_digit c then Option.map (λ ds. c ∷ ds) (more_digits 14 cs) else none

-- `BigInt` of digits
abbrev pub big_int : ℕ → List ℕ → ℕ
big_int read [] = read
big_int read (c ∷ cs) = big_int (read * 10 + (c - 48)) cs

abbrev pub is_text : String → List ℕ → Bool
is_text s t = same_units t (units s)

abbrev pub after_fraud_check : List ℕ → Option (List ℕ) → PaymentOutcome
after_fraud_check status_code none =
    if is_text "200" status_code then PaymentOutcome.success else PaymentOutcome.ignored
after_fraud_check status_code (some fraud) =
    if is_text "deny" fraud
    then PaymentOutcome.failed
    else if is_text "challenge" fraud
    then PaymentOutcome.pending
    else if not (is_text "accept" fraud)
    then PaymentOutcome.ignored
    else if is_text "200" status_code
    then PaymentOutcome.success
    else PaymentOutcome.ignored

-- `normalizeMidtransStatus`
unfoldable pub normalize_midtrans_status : List ℕ → List ℕ → Option (List ℕ) → PaymentOutcome
normalize_midtrans_status transaction_status status_code fraud_status =
    if is_text "settlement" transaction_status || is_text "capture" transaction_status
    then after_fraud_check status_code fraud_status
    else if is_text "pending" transaction_status
    then PaymentOutcome.pending
    else if is_text "deny" transaction_status
        || is_text "cancel" transaction_status
        || is_text "expire" transaction_status
        || is_text "failure" transaction_status
    then PaymentOutcome.failed
    else PaymentOutcome.ignored

-- The fields of a body that is not malformed
pub record Checked : Type 0 where
  pub order_id : List ℕ
  pub status_code : List ℕ
  pub gross_amount : List ℕ
  pub signature : List ℕ
  pub transaction_status : List ℕ
  pub fraud_status : Option (List ℕ)

-- The first guard of `verifyMidtransPayload`
abbrev pub check_fields : Field → Field → Field → Field → Field → Field → Option Checked
check_fields (text o) (text s) (text g) (text k) (text t) other_value = none
check_fields (text o) (text s) (text g) (text k) (text t) fraud =
    if matches_order_id o
    then some (record {
      order_id = o;
      status_code = s;
      gross_amount = g;
      signature = k;
      transaction_status = t;
      fraud_status = text_of fraud;
    })
    else none
check_fields _ _ _ _ _ _ = none

-- What `fetch` gives: it throws, or a status and the body that `parseJson` makes of the text.
pub data FetchResult : Type 0 where
  no_response : FetchResult
  response : ℕ → Body → FetchResult

abbrev pub says_404 : Body → Bool
says_404 not_an_object = false
says_404 (object p) = elim (text_of p.status_code) [ none ↦ false | some t ↦ is_text "404" t ]

module _ (sha512_hex : List ℕ → List ℕ) (name : List ℕ → ℕ) where
  -- `midtransSignature`
  abbrev pub midtrans_signature : List ℕ → List ℕ → List ℕ → List ℕ → List ℕ
  midtrans_signature order_id status_code gross_amount server_key =
      sha512_hex (order_id ++ status_code ++ gross_amount ++ server_key)

  abbrev pub claimed_reference : MidtransPayload → Option ℕ
  claimed_reference p = Option.map name (text_of p.order_id)

  abbrev pub verified_event : Checked → List ℕ → Field → VerifiedPaymentEvent
  verified_event f digits payment_type = record {
    provider_reference_id = name f.order_id;
    outcome = normalize_midtrans_status f.transaction_status f.status_code f.fraud_status;
    amount = big_int 0 digits;
    method = Option.map name (text_of payment_type);
  }

  -- `verifyMidtransPayload`. The digest is in ASCII, where two texts are equal when their bytes are.
  unfoldable pub verify_midtrans_payload : List ℕ → Body → NotificationVerdict
  verify_midtrans_payload server_key not_an_object = invalid none
  verify_midtrans_payload server_key (object p) =
      elim (check_fields p.order_id p.status_code p.gross_amount p.signature_key
        p.transaction_status p.fraud_status) [
          | none ↦ invalid (claimed_reference p)
          | some f ↦
              if not (
                same_units f.signature
                  (midtrans_signature f.order_id f.status_code f.gross_amount server_key))
              then invalid (claimed_reference p)
              else elim (exec_gross_amount f.gross_amount) [
                | none ↦ invalid (claimed_reference p)
                | some digits ↦ valid (verified_event f digits p.payment_type)
              ]
        ]

  -- `queryStatus`
  unfoldable pub query_status : List ℕ → List ℕ → FetchResult → QueryAnswer
  query_status server_key reference no_response = unreachable
  query_status server_key reference (response http_status body) =
      if not (matches_order_id reference) || leb 500 http_status
      then unreachable
      else if (http_status == 404) || says_404 body
      then unknown_payment
      else if not (http_status == 200)
      then unreachable
      else elim (verify_midtrans_payload server_key body) [
        | invalid claimed ↦ unreachable
        | valid event ↦
            if not (event.provider_reference_id == name reference) then unreachable else told event
      ]
