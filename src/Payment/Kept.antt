-- ===== src/Payment/Kept.antt =====
-- What one notification leaves: orders that are paid and payments that succeeded.
use wedding_saas.Payment.Webhook.{finish, Finished, note_method}
use wedding_saas.Outcomes.{WebhookResult, PaymentOutcome}
use wedding_saas.Base.Table.{update_where}
use wedding_saas.Order.Kept.{stands_paid, is_paid, Keeps}
use wedding_saas.Db.{PaymentStatus, Payment, Db}
use wedding_saas.Base.{
  if◌then◌else◌, find, ok, false, some, [], arith, ◌∷◌, ◌∙◌, ◌&&◌, true, ap, List, ◌≡◌, ◌==◌, any,
  Option, Bool, ℕ,
}
use wedding_saas.Payment.Repository.{
  record_method, complete_notification, is_unsuccessful, verified, record_verified_outcome,
  same_payment_status,
}

abbrev pub holds_success : ℕ → Payment → Bool
holds_success id p = (p.id == id) && same_payment_status p.status PaymentStatus.success

-- Whether a payment's row holds a success.
abbrev pub is_successful : ℕ → Db → Bool
is_successful id db = any (holds_success id) db.payments

any-update_where :
    (id : ℕ) (q : Payment → Bool) (f : Payment → Payment)
    → ((p : Payment) → holds_success id p ≡ true → holds_success id (if q p then f p else p) ≡ true)
    → (ps : List Payment) → any (holds_success id) ps ≡ true
    → any (holds_success id) (update_where q f ps) ≡ true
any-update_where id q f h [] e = cc
any-update_where id q f h (p ∷ ps) e = ground (arith, h p, any-update_where id q f h ps)

-- What no notification undoes: an order that is paid, and a payment that succeeded.
pub record Settles (db db' : Db) : Type 0 where
  pub paid : (j : ℕ) → is_paid j db ≡ true → is_paid j db' ≡ true
  pub successful : (k : ℕ) → is_successful k db ≡ true → is_successful k db' ≡ true

pub trans-Settles : {a b c : Db} → Settles a b → Settles b c → Settles a c
trans-Settles f g = record {
  paid = λ j h. g.paid j (f.paid j h);
  successful = λ k h. g.successful k (f.successful k h);
}

pub Keeps-Settles : {db db' : Db} → Keeps db db' → Settles db db'
Keeps-Settles k = record {
  paid = k.paid;
  successful = λ j h. ap (any (holds_success j)) k.payments ∙ h;
}

pub record_verified_outcome-Settles :
    (now id : ℕ) (status : PaymentStatus) (method : Option ℕ) (db : Db)
    → Settles db (record_verified_outcome now id status method db).1
unfolding record_verified_outcome
record_verified_outcome-Settles now id status method db = record {
  paid = λ j h. h;
  successful = λ k h.
      any-update_where k (is_unsuccessful id) (verified now status method) (λ p g. ground arith)
        db.payments h;
}

pub note_method-Settles :
    (event_method method : Option ℕ) (id : ℕ) (db : Db)
    → Settles db (note_method event_method method id db)
unfolding record_method
note_method-Settles (some m) Option.none id db = record {
  paid = λ j h. h;
  successful = λ k h.
      any-update_where k (λ p. p.id == id) (λ p. record p { method = some m }) (λ p g. ground arith)
        db.payments h;
}
note_method-Settles Option.none method id db = record { paid = λ j h. h; successful = λ k h. h }
note_method-Settles (some m) (some n) id db = record { paid = λ j h. h; successful = λ k h. h }

pub stays : {db : Db} → Settles db db
stays = record { paid = λ j h. h; successful = λ k h. h }

abbrev pub Paying : Payment → PaymentOutcome → Db → Finished → Db → Type 0
Paying payment outcome db f db' =
    f.became_paid ≡ true
    → (outcome ≡ PaymentOutcome.success)
      × (f.order_id ≡ some payment.order_id)
      × (is_paid payment.order_id db ≡ false)
      × (is_paid payment.order_id db' ≡ true)

-- What `finish` adds to what was done before it.
pub untouched-Settles :
    {db db' : Db} → db'.orders ≡ db.orders → db'.payments ≡ db.payments → Settles db db'
untouched-Settles orders payments = record {
  paid = λ j k. ap (λ os. stands_paid (find (λ o. o.id == j) os)) orders ∙ k;
  successful = λ k l. ap (any (holds_success k)) payments ∙ l;
}

pub finish-Settles :
    (n : ℕ) (payment : Payment) (result : WebhookResult) (review became : Bool) (db db' : Db)
    {f : Finished}
    → finish n payment result review became db ≡ ok (f, db')
    → Settles db db'
      × (f.became_paid ≡ became)
      × (f.order_id ≡ some payment.order_id)
      × ((j : ℕ) → is_paid j db' ≡ is_paid j db)
unfolding complete_notification
finish-Settles n payment result review became db db' h =
    let orders : db'.orders ≡ db.orders = ground arith in
    let payments : db'.payments ≡ db.payments = ground arith in
    let same : (j : ℕ) → is_paid j db' ≡ is_paid j db =
      λ j. ap (λ os. stands_paid (find (λ o. o.id == j) os)) orders in
    (
      record {
        paid = λ j k. same j ∙ k;
        successful = λ k l. ap (any (holds_success k)) payments ∙ l;
      },
      ground arith,
      ground arith,
      same,
    )

-- A branch that does not settle.
pub finish-Paying :
    (n : ℕ) (payment : Payment) (outcome : PaymentOutcome) (result : WebhookResult) (review : Bool)
    (db db1 db' : Db) {f : Finished}
    → Settles db db1
    → finish n payment result review false db1 ≡ ok (f, db')
    → Settles db db' × Paying payment outcome db f db'
finish-Paying n payment outcome result review db db1 db' s h =
    let (t, never, id, same) = finish-Settles n payment result review false db1 db' h in
    (trans-Settles s t, λ became. absurd (ground arith))
