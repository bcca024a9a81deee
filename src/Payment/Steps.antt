-- ===== src/Payment/Steps.antt =====
-- What the answers of the provider call for in a run of the reconciliation, and what that does.
use wedding_saas.Payment.Queued.{deliver-Queues}
use wedding_saas.Payment.Kept.{stays, trans-Settles, Settles}
use wedding_saas.Outcomes.{
  PaymentOutcome, NotificationResult, reconciliation_missing, reconciliation_mismatch,
  reconciliation,
}
use wedding_saas.Payment.Queries.{
  unknown_payment, unreachable, is_success_outcome, is_pending_outcome, told, Query, QueryAnswer,
}
use wedding_saas.Payment.Repository.{same_payment_status}
use wedding_saas.Payment.Webhook.{Job, NotificationVerdict}
use wedding_saas.Db.{Notification, PaymentStatus, Db, Payment}
use wedding_saas.Base.{
  false, Bool, some, none, Option, not, true, refl, ◌∙◌, if◌then◌else◌, [], ◌∷◌, ◌++◌, ℕ, List,
}
use mathlib.Core.Path.{ap, ◌≡◌, sym}
use wedding_saas.Payment.Arrivals.{deliver, Arrival, asked}

pub append_nil : {A : Type 0} (xs : List A) → xs ++ [] ≡ xs
append_nil [] = refl
append_nil (x ∷ xs) = ap (λ ys. x ∷ ys) (append_nil xs)

pub append_assoc : {A : Type 0} (xs ys zs : List A) → (xs ++ ys) ++ zs ≡ xs ++ (ys ++ zs)
append_assoc [] ys zs = refl
append_assoc (x ∷ xs) ys zs = ap (λ us. x ∷ us) (append_assoc xs ys zs)

-- What a run does to the tables: it delivers an event, or adds a row for a person to look at.
pub data RunStep : Type 0 where
  delivers : Arrival → RunStep
  notes : Notification → RunStep

abbrev pub has_settled : PaymentOutcome → Bool
has_settled PaymentOutcome.pending = false
has_settled _ = true

abbrev pub tells_success : PaymentOutcome → Bool
tells_success PaymentOutcome.success = true
tells_success _ = false

pub has_settled-not : (o : PaymentOutcome) → has_settled o ≡ not (is_pending_outcome o)
has_settled-not PaymentOutcome.pending = refl
has_settled-not PaymentOutcome.success = refl
has_settled-not PaymentOutcome.failed = refl
has_settled-not PaymentOutcome.ignored = refl

pub tells_success_same : (o : PaymentOutcome) → tells_success o ≡ is_success_outcome o
tells_success_same PaymentOutcome.pending = refl
tells_success_same PaymentOutcome.success = refl
tells_success_same PaymentOutcome.failed = refl
tells_success_same PaymentOutcome.ignored = refl

-- A disagreement, as it stands in `payment_notifications`
abbrev pub disagreement :
    ℕ → ℕ → NotificationResult → Option PaymentOutcome → Option ℕ → Payment → Notification
disagreement provider row result outcome amount p = record {
  id = row;
  source = reconciliation;
  provider = provider;
  claimed_reference = some p.provider_reference_id;
  payment_id = some p.id;
  signature_valid = true;
  outcome = outcome;
  amount = amount;
  result = some result;
  needs_review = true;
}

-- The table of payment-reconciliation.service.ts: a settled answer about a pending payment is taken
-- over; a payment that succeeded here and not there is noted; anything else does nothing.
abbrev pub steps_of : ℕ → QueryAnswer → Payment → Query → List RunStep
steps_of provider unreachable p q = []
steps_of provider unknown_payment p q =
    if same_payment_status p.status PaymentStatus.pending
    then []
    else notes (disagreement provider q.row reconciliation_missing none none p) ∷ []
steps_of provider (told event) p q =
    if same_payment_status p.status PaymentStatus.pending
    then (if has_settled event.outcome
        then delivers (asked reconciliation true q.now q.row event) ∷ []
        else [])
    else if tells_success event.outcome
    then []
    else notes (
        disagreement provider q.row reconciliation_mismatch (some event.outcome) (some event.amount)
          p)
      ∷ []

unfoldable pub all_steps : ℕ → List Payment → (Payment → Query) → List RunStep
all_steps provider [] ask = []
all_steps provider (p ∷ ps) ask =
    steps_of provider (ask p).answer p (ask p) ++ all_steps provider ps ask

abbrev pub is_note : RunStep → Bool
is_note (delivers a) = false
is_note (notes n) = true

module _ (add_months : ℕ → ℕ → ℕ) (provider : ℕ) (verify : ℕ → NotificationVerdict) where
  unfoldable pub run_step : RunStep → Db → List Job × Db
  run_step (delivers a) db = let r = deliver add_months provider verify a db in (r.jobs, r.db)
  run_step (notes n) db = ([], record db { notifications = db.notifications ++ n ∷ [] })

  -- The jobs and the tables of the steps, one after the other
  unfoldable pub run_steps : List RunStep → Db → List Job × Db
  run_steps [] db = ([], db)
  run_steps (s ∷ rest) db =
      let (jobs, db') = run_step s db in
      let (more, end_) = run_steps rest db' in (jobs ++ more, end_)

  pub run_steps-Settles : (steps : List RunStep) (db : Db) → Settles db (run_steps steps db).1
  unfolding run_steps run_step
  run_steps-Settles [] db = stays
  run_steps-Settles (delivers a ∷ rest) db =
      trans-Settles (deliver-Queues add_months provider verify a db).0
        (run_steps-Settles rest (deliver add_months provider verify a db).db)
  run_steps-Settles (notes n ∷ rest) db =
      trans-Settles (record { paid = λ j h. h; successful = λ k h. h })
        (run_steps-Settles rest (record db { notifications = db.notifications ++ n ∷ [] }))

  pub run_steps_append :
      (xs ys : List RunStep) (db : Db)
      → let (jobs, db') = run_steps xs db in
        let (more, end_) = run_steps ys db' in run_steps (xs ++ ys) db ≡ (jobs ++ more, end_)
  unfolding run_steps
  run_steps_append [] ys db = refl
  run_steps_append (x ∷ xs) ys db =
      let (first, db1) = run_step x db in
      let (jobs, db') = run_steps xs db1 in
      let (more, end_) = run_steps ys db' in
      ap (λ p. (first ++ p.0, p.1)) (run_steps_append xs ys db1)
      ∙ ap (λ js. (js, end_)) (sym (append_assoc first jobs more))
