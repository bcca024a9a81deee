-- ===== src/Payment/Arrivals.antt =====
-- Verified events from every source, one after the other: the webhook, the status query of a
-- polling page, and the daily reconciliation.
use wedding_saas.Outcomes.{NotificationSource}
use wedding_saas.Db.{Db}
use wedding_saas.Base.{some, none, [], ◌==◌, ◌++◌, ◌∷◌, if◌then◌else◌, Option, List, Bool, ℕ}
use wedding_saas.Payment.Webhook.{
  valid, invalid, apply_verified, VerifiedPaymentEvent, Job, Handled, NotificationVerdict, handle,
}

pub data Arrival : Type 0 where
  -- a request to the webhook: the provider that its path names, its body, whether an invalid one
  -- can be recorded, the time, and the id of its row
  notified : ℕ → ℕ → Bool → ℕ → ℕ → Arrival
  -- an answer of the provider to a query: its source, whether it is always flagged, the time, the
  -- id of its row
  asked : NotificationSource → Bool → ℕ → ℕ → VerifiedPaymentEvent → Arrival

module _ (add_months : ℕ → ℕ → ℕ) (provider : ℕ) (verify : ℕ → NotificationVerdict) where
  unfoldable pub deliver : Arrival → Db → Handled add_months provider verify
  deliver (notified named body recorded now n) db =
      handle add_months provider verify named body recorded now n db
  deliver (asked source force_review now n event) db =
      apply_verified add_months provider verify source force_review now n event db

  -- The verified event that an arrival carries.
  abbrev pub event_of : Arrival → Option VerifiedPaymentEvent
  event_of (notified named body recorded now n) =
      if named == provider
      then elim (verify body) [ invalid claimed ↦ none | valid event ↦ some event ]
      else none
  event_of (asked source force_review now n event) = some event

  -- The jobs queued over all arrivals, and the tables at the end. An error ends one arrival only.
  unfoldable pub deliver_all : List Arrival → Db → List Job × Db
  deliver_all [] db = ([], db)
  deliver_all (a ∷ rest) db =
      let r = deliver a db in let (jobs, db') = deliver_all rest r.db in (r.jobs ++ jobs, db')
