-- ===== src/Payment/Reconciliation.antt =====
-- backend/api/src/modules/payment/payment-reconciliation.service.ts with its statements in
-- payment.repository.ts. What the provider answers is an argument; times are seconds.
use wedding_saas.Outcomes.{
  NotificationResult, reconciliation_missing, reconciliation_mismatch, reconciliation,
  WebhookResult,
}
use wedding_saas.Payment.Repository.{record_notification, same_payment_status}
use wedding_saas.Db.{Notification, Db, Payment, PaymentStatus}
use wedding_saas.Payment.Queries.{
  unknown_payment, unreachable, is_success_outcome, is_pending_outcome, told, is_success,
  apply_answer, QueryAnswer, Query,
}
use wedding_saas.Errors.{AppError}
use wedding_saas.Base.{
  ◌||◌, ◌*◌, ok, ◌++◌, ◌&&◌, thrown, leb, false, [], Outcome, ◌∷◌, ◌==◌, true, take, ltb, keep,
  if◌then◌else◌, ◌+◌, ℕ, List, Bool,
}
use mathlib.Core.Option.{some, none, Option}
use mathlib.Core.Option
use wedding_saas.Payment.Webhook.{NotificationVerdict, Job, VerifiedPaymentEvent}

abbrev pub is_candidate : ℕ → ℕ → ℕ → ℕ → Payment → Bool
is_candidate provider minutes hours now p =
    (p.provider == provider)
    && ((same_payment_status p.status PaymentStatus.pending
          && ltb (p.created_at + minutes * 60) now
          && ltb now (p.created_at + hours * 3600))
        || (is_success p
            && elim p.verified_at [ none ↦ false | some t ↦ ltb now (t + hours * 3600) ]))

unfoldable pub insert_by_creation : Payment → List Payment → List Payment
insert_by_creation p [] = p ∷ []
insert_by_creation p (q ∷ qs) =
    let rest = insert_by_creation p qs in
    if leb p.created_at q.created_at then p ∷ q ∷ qs else q ∷ rest

abbrev pub by_creation : List Payment → List Payment
by_creation [] = []
by_creation (p ∷ ps) = insert_by_creation p (by_creation ps)

-- `reconciliationCandidates`
unfoldable pub reconciliation_candidates : ℕ → ℕ → ℕ → ℕ → ℕ → Db → List Payment
reconciliation_candidates provider minutes hours limit now db =
    take limit (by_creation (keep (is_candidate provider minutes hours now) db.payments))

-- The row of `recordReconciliationFinding`; its id is the database's.
abbrev pub finding :
    ℕ → ℕ → NotificationResult → Option VerifiedPaymentEvent → Payment → Notification
finding provider row result event p = record {
  id = row;
  source = reconciliation;
  provider = provider;
  claimed_reference = some p.provider_reference_id;
  payment_id = some p.id;
  signature_valid = true;
  outcome = Option.map (λ e. e.outcome) event;
  amount = Option.map (λ e. e.amount) event;
  result = some result;
  needs_review = true;
}

pub record ReconciliationSummary : Type 0 where
  pub checked : ℕ
  pub recovered : ℕ
  pub flagged : ℕ
  pub errors : ℕ

-- A run so far
pub record Progress : Type 0 where
  pub summary : ReconciliationSummary
  pub jobs : List Job
  pub db : Db

abbrev pub count_agreed : ReconciliationSummary → ReconciliationSummary
count_agreed s = record s { checked = s.checked + 1 }

abbrev pub count_recovered : ReconciliationSummary → ReconciliationSummary
count_recovered s = record s {
  checked = s.checked + 1;
  recovered = s.recovered + 1;
  flagged = s.flagged + 1;
}

abbrev pub count_flagged : ReconciliationSummary → ReconciliationSummary
count_flagged s = record s { checked = s.checked + 1; flagged = s.flagged + 1 }

abbrev pub count_error : ReconciliationSummary → ReconciliationSummary
count_error s = record s { checked = s.checked + 1; errors = s.errors + 1 }

abbrev pub summary_after :
    Outcome AppError WebhookResult → ReconciliationSummary → ReconciliationSummary
summary_after (thrown e) s = count_error s
summary_after (ok r) s = count_recovered s

module _ (add_months : ℕ → ℕ → ℕ) (provider : ℕ) (verify : ℕ → NotificationVerdict) where
  -- The end of `reconcile` for a payment that the provider's answer settles
  abbrev pub recover : Query → VerifiedPaymentEvent → Progress → Progress
  recover q event s =
      let h = apply_answer add_months provider verify reconciliation true q event s.db in
      record s { summary = summary_after h.answer s.summary; jobs = s.jobs ++ h.jobs; db = h.db }

  abbrev pub flag :
      ℕ → NotificationResult → Option VerifiedPaymentEvent → Payment → Progress → Progress
  flag row result event p s = record s {
    summary = count_flagged s.summary;
    db = record_notification (finding provider row result event p) s.db;
  }

  abbrev pub agree : Progress → Progress
  agree s = record s { summary = count_agreed s.summary }

  -- `reconcile` of one payment, as it was read with the candidates, and the loop's counts
  unfoldable pub reconcile : QueryAnswer → Payment → Query → Progress → Progress
  reconcile unreachable p q s = record s { summary = count_error s.summary }
  reconcile unknown_payment p q s =
      if same_payment_status p.status PaymentStatus.pending
      then agree s
      else flag q.row reconciliation_missing none p s
  reconcile (told event) p q s =
      if same_payment_status p.status PaymentStatus.pending
      then (if is_pending_outcome event.outcome then agree s else recover q event s)
      else if is_success_outcome event.outcome
      then agree s
      else flag q.row reconciliation_mismatch (some event) p s

  unfoldable pub reconcile_all : List Payment → (Payment → Query) → Progress → Progress
  reconcile_all [] ask s = s
  reconcile_all (p ∷ ps) ask s = reconcile_all ps ask (reconcile (ask p).answer p (ask p) s)

  -- `run`
  unfoldable pub run_reconciliation : ℕ → ℕ → ℕ → ℕ → (Payment → Query) → Db → Progress
  run_reconciliation minutes hours limit now ask db =
      reconcile_all (reconciliation_candidates provider minutes hours limit now db) ask (record {
        summary = record { checked = 0; recovered = 0; flagged = 0; errors = 0 };
        jobs = [];
        db = db;
      })
