-- ===== src/Payment/Reconciled.antt =====
-- What the daily reconciliation does to orders and payments: what the provider's answers do.
use wedding_saas.Payment.Steps.{RunStep, is_note, run_steps}
use wedding_saas.Payment.Reconciliation.{Progress}
use wedding_saas.Payment.Webhook.{Job, NotificationVerdict}
use wedding_saas.Db.{Db, Payment}
use wedding_saas.Base.{count_if, ◌+◌, ◌++◌, ℕ, List}
use mathlib.Core.Path.{◌≡◌}

module _ (add_months : ℕ → ℕ → ℕ) (provider : ℕ) (verify : ℕ → NotificationVerdict) where
  -- From one state of a run to another, as the steps do it.
  pub record Refines (steps : List RunStep) (s s' : Progress) : Type 0 where
    pub jobs : s'.jobs ≡ s.jobs ++ (run_steps add_months provider verify steps s.db).0
    pub db : s'.db ≡ (run_steps add_months provider verify steps s.db).1
    pub checked : s'.summary.checked ≡ s.summary.checked + 1
    pub flagged :
        s'.summary.flagged + s.summary.recovered
        ≡ s'.summary.recovered + s.summary.flagged + count_if is_note steps

  -- What the loop leaves, as its steps do it.
  pub record RunRefines (n : ℕ) (steps : List RunStep) (s s' : Progress) : Type 0 where
    pub effects :
        ◌≡◌ {A = List Job × Db}
          (s'.jobs, s'.db)
          (
            s.jobs ++ (run_steps add_months provider verify steps s.db).0,
            (run_steps add_months provider verify steps s.db).1,
          )
    pub checked : s'.summary.checked ≡ s.summary.checked + n
    pub flagged :
        s'.summary.flagged + s.summary.recovered
        ≡ s'.summary.recovered + s.summary.flagged + count_if is_note steps
