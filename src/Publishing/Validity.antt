-- ===== src/Publishing/Validity.antt =====
-- What a publication grants.
use wedding_saas.Publishing.Publish.{
  Validity, days, trial, kept, term_of, package_term, months, is_running, is_republish,
  expiry_still_running, decide, PublicationPlan, PublicationTerm,
}
use wedding_saas.Status.Service.{ever_reached, invitation_by_id}
use wedding_saas.Status.Rules.{InvitationStatus}
use wedding_saas.Publishing.Entitlements.{Entitlements}
use wedding_saas.Db.{Db, Invitation}
use wedding_saas.Base.{refl, true, arith, ok, false, some, ◌≡◌, Bool, ℕ}

-- BR-2.5, BR-2.8 and ADR-080: which publications an invitation's owner may make, whether they are
-- trials, and for which term.
pub data Grants (now : ℕ) (i : Invitation) (entitlement : Entitlements) (db : Db)
    : InvitationStatus → Bool → PublicationTerm → Type 0 where
  bought :
      {n : ℕ}
      → is_republish i.published_at entitlement.purchased_at ≡ false
      → entitlement.duration_months ≡ some n
      → Grants now i entitlement db InvitationStatus.paid false (months n)
  resumed :
      is_republish i.published_at entitlement.purchased_at ≡ true
      → is_running now i.expiry_date ≡ true
      → Grants now i entitlement db InvitationStatus.paid false kept
  first_trial :
      ever_reached i.id InvitationStatus.paid db ≡ false
      → ever_reached i.id InvitationStatus.published db ≡ false
      → Grants now i entitlement db InvitationStatus.draft true (days 3)
  trial_resumed :
      ever_reached i.id InvitationStatus.paid db ≡ false
      → ever_reached i.id InvitationStatus.published db ≡ true
      → is_running now i.expiry_date ≡ true
      → Grants now i entitlement db InvitationStatus.draft true kept

module _ (now : ℕ) (i : Invitation) (entitlement : Entitlements) (db : Db)
    (stored : invitation_by_id i.id db ≡ some i) where
  still_running : expiry_still_running i.id now db ≡ is_running now i.expiry_date
  still_running = rw (stored, expiry_still_running) refl

  pub decide-Grants :
      (status : InvitationStatus) (plan : PublicationPlan) (term : PublicationTerm)
      → decide now i status entitlement.purchased_at db ≡ ok plan
      → term_of plan.validity entitlement.duration_months ≡ ok term
      → Grants now i entitlement db status plan.trial term
  unfolding decide
  decide-Grants InvitationStatus.paid plan term h k =
      grind (arith, still_running, Grants.bought, Grants.resumed)
  decide-Grants InvitationStatus.draft plan term h k =
      grind (arith, still_running, Grants.first_trial, Grants.trial_resumed)
  decide-Grants InvitationStatus.expired plan term h k = ground arith
  decide-Grants _ plan term h k = cc

  abbrev pub Decided : InvitationStatus → Bool → PublicationTerm → Type 0
  Decided status as_trial term =
      (plan : PublicationPlan) × (decide now i status entitlement.purchased_at db ≡ ok plan)
      × (term_of plan.validity entitlement.duration_months ≡ ok term)
      × (plan.trial ≡ as_trial)

  pub Grants-decide :
      {status : InvitationStatus} {as_trial : Bool} {term : PublicationTerm}
      → Grants now i entitlement db status as_trial term
      → Decided status as_trial term
  unfolding decide
  Grants-decide (bought {n} newer lasts) =
      (record { trial = false; validity = package_term }, rw newer refl, rw lasts refl, refl)
  Grants-decide (resumed old running) = (
    record { trial = false; validity = Validity.keep },
    rw (old, still_running, running) refl,
    refl,
    refl,
  )
  Grants-decide (first_trial never unused) =
      (record { trial = true; validity = trial }, rw (never, unused) refl, refl, refl)
  Grants-decide (trial_resumed never used running) = (
    record { trial = true; validity = Validity.keep },
    rw (never, used, still_running, running) refl,
    refl,
    refl,
  )
