-- ===== src/Publishing/Published.antt =====
-- What `publish` leaves, exactly: it succeeds when the terms grant a publication, and then changes
-- the status, the dates and the history.
use wedding_saas.Status.Laws.{transition_within-Permits_iff, changed}
use wedding_saas.Status.Journey.{same_status_refl}
use wedding_saas.Status.Edges.{Permits}
use wedding_saas.Publishing.Validity.{
  decide-Grants, Grants-decide, trial_resumed, first_trial, resumed, bought, Grants,
}
use wedding_saas.Base.Table.{find-update_where, update_where}
use wedding_saas.Publishing.Publish.{
  or_now, days, months, kept, term_of, decide, publish_locked, publish_reason, by_user, is_row_of,
  record_publication, PublishedDto, PublicationTerm,
}
use wedding_saas.Status.Service.{ever_reached, transition_within, invitation_by_id}
use wedding_saas.Status.Rules.{same_status, ActorKind, InvitationStatus}
use wedding_saas.Publishing.Entitlements.{Entitlements}
use wedding_saas.Db.{wib_day, Db, Invitation}
use wedding_saas.Base.{
  ◌+◌, inr, inl, Outcome-cases, ==_refl, arith, find_narrow, ◌∙◌, ◌&&◌, refl, ok, find, true,
  String, ◌==◌, Option, some, ◌≡◌, Bool, ℕ,
}

Grants-Permits :
    {now : ℕ} {i : Invitation} {e : Entitlements} {db : Db} {status : InvitationStatus}
    {as_trial : Bool} {term : PublicationTerm} (reason : Option String)
    → Grants now i e db status as_trial term
    → Permits reason
        (ever_reached i.id InvitationStatus.paid db)
        status
        InvitationStatus.published
        ActorKind.user
Grants-Permits reason (bought newer lasts) = Permits.publish_by_user
Grants-Permits reason (resumed old running) = Permits.publish_by_user
Grants-Permits reason (first_trial never unused) = Permits.trial_publish never
Grants-Permits reason (trial_resumed never used running) = Permits.trial_publish never

-- The dates of a term: months and days count from today, which is then the date of publication; a
-- term that is kept leaves the expiry date, and a date of publication where there is one.
abbrev pub dated : (ℕ → ℕ → ℕ) → ℕ → PublicationTerm → Invitation → Invitation
dated add_months now (months n) i = record i {
  published_at = some now;
  expiry_date = some (add_months (wib_day now) n);
}
dated add_months now (days n) i = record i {
  published_at = some now;
  expiry_date = some (wib_day now + n);
}
dated add_months now kept i = record i { published_at = some (or_now now i.published_at) }

module _ (add_months : ℕ → ℕ → ℕ) (scope now : ℕ) (e : Entitlements) (i : Invitation) (db : Db)
    (stored : invitation_by_id i.id db ≡ some i) (owned : (i.owner_id == scope) ≡ true) where
  -- The tables after the transition.
  abbrev pub moved_db : Bool → Db
  moved_db as_trial =
      changed i.id i.status InvitationStatus.published (by_user scope)
        (some (publish_reason as_trial)) db

  abbrev pub published_row : PublicationTerm → Invitation
  published_row term = dated add_months now term (record i { status = InvitationStatus.published })

  abbrev pub published_db : Bool → PublicationTerm → Db
  published_db as_trial term = record (moved_db as_trial) {
    invitations =
        update_where (is_row_of i.id scope) (dated add_months now term)
          (moved_db as_trial).invitations;
  }

  abbrev pub published_dto : Bool → PublicationTerm → PublishedDto
  published_dto as_trial term = record {
    slug = i.slug;
    published_at = (published_row term).published_at;
    expiry_date = (published_row term).expiry_date;
    trial = as_trial;
  }

  moves :
      (as_trial : Bool) {term : PublicationTerm}
      → Grants now i e db i.status as_trial term
      → transition_within i.id InvitationStatus.published
          (by_user scope)
          (some (publish_reason as_trial))
          db
        ≡ ok ((i.status, InvitationStatus.published), moved_db as_trial)
  moves as_trial g =
      (transition_within-Permits_iff i.id InvitationStatus.published (by_user scope)
          (some (publish_reason as_trial)) db i stored).1
        (Grants-Permits (some (publish_reason as_trial)) g)

  found_row :
      (as_trial : Bool)
      → find (is_row_of i.id scope) (moved_db as_trial).invitations
        ≡ some (record i { status = InvitationStatus.published })
  found_row as_trial =
      find-update_where {A = Invitation} (is_row_of i.id scope)
        (λ j. (j.id == i.id) && same_status j.status i.status)
        (λ j. record j { status = InvitationStatus.published }) (λ j. refl) db.invitations
      ∙ rw
          (find_narrow (is_row_of i.id scope) (λ j. j.id == i.id) (λ j h. ground arith)
            db.invitations i stored (ground (arith, ==_refl i.id, owned)))
          (rw (==_refl i.id, same_status_refl i.status) refl)

  dates :
      (as_trial : Bool) (term : PublicationTerm)
      → record_publication add_months i.id scope now term (moved_db as_trial)
        ≡ ok (published_row term, published_db as_trial term)
  unfolding record_publication
  dates as_trial (months n) = rw (found_row as_trial, record_publication) refl
  dates as_trial (days n) = rw (found_row as_trial, record_publication) refl
  dates as_trial kept = rw (found_row as_trial, record_publication) refl

  pub published_db-row :
      (as_trial : Bool) (term : PublicationTerm)
      → invitation_by_id i.id (published_db as_trial term) ≡ some (published_row term)
  published_db-row as_trial term =
      find-update_where {A = Invitation} (λ j. j.id == i.id) (is_row_of i.id scope)
        (dated add_months now term) (dates-id term) (moved_db as_trial).invitations
      ∙ rw
          (find-update_where {A = Invitation} (λ j. j.id == i.id)
            (λ j. (j.id == i.id) && same_status j.status i.status)
            (λ j. record j { status = InvitationStatus.published }) (λ j. refl) db.invitations)
          (rw stored (rw (==_refl i.id, same_status_refl i.status) (rw (==_refl i.id, owned) refl)))
    where
      dates-id :
          (t : PublicationTerm) (j : Invitation)
          → ((dated add_months now t j).id == i.id) ≡ (j.id == i.id)
      dates-id (months n) j = refl
      dates-id (days n) j = refl
      dates-id kept j = refl

  granted :
      (as_trial : Bool) (term : PublicationTerm)
      → Grants now i e db i.status as_trial term
      → publish_locked add_months scope now e i db
        ≡ ok (published_dto as_trial term, published_db as_trial term)
  unfolding publish_locked
  granted as_trial term g =
      let (plan, decided, lasts, is_trial) = Grants-decide now i e db stored g in
      rw (decided, publish_locked)
        (rw (lasts, is_trial, moves as_trial g, dates as_trial term) refl)

  abbrev pub Published : Type 0
  Published =
      (as_trial : Bool) × (term : PublicationTerm) × Grants now i e db i.status as_trial term

  publish_locked-Published :
      {r : PublishedDto × Db} → publish_locked add_months scope now e i db ≡ ok r → Published
  unfolding publish_locked
  publish_locked-Published h = elim (Outcome-cases (decide now i i.status e.purchased_at db)) [
    | inl (why, refused) ↦ let k = rw (refused, publish_locked) at h in cc
    | inr (plan, decided) ↦ elim (Outcome-cases (term_of plan.validity e.duration_months)) [
      | inl (why, none_left) ↦
          let k = rw (decided, publish_locked) at h in let l = rw none_left at k in cc
      | inr (term, lasts) ↦
          (plan.trial, term, decide-Grants now i e db stored i.status plan term decided lasts)
    ]
  ]

pub publish_locked-Grants :
    (add_months : ℕ → ℕ → ℕ) (scope now : ℕ) (e : Entitlements) (i : Invitation) (db : Db)
    (stored : invitation_by_id i.id db ≡ some i) (owned : (i.owner_id == scope) ≡ true)
    → ((as_trial : Bool) (term : PublicationTerm)
        → Grants now i e db i.status as_trial term
        → publish_locked add_months scope now e i db
          ≡ ok (
            published_dto add_months scope now e i db stored owned as_trial term,
            published_db add_months scope now e i db stored owned as_trial term,
          ))
      × ((r : PublishedDto × Db)
          → publish_locked add_months scope now e i db ≡ ok r
          → (as_trial : Bool) × (term : PublicationTerm) × Grants now i e db i.status as_trial term)
publish_locked-Grants add_months scope now e i db stored owned = (
  granted add_months scope now e i db stored owned,
  λ r h. publish_locked-Published add_months scope now e i db stored owned h,
)

pub publish_locked-eq :
    (add_months : ℕ → ℕ → ℕ) (scope now : ℕ) (e : Entitlements) (i : Invitation) (db : Db)
    (stored : invitation_by_id i.id db ≡ some i) (owned : (i.owner_id == scope) ≡ true)
    (r : PublishedDto × Db)
    → publish_locked add_months scope now e i db ≡ ok r
    → (as_trial : Bool) × (term : PublicationTerm) × Grants now i e db i.status as_trial term
      × (r ≡ (
        published_dto add_months scope now e i db stored owned as_trial term,
        published_db add_months scope now e i db stored owned as_trial term,
      ))
publish_locked-eq add_months scope now e i db stored owned r h =
    let (can, may) = publish_locked-Grants add_months scope now e i db stored owned in
    let (as_trial, term, g) = may r h in let given = can as_trial term g in (as_trial, term, g, cc)
