-- ===== src/Publishing/Resumed.antt =====
-- Taking an invitation back, and publishing it again.
use wedding_saas.Publishing.Trial.{has_date}
use wedding_saas.Publishing.Published.{
  published_db-row, publish_locked-Grants, published_db, published_dto,
}
use wedding_saas.Status.Journey.{same_status_refl}
use wedding_saas.Publishing.Validity.{Grants}
use wedding_saas.Publishing.Entitlements.{Entitlements}
use wedding_saas.Base.Table.{find-update_where}
use wedding_saas.Publishing.Publish.{
  publish_locked, PublishedDto, kept, is_running, is_republish, by_user,
}
use wedding_saas.Status.Laws.{transition_within-Permits_iff, changed}
use wedding_saas.Publishing.Unpublish.{unpublish_reason, unpublish_locked, back_to}
use wedding_saas.Status.Service.{history_row, ever_reached, invitation_by_id}
use wedding_saas.Status.Edges.{Permits}
use wedding_saas.Db.{Db, Invitation}
use wedding_saas.Base.{
  sym, ap, [], ◌∷◌, any-append, arith, ◌||◌, not, ==_refl, ◌∙◌, ◌&&◌, ◌==◌, inr, inl, Bool-cases,
  ◌↔◌, ok, some, refl, true, Bool, ◌≡◌, String, ℕ, Option,
}
use wedding_saas.Status.Rules.{ActorKind, same_status, InvitationStatus}

pub is_published :
    (status : InvitationStatus)
    → same_status status InvitationStatus.published ≡ true
    → status ≡ InvitationStatus.published
is_published InvitationStatus.published h = refl
is_published _ h = cc

back-Permits :
    (reason : Option String) (paid_for : Bool)
    → Permits reason paid_for InvitationStatus.published (back_to paid_for) ActorKind.user
back-Permits reason Bool.true = Permits.unpublish
back-Permits reason Bool.false = Permits.unpublish_trial refl

abbrev pub unpublished_db : ℕ → Invitation → Bool → Db → Db
unpublished_db scope i paid_for db =
    changed i.id i.status (back_to paid_for) (by_user scope) (some (unpublish_reason paid_for)) db

module _ (scope : ℕ) (i : Invitation) (db : Db) (stored : invitation_by_id i.id db ≡ some i) where
  unpublish_locked-Taken :
      i.status ≡ InvitationStatus.published
      → unpublish_locked scope i db
        ≡ ok (
          back_to (ever_reached i.id InvitationStatus.paid db),
          unpublished_db scope i (ever_reached i.id InvitationStatus.paid db) db,
        )
  unfolding unpublish_locked
  unpublish_locked-Taken was =
      let paid_for = ever_reached i.id InvitationStatus.paid db in
      let moves =
        (transition_within-Permits_iff i.id (back_to paid_for) (by_user scope)
            (some (unpublish_reason paid_for)) db i stored).1
          (rw was (back-Permits (some (unpublish_reason paid_for)) paid_for)) in
      let open_ : same_status i.status InvitationStatus.published ≡ true = rw was refl in
      rw (open_, unpublish_locked) (rw moves refl)

  unpublish_locked-Published :
      {r : InvitationStatus × Db}
      → unpublish_locked scope i db ≡ ok r
      → i.status ≡ InvitationStatus.published
  unfolding unpublish_locked
  unpublish_locked-Published h =
      elim (Bool-cases (same_status i.status InvitationStatus.published)) [
        | inl public ↦ is_published i.status public
        | inr other ↦ let k = rw (other, unpublish_locked) at h in cc
      ]

  -- Under the lock, `unpublish` succeeds exactly on a published invitation, which goes back to
  -- `paid` if its history holds `paid` and to `draft` if not; one history row is added, and nothing
  -- else changes.
  pub unpublish_locked-Published_iff :
      let paid_for = ever_reached i.id InvitationStatus.paid db in
      (i.status ≡ InvitationStatus.published)
      ↔ (unpublish_locked scope i db ≡ ok (back_to paid_for, unpublished_db scope i paid_for db))
  unpublish_locked-Published_iff = (unpublish_locked-Taken, λ h. unpublish_locked-Published h)

  abbrev taken_row : Bool → Invitation
  taken_row paid_for = record i { status = back_to paid_for }

  stored_taken :
      (paid_for : Bool)
      → invitation_by_id i.id (unpublished_db scope i paid_for db) ≡ some (taken_row paid_for)
  stored_taken paid_for =
      find-update_where {A = Invitation} (λ j. j.id == i.id)
        (λ j. (j.id == i.id) && same_status j.status i.status)
        (λ j. record j { status = back_to paid_for }) (λ j. refl) db.invitations
      ∙ rw stored (rw (==_refl i.id, same_status_refl i.status) refl)

  taken_history :
      (status : InvitationStatus) (paid_for : Bool)
      → ever_reached i.id status (unpublished_db scope i paid_for db)
        ≡ (ever_reached i.id status db || same_status (back_to paid_for) status)
  taken_history status paid_for = ground (
    arith,
    ==_refl i.id,
    any-append (λ h. (h.invitation_id == i.id) && same_status h.to_status status) db.history
        (history_row i.id i.status (back_to paid_for) (by_user scope)
            (some (unpublish_reason paid_for))
          ∷ []),
  )

  resumes :
      (now : ℕ) (e : Entitlements) (paid_for : Bool)
      → ever_reached i.id InvitationStatus.paid db ≡ paid_for
      → ever_reached i.id InvitationStatus.published db ≡ true
      → is_republish i.published_at e.purchased_at ≡ true
      → is_running now i.expiry_date ≡ true
      → Grants now
          (taken_row paid_for)
          e
          (unpublished_db scope i paid_for db)
          (back_to paid_for)
          (not paid_for)
          kept
  resumes now e Bool.true reached used old running = Grants.resumed old running
  resumes now e Bool.false reached used old running =
      Grants.trial_resumed (rw (taken_history InvitationStatus.paid Bool.false) (rw reached refl))
        (rw (taken_history InvitationStatus.published Bool.false) (rw used refl)) running

  -- A published invitation that is taken back and published again while it runs, with nothing bought
  -- since its publication, is the invitation that it was: the status, both dates and the slug.
  pub unpublish-publish :
      (add_months : ℕ → ℕ → ℕ) (now : ℕ) (e : Entitlements)
      → (i.owner_id == scope) ≡ true
      → i.status ≡ InvitationStatus.published
      → ever_reached i.id InvitationStatus.published db ≡ true
      → is_republish i.published_at e.purchased_at ≡ true
      → is_running now i.expiry_date ≡ true
      → let paid_for = ever_reached i.id InvitationStatus.paid db in
        let db1 = unpublished_db scope i paid_for db in
        (unpublish_locked scope i db ≡ ok (back_to paid_for, db1))
        × ((r : PublishedDto × Db) × (publish_locked add_months scope now e
                (record i { status = back_to paid_for })
                db1
              ≡ ok r)
            × (invitation_by_id i.id r.1 ≡ some i))
  unpublish-publish add_months now e owned was used old running =
      let paid_for = ever_reached i.id InvitationStatus.paid db in
      let db1 = unpublished_db scope i paid_for db in
      let stored1 = stored_taken paid_for in
      let g = resumes now e paid_for refl used old running in
      (
        unpublish_locked-Taken was,
        (
          (
            published_dto add_months scope now e (taken_row paid_for) db1 stored1 owned
                (not paid_for) kept,
            published_db add_months scope now e (taken_row paid_for) db1 stored1 owned
                (not paid_for) kept,
          ),
          (publish_locked-Grants add_months scope now e (taken_row paid_for) db1 stored1 owned).0
              (not paid_for) kept g,
          published_db-row add_months scope now e (taken_row paid_for) db1 stored1 owned
                (not paid_for) kept
              ∙ (ap (λ d. some (record i { status = InvitationStatus.published; published_at = d }))
                    (has_date now i.published_at e.purchased_at old)
                  ∙ ap (λ s. some (record i { status = s })) (sym was)),
        ),
      )
