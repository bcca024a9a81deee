-- ===== src/Publishing/Unpublish.antt =====
-- backend/api/src/modules/publishing/unpublish.service.ts.
use wedding_saas.Publishing.Publish.{by_user, enqueue_invalidation, invalidate_cache, Effect}
use wedding_saas.Status.Service.{transition_within, ever_reached}
use wedding_saas.Order.Repository.{owned_by}
use wedding_saas.Errors.{invitation_not_published, not_found, business_rule, AppError}
use wedding_saas.Status.Rules.{same_status, InvitationStatus}
use wedding_saas.Db.{Invitation, Db}
use wedding_saas.Base.{
  true, false, ok, none, find, ◌∷◌, thrown, some, not, if◌then◌else◌, [], true, Outcome, List,
  String, ℕ, Option, Bool,
}

abbrev pub back_to : Bool → InvitationStatus
back_to true = InvitationStatus.paid
back_to false = InvitationStatus.draft

abbrev pub unpublish_reason : Bool → String
unpublish_reason true = "user: unpublish"
unpublish_reason false = "user: unpublish a free trial"

-- The callback under the lock: the status that the invitation goes back to.
unfoldable pub unpublish_locked : ℕ → Invitation → Db → Outcome AppError (InvitationStatus × Db)
unpublish_locked scope i db =
    if not (same_status i.status InvitationStatus.published)
    then thrown (business_rule invitation_not_published)
    else let ever_paid = ever_reached i.id InvitationStatus.paid db in
      elim (transition_within i.id (back_to ever_paid) (by_user scope)
        (some (unpublish_reason ever_paid)) db) [
          | thrown e ↦ thrown e
          | ok (r, db') ↦ ok (back_to ever_paid, db')
        ]

-- `if (result.slug !== null)`
abbrev pub eviction : Option String → ℕ → List Effect
eviction none id = []
eviction (some slug) id = invalidate_cache slug id ∷ enqueue_invalidation slug id ∷ []

module _ (is_uuid : ℕ → Bool) where
  -- `unpublish`
  unfoldable pub unpublish :
      ℕ → ℕ → Db → Outcome AppError (InvitationStatus × Option String × List Effect × Db)
  unpublish scope id db =
      if not (is_uuid id)
      then thrown not_found
      else elim (find (owned_by id scope) db.invitations) [
        | none ↦ thrown not_found
        | some i ↦ elim (unpublish_locked scope i db) [
          | thrown e ↦ thrown e
          | ok (status, db') ↦ ok (status, i.slug, eviction i.slug id, db')
        ]
      ]
