-- ===== src/Publishing/Publish.antt =====
-- backend/api/src/modules/publishing/publish.service.ts, with `expiryStillRunning` and
-- `recordPublication` of shared/tenancy/invitation-repository.ts. Times are seconds. What the other
-- services answer (readiness, the slug's rejection) and the months of Postgres are parameters.
use wedding_saas.Base.Table.{update_where}
use wedding_saas.Order.Repository.{owned_by}
use wedding_saas.Status.Service.{transition_within, ever_reached, invitation_by_id}
use wedding_saas.Status.Rules.{user, InvitationStatus, Actor}
use wedding_saas.Publishing.Entitlements.{for_invitation, Entitlements}
use wedding_saas.Db.{wib_day, Invitation, Db}
use wedding_saas.Errors.{
  payment_pending, invitation_already_published, payment_required, email_not_verified, slug_invalid,
  renewal_required, forbidden, slug_required, slug_blocked, payment_not_found, not_found, internal,
  incomplete_invitation, trial_already_used, slug_taken, conflict, business_rule, AppError,
}
use wedding_saas.Base.{
  ◌>>=◌, ◌++◌, ◌∷◌, ◌+◌, ◌&&◌, not, ◌==◌, thrown, ok, none, leb, if◌then◌else◌, find, [], true,
  some, false, Outcome, List, ℕ, String, Option, Bool,
}

abbrev pub trial_days : ℕ
trial_days = 3

pub record PublishingUser : Type 0 where
  pub scope : ℕ
  pub email_verified : Bool

pub data Validity : Type 0 where
  package_term trial keep : Validity

pub record PublicationPlan : Type 0 where
  pub trial : Bool
  pub validity : Validity

-- `expiry_date >= today in WIB`, false when unset
abbrev pub is_running : ℕ → Option ℕ → Bool
is_running now none = false
is_running now (some expiry) = leb (wib_day now) expiry

-- `expiryStillRunning`
abbrev pub expiry_still_running : ℕ → ℕ → Db → Bool
expiry_still_running id now db = elim (invitation_by_id id db) [
  | none ↦ false
  | some i ↦ is_running now i.expiry_date
]

-- `publishedAt !== null && (purchasedAt === null || purchasedAt <= publishedAt)`
abbrev pub is_republish : Option ℕ → Option ℕ → Bool
is_republish none purchased_at = false
is_republish (some published) none = true
is_republish (some published) (some purchased) = leb purchased published

abbrev trial_already : AppError
trial_already = business_rule trial_already_used

-- `decide`
unfoldable pub decide :
    ℕ → Invitation → InvitationStatus → Option ℕ → Db → Outcome AppError PublicationPlan
decide now i InvitationStatus.paid purchased_at db =
    if not (is_republish i.published_at purchased_at)
    then ok (record { trial = false; validity = package_term })
    else if not (expiry_still_running i.id now db)
    then thrown (business_rule renewal_required)
    else ok (record { trial = false; validity = keep })
decide now i InvitationStatus.draft purchased_at db =
    if ever_reached i.id InvitationStatus.paid db
    then thrown (business_rule payment_required)
    else if ever_reached i.id InvitationStatus.published db
    then (if expiry_still_running i.id now db
        then ok (record { trial = true; validity = keep })
        else thrown trial_already)
    else ok (record { trial = true; validity = trial })
decide now i InvitationStatus.published purchased_at db =
    thrown (business_rule invitation_already_published)
decide now i InvitationStatus.pending_payment purchased_at db =
    thrown (business_rule payment_pending)
decide now i InvitationStatus.expired purchased_at db =
    if not (ever_reached i.id InvitationStatus.paid db)
    then thrown trial_already
    else thrown (business_rule renewal_required)
decide now i InvitationStatus.soft_deleted purchased_at db = thrown not_found

pub data PublicationTerm : Type 0 where
  months days : ℕ → PublicationTerm
  kept : PublicationTerm

-- `coalesce(published_at, now())`
abbrev pub or_now : ℕ → Option ℕ → ℕ
or_now now none = now
or_now now (some t) = t

pub data SlugRejection : Type 0 where
  format blocked taken : SlugRejection

abbrev pub rejected : SlugRejection → AppError
rejected taken = conflict slug_taken none
rejected blocked = business_rule slug_blocked
rejected format = business_rule slug_invalid

pub record PublishedDto : Type 0 where
  pub slug : Option String
  pub published_at : Option ℕ
  pub expiry_date : Option ℕ
  pub trial : Bool

-- What the services do after the commit.
pub data Effect : Type 0 where
  invalidate_cache : String → ℕ → Effect
  enqueue_invalidation : String → ℕ → Effect
  -- whether it is a trial
  notify_published : ℕ → Bool → Effect
  -- the invitation and the expiry date of the job's key
  notify_expired : ℕ → Option ℕ → Effect

-- `if (result.slug) await this.cache?.invalidate(…)`, with a cache
abbrev pub invalidation : Option String → ℕ → List Effect
invalidation none id = []
invalidation (some String.[]) id = []
invalidation (some slug) id = invalidate_cache slug id ∷ []

abbrev pub by_user : ℕ → Actor
by_user scope = record { kind = user; user_id = some scope }

abbrev pub publish_reason : Bool → String
publish_reason true = "user: free trial publish (BR-2.8)"
publish_reason false = "user: publish"

-- `null` is an invitation that is not the caller's.
abbrev pub or_missing {ℓ} : {A : Type ℓ} → Option A → Outcome AppError A
or_missing none = thrown not_found
or_missing (some a) = ok a

abbrev pub is_row_of : ℕ → ℕ → Invitation → Bool
is_row_of id scope i = (i.id == id) && (i.owner_id == scope)

-- The term that a plan and the entitlement give; `null` months are refused.
abbrev pub term_of : Validity → Option ℕ → Outcome AppError PublicationTerm
term_of keep duration = ok kept
term_of trial duration = ok (days trial_days)
term_of package_term none = thrown (business_rule payment_not_found)
term_of package_term (some n) = ok (months n)

module _ (add_months : ℕ → ℕ → ℕ) where
  abbrev pub publication_dates : ℕ → PublicationTerm → Invitation → Invitation
  publication_dates now (months n) i = record i {
    published_at = some now;
    expiry_date = some (add_months (wib_day now) n);
  }
  publication_dates now (days n) i = record i {
    published_at = some now;
    expiry_date = some (wib_day now + n);
  }
  publication_dates now kept i = record i { published_at = some (or_now now i.published_at) }

  -- `recordPublication`: the row that the update returns, and the tables
  unfoldable pub record_publication :
      ℕ → ℕ → ℕ → PublicationTerm → Db → Outcome AppError (Invitation × Db)
  record_publication id scope now term db = elim (find (is_row_of id scope) db.invitations) [
    | none ↦ thrown internal
    | some i ↦ ok (
      publication_dates now term i,
      record db {
        invitations = update_where (is_row_of id scope) (publication_dates now term) db.invitations;
      },
    )
  ]

  -- The callback under the lock.
  unfoldable pub publish_locked :
      ℕ → ℕ → Entitlements → Invitation → Db → Outcome AppError (PublishedDto × Db)
  publish_locked scope now entitlement i db = do
    plan ← decide now i i.status entitlement.purchased_at db
    term ← term_of plan.validity entitlement.duration_months
    moved ←
        transition_within i.id InvitationStatus.published (by_user scope)
          (some (publish_reason plan.trial)) db
    dated ← record_publication i.id scope now term moved.1
    ok (
      record {
        slug = i.slug;
        published_at = dated.0.published_at;
        expiry_date = dated.0.expiry_date;
        trial = plan.trial;
      },
      dated.1,
    )

  module _ (custom_domain_addon : ℕ) (is_uuid : ℕ → Bool)
      (readiness : ℕ → ℕ → Db → Outcome AppError Bool)
      (rejection : String → ℕ → Option SlugRejection) where
    -- `assertSlugUsable`
    abbrev pub assert_slug_usable : Option String → ℕ → Outcome AppError (Unit {0})
    assert_slug_usable none id = thrown (business_rule slug_required)
    assert_slug_usable (some String.[]) id = thrown (business_rule slug_required)
    assert_slug_usable (some slug) id = elim (rejection slug id) [
      | none ↦ ok tt
      | some why ↦ thrown (rejected why)
    ]

    abbrev pub assert_ready : Bool → Outcome AppError (Unit {0})
    assert_ready true = ok tt
    assert_ready false = thrown (business_rule incomplete_invitation)

    -- What stands before the lock, on the tables as they were read there.
    abbrev pub prepare : ℕ → ℕ → Db → Outcome AppError Entitlements
    prepare scope id seen = do
      ready ← readiness scope id seen
      complete ← assert_ready ready
      current ← or_missing (find (owned_by id scope) seen.invitations)
      usable ← assert_slug_usable current.slug id
      for_invitation custom_domain_addon is_uuid id seen

    -- `publish`; `seen` is what stood before the lock, `db` what stands under it.
    unfoldable pub publish :
        PublishingUser → ℕ → ℕ → Db → Db → Outcome AppError (PublishedDto × List Effect × Db)
    publish publisher id now seen db =
        if not publisher.email_verified
        then thrown (forbidden email_not_verified)
        else if not (is_uuid id)
        then thrown not_found
        else do
          entitlement ← prepare publisher.scope id seen
          i ← or_missing (find (owned_by id publisher.scope) db.invitations)
          result ← publish_locked publisher.scope now entitlement i db
          ok (
            result.0,
            invalidation result.0.slug id ++ notify_published id result.0.trial ∷ [],
            result.1,
          )
