-- ===== src/Tests/Publishing.antt =====
-- A published invitation with its package, taken back and republished; a draft on its first trial;
-- and a sweep over two invitations.
use wedding_saas.Order.Repository.{owned_by}
use wedding_saas.Publishing.Gate.{publish-IsReady, IsReady}
use wedding_saas.Publishing.Trial.{trial_ends}
use wedding_saas.Status.Service.{invitation_by_id, transition_within}
use wedding_saas.Publishing.Unpublish.{unpublish_locked}
use wedding_saas.Publishing.Cleared.{sweep-Expires, IsExpired}
use wedding_saas.Publishing.Published.{published_db, published_dto}
use wedding_saas.Publishing.Resumed.{
  unpublish-publish, unpublish_locked-Published_iff, unpublished_db,
}
use wedding_saas.Publishing.Expiry.{is_overdue, overdue_published, expire_overdue_invitations}
use wedding_saas.Publishing.Entitlements.{
  without_package, latest, latest_paid_purchase, from_package, for_invitation, Entitlements,
}
use wedding_saas.Db.{wib_day, OrderStatus, new_publish, Invitation, HistoryRow, Order, Db}
use wedding_saas.Base.{
  ◌++◌, find, ◌+◌, refl, ◌==◌, ok, [], ◌≤◌, some, none, length, false, ◌∷◌, ◌↔◌, ℕ, true, ◌≡◌,
  Option, List, All,
}
use wedding_saas.Tests.Data.{
  row_to, db_with, add_months, order_of, created_only, invitation_in, basic,
}
use wedding_saas.Publishing.Publish.{
  notify_published, invalidation, publish, PublishingUser, kept, record_publication, days, decide,
  publish_locked, PublishedDto,
}
use wedding_saas.Status.Service
use wedding_saas.Status.Rules.{from_any, transitions, rules_for, assert_allowed, InvitationStatus}

abbrev paid_order : Order
paid_order = order_of new_publish OrderStatus.paid

abbrev bought_basic : Entitlements
bought_basic = from_package basic false (some 0)

abbrev dated : InvitationStatus → Option ℕ → Option ℕ → Invitation
dated status published_at expiry = record (invitation_in status) {
  slug = some "ani-budi";
  published_at = published_at;
  expiry_date = expiry;
}

abbrev lived_db : Invitation → List HistoryRow → Db
lived_db i history = record (db_with InvitationStatus.draft paid_order history) {
  invitations = i ∷ [];
}

abbrev shown : Invitation
shown = dated InvitationStatus.published (some 86400) (some 180)

abbrev paid_history : List HistoryRow
paid_history =
    row_to none InvitationStatus.draft
    ∷ row_to (some InvitationStatus.draft) InvitationStatus.paid
    ∷ row_to (some InvitationStatus.paid) InvitationStatus.published
    ∷ []

abbrev shown_db : Db
shown_db = lived_db shown paid_history

unpublish_locked-Published_iff_example :
    (InvitationStatus.published ≡ InvitationStatus.published) ↔ (
      unpublish_locked 7 shown shown_db
      ≡ ok (InvitationStatus.paid, unpublished_db 7 shown true shown_db))
unpublish_locked-Published_iff_example = unpublish_locked-Published_iff 7 shown shown_db refl

unpublish-publish_example :
    let db1 = unpublished_db 7 shown true shown_db in
    (unpublish_locked 7 shown shown_db ≡ ok (InvitationStatus.paid, db1))
    × ((r : PublishedDto × Db) × (publish_locked add_months 7 172800 bought_basic
            (dated InvitationStatus.paid (some 86400) (some 180))
            db1
          ≡ ok r)
        × (invitation_by_id 1 r.1 ≡ some shown))
unpublish-publish_example =
    unpublish-publish 7 shown shown_db refl add_months 172800 bought_basic refl refl refl refl refl

abbrev fresh : Invitation
fresh = dated InvitationStatus.draft none none

abbrev fresh_db : Db
fresh_db = lived_db fresh created_only

abbrev trial_row : Invitation
trial_row = dated InvitationStatus.draft (some 86400) (some 4)

abbrev trial_history : List HistoryRow
trial_history =
    row_to none InvitationStatus.draft
    ∷ row_to (some InvitationStatus.draft) InvitationStatus.published
    ∷ row_to (some InvitationStatus.published) InvitationStatus.draft
    ∷ []

abbrev trial_db : Db
trial_db = lived_db trial_row trial_history

abbrev tried : PublishedDto × Db
tried = (
  published_dto add_months 7 86400 (without_package 20) fresh fresh_db refl refl true (days 3),
  published_db add_months 7 86400 (without_package 20) fresh fresh_db refl refl true (days 3),
)

trial_ends_example :
    (tried.0.expiry_date ≡ some (wib_day 86400 + 3))
    × (tried.0.expiry_date ≡ tried.0.expiry_date)
    × (wib_day 172800 ≤ wib_day 86400 + 3)
unfolding publish_locked decide transition_within Service.change assert_allowed rules_for
    transitions from_any record_publication
trial_ends_example =
    trial_ends add_months 7 86400 172800 (without_package 20) (without_package 20) fresh trial_row
      fresh_db trial_db tried
      (
        published_dto add_months 7 172800 (without_package 20) trial_row trial_db refl refl true
            kept,
        published_db add_months 7 172800 (without_package 20) trial_row trial_db refl refl true
            kept,
      )
      refl refl refl refl refl refl refl refl refl refl refl

abbrev two_db : Db
two_db = record shown_db {
  invitations = shown ∷ record (dated InvitationStatus.published (some 0) (some 1)) { id = 2 } ∷ [];
}

sweep-Expires_example :
    let r = expire_overdue_invitations 200 864000 two_db in
    let items = overdue_published 200 864000 two_db in
    (r.expired_count ≡ length items)
    × All (λ i. (is_overdue 864000 i ≡ true) × IsExpired r.db i) items
    × ((id : ℕ)
        → All (λ i. (i.id == id) ≡ false) items
        → invitation_by_id id r.db ≡ invitation_by_id id two_db)
sweep-Expires_example = sweep-Expires 200 864000 two_db ((refl, tt), (tt, tt))

abbrev verified_owner : PublishingUser
verified_owner = record { scope = 7; email_verified = true }

publish-IsReady_example :
    (true ≡ true)
    × ((e : Entitlements) × (i : Invitation) × IsReady add_months 9
          (λ id. true)
          (λ scope id db. ok true)
          (λ slug id. none)
          7
          1
          trial_db
          e
        × (find (owned_by 1 7) trial_db.invitations ≡ some i)
        × (publish_locked add_months 7 172800 e i trial_db
            ≡ ok (
              published_dto add_months 7 172800 bought_basic trial_row trial_db refl refl true kept,
              published_db add_months 7 172800 bought_basic trial_row trial_db refl refl true kept,
            )))
unfolding publish for_invitation latest_paid_purchase latest publish_locked decide transition_within
    Service.change assert_allowed rules_for transitions from_any record_publication
publish-IsReady_example =
    publish-IsReady add_months 9 (λ id. true) (λ scope id db. ok true) (λ slug id. none)
      verified_owner 1 172800 trial_db trial_db
      (published_dto add_months 7 172800 bought_basic trial_row trial_db refl refl true kept)
      (invalidation (some "ani-budi") 1 ++ notify_published 1 true ∷ [])
      (published_db add_months 7 172800 bought_basic trial_row trial_db refl refl true kept) refl
