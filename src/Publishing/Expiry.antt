-- ===== src/Publishing/Expiry.antt =====
-- backend/api/src/modules/publishing/invitation-expiry.service.ts, with
-- `overduePublishedInvitations` of shared/tenancy/invitation-repository.ts.
use wedding_saas.Status.Service.{transition_within}
use wedding_saas.Publishing.Publish.{notify_expired, invalidation, Effect}
use wedding_saas.Status.Rules.{same_status, InvitationStatus, system, Actor}
use wedding_saas.Db.{wib_day, Db, Invitation}
use wedding_saas.Base.{
  ◌++◌, ◌+◌, ok, is_none, ◌&&◌, thrown, ltb, leb, keep, take, none, if◌then◌else◌, false, [], ◌∷◌,
  some, Bool, ℕ, String, Option, List,
}

-- `expiry_date < today in WIB`; null is not before anything.
abbrev pub is_past : ℕ → Option ℕ → Bool
is_past now none = false
is_past now (some expiry) = ltb expiry (wib_day now)

abbrev pub is_overdue : ℕ → Invitation → Bool
is_overdue now i =
    same_status i.status InvitationStatus.published
    && is_none i.deleted_at
    && is_past now i.expiry_date

abbrev pub day_of : Option ℕ → ℕ
day_of none = 0
day_of (some day) = day

-- `order by expiry_date`: the order of rows with one date is the database's.
unfoldable pub insert_by_expiry : Invitation → List Invitation → List Invitation
insert_by_expiry i [] = i ∷ []
insert_by_expiry i (j ∷ js) =
    let rest = insert_by_expiry i js in
    if leb (day_of i.expiry_date) (day_of j.expiry_date) then i ∷ j ∷ js else j ∷ rest

unfoldable pub by_expiry : List Invitation → List Invitation
by_expiry [] = []
by_expiry (i ∷ is) = insert_by_expiry i (by_expiry is)

-- `overduePublishedInvitations`
unfoldable pub overdue_published : ℕ → ℕ → Db → List Invitation
overdue_published limit now db = take limit (by_expiry (keep (is_overdue now) db.invitations))

abbrev pub by_system : Actor
by_system = record { kind = system; user_id = none }

abbrev pub expiry_reason : String
expiry_reason = "expiry_date passed, daily job"

pub record Swept : Type 0 where
  pub expired_count : ℕ
  pub effects : List Effect
  pub db : Db

-- One item of the loop: the transition in a transaction of its own; a throw is logged and the loop
-- goes on.
unfoldable pub expire_one : Invitation → Swept → Swept
expire_one item so_far =
    elim (transition_within item.id InvitationStatus.expired by_system (some expiry_reason)
      so_far.db) [
        | thrown e ↦ so_far
        | ok (r, db') ↦ record {
          expired_count = so_far.expired_count + 1;
          effects =
              so_far.effects
              ++ invalidation item.slug item.id
              ++ notify_expired item.id item.expiry_date ∷ [];
          db = db';
        }
      ]

unfoldable pub expire_all : List Invitation → Swept → Swept
expire_all [] so_far = so_far
expire_all (item ∷ items) so_far = expire_all items (expire_one item so_far)

-- `expireOverdueInvitations`
unfoldable pub expire_overdue_invitations : ℕ → ℕ → Db → Swept
expire_overdue_invitations limit now db =
    expire_all (overdue_published limit now db)
      (record { expired_count = 0; effects = []; db = db })
