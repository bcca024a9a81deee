-- ===== src/Status/Laws.antt =====
-- The transition service against the relation of Edges.
use wedding_saas.Base.Table.{update_where}
use wedding_saas.Base.{
  [], ◌∷◌, ◌++◌, ◌&&◌, ◌==◌, inl, ◌⊎◌, ◌≢◌, ◌↔◌, inr, String, ℕ, false, Option, some, ◌≡◌, refl, ok,
  arith,
}
use wedding_saas.Status.Rules.{
  default_reason, same_status, InvitationStatus, draft, paid, soft_deleted, ActorKind, user, admin,
  Actor, assert_allowed, lacks_reason,
}
use wedding_saas.Status.Edges.{
  Permits, checkout, late_payment, trial_publish, payment_confirmed, payment_failed,
  payment_cancelled, publish_by_user, publish_by_admin, unpublish, unpublish_trial, expire, renew,
  retention, refund, delete_by_user, delete_by_admin,
}
use wedding_saas.Status.Service.{
  reason_or, ever_reached, change, invitation_by_id, transition_within,
}
use wedding_saas.Db.{Db, Invitation}

ruleset edges = (
  checkout, late_payment, trial_publish, payment_confirmed, payment_failed, payment_cancelled,
  publish_by_user, publish_by_admin, unpublish, unpublish_trial, expire, renew, retention, refund,
  delete_by_user, delete_by_admin,
)

change-Permits :
    (from to : InvitationStatus) (actor : Actor) (kind : ActorKind) (id : ℕ)
    (reason : Option String) (db : Db) {r : InvitationStatus × InvitationStatus} {db' : Db}
    → actor.kind ≡ kind
    → change id to actor reason from db ≡ ok (r, db')
    → Permits reason (ever_reached id paid db) from to kind
unfolding change assert_allowed
change-Permits draft to actor kind id reason db k h = grind (arith, edges)
change-Permits _ to actor kind id reason db k h = grind (arith, edges)

-- The tables that a permitted change leaves, written out: the row keeps all but its status, one row
-- of the history names the edge, the actor and the reason, and every other table is as it was.
abbrev pub changed : ℕ → InvitationStatus → InvitationStatus → Actor → Option String → Db → Db
changed id from to actor reason db = record {
  invitations =
      update_where (λ i. (i.id == id) && same_status i.status from)
        (λ i. record {
          id = i.id;
          owner_id = i.owner_id;
          slug = i.slug;
          status = to;
          published_at = i.published_at;
          expiry_date = i.expiry_date;
          deleted_at = i.deleted_at;
        })
        db.invitations;
  history =
      db.history
      ++ record {
        invitation_id = id;
        from_status = some from;
        to_status = to;
        changed_by = actor.user_id;
        reason = reason_or reason (default_reason from to actor);
      }
        ∷ [];
  orders = db.orders;
  packages = db.packages;
  addons = db.addons;
  payments = db.payments;
  notifications = db.notifications;
}

abbrev Succeeds : ℕ → InvitationStatus → InvitationStatus → Actor → Option String → Db → Type 0
Succeeds id from to actor reason db =
    change id to actor reason from db ≡ ok ((from, to), changed id from to actor reason db)

refund-Succeeds :
    (from : InvitationStatus) (actor : Actor) (id : ℕ) (reason : Option String) (db : Db)
    → actor.kind ≡ admin
    → from ≢ draft
    → lacks_reason reason ≡ false
    → Succeeds id from draft actor reason db
unfolding change assert_allowed
refund-Succeeds draft actor id reason db k ne has = absurd (ne refl)
refund-Succeeds _ actor id reason db k ne has = ground arith

delete-Succeeds :
    (from : InvitationStatus) (actor : Actor) (id : ℕ) (reason : Option String) (db : Db)
    → (actor.kind ≡ admin) ⊎ (actor.kind ≡ user)
    → from ≢ soft_deleted
    → Succeeds id from soft_deleted actor reason db
unfolding change assert_allowed
delete-Succeeds soft_deleted actor id reason db k ne = absurd (ne refl)
delete-Succeeds _ actor id reason db k ne = ground arith

Permits-change :
    {from to : InvitationStatus} (actor : Actor) {kind : ActorKind} (id : ℕ)
    (reason : Option String) (db : Db)
    → actor.kind ≡ kind
    → Permits reason (ever_reached id paid db) from to kind
    → Succeeds id from to actor reason db
unfolding change assert_allowed
Permits-change actor id reason db k checkout = ground arith
Permits-change actor id reason db k late_payment = ground arith
Permits-change actor id reason db k (trial_publish never) = ground arith
Permits-change actor id reason db k payment_confirmed = ground arith
Permits-change actor id reason db k payment_failed = ground arith
Permits-change actor id reason db k payment_cancelled = ground arith
Permits-change actor id reason db k publish_by_user = ground arith
Permits-change actor id reason db k publish_by_admin = ground arith
Permits-change actor id reason db k unpublish = ground arith
Permits-change actor id reason db k (unpublish_trial never) = ground arith
Permits-change actor id reason db k expire = ground arith
Permits-change actor id reason db k renew = ground arith
Permits-change actor id reason db k retention = ground arith
Permits-change actor id reason db k (refund {from} ne has) =
    refund-Succeeds from actor id reason db k ne has
Permits-change actor id reason db k (delete_by_user {from} ne) =
    delete-Succeeds from actor id reason db (inr k) ne
Permits-change actor id reason db k (delete_by_admin {from} ne) =
    delete-Succeeds from actor id reason db (inl k) ne

-- What `change` answers when it succeeds: nothing but the status of the row and the history move.
pub change-eq :
    (from to : InvitationStatus) (actor : Actor) (id : ℕ) (reason : Option String) (db : Db)
    {r : InvitationStatus × InvitationStatus} {db' : Db}
    → change id to actor reason from db ≡ ok (r, db')
    → (r ≡ (from, to)) × (db' ≡ changed id from to actor reason db)
unfolding change
change-eq from to actor id reason db h = ground arith

-- For an invitation that is stored, the service makes a transition exactly when the relation
-- `Permits` allows it to the actor, given the reason and whether the history ever held `paid`:
-- the edges that docs/PLAN/06 draws, the user's cancellation of a payment, deletion by the user or an admin
-- from every other state, and ADR-019's refund; then the row's status becomes the target, one
-- history row with the actor and the reason is appended, and nothing else changes.
pub transition_within-Permits_iff :
    (id : ℕ) (to : InvitationStatus) (actor : Actor) (reason : Option String) (db : Db)
    (current : Invitation)
    → invitation_by_id id db ≡ some current
    → (transition_within id to actor reason db
        ≡ ok ((current.status, to), changed id current.status to actor reason db))
      ↔ Permits reason (ever_reached id paid db) current.status to actor.kind
unfolding transition_within
transition_within-Permits_iff id to actor reason db current found =
    rw (found, transition_within)
      (
        λ h. change-Permits current.status to actor actor.kind id reason db refl h,
        λ p. Permits-change actor id reason db refl p,
      )
