-- ===== src/Status/Service.antt =====
-- `transitionWithin`, `transition` and `recordCreation` of invitation-status.service.ts.
use wedding_saas.Base.{
  ℕ, String, Bool, ◌&&◌, Option, none, some, [], ◌∷◌, ◌++◌, any, find, ◌==◌, if◌then◌else◌, ok,
  thrown,
}
use wedding_saas.Base.Table.{update_where}
use wedding_saas.Errors.{not_found, business_rule, invalid_status_transition}
use wedding_saas.Status.Rules.{
  InvitationStatus, draft, Actor, same_status, assert_allowed, default_reason,
}
use wedding_saas.Db.{HistoryRow, Db, Invitation, Tx}

-- `SELECT … FROM invitations WHERE id = … FOR UPDATE LIMIT 1`
abbrev pub invitation_by_id : ℕ → Db → Option Invitation
invitation_by_id id db = find (λ i. i.id == id) db.invitations

-- Whether the invitation's history holds a row to this status: the `neverReached` query here, and
-- `everReached` of shared/tenancy/invitation-repository.ts for one status.
abbrev pub ever_reached : ℕ → InvitationStatus → Db → Bool
ever_reached id status db =
    any (λ h. (h.invitation_id == id) && same_status h.to_status status) db.history

abbrev violates : ℕ → Option InvitationStatus → Db → Bool
violates id none db = Bool.false
violates id (some status) db = ever_reached id status db

-- `UPDATE invitations SET status = to WHERE id = … AND status = from`
abbrev pub set_status : ℕ → InvitationStatus → InvitationStatus → Db → Db
set_status id from to db = record db {
  invitations =
      update_where (λ i. (i.id == id) && same_status i.status from) (λ i. record i { status = to })
        db.invitations;
}

abbrev pub reason_or : Option String → String → String
reason_or none text = text
reason_or (some reason) text = reason

abbrev pub history_row :
    ℕ → InvitationStatus → InvitationStatus → Actor → Option String → HistoryRow
history_row id from to actor reason = record {
  invitation_id = id;
  from_status = some from;
  to_status = to;
  changed_by = actor.user_id;
  reason = reason_or reason (default_reason from to actor);
}

abbrev pub write_history : ℕ → InvitationStatus → InvitationStatus → Actor → Option String → Db → Db
write_history id from to actor reason db = record db {
  history = db.history ++ history_row id from to actor reason ∷ [];
}

-- The body of `transitionWithin` once the row is read and locked.
unfoldable pub change :
    ℕ
    → InvitationStatus
    → Actor
    → Option String
    → InvitationStatus
    → Tx (InvitationStatus × InvitationStatus)
change id to actor reason from db = elim (assert_allowed from to actor reason) [
  | thrown e ↦ thrown e
  | ok rule ↦
      if violates id rule.never_reached db
      then thrown (business_rule invalid_status_transition)
      else ok ((from, to), write_history id from to actor reason (set_status id from to db))
]

unfoldable pub transition_within :
    ℕ → InvitationStatus → Actor → Option String → Tx (InvitationStatus × InvitationStatus)
unfolding change
transition_within id to actor reason db = elim (invitation_by_id id db) [
  | none ↦ thrown not_found
  | some current ↦ change id to actor reason current.status db
]

-- The row that marks an invitation's creation.
unfoldable pub record_creation : ℕ → Actor → Tx (Unit {0})
record_creation id actor db = ok (
  tt,
  record db {
    history =
        db.history
        ++ record {
          invitation_id = id;
          from_status = none;
          to_status = draft;
          changed_by = actor.user_id;
          reason = "created";
        }
          ∷ [];
  },
)
