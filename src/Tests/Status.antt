-- ===== src/Tests/Status.antt =====
-- The status machine on a draft whose owner checks out.
use wedding_saas.Base.{ok, ◌≡◌, refl, some, none}
use wedding_saas.Status.Service.{change, transition_within}
use wedding_saas.Status.Rules.{
  from_any, transitions, rules_for, assert_allowed, user, InvitationStatus, Actor,
}
use wedding_saas.Db.{Db}
use wedding_saas.Tests.Data.{invitation_in, row_to, draft_db}
use wedding_saas.Status.Laws.{changed, transition_within-Permits_iff}
use wedding_saas.Status.Edges.{checkout}
use wedding_saas.Status.Journey.{IsConsistent, transition_within-IsConsistent, extended, empty}

abbrev owner : Actor
owner = record { kind = user; user_id = some 7 }

abbrev waiting_db : Db
waiting_db = changed 1 InvitationStatus.draft InvitationStatus.pending_payment owner none draft_db

transition_within-Permits_iff_example :
    transition_within 1 InvitationStatus.pending_payment owner none draft_db
    ≡ ok ((InvitationStatus.draft, InvitationStatus.pending_payment), waiting_db)
transition_within-Permits_iff_example =
    (transition_within-Permits_iff 1 InvitationStatus.pending_payment owner none draft_db
        (invitation_in InvitationStatus.draft) refl).1
      checkout

draft_db-IsConsistent : IsConsistent draft_db
draft_db-IsConsistent = record {
  chained = extended (row_to none InvitationStatus.draft) empty refl refl;
  current = (refl, tt);
}

transition_within-IsConsistent_example : IsConsistent waiting_db
unfolding transition_within change assert_allowed rules_for transitions from_any
transition_within-IsConsistent_example =
    transition_within-IsConsistent 1 InvitationStatus.pending_payment owner none draft_db waiting_db
      draft_db-IsConsistent refl
