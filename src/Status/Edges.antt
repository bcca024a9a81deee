-- ===== src/Status/Edges.antt =====
-- The transitions that each actor may make, as a relation that mentions no rule table: those that
-- docs/PLAN/06 draws, the cancellation of a payment by the user (the document leaves it to the
-- system), deletion by the user or an admin from every other state (`DELETE /invitations/:id`, BR-2.8; not drawn
-- there), and the refund of ADR-019. `reached` says whether the invitation's history ever held `paid`.
use wedding_saas.Base.{String, Bool, false, Option, ◌≡◌, ◌≢◌}
use wedding_saas.Status.Rules.{
  InvitationStatus, draft, pending_payment, paid, published, expired, soft_deleted, ActorKind, user,
  admin, system, lacks_reason,
}

pub data Permits (reason : Option String) (reached : Bool)
    : InvitationStatus → InvitationStatus → ActorKind → Type 0 where
  checkout : Permits reason reached draft pending_payment user
  late_payment : Permits reason reached draft paid system
  trial_publish : reached ≡ false → Permits reason reached draft published user
  payment_confirmed : Permits reason reached pending_payment paid system
  payment_failed : Permits reason reached pending_payment draft system
  payment_cancelled : Permits reason reached pending_payment draft user
  publish_by_user : Permits reason reached paid published user
  publish_by_admin : Permits reason reached paid published admin
  unpublish : Permits reason reached published paid user
  unpublish_trial : reached ≡ false → Permits reason reached published draft user
  expire : Permits reason reached published expired system
  renew : Permits reason reached expired published system
  retention : Permits reason reached expired soft_deleted system
  refund :
      {from : InvitationStatus}
      → from ≢ draft
      → lacks_reason reason ≡ false
      → Permits reason reached from draft admin
  delete_by_user :
      {from : InvitationStatus}
      → from ≢ soft_deleted
      → Permits reason reached from soft_deleted user
  delete_by_admin :
      {from : InvitationStatus}
      → from ≢ soft_deleted
      → Permits reason reached from soft_deleted admin
