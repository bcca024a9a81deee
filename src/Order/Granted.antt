-- ===== src/Order/Granted.antt =====
-- What a paid order of a first publication grants, whatever state its invitation is in.
use wedding_saas.Order.Settled.{settlement_of}
use wedding_saas.Base.{
  refl, find_sound, ◌∙◌, ◌&&◌, arith, ◌==◌, false, ◌≡◌, true, String, Bool, ℕ, some, Option,
}
use wedding_saas.Status.Journey.{same_status_refl}
use wedding_saas.Base.Table.{find-update_where}
use wedding_saas.Status.Laws.{changed}
use wedding_saas.Order.Repository.{set_order_status, order_by_id}
use wedding_saas.Status.Service.{invitation_by_id}
use wedding_saas.Status.Rules.{same_status, Actor, InvitationStatus}
use wedding_saas.Order.Settlement.{is_late, Settlement}
use wedding_saas.Outcomes.{applied_entitlement_skipped, SettlementResult}
use wedding_saas.Db.{Invitation, Db, Order, OrderStatus}

-- The states from which the machine lets a payment take the invitation to `paid`.
abbrev pub awaits_payment : InvitationStatus → Bool
awaits_payment InvitationStatus.draft = true
awaits_payment InvitationStatus.pending_payment = true
awaits_payment _ = false

-- The row of a transition, afterwards.
pub invitation_by_id-changed :
    (id : ℕ) (to : InvitationStatus) (actor : Actor) (reason : Option String) (db : Db)
    (i : Invitation)
    → invitation_by_id id db ≡ some i
    → invitation_by_id id (changed id i.status to actor reason db) ≡ some (record i { status = to })
invitation_by_id-changed id to actor reason db i found =
    find-update_where {A = Invitation} (λ j. j.id == id)
      (λ j. (j.id == id) && same_status j.status i.status) (λ j. record j { status = to })
      (λ j. refl) db.invitations
    ∙ rw found (
        ground
          (arith, find_sound (λ j. j.id == id) db.invitations i found, same_status_refl i.status))

-- Only an order that still waited for its payment is settled without a review.
abbrev pub asks_review : OrderStatus → Bool
asks_review OrderStatus.pending = false
asks_review _ = true

pub late_review : (s : OrderStatus) → is_late (settlement_of s) ≡ asks_review s
late_review OrderStatus.pending = refl
late_review OrderStatus.expired = refl
late_review OrderStatus.failed = refl
late_review OrderStatus.paid = refl
late_review OrderStatus.refunded = refl

-- A settlement of a first publication.
pub record Granted (order : Order) (i : Invitation) (result : SettlementResult) (s : Settlement)
    (db db' : Db) : Type 0 where
  pub became : s.became_paid ≡ true
  pub order_paid : order_by_id order.id db' ≡ some (record order { status = OrderStatus.paid })
  pub entitled :
      awaits_payment i.status ≡ true
      → (s.result ≡ result)
        × (s.needs_review ≡ asks_review order.status)
        × (invitation_by_id order.invitation_id db'
            ≡ some (record i { status = InvitationStatus.paid }))
  pub not_entitled :
      awaits_payment i.status ≡ false
      → (s.result ≡ applied_entitlement_skipped)
        × (s.needs_review ≡ true)
        × (db'.invitations ≡ db.invitations)
        × (db'.history ≡ db.history)

module _ (add_months : ℕ → ℕ → ℕ) (now : ℕ) (db : Db) (order : Order) (i : Invitation)
    (result : SettlementResult) where
  abbrev with_order_paid : Db
  with_order_paid = (set_order_status order.id order.status OrderStatus.paid db).1
