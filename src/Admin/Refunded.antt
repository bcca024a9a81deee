-- ===== src/Admin/Refunded.antt =====
-- What a refund leaves: the tables and the answer after it.
use wedding_saas.Base.Text.{is_space, is_blank}
use wedding_saas.Base.Table.{update_where}
use wedding_saas.Status.Rules.{admin, lacks_reason, assert_allowed, InvitationStatus}
use Prim.Native.String
use wedding_saas.Errors.{
  not_found, order_not_paid, invalid_status_transition, conflict, business_rule,
}
use wedding_saas.Status.Laws.{transition_within-Permits_iff, changed}
use wedding_saas.Status.Service.{transition_within, change, invitation_by_id}
use wedding_saas.Status.Edges.{Permits}
use wedding_saas.Order.Repository.{order_by_id}
use wedding_saas.Admin.Refund.{
  RefundResult, refund_reason, refund_result, by_admin, refund_within, demote_order, AdminDb,
}
use wedding_saas.Base.{
  Outcome, ◌∙◌, Bool-cases, inr, inl, Option-cases, ◌⊎◌, none, ◌==◌, find_sound, thrown, false,
  ==_iff, [], ◌∷◌, ◌++◌, ok, ◌≢◌, some, refl, true, ◌≡◌, String, ℕ,
}
use Prim.Native.String.append
use mathlib.Core.Path.{ap, subst, sym}
use wedding_saas.Db.{Invitation, Order, same_order_status, OrderStatus}

refund_reason-lacks_reason : (why : String) → lacks_reason (some (refund_reason why)) ≡ false
unfolding lacks_reason is_blank is_space
refund_reason-lacks_reason why =
    ap is_blank (Prim.Native.String.append.cons "a" "dmin refund: " why)

paid_only :
    (st : OrderStatus) → same_order_status st OrderStatus.paid ≡ true → st ≡ OrderStatus.paid
paid_only OrderStatus.paid h = refl
paid_only OrderStatus.pending h = cc
paid_only OrderStatus.failed h = cc
paid_only OrderStatus.expired h = cc
paid_only OrderStatus.refunded h = cc

module _ (admin_id id : ℕ) (s : AdminDb) (o : Order) (i : Invitation)
    (found : order_by_id id s.tables ≡ some o)
    (stored : invitation_by_id o.invitation_id s.tables ≡ some i) where
  abbrev pub Refundable : Type 0
  Refundable = (o.status ≡ OrderStatus.paid) × (i.status ≢ InvitationStatus.draft)

  -- The tables after a refund.
  abbrev pub refunded_db : String → AdminDb
  refunded_db why = record {
    tables =
        changed i.id i.status InvitationStatus.draft
          (record { kind = admin; user_id = some admin_id })
          (some (String.◌++◌ "admin refund: " why))
          (record s.tables {
            orders =
                update_where (λ p. p.id == id) (λ p. record p { status = OrderStatus.refunded })
                  s.tables.orders;
          });
    audit =
        s.audit
        ++ record {
          admin_id = admin_id;
          action = "order.refund";
          resource_id = o.id;
          reason = why;
          invitation_status_before = i.status;
          amount_total_before = o.amount_total;
        }
          ∷ [];
  }

  abbrev pub refund_answer : RefundResult
  refund_answer = record {
    order_id = o.id;
    invitation_id = i.id;
    invitation_slug = i.slug;
    previous_invitation_status = i.status;
  }

  same_id : i.id ≡ o.invitation_id
  same_id =
      (==_iff i.id o.invitation_id).0
        (find_sound (λ j. j.id == o.invitation_id) s.tables.invitations i stored)

  stored_demoted : invitation_by_id i.id (demote_order id s.tables) ≡ some i
  stored_demoted = subst (λ n. invitation_by_id n s.tables ≡ some i) (sym same_id) stored

  moves :
      (why : String)
      → i.status ≢ InvitationStatus.draft
      → transition_within i.id InvitationStatus.draft
          (by_admin admin_id)
          (some (refund_reason why))
          (demote_order id s.tables)
        ≡ ok ((i.status, InvitationStatus.draft), (refunded_db why).tables)
  moves why ne =
      (transition_within-Permits_iff i.id InvitationStatus.draft (by_admin admin_id)
          (some (refund_reason why)) (demote_order id s.tables) i stored_demoted).1
        (Permits.refund ne (refund_reason-lacks_reason why))

  stays :
      (why : String)
      → i.status ≡ InvitationStatus.draft
      → transition_within i.id InvitationStatus.draft
          (by_admin admin_id)
          (some (refund_reason why))
          (demote_order id s.tables)
        ≡ thrown (business_rule invalid_status_transition)
  unfolding transition_within change assert_allowed
  stays why same = rw (stored_demoted, transition_within) (rw same refl)

  pub within-Refundable :
      (why : String)
      → o.status ≡ OrderStatus.paid
      → i.status ≢ InvitationStatus.draft
      → refund_within admin_id id why s ≡ ok (refund_result o i, refunded_db why)
  unfolding refund_within
  within-Refundable why paid ne =
      rw (found, refund_within) (rw paid (rw stored (rw (moves why ne) refl)))

  pub within-draft :
      (why : String)
      → o.status ≡ OrderStatus.paid
      → i.status ≡ InvitationStatus.draft
      → refund_within admin_id id why s ≡ thrown (business_rule invalid_status_transition)
  unfolding refund_within
  within-draft why paid same =
      rw (found, refund_within) (rw paid (rw stored (rw (stays why same) refl)))

pub ok_injective : {E A : Type 0} {a b : A} → Path (Outcome E A) (ok a) (ok b) → a ≡ b
ok_injective h = cc

draft-cases :
    (st : InvitationStatus) → (st ≡ InvitationStatus.draft) ⊎ (st ≢ InvitationStatus.draft)
draft-cases InvitationStatus.draft = inl refl
draft-cases InvitationStatus.pending_payment = inr (λ e. cc)
draft-cases InvitationStatus.paid = inr (λ e. cc)
draft-cases InvitationStatus.published = inr (λ e. cc)
draft-cases InvitationStatus.expired = inr (λ e. cc)
draft-cases InvitationStatus.soft_deleted = inr (λ e. cc)

not_both : {E A : Type 0} {m : Outcome E A} {e : E} {a : A} → m ≡ thrown e → m ≡ ok a → ⊥
not_both h k = cc

module _ (admin_id id : ℕ) (why : String) (s : AdminDb) where
  within-missing :
      order_by_id id s.tables ≡ none → refund_within admin_id id why s ≡ thrown not_found
  unfolding refund_within
  within-missing missing = rw (missing, refund_within) refl

  within-unpaid :
      (o : Order)
      → order_by_id id s.tables ≡ some o
      → same_order_status o.status OrderStatus.paid ≡ false
      → refund_within admin_id id why s ≡ thrown (conflict order_not_paid none)
  unfolding refund_within
  within-unpaid o found unpaid = rw (found, refund_within) (rw unpaid refl)

  within-gone :
      (o : Order)
      → order_by_id id s.tables ≡ some o
      → same_order_status o.status OrderStatus.paid ≡ true
      → invitation_by_id o.invitation_id s.tables ≡ none
      → refund_within admin_id id why s ≡ thrown not_found
  unfolding refund_within
  within-gone o found is_paid gone = rw (found, refund_within) (rw is_paid (rw gone refl))

  -- The order and the invitation that a refund takes.
  pub record Took (r : RefundResult × AdminDb) : Type 0 where
    pub o : Order
    pub i : Invitation
    pub found : order_by_id id s.tables ≡ some o
    pub stored : invitation_by_id o.invitation_id s.tables ≡ some i
    pub paid : o.status ≡ OrderStatus.paid
    pub no_draft : i.status ≢ InvitationStatus.draft
    pub left : r ≡ (refund_result o i, refunded_db admin_id id s o i found stored why)

  took :
      (r : RefundResult × AdminDb) (o : Order) (i : Invitation)
      → order_by_id id s.tables ≡ some o
      → invitation_by_id o.invitation_id s.tables ≡ some i
      → o.status ≡ OrderStatus.paid
      → refund_within admin_id id why s ≡ ok r
      → Took r
  took r o i found stored paid h = elim (draft-cases i.status) [
    | inl same ↦ absurd (not_both (within-draft admin_id id s o i found stored why paid same) h)
    | inr ne ↦ record {
      o = o;
      i = i;
      found = found;
      stored = stored;
      paid = paid;
      no_draft = ne;
      left = ok_injective (sym h ∙ within-Refundable admin_id id s o i found stored why paid ne);
    }
  ]

  pub within-Took : (r : RefundResult × AdminDb) → refund_within admin_id id why s ≡ ok r → Took r
  within-Took r h = elim (Option-cases (order_by_id id s.tables)) [
    | inl missing ↦ absurd (not_both (within-missing missing) h)
    | inr (o, found) ↦ elim (Bool-cases (same_order_status o.status OrderStatus.paid)) [
      | inr unpaid ↦ absurd (not_both (within-unpaid o found unpaid) h)
      | inl is_paid ↦ elim (Option-cases (invitation_by_id o.invitation_id s.tables)) [
        | inl gone ↦ absurd (not_both (within-gone o found is_paid gone) h)
        | inr (i, stored) ↦ took r o i found stored (paid_only o.status is_paid) h
      ]
    ]
  ]
