-- ===== src/Order/Renewed.antt =====
-- What a paid renewal grants, whatever state its invitation is in.
use wedding_saas.Order.Settled.{opening-settlement_of, settlement_of, order_by_id-set_order_status}
use wedding_saas.Order.Granted.{late_review, asks_review, invitation_by_id-changed}
use wedding_saas.Base.Table.{find-update_where}
use wedding_saas.Status.Laws.{changed}
use wedding_saas.Order.Repository.{
  set_order_status, in_status, order_by_id, extend_expiry, later_expiry, apply_renewal,
}
use wedding_saas.Status.Service.{transition_within, invitation_by_id, change}
use wedding_saas.Status.Rules.{same_status, assert_allowed, InvitationStatus}
use wedding_saas.Order.Settlement.{
  Settlement, settle_order, opening, settle_paid, renewal_reason, try_transition, settled,
  system_actor, grant,
}
use wedding_saas.Outcomes.{SettlementResult}
use wedding_saas.Db.{wib_day, renewal, Package, Invitation, Db, Order, OrderStatus}
use wedding_saas.Base.{
  none, ltb, ◌≢◌, ap, ==_iff, count_if, true, Bool-cases, if◌then◌else◌, find_sound, ◌∙◌, ◌==◌,
  find, arith, ◌≡◌, String, ℕ, refl, some, Option, inl, inr, ok,
}

-- The later of a day and a date; the day, where there is no date.
abbrev pub latest_of : ℕ → Option ℕ → ℕ
latest_of today none = today
latest_of today (some date) = if ltb today date then date else today

later_expiry-latest_of :
    (add_months : ℕ → ℕ → ℕ) (now months : ℕ) (expiry : Option ℕ)
    → later_expiry add_months now months expiry ≡ add_months (latest_of (wib_day now) expiry) months
later_expiry-latest_of add_months now months none = ap (λ d. add_months d months) (omega arith)
later_expiry-latest_of add_months now months (some date) =
    ap (λ d. add_months d months) (ground arith)

change-renewed :
    (status : InvitationStatus) (id : ℕ) (reason : Option String) (db : Db)
    → status ≡ InvitationStatus.expired
    → change id InvitationStatus.published system_actor reason status db
      ≡ ok (
        (status, InvitationStatus.published),
        changed id status InvitationStatus.published system_actor reason db,
      )
unfolding change assert_allowed
change-renewed status id reason db h = ground arith

abbrev pub renewed_status : InvitationStatus → InvitationStatus
renewed_status status =
    if same_status status InvitationStatus.expired then InvitationStatus.published else status

is_expired :
    (status : InvitationStatus)
    → same_status status InvitationStatus.expired ≡ true
    → status ≡ InvitationStatus.expired
is_expired InvitationStatus.expired h = refl
is_expired _ h = cc

module _ (add_months : ℕ → ℕ → ℕ) (now : ℕ) where
  abbrev pub extended : Invitation → ℕ → Invitation
  extended i months = record i {
    expiry_date = some (later_expiry add_months now months i.expiry_date);
  }

  invitation_by_id-extend_expiry :
      (id months : ℕ) (db : Db) (i : Invitation)
      → invitation_by_id id db ≡ some i
      → invitation_by_id id (extend_expiry add_months now id months db) ≡ some (extended i months)
  invitation_by_id-extend_expiry id months db i found =
      find-update_where {A = Invitation} (λ j. j.id == id) (λ j. j.id == id)
        (λ j. extended j months) (λ j. refl) db.invitations
      ∙ rw found (ground (arith, find_sound (λ j. j.id == id) db.invitations i found))

  grant-renewal :
      (db : Db) (order : Order) (i : Invitation) (p : Package) (result : SettlementResult)
      → invitation_by_id order.invitation_id db ≡ some i
      → find (λ q. q.id == order.package_id) db.packages ≡ some p
      → (db' : Db) × (grant add_months now renewal order result db ≡ ok (settled result order, db'))
        × (invitation_by_id order.invitation_id db'
            ≡ some (record (extended i p.duration_months) { status = renewed_status i.status }))
        × (db'.orders ≡ db.orders)
  unfolding grant apply_renewal transition_within
  grant-renewal db order i p result stored priced =
      elim (Bool-cases (same_status i.status InvitationStatus.expired)) [
        | inl over ↦ (
          changed order.invitation_id i.status InvitationStatus.published system_actor
              (some (renewal_reason result)) db1,
          run ∙ rw over (renewed over),
          invitation_by_id-changed order.invitation_id InvitationStatus.published system_actor
                (some (renewal_reason result)) db1 (extended i p.duration_months) found1
              ∙ rw over,
          refl,
        )
        | inr live ↦ (db1, run ∙ rw live, found1 ∙ rw live, refl)
      ]
    where
      db1 : Db
      db1 = extend_expiry add_months now order.invitation_id p.duration_months db

      found1 : invitation_by_id order.invitation_id db1 ≡ some (extended i p.duration_months)
      found1 = invitation_by_id-extend_expiry order.invitation_id p.duration_months db i stored

      run : grant add_months now renewal order result db ≡ (
          if same_status i.status InvitationStatus.expired
          then try_transition order InvitationStatus.published (renewal_reason result) result db1
          else ok (settled result order, db1))
      run =
          let e : apply_renewal add_months now order.invitation_id order.package_id db
              ≡ some (i.status, db1) =
            rw (priced, apply_renewal) (rw stored refl) in
          rw (e, grant) refl

      renewed :
          same_status i.status InvitationStatus.expired ≡ true
          → try_transition order InvitationStatus.published (renewal_reason result) result db1
            ≡ ok (
              settled result order,
              changed order.invitation_id i.status InvitationStatus.published system_actor
                  (some (renewal_reason result))
                  db1,
            )
      renewed over =
          let e : transition_within order.invitation_id InvitationStatus.published system_actor
                (some (renewal_reason result)) db1
              ≡ change order.invitation_id InvitationStatus.published system_actor
                  (some (renewal_reason result)) i.status db1 =
            rw (found1, transition_within) refl in
          rw
            (
              e
                  ∙ change-renewed i.status order.invitation_id (some (renewal_reason result)) db1
                      (is_expired i.status over),
              try_transition,
            )
            refl

  -- The answer: only an order that still waited for its payment is settled without a review.
  abbrev pub renewal_of : Order → Settlement
  renewal_of order = record {
    result = settlement_of order.status;
    became_paid = true;
    needs_review = asks_review order.status;
    invitation_id = some order.invitation_id;
  }

  -- A verified payment of a renewal whose order is pending, expired or failed always settles: the
  -- order becomes `paid`, and the invitation's expiry date moves to the later of itself and today,
  -- extended by the package's months. An expired invitation is published again; one in any other
  -- state, `soft_deleted` among them, keeps its state. Only a late payment asks for review.
  pub settle_paid-renews :
      (db : Db) (order : Order) (i : Invitation) (p : Package)
      → order_by_id order.id db ≡ some order
      → count_if (in_status order.id order.status) db.orders ≡ 1
      → order.order_type ≡ renewal
      → invitation_by_id order.invitation_id db ≡ some i
      → find (λ q. q.id == order.package_id) db.packages ≡ some p
      → order.status ≢ OrderStatus.paid
      → order.status ≢ OrderStatus.refunded
      → (db' : Db) × (settle_paid add_months now order.id db ≡ ok (renewal_of order, db'))
        × (order_by_id order.id db' ≡ some (record order { status = OrderStatus.paid }))
        × (invitation_by_id order.invitation_id db'
            ≡ some (record i {
              status = renewed_status i.status;
              expiry_date =
                  some (add_months (latest_of (wib_day now) i.expiry_date) p.duration_months);
            }))
  unfolding settle_paid
  settle_paid-renews db order i p found single type stored priced unpaid kept_ =
      let result = settlement_of order.status in
      let opened = opening-settlement_of order.status unpaid kept_ in
      let db1 = (set_order_status order.id order.status OrderStatus.paid db).1 in
      let (db', granted, moved, kept) =
        grant-renewal db1 order i p result (unfold set_order_status in stored)
          (unfold set_order_status in priced) in
      (
        db',
        rw (found, settle_paid) (grants single type opened ∙ granted)
            ∙ ap (λ b. ok (record (settled result order) { needs_review = b }, db'))
                (late_review order.status),
        ap (find (λ o. o.id == order.id)) kept
            ∙ order_by_id-set_order_status order.id OrderStatus.paid db order found,
        moved
            ∙ ap (λ d. some (record i { status = renewed_status i.status; expiry_date = some d }))
                (later_expiry-latest_of add_months now p.duration_months i.expiry_date),
      )
    where
      grants :
          count_if (in_status order.id order.status) db.orders ≡ 1
          → order.order_type ≡ renewal
          → opening order.status ≡ inl (settlement_of order.status)
          → settle_order add_months now order db
            ≡ grant add_months now renewal order
                (settlement_of order.status)
                (set_order_status order.id order.status OrderStatus.paid db).1
      grants single type opened =
          unfold settle_order in
          (let one : (set_order_status order.id order.status OrderStatus.paid db).0 ≡ true =
              unfold set_order_status in (==_iff _ 1).1 single in
            rw (opened, settle_order) (rw one (rw type refl)))
