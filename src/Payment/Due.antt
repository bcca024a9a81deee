-- ===== src/Payment/Due.antt =====
-- Which payments the reconciliation asks about, and in which order.
use wedding_saas.Payment.Repository.{same_payment_status}
use wedding_saas.Payment.Reconciliation.{
  is_candidate, by_creation, reconciliation_candidates, insert_by_creation,
}
use wedding_saas.Base.{
  All-keep_of, sym, none, ◌||◌, leb→le, inr, false, All-map, ◌*◌, zero, refl, inl, fun_ext, ap, ◌∙◌,
  ◌+◌, true, min, leb, count_if, arith, All-take, ◌≤◌, ◌≡◌, ◌&&◌, suc, ltb, keep, [], Bool-cases,
  ◌∷◌, ◌==◌, take, length, Option, All, ℕ, List, Bool, some,
}
use wedding_saas.Db.{PaymentStatus, Payment, Db}

-- Pending for longer than the minutes and for less than the hours, or a success that was verified
-- within the hours
abbrev pub is_overdue_for : ℕ → ℕ → ℕ → PaymentStatus → ℕ → Option ℕ → Bool
is_overdue_for minutes hours now PaymentStatus.pending created verified_at =
    ltb (created + minutes * 60) now && ltb now (created + hours * 3600)
is_overdue_for minutes hours now PaymentStatus.success created none = false
is_overdue_for minutes hours now PaymentStatus.success created (some t) = ltb now (t + hours * 3600)
is_overdue_for minutes hours now PaymentStatus.failed created verified_at = false

abbrev pub is_due : ℕ → ℕ → ℕ → ℕ → Payment → Bool
is_due provider minutes hours now p =
    (p.provider == provider) && is_overdue_for minutes hours now p.status p.created_at p.verified_at

abbrev pub InOrder : List Payment → Type 0
InOrder [] = Unit
InOrder (p ∷ ps) = All (λ q. p.created_at ≤ q.created_at) ps × InOrder ps

insert-All :
    (P : Payment → Type 0) (p : Payment) (qs : List Payment)
    → P p
    → All P qs
    → All P (insert_by_creation p qs)
unfolding insert_by_creation
insert-All P p [] h hs = (h, tt)
insert-All P p (q ∷ qs) h (k, ks) = elim (Bool-cases (leb p.created_at q.created_at)) [
  | inl first ↦ rw first (h, (k, ks))
  | inr later ↦ rw later (k, insert-All P p qs h ks)
]

insert-InOrder : (p : Payment) (qs : List Payment) → InOrder qs → InOrder (insert_by_creation p qs)
unfolding insert_by_creation
insert-InOrder p [] h = (tt, tt)
insert-InOrder p (q ∷ qs) (k, ks) = elim (Bool-cases (leb p.created_at q.created_at)) [
  | inl first ↦
      let le = leb→le p.created_at q.created_at first in
      rw first (
        (
          le,
          All-map (λ r. q.created_at ≤ r.created_at) (λ r. p.created_at ≤ r.created_at)
              (λ r h. omega (arith, h, le)) qs k,
        ),
        (k, ks),
      )
  | inr later ↦
      let le : q.created_at ≤ p.created_at = ground (arith, later) in
      rw later (insert-All (λ r. q.created_at ≤ r.created_at) p qs le k, insert-InOrder p qs ks)
]

length-insert :
    (p : Payment) (qs : List Payment) → length (insert_by_creation p qs) ≡ suc (length qs)
unfolding insert_by_creation
length-insert p [] = refl
length-insert p (q ∷ qs) = ground (arith, length-insert p qs)

by_creation-All : (P : Payment → Type 0) (ps : List Payment) → All P ps → All P (by_creation ps)
by_creation-All P [] h = tt
by_creation-All P (p ∷ ps) (h, hs) = insert-All P p (by_creation ps) h (by_creation-All P ps hs)

by_creation-InOrder : (ps : List Payment) → InOrder (by_creation ps)
by_creation-InOrder [] = tt
by_creation-InOrder (p ∷ ps) = insert-InOrder p (by_creation ps) (by_creation-InOrder ps)

length-by_creation : (ps : List Payment) → length (by_creation ps) ≡ length ps
length-by_creation [] = refl
length-by_creation (p ∷ ps) = length-insert p (by_creation ps) ∙ ap suc (length-by_creation ps)

take-InOrder : (n : ℕ) (ps : List Payment) → InOrder ps → InOrder (take n ps)
take-InOrder zero ps h = tt
take-InOrder (suc n) [] h = tt
take-InOrder (suc n) (p ∷ ps) (k, ks) =
    (All-take (λ q. p.created_at ≤ q.created_at) n ps k, take-InOrder n ps ks)

length-take : (n : ℕ) (ps : List Payment) → length (take n ps) ≡ min n (length ps)
length-take zero ps = omega arith
length-take (suc n) [] = omega arith
length-take (suc n) (p ∷ ps) = omega (arith, length-take n ps)

length-keep : (p : Payment → Bool) (ps : List Payment) → length (keep p ps) ≡ count_if p ps
length-keep p [] = refl
length-keep p (x ∷ xs) = ground (arith, length-keep p xs)

or_false : (b : Bool) → (b || false) ≡ b
or_false true = refl
or_false false = refl

is_candidate-is_due :
    (provider minutes hours now : ℕ) (p : Payment)
    → is_candidate provider minutes hours now p ≡ is_due provider minutes hours now p
is_candidate-is_due provider minutes hours now p =
    ap (λ b. (p.provider == provider) && b) (same p.status p.verified_at)
  where
    same :
        (status : PaymentStatus) (verified_at : Option ℕ)
        → ((same_payment_status status PaymentStatus.pending
              && ltb (p.created_at + minutes * 60) now
              && ltb now (p.created_at + hours * 3600))
            || (same_payment_status status PaymentStatus.success
                && elim verified_at [ none ↦ false | some t ↦ ltb now (t + hours * 3600) ]))
          ≡ is_overdue_for minutes hours now status p.created_at verified_at
    same PaymentStatus.pending verified_at =
        or_false (ltb (p.created_at + minutes * 60) now && ltb now (p.created_at + hours * 3600))
    same PaymentStatus.success none = refl
    same PaymentStatus.success (some t) = refl
    same PaymentStatus.failed verified_at = refl

pub reconciliation_candidates-Due :
    (provider minutes hours limit now : ℕ) (db : Db)
    → let ps = reconciliation_candidates provider minutes hours limit now db in
      let due = is_due provider minutes hours now in
      All (λ p. due p ≡ true) ps × InOrder ps × (length ps ≡ min limit (count_if due db.payments))
unfolding reconciliation_candidates
reconciliation_candidates-Due provider minutes hours limit now db =
    let candidate = is_candidate provider minutes hours now in
    let due = is_due provider minutes hours now in
    let kept = keep candidate db.payments in
    let same : candidate ≡ due = fun_ext (is_candidate-is_due provider minutes hours now) in
    (
      All-take (λ p. due p ≡ true) limit (by_creation kept)
          (by_creation-All (λ p. due p ≡ true) kept
            (All-map (λ p. candidate p ≡ true) (λ p. due p ≡ true)
              (λ p h. sym (is_candidate-is_due provider minutes hours now p) ∙ h) kept
              (All-keep_of candidate db.payments))),
      take-InOrder limit (by_creation kept) (by_creation-InOrder kept),
      length-take limit (by_creation kept)
          ∙ ap (min limit) (
              length-by_creation kept
              ∙ length-keep candidate db.payments
              ∙ ap (λ f. count_if f db.payments) same),
    )
