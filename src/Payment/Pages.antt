-- ===== src/Payment/Pages.antt =====
-- The pending payments of an order: which one is read, and what the statements do to their number.
use wedding_saas.Base.Table.{update_where}
use wedding_saas.Payment.Initiation.{
  is_pageless, is_pending_of, store_checkout, newest, mark_initiation_failed,
}
use wedding_saas.Base.{
  All, ltb, Bool-cases, inr, inl, refl, arith, Option-cases, ◌<◌, ◌&&◌, some, none,
  count_if-update_where_eq, ◌≡◌, keep, count_if-update_where_le, ◌≤◌, count_if, Bool, ℕ, true,
  false, ◌==◌, List, [], ◌∷◌,
}
use wedding_saas.Db.{Db, Payment, PaymentStatus}

abbrev pub pages : ℕ → ℕ → Db → ℕ
pages order_id provider db = count_if (is_pending_of order_id provider) db.payments

-- At most one pending payment for each order and provider.
abbrev pub OnePage : Db → Type 0
OnePage db = (order_id provider : ℕ) → pages order_id provider db ≤ 1

pub newest-none : (ps : List Payment) → newest ps ≡ none → ps ≡ []
unfolding newest
newest-none [] h = refl
newest-none (p ∷ ps) h = elim (Option-cases (newest ps)) [
  | inl empty ↦ let k = rw empty at h in cc
  | inr (q, last) ↦
      let k = rw last at h in
      elim (Bool-cases (ltb p.created_at q.created_at)) [
        | inl older ↦ let l = rw older at k in cc
        | inr newer ↦ let l = rw newer at k in cc
      ]
]

pub newest-counted :
    (r : Payment → Bool) (ps : List Payment) (p : Payment)
    → newest ps ≡ some p
    → r p ≡ true
    → 0 < count_if r ps
unfolding newest
newest-counted r [] p h has = cc
newest-counted r (q ∷ ps) p h has = elim (Option-cases (newest ps)) [
  | inl empty ↦ let k = rw empty at h in let same : q ≡ p = cc in ground (arith, same, has)
  | inr (t, last) ↦
      let k = rw last at h in
      elim (Bool-cases (ltb q.created_at t.created_at)) [
        | inl older ↦
            let l = rw older at k in
            let same : t ≡ p = cc in
            let found : newest ps ≡ some p = rw (← same) last in
            let more = newest-counted r ps p found has in ground (arith, more)
        | inr newer ↦ let l = rw newer at k in let same : q ≡ p = cc in ground (arith, same, has)
      ]
]

pub newest-holds :
    (q : Payment → Bool) (ps : List Payment) (p : Payment)
    → All (λ x. q x ≡ true) ps
    → newest ps ≡ some p
    → q p ≡ true
unfolding newest
newest-holds q [] p all_q h = cc
newest-holds q (x ∷ ps) p (own, others) h = elim (Option-cases (newest ps)) [
  | inl empty ↦ let k = rw empty at h in let same : x ≡ p = cc in rw (← same) own
  | inr (t, last) ↦
      let k = rw last at h in
      let below = newest-holds q ps t others last in
      elim (Bool-cases (ltb x.created_at t.created_at)) [
        | inl older ↦ let l = rw older at k in let same : t ≡ p = cc in rw (← same) below
        | inr newer ↦ let l = rw newer at k in let same : x ≡ p = cc in rw (← same) own
      ]
]

pub keep-none : (q : Payment → Bool) (ps : List Payment) → keep q ps ≡ [] → count_if q ps ≡ 0
keep-none q [] h = refl
keep-none q (p ∷ ps) h = ground (arith, keep-none q ps)

pub count-keep :
    (q r : Payment → Bool) (ps : List Payment)
    → count_if r (keep q ps) ≡ count_if (λ p. q p && r p) ps
count-keep q r [] = refl
count-keep q r (p ∷ ps) = ground (arith, count-keep q r ps)

pub count_if-update_where_drop :
    (q r : Payment → Bool) (f : Payment → Payment)
    → ((p : Payment) → r p ≡ true → q (f p) ≡ false)
    → (ps : List Payment) → 0 < count_if (λ p. q p && r p) ps
    → count_if q (update_where r f ps) < count_if q ps
count_if-update_where_drop q r f h [] pos = omega (arith, pos)
count_if-update_where_drop q r f h (p ∷ ps) pos = ground (
  arith,
  h p,
  count_if-update_where_le q r f (λ x a b. absurd (ground (arith, h x))) ps,
  count_if-update_where_drop q r f h ps,
)

pub mark_initiation_failed-pages :
    (order_id provider id : ℕ) (db : Db)
    → pages order_id provider (mark_initiation_failed id db) ≤ pages order_id provider db
unfolding mark_initiation_failed
mark_initiation_failed-pages order_id provider id db =
    count_if-update_where_le (is_pending_of order_id provider) (is_pageless id)
      (λ p. record p { status = PaymentStatus.failed }) (λ p a b. ground arith) db.payments

pub store_checkout-pages :
    (order_id provider id : ℕ) (page : ℕ × ℕ) (db : Db)
    → pages order_id provider (store_checkout id page db) ≡ pages order_id provider db
unfolding store_checkout
store_checkout-pages order_id provider id page db =
    count_if-update_where_eq (is_pending_of order_id provider) (λ p. p.id == id)
      (λ p. record p { checkout = some page }) (λ p a. refl) db.payments
