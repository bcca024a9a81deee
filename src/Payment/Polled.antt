-- ===== src/Payment/Polled.antt =====
-- When a request for a payment's status asks the provider, and what it leaves in the throttle.
use wedding_saas.Payment.StatusService.{
  CacheReach, read_throttle, write_throttle, after_question, find_shown, is_throttled,
  display_payment, status, question, query_throttle_seconds, ask_provider, read_status, Throttle,
  Polled,
}
use wedding_saas.Payment.Queries.{
  unknown_payment, unreachable, is_pending_outcome, told, QueryAnswer, Query,
}
use wedding_saas.Order.Repository.{find_owned_order}
use wedding_saas.Payment.Webhook.{NotificationVerdict}
use wedding_saas.Db.{Payment, Order, Db}
use wedding_saas.Base.{
  arith, Bool-cases, refl, inr, inl, Option-cases, ◌⊎◌, none, some, ◌≡◌, ◌+◌, false, Option, ℕ,
}

-- A request, with the time, whether the cache can be reached, the provider's answer if it is asked,
-- and the tables it meets.
pub record StatusRequest : Type 0 where
  pub scope : ℕ
  pub order_id : ℕ
  pub now : ℕ
  pub cache : CacheReach
  pub query : Query
  pub db : Db

module _ (add_months : ℕ → ℕ → ℕ) (provider : ℕ) (verify : ℕ → NotificationVerdict) where
  abbrev pub poll : StatusRequest → Throttle → Polled add_months provider verify
  poll q throttle =
      status add_months provider verify q.cache q.scope q.order_id q.now q.query throttle q.db

  question-is_throttled :
      (now : ℕ) (order : Order) (shown : Option Payment) (throttle : Throttle) (reference : ℕ)
      → question add_months provider verify now order shown throttle ≡ some reference
      → is_throttled reference now throttle ≡ false
  question-is_throttled now order none throttle reference h = absurd cc
  question-is_throttled now order (some p) throttle reference h = ground arith

  abbrev written : ℕ → StatusRequest → Throttle → Throttle
  written reference q throttle =
      write_throttle q.cache reference (q.now + query_throttle_seconds) throttle

  abbrev Asked : ℕ → StatusRequest → Throttle → Polled add_months provider verify → Type 0
  Asked reference q throttle p =
      (p.asked ≡ some reference) × (p.throttle ≡ written reference q throttle)

  ask_provider-Asked :
      (answer : QueryAnswer) (q : StatusRequest) (reference : ℕ) (throttle : Throttle)
      → q.query.answer ≡ answer
      → let before = read_status add_months provider verify q.scope q.order_id q.db in
        Asked reference q throttle (
          ask_provider add_months provider verify q.scope q.order_id before reference q.query
            (written reference q throttle)
            q.db)
  ask_provider-Asked unreachable q reference throttle h = rw h (refl, refl)
  ask_provider-Asked unknown_payment q reference throttle h = rw h (refl, refl)
  ask_provider-Asked (told event) q reference throttle h =
      elim (Bool-cases (is_pending_outcome event.outcome)) [
        | inl still ↦ rw (h, ask_provider, still) (refl, refl)
        | inr settled_ ↦ rw (h, ask_provider, settled_) (refl, refl)
      ]

  abbrev Unasked : StatusRequest → Throttle → Polled add_months provider verify → Type 0
  Unasked q throttle p = (p.asked ≡ none) × (p.throttle ≡ throttle)

  pub status-cases :
      (q : StatusRequest) (throttle : Throttle)
      → let p = poll q throttle in
        Unasked q throttle p
        ⊎ ((reference : ℕ) × (is_throttled reference q.now (read_throttle q.cache throttle) ≡ false)
            × Asked reference q throttle p)
  unfolding status
  status-cases q throttle = elim (Option-cases (find_owned_order q.order_id q.scope q.db)) [
    | inl missing ↦ rw (missing, status, find_shown) (inl (refl, refl))
    | inr (order, found) ↦
        let shown = display_payment order.id q.db in
        let reading = read_status add_months provider verify q.scope q.order_id q.db in
        let known = read_throttle q.cache throttle in
        let about = question add_months provider verify q.now order shown known in
        let polled : poll q throttle
            ≡ after_question add_months provider verify q.cache about q.scope q.order_id q.now
                reading q.query throttle q.db =
          rw (found, status, find_shown, read_status) refl in
        rw polled (elim (Option-cases about) [
          | inl silent ↦ rw silent (inl (refl, refl))
          | inr (reference, asks_it) ↦ rw asks_it (
              inr (
                reference,
                question-is_throttled q.now order shown known reference asks_it,
                ask_provider-Asked q.query.answer q reference throttle refl,
              ))
        ])
  ]
