-- ===== src/Payment/StatusService.antt =====
-- backend/api/src/modules/payment/payment-status.service.ts with `displayPayment` of
-- payment.repository.ts and `ownedOrderStatus` of order.service.ts.
use wedding_saas.Payment.Queries.{apply_answer, is_pending_outcome, told, is_success, Query}
use wedding_saas.Errors.{not_found, AppError}
use wedding_saas.Order.Repository.{find_owned_order}
use wedding_saas.Payment.Repository.{same_payment_status}
use wedding_saas.Base.{
  ◌||◌, ok, ◌&&◌, thrown, not, leb, false, [], Outcome, ◌∷◌, ◌==◌, ltb, keep, if◌then◌else◌, any,
  ◌+◌, ℕ, List, Bool,
}
use mathlib.Core.Option.{some, none, Option}
use wedding_saas.Db.{same_order_status, Order, Db, Payment, OrderStatus, PaymentStatus}
use wedding_saas.Outcomes.{query}
use wedding_saas.Payment.Webhook.{NotificationVerdict, Job}

-- Whether the first comes before the second in the order of `displayPayment`; between rows of one
-- instant the database is free, and the first is taken.
abbrev pub shown_before : Payment → Payment → Bool
shown_before p q =
    if is_success p
    then not (is_success q) || leb q.created_at p.created_at
    else not (is_success q) && leb q.created_at p.created_at

unfoldable pub first_shown : List Payment → Option Payment
first_shown [] = none
first_shown (p ∷ ps) = elim (first_shown ps) [
  | none ↦ some p
  | some q ↦ if shown_before p q then some p else some q
]

-- `displayPayment`, without `stale`
abbrev pub display_payment : ℕ → Db → Option Payment
display_payment order_id db = first_shown (keep (λ p. p.order_id == order_id) db.payments)

abbrev pub is_stale : ℕ → ℕ → Payment → Bool
is_stale seconds now p = ltb (p.created_at + seconds) now

abbrev pub query_after_seconds : ℕ
query_after_seconds = 120

abbrev pub query_throttle_seconds : ℕ
query_throttle_seconds = 30

pub record PaymentStatusDto : Type 0 where
  pub order_status : OrderStatus
  pub payment_status : Option PaymentStatus
  pub paid_at : Option ℕ

-- `toDto`
abbrev pub to_dto : OrderStatus → Option Payment → PaymentStatusDto
to_dto status none = record { order_status = status; payment_status = none; paid_at = none }
to_dto status (some p) = record {
  order_status = status;
  payment_status = some p.status;
  paid_at = if is_success p then p.verified_at else none;
}

-- The cache's namespace "payment:query": each reference with the time until which its key lives.
abbrev pub Throttle : Type 0
Throttle = List (ℕ × ℕ)

-- Whether a command of the cache reaches Redis. One that does not is logged, and the request goes on:
-- a read finds nothing, and a write is lost.
pub record CacheReach : Type 0 where
  pub reads : Bool
  pub writes : Bool

-- `getJson`
abbrev pub read_throttle : CacheReach → Throttle → Throttle
read_throttle cache throttle = if cache.reads then throttle else []

-- `setJson`
abbrev pub write_throttle : CacheReach → ℕ → ℕ → Throttle → Throttle
write_throttle cache reference until throttle =
    if cache.writes then (reference, until) ∷ throttle else throttle

abbrev pub is_throttled : ℕ → ℕ → Throttle → Bool
is_throttled reference now throttle = any (λ e. (e.0 == reference) && ltb now e.1) throttle

module _ (add_months : ℕ → ℕ → ℕ) (provider : ℕ) (verify : ℕ → NotificationVerdict) where
  -- What a request for the status leaves: the answer, the throttle, the reference that the provider
  -- was asked about, the jobs and the tables.
  pub record Polled : Type 0 where
    pub answer : Outcome AppError PaymentStatusDto
    pub throttle : Throttle
    pub asked : Option ℕ
    pub jobs : List Job
    pub db : Db

  abbrev pub find_shown : ℕ → ℕ → Db → Outcome AppError (Order × Option Payment)
  find_shown scope order_id db = elim (find_owned_order order_id scope db) [
    | none ↦ thrown not_found
    | some order ↦ ok (order, display_payment order.id db)
  ]

  -- `read`
  abbrev pub read_status : ℕ → ℕ → Db → Outcome AppError PaymentStatusDto
  read_status scope order_id db = elim (find_shown scope order_id db) [
    | thrown e ↦ thrown e
    | ok (order, shown) ↦ ok (to_dto order.status shown)
  ]

  abbrev pub is_worth_asking : ℕ → Order → Payment → Bool
  is_worth_asking now order p =
      same_order_status order.status OrderStatus.pending
      && same_payment_status p.status PaymentStatus.pending
      && is_stale query_after_seconds now p
      && (p.provider == provider)

  -- The reference that the provider is asked about: `status`'s condition and `askProvider`'s throttle
  abbrev pub question : ℕ → Order → Option Payment → Throttle → Option ℕ
  question now order none throttle = none
  question now order (some p) throttle =
      if is_worth_asking now order p && not (is_throttled p.provider_reference_id now throttle)
      then some p.provider_reference_id
      else none

  -- The rest of `askProvider`, and the answer after it
  abbrev pub ask_provider :
      ℕ → ℕ → Outcome AppError PaymentStatusDto → ℕ → Query → Throttle → Db → Polled
  ask_provider scope order_id before reference q throttle db = elim q.answer [
    | told event ↦
        if is_pending_outcome event.outcome
        then record {
          answer = before;
          throttle = throttle;
          asked = some reference;
          jobs = [];
          db = db;
        }
        else (let h = apply_answer add_months provider verify query false q event db in
            record {
              answer = elim h.answer [ thrown e ↦ before | ok r ↦ read_status scope order_id h.db ];
              throttle = throttle;
              asked = some reference;
              jobs = h.jobs;
              db = h.db;
            })
    | _ ↦ record {
      answer = before;
      throttle = throttle;
      asked = some reference;
      jobs = [];
      db = db;
    }
  ]

  -- `status`, once it is known which reference to ask about
  abbrev pub after_question :
      CacheReach
      → Option ℕ
      → ℕ
      → ℕ
      → ℕ
      → Outcome AppError PaymentStatusDto
      → Query
      → Throttle
      → Db
      → Polled
  after_question cache none scope order_id now before q throttle db = record {
    answer = before;
    throttle = throttle;
    asked = none;
    jobs = [];
    db = db;
  }
  after_question cache (some reference) scope order_id now before q throttle db =
      ask_provider scope order_id before reference q
        (write_throttle cache reference (now + query_throttle_seconds) throttle) db

  -- `status` of an order with a well-formed id
  unfoldable pub status : CacheReach → ℕ → ℕ → ℕ → Query → Throttle → Db → Polled
  status cache scope order_id now q throttle db = elim (find_shown scope order_id db) [
    | thrown e ↦ record { answer = thrown e; throttle = throttle; asked = none; jobs = []; db = db }
    | ok (order, shown) ↦
        after_question cache (question now order shown (read_throttle cache throttle)) scope
          order_id now (ok (to_dto order.status shown)) q throttle db
  ]
