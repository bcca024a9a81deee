-- ===== src/Order/Checkout.antt =====
-- `create`, `withPayableOrder` and their helpers of
-- backend/api/src/modules/order/order.service.ts. Hashes of what a request asked for are a
-- parameter, and so is the form of a UUID; the idempotency records in Redis are a function from
-- cache keys, read once before the lock and once under it.
use wedding_saas.Order.Settlement.{expire_if_overdue}
use wedding_saas.Status.Service.{transition_within}
use wedding_saas.Order.Repository.{
  find_owned_order, insert_pending_order, NewOrder, locked_invitation, LockedCheckout,
}
use wedding_saas.Order.Pricing.{calculate, PriceQuote}
use wedding_saas.Errors.{
  order_not_payable, order_not_allowed, idempotency_key_reused, email_not_verified, internal,
  forbidden, business_rule, not_found, active_order_exists, conflict, AppError,
}
use wedding_saas.Base.{
  ◌||◌, ◌&&◌, ◌==◌, true, not, ltb, leb, [], ◌∷◌, if◌then◌else◌, false, ℕ, List, Bool, none, some,
  Option, ok, thrown, Outcome, ◌>>=◌,
}
use mathlib.Core.Option
use wedding_saas.Db.{
  same_order_status, renewal, new_publish, Db, Order, OrderStatus, OrderType, Tx, pending,
}
use wedding_saas.Status.Rules.{user, InvitationStatus}

abbrev pub payment_window_hours : ℕ
payment_window_hours = 24

pub record CheckoutUser : Type 0 where
  pub scope : ℕ
  pub email_verified : Bool

pub record CreateOrderInput : Type 0 where
  pub package_id : ℕ
  pub addon_ids : List ℕ
  pub idempotency_key : Option ℕ

pub record IdempotencyRecord : Type 0 where
  pub order_id : ℕ
  pub fingerprint : ℕ

abbrev pub Cache : Type 0
Cache = ℕ → Option IdempotencyRecord

abbrev pub store_record : ℕ → IdempotencyRecord → Cache → Cache
store_record key r cache k = if k == key then some r else cache k

-- `toDto` refuses an amount that a JSON number cannot hold exactly.
abbrev pub max_safe_integer : ℕ
max_safe_integer = 9007199254740991

pub record OrderDto : Type 0 where
  pub id : ℕ
  pub invitation_id : ℕ
  pub package_id : ℕ
  pub addons : List ℕ
  pub amount_total : ℕ
  pub order_type : OrderType
  pub status : OrderStatus
  pub expired_at : ℕ

unfoldable pub to_dto : Order → Outcome AppError OrderDto
to_dto order =
    if ltb max_safe_integer order.amount_total
    then thrown internal
    else ok (record {
      id = order.id;
      invitation_id = order.invitation_id;
      package_id = order.package_id;
      addons = order.addon_ids;
      amount_total = order.amount_total;
      order_type = order.order_type;
      status = order.status;
      expired_at = order.expired_at;
    })

pub record Plan : Type 0 where
  pub order_type : OrderType
  pub transition : Bool

-- `planFor`
unfoldable pub plan_for : InvitationStatus → Outcome AppError Plan
plan_for InvitationStatus.draft = ok (record { order_type = new_publish; transition = true })
plan_for InvitationStatus.pending_payment =
    ok (record { order_type = new_publish; transition = false })
plan_for InvitationStatus.published = ok (record { order_type = renewal; transition = false })
plan_for InvitationStatus.expired = ok (record { order_type = renewal; transition = false })
plan_for InvitationStatus.paid = thrown (business_rule order_not_allowed)
plan_for InvitationStatus.soft_deleted = thrown not_found

-- `[...ids].sort()`
insert_sorted : ℕ → List ℕ → List ℕ
insert_sorted n [] = n ∷ []
insert_sorted n (m ∷ ms) = if leb n m then n ∷ m ∷ ms else m ∷ insert_sorted n ms

unfoldable pub sort : List ℕ → List ℕ
unfolding insert_sorted
sort [] = []
sort (n ∷ ns) = insert_sorted n (sort ns)

abbrev or_conflict {ℓ} : {A : Type ℓ} → Option A → Outcome AppError A
or_conflict none = thrown (conflict active_order_exists none)
or_conflict (some a) = ok a

module _ (digest : ℕ → ℕ → List ℕ → ℕ) (key_digest : ℕ → ℕ → ℕ) (is_uuid : ℕ → Bool) where
  abbrev pub fingerprint_of : ℕ → CreateOrderInput → ℕ
  fingerprint_of invitation input = digest invitation input.package_id (sort input.addon_ids)

  abbrev pub cache_key : CheckoutUser → CreateOrderInput → Option ℕ
  cache_key buyer input = Option.map (key_digest buyer.scope) input.idempotency_key

  -- `replay`
  unfoldable pub replay : ℕ → ℕ → ℕ → Cache → Db → Outcome AppError (Option Order)
  replay scope key fingerprint cache db = elim (cache key) [
    | none ↦ ok none
    | some r ↦
        if not (r.fingerprint == fingerprint)
        then thrown (business_rule idempotency_key_reused)
        else ok (find_owned_order r.order_id scope db)
  ]

  pub record Created : Type 0 where
    pub order : Order
    pub replayed : Bool

  -- The record that a replay waiting on the lock finds: it names the pending order, for the same
  -- request.
  abbrev pub names_pending : Option ℕ → ℕ → Order → Cache → Bool
  names_pending none fingerprint order cache = false
  names_pending (some key) fingerprint order cache = elim (cache key) [
    | none ↦ false
    | some r ↦ (r.order_id == order.id) && (r.fingerprint == fingerprint)
  ]

  abbrev pub remember : Option ℕ → ℕ → ℕ → Cache → Cache
  remember none order_id fingerprint cache = cache
  remember (some key) order_id fingerprint cache =
      store_record key (record { order_id = order_id; fingerprint = fingerprint }) cache

  abbrev pub start_payment : Bool → ℕ → ℕ → Db → Outcome AppError Db
  start_payment false invitation scope db = ok db
  start_payment true invitation scope db =
      elim (transition_within invitation InvitationStatus.pending_payment
        (record { kind = user; user_id = some scope }) none db) [
          | thrown e ↦ thrown e
          | ok (r, db') ↦ ok db'
        ]

  abbrev pub new_order : ℕ → PriceQuote → OrderType → NewOrder
  new_order invitation q order_type = record {
    invitation_id = invitation;
    package_id = q.package_id;
    addon_ids = q.addon_ids;
    amount_total = q.amount_total;
    order_type = order_type;
    payment_window_hours = payment_window_hours;
  }

  -- The callback from `planFor` on: no order is pending. `id` is the id that the database gives.
  unfoldable pub place_order :
      CheckoutUser
      → ℕ
      → CreateOrderInput
      → ℕ
      → ℕ
      → InvitationStatus
      → Cache
      → Db
      → Outcome AppError (Created × Cache × Db)
  place_order buyer invitation input id now status cache db = do
    plan ← plan_for status
    q ←
        calculate
          (record {
            package_id = input.package_id;
            addon_ids = input.addon_ids;
            order_type = plan.order_type;
          })
          db
    placed ←
        or_conflict
          (insert_pending_order id buyer.scope now (new_order invitation q plan.order_type) db)
    db2 ← start_payment plan.transition invitation buyer.scope placed.1
    ok (
      record { order = placed.0; replayed = false },
      remember (cache_key buyer input) placed.0.id (fingerprint_of invitation input) cache,
      db2,
    )

  abbrev pub status_after : InvitationStatus → Option InvitationStatus → InvitationStatus
  status_after status none = status
  status_after status (some back) = back

  -- The callback of `withLockedInvitation`. `held` says whether another transaction holds the row
  -- of the pending order.
  unfoldable pub checkout :
      CheckoutUser
      → ℕ
      → CreateOrderInput
      → Bool
      → ℕ
      → ℕ
      → LockedCheckout
      → Cache
      → Db
      → Outcome AppError (Created × Cache × Db)
  checkout buyer invitation input held id now locked cache db = elim locked.pending_order [
    | none ↦ place_order buyer invitation input id now locked.invitation_status cache db
    | some waiting ↦
        if locked.pending_overdue
        then elim (expire_if_overdue held now waiting.id db) [
          | thrown e ↦ thrown e
          | ok (none, db') ↦ thrown (conflict active_order_exists (some waiting.id))
          | ok (some back, db') ↦
              place_order buyer invitation input id now (status_after locked.invitation_status back)
                cache db'
        ]
        else if names_pending (cache_key buyer input) (fingerprint_of invitation input) waiting
            cache
        then ok (record { order = waiting; replayed = true }, cache, db)
        else thrown (conflict active_order_exists (some waiting.id))
  ]

  -- The answer, with the cache and the tables that the request leaves: a throw inside the
  -- transaction rolls it back, one after the commit does not.
  pub record Response : Type 0 where
    pub answer : Outcome AppError OrderDto
    pub cache : Cache
    pub db : Db

  abbrev pub refuse : AppError → Cache → Db → Response
  refuse e cache db = record { answer = thrown e; cache = cache; db = db }

  abbrev pub in_transaction :
      CheckoutUser → ℕ → CreateOrderInput → Bool → ℕ → ℕ → Cache → Db → Response
  in_transaction buyer invitation input held id now cache db =
      elim (locked_invitation invitation buyer.scope now db) [
        | none ↦ refuse not_found cache db
        | some locked ↦ elim (checkout buyer invitation input held id now locked cache db) [
          | thrown e ↦ refuse e cache db
          | ok (created, cache', db') ↦ record {
            answer = to_dto created.order;
            cache = cache';
            db = db';
          }
        ]
      ]

  abbrev pub replayed_order :
      CheckoutUser → ℕ → CreateOrderInput → Cache → Db → Outcome AppError (Option Order)
  replayed_order buyer invitation input cache db = elim (cache_key buyer input) [
    | none ↦ ok none
    | some key ↦ replay buyer.scope key (fingerprint_of invitation input) cache db
  ]

  -- `create`. `before` and `db_before` are what the first read of a replay finds; `cache` and `db`
  -- what stands when the invitation's row is locked.
  unfoldable pub create :
      CheckoutUser → ℕ → CreateOrderInput → Bool → ℕ → ℕ → Cache → Db → Cache → Db → Response
  create buyer invitation input held id now before db_before cache db =
      if not buyer.email_verified
      then refuse (forbidden email_not_verified) cache db
      else if not (is_uuid invitation)
      then refuse not_found cache db
      else elim (replayed_order buyer invitation input before db_before) [
        | thrown e ↦ refuse e cache db
        | ok (some order) ↦ record { answer = to_dto order; cache = cache; db = db }
        | ok none ↦ in_transaction buyer invitation input held id now cache db
      ]

  -- `withPayableOrder`, with the caller's work on the order
  unfoldable pub with_payable_order : {R : Type 0} → ℕ → ℕ → ℕ → (Order → Tx R) → Tx R
  with_payable_order scope order_id now work db =
      if not (is_uuid order_id)
      then thrown not_found
      else elim (find_owned_order order_id scope db) [
        | none ↦ thrown not_found
        | some order ↦
            if not (same_order_status order.status pending) || leb order.expired_at now
            then thrown (business_rule order_not_payable)
            else work order db
      ]
