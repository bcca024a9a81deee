-- ===== src/Db.antt =====
-- backend/api/src/infra/db/schema: the tables that the order, payment and publishing services
-- read and write, with the columns that their decisions depend on, and transactions over them.
use wedding_saas.Base.{false, true, ℕ, ◌+◌, ◌/◌, String, Bool, Option, List, Outcome, ok, thrown}
use wedding_saas.Outcomes.{NotificationSource, PaymentOutcome, NotificationResult}
use wedding_saas.Errors.{AppError}
use wedding_saas.Status.Rules.{InvitationStatus}

pub record Invitation : Type 0 where
  pub id : ℕ
  pub owner_id : ℕ
  pub status : InvitationStatus
  pub slug : Option String
  -- seconds
  pub published_at : Option ℕ
  -- a calendar date in WIB, as a day number
  pub expiry_date : Option ℕ
  pub deleted_at : Option ℕ

pub record HistoryRow : Type 0 where
  pub invitation_id : ℕ
  -- null for the row of the creation
  pub from_status : Option InvitationStatus
  pub to_status : InvitationStatus
  pub changed_by : Option ℕ
  pub reason : String

pub data OrderStatus : Type 0 where
  pending paid failed expired refunded : OrderStatus

pub data OrderType : Type 0 where
  new_publish renewal : OrderType

pub record Order : Type 0 where
  pub id : ℕ
  pub invitation_id : ℕ
  pub user_id : ℕ
  pub package_id : ℕ
  pub addon_ids : List ℕ
  pub amount_total : ℕ
  pub status : OrderStatus
  pub order_type : OrderType
  pub expired_at : ℕ
  pub created_at : ℕ

pub record Package : Type 0 where
  pub id : ℕ
  pub name : String
  pub price : ℕ
  pub duration_months : ℕ
  pub max_photos : ℕ
  pub has_watermark : Bool
  pub is_active : Bool

pub record Addon : Type 0 where
  pub id : ℕ
  pub name : String
  pub price : ℕ
  pub is_active : Bool

abbrev pub same_order_status : OrderStatus → OrderStatus → Bool
same_order_status pending pending = true
same_order_status paid paid = true
same_order_status failed failed = true
same_order_status expired expired = true
same_order_status refunded refunded = true
same_order_status _ _ = false

pub data PaymentStatus : Type 0 where
  pending success failed : PaymentStatus

pub record Payment : Type 0 where
  pub id : ℕ
  pub order_id : ℕ
  pub provider : ℕ
  pub provider_reference_id : ℕ
  pub amount : ℕ
  pub status : PaymentStatus
  pub method : Option ℕ
  -- the payment page's address and token
  pub checkout : Option (ℕ × ℕ)
  pub verified_at : Option ℕ
  pub created_at : ℕ

-- `payment_notifications`, without the payloads and the texts kept for investigation
pub record Notification : Type 0 where
  pub id : ℕ
  pub source : NotificationSource
  pub provider : ℕ
  pub claimed_reference : Option ℕ
  pub payment_id : Option ℕ
  pub signature_valid : Bool
  pub outcome : Option PaymentOutcome
  pub amount : Option ℕ
  pub result : Option NotificationResult
  pub needs_review : Bool

pub record Db : Type 0 where
  pub invitations : List Invitation
  pub history : List HistoryRow
  pub orders : List Order
  pub packages : List Package
  pub addons : List Addon
  pub payments : List Payment
  pub notifications : List Notification

-- A statement inside a transaction. A throw carries no state: the transaction is rolled back.
abbrev pub Tx : Type 0 → Type 0
Tx A = Db → Outcome AppError (A × Db)

infixl 5 ◌>>=◌ ◌>>◌
abbrev pub ◌>>=◌ : {A B : Type 0} → Tx A → (A → Tx B) → Tx B
◌>>=◌ m f db = elim (m db) [ thrown e ↦ thrown e | ok (a, db') ↦ f a db' ]

abbrev pub ◌>>◌ : {B : Type 0} → Tx (Unit {0}) → Tx B → Tx B
m >> k = m >>= λ _. k

abbrev pub pure : {A : Type 0} → A → Tx A
pure a db = ok (a, db)

abbrev pub throw : {A : Type 0} → AppError → Tx A
throw e db = thrown e

-- `(now() AT TIME ZONE 'Asia/Jakarta')::date`: WIB is UTC+7, with no daylight saving.
abbrev pub wib_day : ℕ → ℕ
wib_day now = (now + 25200) / 86400
