-- ===== src/Publishing/Entitlements.antt =====
-- backend/api/src/modules/order/entitlements.service.ts, over `latestPaidPurchase` and
-- `activePackages` of catalog.repository.ts. The id of the add-on "custom_domain" and the form of a
-- UUID are parameters.
use mathlib.Core.Option
use wedding_saas.Order.Pricing.{package_by_id, includes}
use wedding_saas.Errors.{internal, AppError}
use wedding_saas.Db.{OrderStatus, same_order_status, Order, Package, Db}
use wedding_saas.Base.{
  is_none, ok, not, ltb, ◌&&◌, thrown, if◌then◌else◌, [], ◌==◌, true, some, min, ◌∷◌, none, keep,
  false, Outcome, Bool, ℕ, Option, List,
}

pub record Entitlements : Type 0 where
  -- null for an invitation that nobody paid for, as are the two below
  pub package_id : Option ℕ
  pub max_photos : ℕ
  pub watermark : Bool
  pub duration_months : Option ℕ
  pub custom_domain : Bool
  pub purchased_at : Option ℕ

pub record PaidPurchase : Type 0 where
  pub bought : Package
  pub addon_ids : List ℕ
  pub purchased_at : ℕ

-- `inner join packages … where invitation_id = … and status = 'paid'`
abbrev pub is_purchase_of : ℕ → Db → Order → Bool
is_purchase_of id db o =
    (o.invitation_id == id)
    && same_order_status o.status OrderStatus.paid
    && not (is_none (package_by_id o.package_id db))

-- `order by created_at desc limit 1`; between rows of one instant the database is free, and the
-- first is taken.
unfoldable pub latest : List Order → Option Order
latest [] = none
latest (o ∷ os) = elim (latest os) [
  | none ↦ some o
  | some p ↦ if ltb o.created_at p.created_at then some p else some o
]

unfoldable pub latest_paid_purchase : ℕ → Db → Option PaidPurchase
latest_paid_purchase id db = elim (latest (keep (is_purchase_of id db) db.orders)) [
  | none ↦ none
  | some o ↦
      Option.map (λ p. record { bought = p; addon_ids = o.addon_ids; purchased_at = o.created_at })
        (package_by_id o.package_id db)
]

-- `activePackages`; the one caller takes a minimum, whatever the order of the rows.
abbrev pub active_packages : Db → List Package
active_packages db = keep (λ p. p.is_active) db.packages

-- `Math.min(...)` of the first and the others
unfoldable pub least_photos : Package → List Package → ℕ
least_photos p [] = p.max_photos
least_photos p (q ∷ qs) = min p.max_photos (least_photos q qs)

abbrev pub without_package : ℕ → Entitlements
without_package photos = record {
  package_id = none;
  max_photos = photos;
  watermark = true;
  duration_months = none;
  custom_domain = false;
  purchased_at = none;
}

abbrev pub unpaid_among : List Package → Outcome AppError Entitlements
unpaid_among [] = thrown internal
unpaid_among (p ∷ ps) = ok (without_package (least_photos p ps))

-- `unpaid`
unfoldable pub unpaid : Db → Outcome AppError Entitlements
unpaid db = unpaid_among (active_packages db)

abbrev pub from_package : Package → Bool → Option ℕ → Entitlements
from_package p custom_domain purchased_at = record {
  package_id = some p.id;
  max_photos = p.max_photos;
  watermark = p.has_watermark;
  duration_months = some p.duration_months;
  custom_domain = custom_domain;
  purchased_at = purchased_at;
}

-- `forPackage`
abbrev pub for_package : Package → Entitlements
for_package p = from_package p false none

module _ (custom_domain_addon : ℕ) (is_uuid : ℕ → Bool) where
  -- `forInvitation`
  unfoldable pub for_invitation : ℕ → Db → Outcome AppError Entitlements
  for_invitation id db = if not (is_uuid id) then unpaid db else elim (latest_paid_purchase id db) [
    | none ↦ unpaid db
    | some purchase ↦ ok (
        from_package purchase.bought (includes custom_domain_addon purchase.addon_ids)
          (some purchase.purchased_at))
  ]
