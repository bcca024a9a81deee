-- ===== src/Order/Pricing.antt =====
-- backend/api/src/modules/order/pricing.service.ts `calculate`, over the catalogue reads of
-- catalog.repository.ts bound to the transaction. Amounts are bigints: ℕ is exact.
use wedding_saas.Errors.{
  addon_not_available, package_not_available, business_rule, validation, AppError,
}
use wedding_saas.Base.{
  ok, all, false, none, some, thrown, is_nil, not, ◌==◌, any, [], ◌+◌, if◌then◌else◌, find, String,
  Bool, ◌∷◌, ℕ, Outcome, List, Option,
}
use wedding_saas.Db.{Db, OrderType, Package, Addon}

pub record PriceRequest : Type 0 where
  pub package_id : ℕ
  pub addon_ids : List ℕ
  pub order_type : OrderType

pub data LineKind : Type 0 where
  of_package of_addon : LineKind

pub record PriceLine : Type 0 where
  pub kind : LineKind
  pub id : ℕ
  pub name : String
  pub price : ℕ

pub record PriceQuote : Type 0 where
  pub package_id : ℕ
  pub addon_ids : List ℕ
  pub order_type : OrderType
  pub lines : List PriceLine
  pub amount_total : ℕ
  pub duration_months : ℕ

abbrev pub includes : ℕ → List ℕ → Bool
includes id ids = any (λ j. j == id) ids

-- `addonIds.filter((id, i) => addonIds.indexOf(id) !== i)`, with the ids that stand before
abbrev pub repeated_after : List ℕ → List ℕ → List ℕ
repeated_after before [] = []
repeated_after before (id ∷ ids) =
    let rest = repeated_after (id ∷ before) ids in if includes id before then id ∷ rest else rest

-- `[...new Set(ids)]`
abbrev distinct_after : List ℕ → List ℕ → List ℕ
distinct_after seen [] = []
distinct_after seen (id ∷ ids) =
    let rest = distinct_after (id ∷ seen) ids in if includes id seen then rest else id ∷ rest

abbrev pub package_by_id : ℕ → Db → Option Package
package_by_id id db = find (λ p. p.id == id) db.packages

-- `byId.get(id)` of the map over `addonsByIds(addonIds)`, for an id among them; the table's
-- primary key leaves one row for an id.
abbrev pub addon_by_id : ℕ → Db → Option Addon
addon_by_id id db = find (λ a. a.id == id) db.addons

-- `byId.get(id)?.isActive === true`
abbrev pub is_available : Db → ℕ → Bool
is_available db id = elim (addon_by_id id db) [ none ↦ false | some a ↦ a.is_active ]

-- A line for each add-on. The ids are all available where this is called.
abbrev pub addon_lines : Db → List ℕ → List PriceLine
addon_lines db [] = []
addon_lines db (id ∷ ids) = elim (addon_by_id id db) [
  | none ↦ addon_lines db ids
  | some a ↦
      record { kind = of_addon; id = a.id; name = a.name; price = a.price } ∷ addon_lines db ids
]

-- `lines.reduce((sum, line) => sum + line.price, 0n)`
abbrev pub sum_prices_from : ℕ → List PriceLine → ℕ
sum_prices_from sum [] = sum
sum_prices_from sum (line ∷ lines) = sum_prices_from (sum + line.price) lines

abbrev pub package_line : Package → PriceLine
package_line p = record { kind = of_package; id = p.id; name = p.name; price = p.price }

abbrev pub quote : PriceRequest → Package → Db → PriceQuote
quote request p db =
    let lines = package_line p ∷ addon_lines db request.addon_ids in
    record {
      package_id = p.id;
      addon_ids = request.addon_ids;
      order_type = request.order_type;
      lines = lines;
      amount_total = sum_prices_from 0 lines;
      duration_months = p.duration_months;
    }

unfoldable pub calculate : PriceRequest → Db → Outcome AppError PriceQuote
calculate request db =
    let repeated = repeated_after [] request.addon_ids in
    if not (is_nil repeated)
    then thrown (validation (distinct_after [] repeated))
    else elim (package_by_id request.package_id db) [
      | none ↦ thrown (business_rule package_not_available)
      | some p ↦
          if not p.is_active
          then thrown (business_rule package_not_available)
          else if not (all (is_available db) request.addon_ids)
          then thrown (business_rule addon_not_available)
          else ok (quote request p db)
    ]
