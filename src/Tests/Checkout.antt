-- ===== src/Tests/Checkout.antt =====
-- A checkout of a basic package with music.
use wedding_saas.Order.Priced.{IsActive, calculate-ok, charged, Distinct}
use wedding_saas.Db.{new_publish, Package}
use wedding_saas.Base.{refl, ◌+◌, All, ◌≡◌, some, [], ◌∷◌, true}
use wedding_saas.Order.Pricing.{quote, package_by_id, calculate, PriceRequest}
use wedding_saas.Tests.Data.{basic, draft_db}

abbrev request : PriceRequest
request = record { package_id = 3; addon_ids = 5 ∷ []; order_type = new_publish }

calculate-ok_example :
    (p : Package) × (package_by_id 3 draft_db ≡ some p)
    × (p.is_active ≡ true)
    × Distinct (5 ∷ [])
    × All (IsActive draft_db) (5 ∷ [])
    × ((quote request basic draft_db).addon_ids ≡ 5 ∷ [])
    × (124000 ≡ p.price + charged draft_db (5 ∷ []))
unfolding calculate
calculate-ok_example = calculate-ok request draft_db (quote request basic draft_db) refl
