-- ===== src/Order/Priced.antt =====
-- What a quote charges.
use wedding_saas.Order.Pricing.{
  quote, package_by_id, repeated_after, is_available, includes, addon_lines, addon_by_id,
  PriceQuote, sum_prices_from, PriceRequest, calculate,
}
use wedding_saas.Db.{Package, Addon, Db}
use wedding_saas.Base.{
  ◌==◌, find, ◌∙◌, ap, sym, inr, inl, refl, Option-cases, Bool-cases, true, ok, false, arith, [],
  ◌≡◌, ◌+◌, none, some, ◌∷◌, is_nil, all, All, ℕ, Option, List,
}

abbrev pub Distinct : List ℕ → Type 0
Distinct [] = Unit
Distinct (id ∷ ids) = (includes id ids ≡ false) × Distinct ids

abbrev pub price_of : Option Addon → ℕ
price_of none = 0
price_of (some a) = a.price

-- The catalogue's prices of the add-ons.
abbrev pub charged : Db → List ℕ → ℕ
charged db [] = 0
charged db (id ∷ ids) = price_of (addon_by_id id db) + charged db ids

never_after :
    (id : ℕ) (before ids : List ℕ)
    → All (λ j. includes j (id ∷ before) ≡ false) ids
    → (includes id ids ≡ false) × All (λ j. includes j before ≡ false) ids
never_after id before [] h = (refl, tt)
never_after id before (j ∷ ids) (here, rest) =
    let (never, later) = never_after id before ids rest in (ground arith, (ground arith, later))

repeated_after-Distinct :
    (before ids : List ℕ)
    → is_nil (repeated_after before ids) ≡ true
    → All (λ j. includes j before ≡ false) ids × Distinct ids
repeated_after-Distinct before [] h = (tt, tt)
repeated_after-Distinct before (id ∷ ids) h = elim (Bool-cases (includes id before)) [
  | inl again ↦ let k = rw again at h in cc
  | inr first ↦
      let (never, distinct) = repeated_after-Distinct (id ∷ before) ids (rw first at h) in
      let (later, rest) = never_after id before ids never in ((first, rest), (later, distinct))
]

-- The catalogue holds the add-on, and sells it.
abbrev pub IsActive : Db → ℕ → Type 0
IsActive db id = (a : Addon) × (find (λ b. b.id == id) db.addons ≡ some a) × (a.is_active ≡ true)

is_available-IsActive : (db : Db) (id : ℕ) → is_available db id ≡ true → IsActive db id
is_available-IsActive db id h = elim (Option-cases (addon_by_id id db)) [
  | inl missing ↦ let k = rw (missing, is_available) at h in absurd cc
  | inr (a, found) ↦ (a, found, rw (found, is_available) at h)
]

all_available : (db : Db) (ids : List ℕ) → all (is_available db) ids ≡ true → All (IsActive db) ids
all_available db [] h = tt
all_available db (id ∷ ids) h =
    (is_available-IsActive db id (ground arith), all_available db ids (ground arith))

sum_prices_from-addon_lines :
    (db : Db) (ids : List ℕ) (sum : ℕ)
    → sum_prices_from sum (addon_lines db ids) ≡ sum + charged db ids
sum_prices_from-addon_lines db [] sum = omega arith
sum_prices_from-addon_lines db (id ∷ ids) sum = elim (Option-cases (addon_by_id id db)) [
  | inl missing ↦ rw (missing, addon_lines) (omega (arith, sum_prices_from-addon_lines db ids sum))
  | inr (a, found) ↦
      rw (found, addon_lines) (omega (arith, sum_prices_from-addon_lines db ids (sum + a.price)))
]

-- A quote is given only for an active package and distinct add-ons that are all active, and it
-- charges what the catalogue says: the package's price and each add-on's once.
pub calculate-ok :
    (request : PriceRequest) (db : Db) (q : PriceQuote)
    → calculate request db ≡ ok q
    → (p : Package) × (package_by_id request.package_id db ≡ some p)
      × (p.is_active ≡ true)
      × Distinct request.addon_ids
      × All (IsActive db) request.addon_ids
      × (q.addon_ids ≡ request.addon_ids)
      × (q.amount_total ≡ p.price + charged db request.addon_ids)
unfolding calculate
calculate-ok request db q h = elim (Bool-cases (is_nil (repeated_after [] request.addon_ids))) [
  | inr repeats ↦ let k = rw (repeats, calculate) at h in cc
  | inl distinct ↦
      let k = rw (distinct, calculate) at h in
      elim (Option-cases (package_by_id request.package_id db)) [
        | inl missing ↦ let l = rw missing at k in cc
        | inr (p, found) ↦
            let l = rw found at k in
            elim (Bool-cases p.is_active) [
              | inr retired ↦ let m = rw retired at l in cc
              | inl active ↦
                  let m = rw active at l in
                  elim (Bool-cases (all (is_available db) request.addon_ids)) [
                    | inr gone ↦ let o = rw gone at m in cc
                    | inl there ↦
                        let o = rw there at m in
                        let is : quote request p db ≡ q = ground arith in
                        (
                          p,
                          found,
                          active,
                          (repeated_after-Distinct [] request.addon_ids distinct).1,
                          all_available db request.addon_ids there,
                          sym (ap (λ r. r.addon_ids) is),
                          sym (ap (λ r. r.amount_total) is)
                              ∙ sum_prices_from-addon_lines db request.addon_ids (0 + p.price)
                              ∙ omega arith,
                        )
                  ]
            ]
      ]
]
