-- ===== src/Editor/Reorder.antt =====
-- `moveItem` of frontend/web-app/src/editor/media/reorder.ts. An index below 0, which the source
-- answers like one past the end, is not a number here.
use wedding_saas.Base.{
  zero, some, none, leb, suc, length, if◌then◌else◌, Option, ℕ, ◌==◌, List, [], ◌∷◌,
}

-- `items[at]`
abbrev pub get_elem? {ℓ} : {A : Type ℓ} → List A → ℕ → Option A
get_elem? [] i = none
get_elem? (x ∷ xs) zero = some x
get_elem? (x ∷ xs) (suc i) = get_elem? xs i

-- `splice(at, 1)`
abbrev pub remove_at {ℓ} : {A : Type ℓ} → ℕ → List A → List A
remove_at i [] = []
remove_at zero (x ∷ xs) = xs
remove_at (suc i) (x ∷ xs) = x ∷ remove_at i xs

-- `splice(at, 0, item)`, which appends where `at` is past the end
abbrev pub insert_at {ℓ} : {A : Type ℓ} → ℕ → A → List A → List A
insert_at zero y xs = y ∷ xs
insert_at (suc i) y [] = y ∷ []
insert_at (suc i) y (x ∷ xs) = x ∷ insert_at i y xs

-- `moveItem`
unfoldable pub move_item {ℓ} : {A : Type ℓ} → List A → ℕ → ℕ → List A
move_item items from to =
    if from == to
    then items
    else if leb (length items) from
    then items
    else if leb (length items) to
    then items
    else elim (get_elem? items from) [
      | none ↦ items
      | some moved ↦ insert_at to moved (remove_at from items)
    ]
