-- ===== src/Schema/Filled.antt =====
-- BR-4.2: when a required field is filled, and that the resolver finds the fields that are not.
use wedding_saas.Schema.Empty.{
  is_void, is_empty-is_void, inherited, nth, under, nth-item_at, under-own,
}
use wedding_saas.Base.{
  some, none, ◌≤◌, refl, inr, inl, [], leb, if◌then◌else◌, count_if, arith, Bool-cases, ◌∷◌, ◌||◌,
  any, ◌&&◌, ℕ, false, ◌≡◌, true, not, all, Option, String, List, Bool,
}
use mathlib.Core.Path.{sym, subst}
use wedding_saas.Schema.Resolve.{
  item_at, is_forbidden, null, undefined, object, date, string, number, boolean, each, map_items,
  is_collection_missing, flatten_value, child, walk, is_wildcard, is_empty, flatten, nil, has_star,
  cons, array, Items, Value, is_path_missing,
}
use text.Mathlib.TextEquality.{eq_iff}
use text.Mathlib.Text.{◌==◌ as str_eq}

abbrev pub is_array : Value → Bool
is_array v = elim v [ array vs ↦ true | _ ↦ false ]

abbrev pub is_no_items : Items → Bool
is_no_items nil = true
is_no_items (cons v vs) = false

abbrev pub all_items : (Value → Bool) → Items → Bool
all_items p nil = true
all_items p (cons v vs) = p v && all_items p vs

abbrev pub AllItems : (Value → Type 0) → Items → Type 0
AllItems P nil = Unit
AllItems P (cons v vs) = P v × AllItems P vs

abbrev pub filled_each : (Value → Bool) → Value → Bool
filled_each p (array vs) = not (is_no_items vs) && all_items p vs
filled_each p _ = false

abbrev pub FlatEach : (Value → Value) → Value → Type 0
FlatEach f (array vs) = AllItems (λ v. is_array (f v) ≡ false) vs
FlatEach f _ = Unit

-- At most one segment holds a star, and that is the wildcard.
abbrev pub is_proper : List String → Bool
is_proper path = all (λ s. not (has_star s) || is_wildcard s) path && leb (count_if has_star path) 1

wildcard-star : (s : String) → is_wildcard s ≡ true → has_star s ≡ true
unfolding has_star
wildcard-star s star = rw ((eq_iff s "*").0 star) refl

any-count : (path : List String) → count_if has_star path ≡ 0 → any has_star path ≡ false
any-count [] h = refl
any-count (s ∷ rest) h = ground (arith, any-count rest)

count_pos : (path : List String) → any has_star path ≡ true → 1 ≤ count_if has_star path
count_pos [] h = cc
count_pos (s ∷ rest) h = ground (arith, count_pos rest)

one_star :
    (path : List String)
    → is_proper path ≡ true
    → any has_star path ≡ true
    → count_if has_star path ≡ 1
one_star path proper starred = ground (arith, proper, count_pos path starred)

is_forbidden-inherited : (s : String) → is_forbidden s ≡ any (str_eq s) inherited
is_forbidden-inherited s = ground arith

module _ (index_of : String → Option ℕ) where
  -- What a segment selects of a value: the item of that number, or the own field of that name.
  abbrev pub at : String → Value → Value
  at s (array vs) =
      if any (str_eq s) inherited
      then undefined
      else elim (index_of s) [ none ↦ undefined | some n ↦ nth n vs ]
  at s (object fs) = if any (str_eq s) inherited then undefined else under s fs
  at s _ = undefined

  element-nth :
      (s : String) (vs : Items) (i : Option ℕ)
      → elim i as (λ _. Value) [ none ↦ undefined | some n ↦ item_at n vs ]
        ≡ elim i as (λ _. Value) [ none ↦ undefined | some n ↦ nth n vs ]
  element-nth s vs none = refl
  element-nth s vs (some n) = nth-item_at n vs

  child-at : (s : String) (v : Value) → child index_of s v ≡ at s v
  child-at s (array vs) = elim (Bool-cases (is_forbidden s)) [
    | inl banned ↦ rw (banned, sym (is_forbidden-inherited s)) (rw banned refl)
    | inr free ↦ rw (free, sym (is_forbidden-inherited s)) (rw free (element-nth s vs (index_of s)))
  ]
  child-at s (object fs) = elim (Bool-cases (is_forbidden s)) [
    | inl banned ↦ rw (banned, sym (is_forbidden-inherited s)) (rw banned refl)
    | inr free ↦ rw (free, sym (is_forbidden-inherited s)) (rw free (under-own s fs))
  ]
  child-at s _ = refl

  -- A field is filled when its value is not empty; one under a wildcard when its collection has
  -- items and all of them fill it.
  abbrev pub filled : List String → Value → Bool
  filled [] v = not (is_void v)
  filled (s ∷ rest) v = if str_eq s "*" then filled_each (filled rest) v else filled rest (at s v)

  -- No item of the collection under the wildcard has a list for its value.
  abbrev pub IsFlat : List String → Value → Type 0
  IsFlat [] v = Unit
  IsFlat (s ∷ rest) v = elim (is_wildcard s) [
    | true ↦ FlatEach (walk index_of rest) v
    | false ↦ IsFlat rest (child index_of s v)
  ]

  plain-wildcard : (s : String) → has_star s ≡ false → is_wildcard s ≡ false
  unfolding has_star
  plain-wildcard s h = elim (Bool-cases (is_wildcard s)) [
    | inr other ↦ other
    | inl star ↦ let same = (eq_iff s "*").0 star in let k = rw same at h in cc
  ]

  walk-plain :
      (path : List String) (v : Value)
      → any has_star path ≡ false
      → is_empty (walk index_of path v) ≡ not (filled path v)
  unfolding walk
  walk-plain [] v h = ground (arith, is_empty-is_void v)
  walk-plain (s ∷ rest) v h =
      rw (plain-wildcard s (ground (arith, h)), sym (child-at s v))
        (walk-plain rest (child index_of s v) (ground (arith, h)))

  flatten_flat : (v : Value) → is_array v ≡ false → flatten_value v ≡ v ∷ []
  unfolding flatten
  flatten_flat (array vs) h = cc
  flatten_flat undefined h = refl
  flatten_flat null h = refl
  flatten_flat (boolean b) h = refl
  flatten_flat (number n) h = refl
  flatten_flat (string t) h = refl
  flatten_flat (date d) h = refl
  flatten_flat (object fs) h = refl

  any-flatten :
      (rest : List String) (vs : Items)
      → any has_star rest ≡ false
      → AllItems (λ v. is_array (walk index_of rest v) ≡ false) vs
      → any is_empty (flatten (map_items (walk index_of rest) vs))
        ≡ not (all_items (filled rest) vs)
  unfolding flatten
  any-flatten rest nil h k = refl
  any-flatten rest (cons v vs) h (k, ks) =
      rw (flatten_flat (walk index_of rest v) k)
        (ground (arith, walk-plain rest v h, any-flatten rest vs h ks))

  each-filled :
      (rest : List String) (v : Value)
      → any has_star rest ≡ false
      → FlatEach (walk index_of rest) v
      → is_collection_missing (each index_of (walk index_of rest) v)
        ≡ not (filled_each (filled rest) v)
  each-filled rest (array nil) h k = refl
  each-filled rest (array (cons v vs)) h k = any-flatten rest (cons v vs) h k
  each-filled rest _ h k = refl

  abbrev FlatAt : Bool → String → List String → Value → Type 0
  FlatAt b s rest v = elim b [
    | true ↦ FlatEach (walk index_of rest) v
    | false ↦ IsFlat rest (child index_of s v)
  ]

  opened :
      (s : String) (rest : List String) (v : Value) {b : Bool}
      → is_wildcard s ≡ b
      → IsFlat (s ∷ rest) v
      → FlatAt b s rest v
  opened s rest v same flat = subst (λ c. FlatAt c s rest v) same flat

  star_false :
      (s : String) (rest : List String)
      → is_wildcard s ≡ false
      → is_proper (s ∷ rest) ≡ true
      → has_star s ≡ false
  star_false s rest other proper = ground (arith, other, proper)

  walk-starred :
      (path : List String) (v : Value)
      → is_proper path ≡ true
      → count_if has_star path ≡ 1
      → IsFlat path v
      → is_collection_missing (walk index_of path v) ≡ not (filled path v)
  unfolding walk
  walk-starred [] v proper one flat = absurd (omega (arith, one))
  walk-starred (s ∷ rest) v proper one flat = elim (Bool-cases (is_wildcard s)) [
    | inl star ↦ rw star (
        each-filled rest v (any-count rest (ground (arith, one, wildcard-star s star)))
          (opened s rest v star flat))
    | inr other ↦
        let alone = star_false s rest other proper in
        rw (other, sym (child-at s v))
          (walk-starred rest (child index_of s v) (ground (arith, proper))
            (ground (arith, one, alone)) (opened s rest v other flat))
  ]

-- A path with no star, or with one wildcard over items whose values are no lists, is reported as
-- missing exactly when it is not filled: when its value is empty, or, under a wildcard, when the
-- collection is absent or empty or any of its items leaves the value empty.
pub is_path_missing-filled :
    (index_of : String → Option ℕ) (data_ : Value) (path : List String)
    → is_proper path ≡ true
    → IsFlat index_of path data_
    → is_path_missing index_of data_ path ≡ not (filled index_of path data_)
unfolding is_path_missing
is_path_missing-filled index_of data_ path proper flat = elim (Bool-cases (any has_star path)) [
  | inr plain ↦ rw plain (walk-plain index_of path data_ plain)
  | inl starred ↦
      rw starred (walk-starred index_of path data_ proper (one_star path proper starred) flat)
]
