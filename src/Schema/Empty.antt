-- ===== src/Schema/Empty.antt =====
-- What counts as an empty value, and what a segment of a path selects.
use wedding_saas.Base.{
  zero, suc, some, none, refl, inr, inl, [], if◌then◌else◌, Bool-cases, ◌∷◌, ℕ, false, ◌≡◌, true,
  Option, String, List, Bool,
}
use wedding_saas.Schema.Resolve.{
  end, own, field, item_at, Fields, null, undefined, object, date, string, number, boolean,
  is_empty, nil, cons, array, Items, Value,
}
use text.Mathlib.Text.{◌==◌ as str_eq}
use wedding_saas.Base.Text.{is_blank}

-- What counts as empty: nothing, a text of spaces, an invalid date, no items, no fields.
abbrev pub is_void : Value → Bool
is_void undefined = true
is_void null = true
is_void (boolean b) = false
is_void (number n) = false
is_void (string t) = is_blank t
is_void (date none) = true
is_void (date (some t)) = false
is_void (array nil) = true
is_void (array (cons v vs)) = false
is_void (object end) = true
is_void (object (field name v fs)) = false

pub is_empty-is_void : (v : Value) → is_empty v ≡ is_void v
unfolding is_empty
is_empty-is_void undefined = refl
is_empty-is_void null = refl
is_empty-is_void (boolean b) = refl
is_empty-is_void (number n) = refl
is_empty-is_void (string t) = refl
is_empty-is_void (date none) = refl
is_empty-is_void (date (some t)) = refl
is_empty-is_void (array nil) = refl
is_empty-is_void (array (cons v vs)) = refl
is_empty-is_void (object end) = refl
is_empty-is_void (object (field name v fs)) = refl

-- The segments that JavaScript's objects inherit
abbrev pub inherited : List String
inherited = "__proto__" ∷ "constructor" ∷ "prototype" ∷ []

abbrev pub nth : ℕ → Items → Value
nth n nil = undefined
nth zero (cons v vs) = v
nth (suc n) (cons v vs) = nth n vs

abbrev pub under : String → Fields → Value
under key end = undefined
under key (field name v fs) = let rest = under key fs in if str_eq name key then v else rest

pub nth-item_at : (n : ℕ) (vs : Items) → item_at n vs ≡ nth n vs
nth-item_at n nil = refl
nth-item_at zero (cons v vs) = refl
nth-item_at (suc n) (cons v vs) = nth-item_at n vs

abbrev pub or_undefined : Option Value → Value
or_undefined none = undefined
or_undefined (some v) = v

pub under-own : (key : String) (fs : Fields) → or_undefined (own key fs) ≡ under key fs
under-own key end = refl
under-own key (field name v fs) = elim (Bool-cases (str_eq name key)) [
  | inl same ↦ rw same refl
  | inr other ↦ rw other (under-own key fs)
]
