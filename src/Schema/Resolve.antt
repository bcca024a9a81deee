-- ===== src/Schema/Resolve.antt =====
-- packages/schema/src/resolver/resolve-path.ts. A path is the list of its segments, those between the
-- dots. What `Number` makes of a segment, where that is an integer from 0, is a parameter.
use wedding_saas.Base.Text.{is_blank}
use text.Mathlib.Text.{◌==◌ as str_eq}
use Prim.Native.Char.{code}
use wedding_saas.Base.{
  zero, ◌++◌, ◌==◌, some, any, [], ◌∷◌, ◌||◌, true, none, if◌then◌else◌, false, suc, Option, List,
  Bool, String, ℕ,
}

mutual
  -- What JavaScript holds: `date none` is an invalid date.
  pub data Value : Type 0 where
    undefined null : Value
    boolean : Bool → Value
    number : ℕ → Value
    string : String → Value
    date : Option ℕ → Value
    array : Items → Value
    object : Fields → Value

  pub data Items : Type 0 where
    nil : Items
    cons : Value → Items → Items

  -- the own keys
  pub data Fields : Type 0 where
    end : Fields
    field : String → Value → Fields → Fields

abbrev pub item_at : ℕ → Items → Value
item_at n nil = undefined
item_at zero (cons v vs) = v
item_at (suc n) (cons v vs) = item_at n vs

abbrev pub own : String → Fields → Option Value
own key end = none
own key (field name v fs) = let rest = own key fs in if str_eq name key then some v else rest

abbrev pub map_items : (Value → Value) → Items → Items
map_items f nil = nil
map_items f (cons v vs) = cons (f v) (map_items f vs)

-- FORBIDDEN_SEGMENTS
abbrev pub is_forbidden : String → Bool
is_forbidden s = str_eq s "__proto__" || str_eq s "constructor" || str_eq s "prototype"

-- WILDCARD
abbrev pub is_wildcard : String → Bool
is_wildcard s = str_eq s "*"

-- `path.includes(WILDCARD)` of one segment
unfoldable pub has_star : String → Bool
has_star String.[] = false
has_star (String.◌∷◌ c s) = (code c == 42) || has_star s

module _ (index_of : String → Option ℕ) where
  abbrev pub element : String → Items → Value
  element s vs = elim (index_of s) [ none ↦ undefined | some n ↦ item_at n vs ]

  -- The value under a segment that is no wildcard, `undefined` where `walk` answers it at once.
  abbrev pub child : String → Value → Value
  child s (array vs) = if is_forbidden s then undefined else element s vs
  child s (object fs) =
      if is_forbidden s then undefined else elim (own s fs) [ none ↦ undefined | some v ↦ v ]
  child s _ = undefined

  abbrev pub each : (Value → Value) → Value → Value
  each walk_on (array vs) = array (map_items walk_on vs)
  each walk_on _ = undefined

  -- `walk`
  unfoldable pub walk : List String → Value → Value
  walk [] v = v
  walk (s ∷ rest) v = if is_wildcard s then each (walk rest) v else walk rest (child s v)

-- `isEmpty`
unfoldable pub is_empty : Value → Bool
is_empty undefined = true
is_empty null = true
is_empty (boolean b) = false
is_empty (number n) = false
is_empty (string t) = is_blank t
is_empty (date none) = true
is_empty (date (some t)) = false
is_empty (array nil) = true
is_empty (array (cons v vs)) = false
is_empty (object end) = true
is_empty (object (field name v fs)) = false

-- `flatten`
unfoldable mutual
  pub flatten_value : Value → List Value
  flatten_value (array vs) = flatten vs
  flatten_value undefined = undefined ∷ []
  flatten_value null = null ∷ []
  flatten_value (boolean b) = boolean b ∷ []
  flatten_value (number n) = number n ∷ []
  flatten_value (string t) = string t ∷ []
  flatten_value (date d) = date d ∷ []
  flatten_value (object fs) = object fs ∷ []

  pub flatten : Items → List Value
  flatten nil = []
  flatten (cons v vs) = flatten_value v ++ flatten vs

abbrev pub is_collection_missing : Value → Bool
is_collection_missing (array nil) = true
is_collection_missing (array (cons v vs)) = any is_empty (flatten (cons v vs))
is_collection_missing _ = true

-- `isPathMissing`
unfoldable pub is_path_missing : (String → Option ℕ) → Value → List String → Bool
is_path_missing index_of data_ path =
    let resolved = walk index_of path data_ in
    if any has_star path then is_collection_missing resolved else is_empty resolved
