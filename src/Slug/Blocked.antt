-- ===== src/Slug/Blocked.antt =====
-- What blocks an address and what holds it, row by row.
use wedding_saas.Db.{Invitation}
use wedding_saas.Base.{
  map, ==_iff, ◌==◌, String, true, inr, false, refl, inl, [], none, arith, Bool-cases, ◌∷◌, ◌&&◌,
  not, ◌≡◌, if◌then◌else◌, ℕ, is_none, List, Bool,
}
use mathlib.Core.Option.{some, Option}
use wedding_saas.Slug.Service.{
  exact, substring, MatchType, units, has_slug, holds_slug, fold_leet, contains, trim_units,
  same_units, lower, is_exact, is_other, BlockedTerm,
}

-- The letter that a digit or a sign stands for
abbrev pub fold_unit : ℕ → ℕ
fold_unit c =
    if c == 52
    then 97
    else if c == 51
    then 101
    else if c == 49
    then 105
    else if c == 48
    then 111
    else if c == 53
    then 115
    else if c == 55
    then 116
    else if c == 64
    then 97
    else if c == 36
    then 115
    else c

-- docs/DATABASE/12: an exact term is the whole slug, any other stands in it, both folded.
abbrev pub is_blocked_by : List ℕ → BlockedTerm → Bool
is_blocked_by slug r = elim r.match_type [
  | exact ↦ same_units (lower r.term) (lower (trim_units slug))
  | substring ↦ contains (map fold_unit (lower (trim_units slug))) (map fold_unit (lower r.term))
]

-- A row that is not deleted, with that slug
abbrev pub is_held_by : List ℕ → Invitation → Bool
is_held_by slug i = elim i.slug [
  | none ↦ false
  | some text ↦ elim i.deleted_at [
    | some time ↦ false
    | none ↦ same_units (units text) (lower (trim_units slug))
  ]
]

-- A row that is not the excluded one
abbrev pub is_apart_from : Option ℕ → Invitation → Bool
is_apart_from exclude i = elim exclude [ none ↦ true | some id ↦ not (i.id == id) ]

-- `value.replace(/from/g, to)` of one unit, as `replace_unit` maps it
abbrev replaced : ℕ → ℕ → ℕ → ℕ
replaced from to c = if c == from then to else c

abbrev fold_steps : ℕ → ℕ
fold_steps c = replaced 36 115 (
    replaced 64 97 (
      replaced 55 116
        (replaced 53 115 (replaced 48 111 (replaced 49 105 (replaced 51 101 (replaced 52 97 c)))))))

fold_steps-fold_unit : (c : ℕ) → fold_steps c ≡ fold_unit c
fold_steps-fold_unit c = elim (Bool-cases (c == 52)) [
  | inl is_52 ↦ rw ((==_iff c 52).0 is_52) refl
  | inr n52 ↦ elim (Bool-cases (c == 51)) [
    | inl is_51 ↦ rw ((==_iff c 51).0 is_51) refl
    | inr n51 ↦ elim (Bool-cases (c == 49)) [
      | inl is_49 ↦ rw ((==_iff c 49).0 is_49) refl
      | inr n49 ↦ elim (Bool-cases (c == 48)) [
        | inl is_48 ↦ rw ((==_iff c 48).0 is_48) refl
        | inr n48 ↦ elim (Bool-cases (c == 53)) [
          | inl is_53 ↦ rw ((==_iff c 53).0 is_53) refl
          | inr n53 ↦ elim (Bool-cases (c == 55)) [
            | inl is_55 ↦ rw ((==_iff c 55).0 is_55) refl
            | inr n55 ↦ elim (Bool-cases (c == 64)) [
              | inl is_64 ↦ rw ((==_iff c 64).0 is_64) refl
              | inr n64 ↦ elim (Bool-cases (c == 36)) [
                | inl is_36 ↦ rw ((==_iff c 36).0 is_36) refl
                | inr n36 ↦ rw (n52, n51, n49, n48, n53, n55, n64, n36) refl
              ]
            ]
          ]
        ]
      ]
    ]
  ]
]

pub fold_leet-fold_unit : (xs : List ℕ) → fold_leet xs ≡ map fold_unit xs
unfolding fold_leet
fold_leet-fold_unit [] = refl
fold_leet-fold_unit (c ∷ cs) = rw (fold_steps-fold_unit c, fold_leet-fold_unit cs) refl

pub is_held_by-holds_slug : (slug : List ℕ) (i : Invitation) → holds_slug slug i ≡ is_held_by slug i
is_held_by-holds_slug slug i = by_fields i.slug i.deleted_at
  where
    by_fields :
        (held : Option String) (deleted : Option ℕ)
        → (has_slug (lower (trim_units slug)) held && is_none deleted) ≡ elim held as (λ _. Bool) [
          | none ↦ false
          | some text ↦ elim deleted as (λ _. Bool) [
            | some time ↦ false
            | none ↦ same_units (units text) (lower (trim_units slug))
          ]
        ]
    by_fields none deleted = refl
    by_fields (some text) none = ground arith
    by_fields (some text) (some time) = ground arith

pub is_apart_from-is_other :
    (exclude : Option ℕ) (i : Invitation) → is_other exclude i ≡ is_apart_from exclude i
is_apart_from-is_other none i = refl
is_apart_from-is_other (some id) i = refl

-- The same, by the folds of the code
abbrev pub blocks : List ℕ → BlockedTerm → Bool
blocks slug r =
    if is_exact r.match_type
    then same_units (lower r.term) (lower (trim_units slug))
    else contains (fold_leet (lower (trim_units slug))) (fold_leet (lower r.term))

pub blocks-is_blocked_by : (slug : List ℕ) (r : BlockedTerm) → blocks slug r ≡ is_blocked_by slug r
blocks-is_blocked_by slug r = by_match r.match_type
  where
    folded : List ℕ
    folded = lower (trim_units slug)

    by_match :
        (m : MatchType)
        → (if is_exact m
            then same_units (lower r.term) folded
            else contains (fold_leet folded) (fold_leet (lower r.term)))
          ≡ elim m as (λ _. Bool) [
            | exact ↦ same_units (lower r.term) folded
            | substring ↦ contains (map fold_unit folded) (map fold_unit (lower r.term))
          ]
    by_match exact = refl
    by_match substring = rw (fold_leet-fold_unit folded, fold_leet-fold_unit (lower r.term)) refl
