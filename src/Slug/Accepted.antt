-- ===== src/Slug/Accepted.antt =====
-- Which addresses are accepted.
use wedding_saas.Base.{
  ◌∙◌, sym, some_injective, inr, ==_iff, ap, inl, ◌==◌, Bool-cases, ◌↔◌, refl, zero, arith, suc,
  ◌≢◌, leb, [], ◌&&◌, true, some, ◌∷◌, none, length, false, all, ◌≤◌, ◌≡◌, Option, Bool, ℕ, List,
}
use wedding_saas.Slug.Service.{
  check_slug_format, matches_format, is_alphanumeric, is_slug_unit, repeats,
}

abbrev pub first_of : List ℕ → Option ℕ
first_of [] = none
first_of (c ∷ cs) = some c

abbrev pub last_of : List ℕ → Option ℕ
last_of [] = none
last_of (c ∷ []) = some c
last_of (c ∷ d ∷ cs) = last_of (d ∷ cs)

-- docs/PLAN/10: 3 to 50 characters of `[a-z0-9-]`, and no dash at the start or the end.
abbrev pub IsAddress : List ℕ → Type 0
IsAddress slug =
    (3 ≤ length slug)
    × (length slug ≤ 50)
    × (all is_slug_unit slug ≡ true)
    × (first_of slug ≢ some 45)
    × (last_of slug ≢ some 45)

abbrev is_end : List ℕ → Bool
is_end [] = false
is_end (c ∷ []) = is_alphanumeric c
is_end (c ∷ d ∷ cs) = is_end (d ∷ cs)

abbrev starts : List ℕ → Bool
starts [] = false
starts (c ∷ cs) = is_alphanumeric c

repeats-all :
    (n : ℕ) (xs : List ℕ)
    → repeats n xs ≡ (all is_slug_unit xs && is_end xs && leb (length xs) (suc n))
unfolding repeats
repeats-all zero [] = refl
repeats-all zero (c ∷ []) = ground arith
repeats-all zero (c ∷ d ∷ cs) = ground arith
repeats-all (suc n) [] = refl
repeats-all (suc n) (c ∷ []) = ground (arith, repeats-all n [])
repeats-all (suc n) (c ∷ d ∷ cs) = ground (arith, repeats-all n (d ∷ cs))

is_end-last_of :
    (c : ℕ) (cs : List ℕ)
    → all is_slug_unit (c ∷ cs) ≡ true
    → (is_end (c ∷ cs) ≡ true) ↔ (last_of (c ∷ cs) ≢ some 45)
is_end-last_of c [] h = (λ e f. absurd (ground (arith, some_injective f)), λ ne. dash_or c h ne)
  where
    dash_or :
        (b : ℕ) → all is_slug_unit (b ∷ []) ≡ true → some b ≢ some 45 → is_alphanumeric b ≡ true
    dash_or b k ne = elim (Bool-cases (b == 45)) [
      | inl dash ↦ absurd (ne (ap some ((==_iff b 45).0 dash)))
      | inr other ↦ ground (arith, k, other)
    ]
is_end-last_of c (d ∷ cs) h = is_end-last_of d cs (ground (arith, h))

matches-ends :
    (slug : List ℕ)
    → 3 ≤ length slug
    → length slug ≤ 50
    → matches_format slug ≡ (all is_slug_unit slug && starts slug && is_end slug)
unfolding matches_format
matches-ends [] long short = absurd (omega arith)
matches-ends (c ∷ []) long short = absurd (omega arith)
matches-ends (c ∷ d ∷ []) long short = absurd (omega arith)
matches-ends (c ∷ d ∷ e ∷ cs) long short = ground (arith, repeats-all 47 (e ∷ cs))

format-matches :
    (slug : List ℕ)
    → (check_slug_format slug ≡ none)
      ↔ ((3 ≤ length slug) × (length slug ≤ 50) × (matches_format slug ≡ true))
unfolding check_slug_format
format-matches slug = (λ h. ground arith, λ (long, short, m). ground arith)

starts-first_of :
    (slug : List ℕ)
    → 3 ≤ length slug
    → all is_slug_unit slug ≡ true
    → (starts slug ≡ true) ↔ (first_of slug ≢ some 45)
starts-first_of [] long h = absurd (omega arith)
starts-first_of (c ∷ cs) long h =
    (λ e f. absurd (ground (arith, some_injective f)), λ ne. no_dash ne)
  where
    no_dash : some c ≢ some 45 → is_alphanumeric c ≡ true
    no_dash ne = elim (Bool-cases (c == 45)) [
      | inl dash ↦ absurd (ne (ap some ((==_iff c 45).0 dash)))
      | inr other ↦ ground (arith, h, other)
    ]

ends-last_of :
    (slug : List ℕ)
    → 3 ≤ length slug
    → all is_slug_unit slug ≡ true
    → (is_end slug ≡ true) ↔ (last_of slug ≢ some 45)
ends-last_of [] long h = absurd (omega arith)
ends-last_of (c ∷ cs) long h = is_end-last_of c cs h

pub three : {a b c : Bool} → (a && b && c) ≡ true → (a ≡ true) × (b ≡ true) × (c ≡ true)
three h = ground arith

-- The format check accepts exactly the addresses of docs/PLAN/10.
pub check_slug_format-IsAddress_iff :
    (slug : List ℕ) → (check_slug_format slug ≡ none) ↔ IsAddress slug
check_slug_format-IsAddress_iff slug = (
  λ h.
      let (long, short, m) = (format-matches slug).0 h in
      let parts = sym (matches-ends slug long short) ∙ m in
      let (units_, first, last) = three parts in
      (
        long,
        short,
        units_,
        (starts-first_of slug long units_).0 first,
        (ends-last_of slug long units_).0 last,
      ),
  λ (long, short, units_, first, last). (format-matches slug).1 (
    long,
    short,
    matches-ends slug long short
        ∙ rw
            (
              units_,
              (starts-first_of slug long units_).1 first,
              (ends-last_of slug long units_).1 last,
            )
            refl,
  ),
)
