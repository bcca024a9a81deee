-- ===== src/Base/Counting.antt =====
-- How many rows have a property, across reads and updates.
use Prim.Native.Nat.{◌≤◌, ◌<◌}
use mathlib.Core.Path.{◌≡◌, refl}
use mathlib.Core.Logic.{inl, inr}
use mathlib.Core.Bool.{Bool, true, false}
use mathlib.Core.Option.{some}
use mathlib.Core.List.{List, [], ◌∷◌, ◌++◌}
use native.Mathlib.Omega.{arith}
use wedding_saas.Base.Tests.{Bool-cases}
use wedding_saas.Base.Lists.{count_if, find, count_if_mono}
use wedding_saas.Base.Table.{update_where}

module _ {ℓ} {A : Type ℓ} where
  pub count_if-update_where_le :
      (q p : A → Bool) (f : A → A)
      → ((x : A) → p x ≡ true → q (f x) ≡ true → q x ≡ true)
      → (xs : List A) → count_if q (update_where p f xs) ≤ count_if q xs
  count_if-update_where_le q p f h [] = omega arith
  count_if-update_where_le q p f h (x ∷ xs) =
      ground (arith, h x, count_if-update_where_le q p f h xs)

  -- A row that was read by the update's test is counted no more.
  pub count_if-update_where_lt :
      (q p : A → Bool) (f : A → A)
      → ((x : A) → p x ≡ true → q (f x) ≡ false)
      → (xs : List A) (c : A) → find p xs ≡ some c
      → q c ≡ true
      → count_if q (update_where p f xs) < count_if q xs
  count_if-update_where_lt q p f h [] c e k = cc
  count_if-update_where_lt q p f h (x ∷ xs) c e k = ground (
    arith,
    h x,
    count_if-update_where_le q p f (λ y a b. absurd (ground (arith, h y))) xs,
    count_if-update_where_lt q p f h xs c,
  )

  pub count_if-update_where_self :
      (q : A → Bool) (f : A → A)
      → ((x : A) → q (f x) ≡ false)
      → (xs : List A) → count_if q (update_where q f xs) ≡ 0
  count_if-update_where_self q f h [] = refl
  count_if-update_where_self q f h (x ∷ xs) =
      ground (arith, h x, count_if-update_where_self q f h xs)

  pub count_if-update_where_eq :
      (q p : A → Bool) (f : A → A)
      → ((x : A) → p x ≡ true → q (f x) ≡ q x)
      → (xs : List A) → count_if q (update_where p f xs) ≡ count_if q xs
  count_if-update_where_eq q p f h [] = refl
  count_if-update_where_eq q p f h (x ∷ xs) =
      ground (arith, h x, count_if-update_where_eq q p f h xs)

  pub count_if_pos : (q : A → Bool) (xs : List A) (c : A) → find q xs ≡ some c → 0 < count_if q xs
  count_if_pos q [] c e = cc
  count_if_pos q (x ∷ xs) c e = ground (arith, count_if_pos q xs c)

  -- Where only one row has the wider property, a read by the narrower one finds it.
  pub find-of_count :
      (p q : A → Bool)
      → ((x : A) → p x ≡ true → q x ≡ true)
      → (xs : List A) (c : A) → count_if q xs ≤ 1
      → find p xs ≡ some c
      → find q xs ≡ some c
  find-of_count p q h [] c le e = e
  find-of_count p q h (x ∷ xs) c le e = elim (Bool-cases (q x)) [
    | inr outside ↦ ground (arith, h x, find-of_count p q h xs c)
    | inl inside ↦ elim (Bool-cases (p x)) [
      | inl here ↦ ground arith
      | inr later ↦
          let there : find p xs ≡ some c = rw later at e in
          let wide = count_if_mono p q h xs in absurd (ground (arith, count_if_pos p xs c there))
    ]
  ]

  pub find-append :
      (p : A → Bool) (xs ys : List A) (c : A) → find p xs ≡ some c → find p (xs ++ ys) ≡ some c
  find-append p [] ys c e = cc
  find-append p (x ∷ xs) ys c e = ground (arith, find-append p xs ys c)

  -- The row that a wider test finds is found by the narrower one, if it passes.
  pub find_narrow :
      (p q : A → Bool)
      → ((x : A) → p x ≡ true → q x ≡ true)
      → (xs : List A) (c : A) → find q xs ≡ some c
      → p c ≡ true
      → find p xs ≡ some c
  find_narrow p q h [] c e k = e
  find_narrow p q h (x ∷ xs) c e k = elim (Bool-cases (q x)) [
    | inl here ↦ ground arith
    | inr later ↦ ground (arith, h x, find_narrow p q h xs c)
  ]
