-- ===== src/Base/Table.antt =====
-- A database table as the list of its rows: `find` reads, `update_where` writes, `++` inserts.
use mathlib.Core.Path.{◌≡◌, refl}
use mathlib.Core.Bool.{Bool, true, false}
use mathlib.Core.Option
use mathlib.Core.Option.{Option, none, some}
use mathlib.Core.List.{List, [], ◌∷◌}
use native.Mathlib.Omega.{arith}
use wedding_saas.Base.Tests.{if◌then◌else◌}
use wedding_saas.Base.Lists.{find}

module _ {ℓ} {A : Type ℓ} where
  -- `UPDATE … SET f WHERE p`
  abbrev pub update_where : (A → Bool) → (A → A) → List A → List A
  update_where p f [] = []
  update_where p f (x ∷ xs) = (if p x then f x else x) ∷ update_where p f xs

  -- A row that an update leaves under the query's key is found, updated.
  pub find-update_where :
      (p q : A → Bool) (f : A → A)
      → ((x : A) → p (f x) ≡ p x)
      → (xs : List A)
      → find p (update_where q f xs) ≡ Option.map (λ x. if q x then f x else x) (find p xs)
  find-update_where p q f h [] = refl
  find-update_where p q f h (x ∷ xs) = ground (arith, h x, find-update_where p q f h xs)

  -- An update of rows under other keys is not read.
  pub find-update_other :
      (p q : A → Bool) (f : A → A)
      → ((x : A) → p (f x) ≡ p x)
      → ((x : A) → p x ≡ true → q x ≡ false)
      → (xs : List A) → find p (update_where q f xs) ≡ find p xs
  find-update_other p q f h k [] = refl
  find-update_other p q f h k (x ∷ xs) = ground (arith, h x, k x, find-update_other p q f h k xs)
