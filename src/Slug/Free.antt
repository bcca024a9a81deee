-- ===== src/Slug/Free.antt =====
-- When the whole check lets an address pass.
use wedding_saas.Slug.Blocked.{
  is_blocked_by, is_held_by, is_apart_from, blocks, blocks-is_blocked_by, is_held_by-holds_slug,
  is_apart_from-is_other,
}
use wedding_saas.Publishing.Overdue.{keep-DistinctIds, DistinctIds}
use wedding_saas.Db.{Invitation}
use wedding_saas.Base.{
  ◌∙◌, ◌↔◌, true, Option-cases, inr, false, ◌||◌, refl, inl, [], none, arith, Bool-cases, ◌∷◌, ◌&&◌,
  take, not, ◌≡◌, keep, if◌then◌else◌, find, ℕ, is_none, any, List, Bool,
}
use mathlib.Core.Option
use mathlib.Core.Path.{ap, sym}
use mathlib.Core.Option.{some, Option}
use wedding_saas.Slug.Service.{
  holds_slug, slug_taken, check_slug_format, fold_leet, blocks_within, trim_units, same_units,
  lower, is_exact, blocks_exactly, is_other, BlockedTerm, find_blocking_term, check_slug,
}
use wedding_saas.Slug.Accepted.{three, check_slug_format-IsAddress_iff, IsAddress}

any-cong : {A : Type 0} (p q : A → Bool) (xs : List A) → ((x : A) → p x ≡ q x) → any p xs ≡ any q xs
any-cong p q [] same = refl
any-cong p q (x ∷ xs) same = rw (same x, any-cong p q xs same) refl

is_none-find : {A : Type 0} (p : A → Bool) (xs : List A) → is_none (find p xs) ≡ not (any p xs)
is_none-find p [] = refl
is_none-find p (x ∷ xs) = ground (arith, is_none-find p xs)

is_none-map : {A B : Type 0} (f : A → B) (o : Option A) → is_none (Option.map f o) ≡ is_none o
is_none-map f none = refl
is_none-map f (some a) = refl

any-keep :
    {A : Type 0} (p q : A → Bool) (xs : List A) → any q (keep p xs) ≡ any (λ x. p x && q x) xs
any-keep p q [] = refl
any-keep p q (x ∷ xs) = ground (arith, any-keep p q xs)

is_true : {b : Bool} → false ≡ not b → b ≡ true
is_true h = ground arith

is_false : {b : Bool} → true ≡ not b → b ≡ false
is_false h = ground arith

any-split :
    {A : Type 0} (e f w : A → Bool) (xs : List A)
    → any (λ x. if e x then f x else w x) xs
      ≡ (any (λ x. e x && f x) xs || any (λ x. not (e x) && w x) xs)
any-split e f w [] = refl
any-split e f w (x ∷ xs) = ground (arith, any-split e f w xs)

-- Two rows tell whether any row is another's.
two_rows :
    (exclude : Option ℕ) (rows : List Invitation)
    → DistinctIds rows
    → any (is_other exclude) (take 2 rows) ≡ any (is_other exclude) rows
two_rows exclude [] h = refl
two_rows exclude (a ∷ []) h = refl
two_rows none (a ∷ b ∷ rows) h = refl
two_rows (some id) (a ∷ b ∷ rows) ((apart, rest), hs) = ground (arith, apart)

module _ (blocklist : List BlockedTerm) (slug : List ℕ) where
  abbrev normalised : List ℕ
  normalised = lower (trim_units slug)

  abbrev exactly : Bool
  exactly = any (blocks_exactly normalised) blocklist

  abbrev within : Bool
  within =
      any (λ r. not (is_exact r.match_type) && blocks_within (fold_leet normalised) r) blocklist

  any-blocks : any (blocks slug) blocklist ≡ (exactly || within)
  any-blocks =
      any-split (λ r. is_exact r.match_type) (λ r. same_units (lower r.term) normalised)
        (blocks_within (fold_leet normalised)) blocklist

  second_pass :
      is_none (
        Option.map
          (λ r. r.term)
          (find
            (blocks_within (fold_leet normalised))
            (keep (λ r. not (is_exact r.match_type)) blocklist)))
      ≡ not within
  second_pass =
      is_none-map (λ r. r.term)
        (find (blocks_within (fold_leet normalised))
          (keep (λ r. not (is_exact r.match_type)) blocklist))
      ∙ is_none-find (blocks_within (fold_leet normalised))
          (keep (λ r. not (is_exact r.match_type)) blocklist)
      ∙ ap not (
          any-keep (λ r. not (is_exact r.match_type)) (blocks_within (fold_leet normalised))
            blocklist)

  pub is_none-find_blocking_term :
      is_none (find_blocking_term blocklist slug) ≡ not (any (blocks slug) blocklist)
  unfolding find_blocking_term
  is_none-find_blocking_term =
      let first = is_none-find (blocks_exactly normalised) blocklist in
      elim (Option-cases (find (blocks_exactly normalised) blocklist)) [
        | inr (r, found) ↦
            rw (found, find_blocking_term)
              (sym (
                ap not
                  (any-blocks ∙ ap (λ b. b || within) (is_true (ap is_none (sym found) ∙ first)))))
        | inl nothing ↦
            rw (nothing, find_blocking_term)
              (second_pass
                ∙ ap not (
                    sym (
                      any-blocks
                      ∙ ap (λ b. b || within) (is_false (ap is_none (sym nothing) ∙ first)))))
      ]

pub is_none-slug_taken :
    (slug : List ℕ) (exclude : Option ℕ) (invitations : List Invitation)
    → DistinctIds invitations
    → slug_taken slug exclude invitations
      ≡ any (λ i. holds_slug slug i && is_other exclude i) invitations
unfolding slug_taken
is_none-slug_taken slug exclude invitations apart =
    two_rows exclude (keep (holds_slug slug) invitations)
      (keep-DistinctIds (holds_slug slug) invitations apart)
    ∙ any-keep (holds_slug slug) (is_other exclude) invitations

none_iff : {A : Type 0} (o : Option A) → (o ≡ none) ↔ (is_none o ≡ true)
none_iff none = (λ h. refl, λ h. refl)
none_iff (some a) = (λ h. cc, λ h. cc)

is_none-check_slug :
    (blocklist : List BlockedTerm) (invitations : List Invitation) (raw : List ℕ)
    (exclude : Option ℕ)
    → is_none (check_slug blocklist invitations raw exclude) ≡ (
        is_none (check_slug_format (trim_units raw))
        && is_none (find_blocking_term blocklist (trim_units raw))
        && not (slug_taken (trim_units raw) exclude invitations))
unfolding check_slug
is_none-check_slug blocklist invitations raw exclude =
    let slug = trim_units raw in
    elim (Option-cases (check_slug_format slug)) [
      | inr (why, refused) ↦ rw (refused, check_slug) refl
      | inl shaped ↦ elim (Option-cases (find_blocking_term blocklist slug)) [
        | inr (term, blocked) ↦ rw (shaped, check_slug) (rw blocked refl)
        | inl clean ↦ elim (Bool-cases (slug_taken slug exclude invitations)) [
          | inl held ↦ rw (shaped, check_slug) (rw clean (rw held refl))
          | inr free ↦ rw (shaped, check_slug) (rw clean (rw free refl))
        ]
      ]
    ]

-- With the ids of the invitations distinct, the check lets an address pass exactly when, without its
-- outer spaces, it has 3 to 50 characters of `[a-z0-9-]` and no dash at either end, no exact term of
-- the blocklist equals it and no other term stands in it, both folded, and no invitation that is not
-- deleted holds it but the one that is excluded.
pub check_slug-IsFree_iff :
    (blocklist : List BlockedTerm) (invitations : List Invitation) (raw : List ℕ)
    (exclude : Option ℕ)
    → DistinctIds invitations
    → (check_slug blocklist invitations raw exclude ≡ none) ↔ (
        IsAddress (trim_units raw)
        × (any (is_blocked_by (trim_units raw)) blocklist ≡ false)
        × (any (λ i. is_held_by (trim_units raw) i && is_apart_from exclude i) invitations ≡ false))
check_slug-IsFree_iff blocklist invitations raw exclude apart =
    let slug = trim_units raw in
    let whole = is_none-check_slug blocklist invitations raw exclude in
    let clean =
      is_none-find_blocking_term blocklist slug
      ∙ ap not
          (any-cong (blocks slug) (is_blocked_by slug) blocklist (blocks-is_blocked_by slug)) in
    let held =
      is_none-slug_taken slug exclude invitations apart
      ∙ any-cong (λ i. holds_slug slug i && is_other exclude i)
          (λ i. is_held_by slug i && is_apart_from exclude i) invitations
          (λ i. rw (is_held_by-holds_slug slug i, is_apart_from-is_other exclude i) refl) in
    let shape = check_slug_format-IsAddress_iff slug in
    let empty = none_iff (check_slug_format slug) in
    (
      λ h.
          let (a, b, c) =
            three (sym whole ∙ (none_iff (check_slug blocklist invitations raw exclude)).0 h) in
          (shape.0 (empty.1 a), is_false (sym b ∙ clean), sym held ∙ is_false (sym c)),
      λ (a, b, c).
          (none_iff (check_slug blocklist invitations raw exclude)).1
            (whole ∙ rw (empty.0 (shape.1 a), clean, held) (rw (b, c) refl)),
    )
