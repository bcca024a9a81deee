-- ===== src/Slug/Service.antt =====
-- backend/api/src/modules/invitation/slug.service.ts, with `slugTaken` of
-- shared/tenancy/invitation-repository.ts. A text is the list of its code units. Case is folded in the
-- Latin alphabet, in which a slug is once its format is checked; the blocklist's terms are in it too.
use mathlib.Core.Option
use wedding_saas.Base.{
  length, keep, ◌==◌, ◌+◌, zero, take, not, none, ltb, is_none, all, ◌∷◌, ◌||◌, ◌&&◌, true, suc,
  some, map, leb, if◌then◌else◌, find, false, any, [], ℕ, String, Option, List, Bool,
}
use wedding_saas.Db.{Invitation}
use wedding_saas.Publishing.Publish.{SlugRejection}
use wedding_saas.Base.Text.{is_space}
use Prim.Native.Char.{code}

-- The code units of a text in the basic plane
unfoldable pub units : String → List ℕ
units String.[] = []
units (String.◌∷◌ c s) = code c ∷ units s

abbrev pub is_alphanumeric : ℕ → Bool
is_alphanumeric c = (leb 97 c && leb c 122) || (leb 48 c && leb c 57)

-- `[a-z0-9-]`
abbrev pub is_slug_unit : ℕ → Bool
is_slug_unit c = is_alphanumeric c || (c == 45)

-- `[a-z0-9]$`
abbrev pub ends_here : List ℕ → Bool
ends_here [] = false
ends_here (c ∷ []) = is_alphanumeric c
ends_here (c ∷ d ∷ cs) = false

-- `[a-z0-9-]{0,n}[a-z0-9]$`
unfoldable pub repeats : ℕ → List ℕ → Bool
repeats zero xs = ends_here xs
repeats (suc n) [] = false
repeats (suc n) (c ∷ cs) = let rest = repeats n cs in ends_here (c ∷ cs) || (is_slug_unit c && rest)

-- SLUG_FORMAT after its first unit
abbrev pub group_matches : List ℕ → Bool
group_matches [] = true
group_matches (c ∷ cs) = is_slug_unit c && repeats 47 cs

-- `SLUG_FORMAT.test`
unfoldable pub matches_format : List ℕ → Bool
matches_format [] = false
matches_format (c ∷ cs) = is_alphanumeric c && group_matches cs

-- `checkSlugFormat`
unfoldable pub check_slug_format : List ℕ → Option SlugRejection
check_slug_format slug =
    if ltb (length slug) 3 || ltb 50 (length slug)
    then some SlugRejection.format
    else if not (matches_format slug)
    then some SlugRejection.format
    else none

-- `value.replace(/from/g, to)` of one unit
abbrev pub replace_unit : ℕ → ℕ → List ℕ → List ℕ
replace_unit from to xs = map (λ c. if c == from then to else c) xs

-- `foldLeet`
unfoldable pub fold_leet : List ℕ → List ℕ
fold_leet value = replace_unit 36 115 (
    replace_unit 64 97 (
      replace_unit 55 116 (
        replace_unit 53 115 (
          replace_unit 48 111
            (replace_unit 49 105 (replace_unit 51 101 (replace_unit 52 97 value)))))))

-- `toLowerCase`
abbrev pub lower : List ℕ → List ℕ
lower xs = map (λ c. if leb 65 c && leb c 90 then c + 32 else c) xs

abbrev pub same_units : List ℕ → List ℕ → Bool
same_units [] [] = true
same_units [] (y ∷ ys) = false
same_units (x ∷ xs) [] = false
same_units (x ∷ xs) (y ∷ ys) = (x == y) && same_units xs ys

abbrev pub starts_with : List ℕ → List ℕ → Bool
starts_with xs [] = true
starts_with [] (y ∷ ys) = false
starts_with (x ∷ xs) (y ∷ ys) = (x == y) && starts_with xs ys

-- `String.prototype.includes`
abbrev pub contains : List ℕ → List ℕ → Bool
contains [] ys = starts_with [] ys
contains (x ∷ xs) ys = starts_with (x ∷ xs) ys || contains xs ys

abbrev pub drop_spaces : List ℕ → List ℕ
drop_spaces [] = []
drop_spaces (c ∷ cs) = let rest = drop_spaces cs in if is_space c then rest else c ∷ cs

abbrev pub drop_last_spaces : List ℕ → List ℕ
drop_last_spaces [] = []
drop_last_spaces (c ∷ cs) =
    let rest = drop_last_spaces cs in if all is_space (c ∷ cs) then [] else c ∷ rest

-- `trim`
abbrev pub trim_units : List ℕ → List ℕ
trim_units xs = drop_last_spaces (drop_spaces xs)

pub data MatchType : Type 0 where
  exact substring : MatchType

-- A row of `slug_blocklist`
pub record BlockedTerm : Type 0 where
  pub term : List ℕ
  pub match_type : MatchType

abbrev pub is_exact : MatchType → Bool
is_exact exact = true
is_exact substring = false

-- The row of the first query
abbrev pub blocks_exactly : List ℕ → BlockedTerm → Bool
blocks_exactly normalised r = is_exact r.match_type && same_units (lower r.term) normalised

abbrev pub blocks_within : List ℕ → BlockedTerm → Bool
blocks_within folded r = contains folded (fold_leet (lower r.term))

-- `findBlockingTerm`
unfoldable pub find_blocking_term : List BlockedTerm → List ℕ → Option (List ℕ)
find_blocking_term blocklist slug =
    let normalised = lower (trim_units slug) in
    elim (find (blocks_exactly normalised) blocklist) [
      | some r ↦ some r.term
      | none ↦
          Option.map (λ r. r.term)
            (find (blocks_within (fold_leet normalised))
              (keep (λ r. not (is_exact r.match_type)) blocklist))
    ]

abbrev pub has_slug : List ℕ → Option String → Bool
has_slug slug none = false
has_slug slug (some text) = same_units (units text) slug

-- The rows of the query in `slugTaken`, before its limit
abbrev pub holds_slug : List ℕ → Invitation → Bool
holds_slug slug i = has_slug (lower (trim_units slug)) i.slug && is_none i.deleted_at

-- `row.id !== excludeInvitationId`
abbrev pub is_other : Option ℕ → Invitation → Bool
is_other none i = true
is_other (some id) i = not (i.id == id)

-- `slugTaken`; between more than two rows the database is free, and the first two are taken.
unfoldable pub slug_taken : List ℕ → Option ℕ → List Invitation → Bool
slug_taken slug exclude invitations =
    any (is_other exclude) (take 2 (keep (holds_slug slug) invitations))

-- `check`
unfoldable pub check_slug :
    List BlockedTerm → List Invitation → List ℕ → Option ℕ → Option SlugRejection
check_slug blocklist invitations raw exclude =
    let slug = trim_units raw in
    elim (check_slug_format slug) [
      | some why ↦ some why
      | none ↦ elim (find_blocking_term blocklist slug) [
        | some term ↦ some SlugRejection.blocked
        | none ↦ if slug_taken slug exclude invitations then some SlugRejection.taken else none
      ]
    ]
