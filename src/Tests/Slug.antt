-- ===== src/Tests/Slug.antt =====
-- The address of a couple, and one that the blocklist refuses.
use wedding_saas.Base.Text.{is_space}
use wedding_saas.Status.Rules.{InvitationStatus}
use wedding_saas.Publishing.Publish.{taken}
use wedding_saas.Slug.Accepted.{IsAddress}
use wedding_saas.Tests.Data.{invitation_in}
use wedding_saas.Db.{Invitation}
use wedding_saas.Base.{◌&&◌, refl, false, any, ◌↔◌, [], ◌∷◌, none, ◌≡◌, ℕ, some, List}
use wedding_saas.Slug.Service.{
  units, trim_units, substring, slug_taken, fold_leet, MatchType, find_blocking_term, repeats,
  matches_format, BlockedTerm, check_slug_format, check_slug,
}
use wedding_saas.Slug.Free.{check_slug-IsFree_iff}
use wedding_saas.Slug.Blocked.{is_blocked_by, is_held_by, is_apart_from}

abbrev couple : List ℕ
couple = 32 ∷ 98 ∷ 117 ∷ 100 ∷ 105 ∷ 45 ∷ 97 ∷ 110 ∷ 105 ∷ []

-- "api" as a whole, and "jud1" anywhere
abbrev blocked_terms : List BlockedTerm
blocked_terms =
    record { term = 97 ∷ 112 ∷ 105 ∷ []; match_type = MatchType.exact }
    ∷ record { term = 106 ∷ 117 ∷ 100 ∷ 49 ∷ []; match_type = substring }
    ∷ []

abbrev stored : List Invitation
stored = record (invitation_in InvitationStatus.draft) { slug = some "budi-ani" } ∷ []

check_slug-IsFree_iff_example : (check_slug blocked_terms stored couple (some 1) ≡ none) ↔ (
    IsAddress (trim_units couple)
    × (any (is_blocked_by (trim_units couple)) blocked_terms ≡ false)
    × (any (λ i. is_held_by (trim_units couple) i && is_apart_from (some 1) i) stored ≡ false))
check_slug-IsFree_iff_example = check_slug-IsFree_iff blocked_terms stored couple (some 1) (tt, tt)

-- Its own address is free to an invitation, and taken for every other.
own_address :
    (check_slug blocked_terms stored couple (some 1) ≡ none)
    × (check_slug blocked_terms stored couple none ≡ some taken)
unfolding check_slug check_slug_format matches_format repeats find_blocking_term fold_leet
    slug_taken units is_space
own_address = (refl, refl)
