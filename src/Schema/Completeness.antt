-- ===== src/Schema/Completeness.antt =====
-- packages/schema/src/resolver/completeness.ts, and the publish gate over it of
-- backend/api/src/modules/invitation/publish-check.service.ts. The texts of the messages are left
-- out.
use wedding_saas.Errors.{unavailable, service_unavailable, not_found, AppError}
use wedding_saas.Base.{
  ok, none, some, thrown, ◌++◌, true, [], Outcome, ℕ, not, map, keep, ◌∷◌, is_nil, if◌then◌else◌,
  any, Option, String, List, Bool,
}
use wedding_saas.Schema.Resolve.{Value, is_path_missing}
use text.Mathlib.Text.{◌==◌ as str_eq}

pub record SectionDefinition : Type 0 where
  pub section_key : String
  pub configurable : Bool
  pub required_fields : List (List String)

pub record MissingRequiredField : Type 0 where
  pub section_key : String
  pub path : List String

abbrev pub has_key : String → List String → Bool
has_key key keys = any (λ k. str_eq k key) keys

-- `isSectionEnabled`
unfoldable pub is_section_enabled : SectionDefinition → List String → Bool
is_section_enabled s enabled = if not s.configurable then true else has_key s.section_key enabled

module _ (index_of : String → Option ℕ) (invitation_data : Value) where
  abbrev pub missing_of : String → List (List String) → List MissingRequiredField
  missing_of key [] = []
  missing_of key (path ∷ paths) =
      let rest = missing_of key paths in
      if is_path_missing index_of invitation_data path
      then record { section_key = key; path = path } ∷ rest
      else rest

  -- `collectMissingRequiredFields`
  unfoldable pub collect_missing_required_fields :
      List SectionDefinition → List String → List MissingRequiredField
  collect_missing_required_fields [] enabled = []
  collect_missing_required_fields (s ∷ ss) enabled =
      let rest = collect_missing_required_fields ss enabled in
      if not (is_section_enabled s enabled)
      then rest
      else missing_of s.section_key s.required_fields ++ rest

-- `[...new Set(keys)]`
unfoldable pub distinct : List String → List String
distinct [] = []
distinct (k ∷ ks) = k ∷ keep (λ j. not (str_eq j k)) (distinct ks)

pub record PublishCheckResult : Type 0 where
  pub ready : Bool
  pub details : List (List String)
  pub incomplete_sections : List String

-- `summarise`
unfoldable pub summarise : List MissingRequiredField → PublishCheckResult
unfolding distinct
summarise missing = record {
  ready = is_nil missing;
  details = map (λ m. m.path) missing;
  incomplete_sections = distinct (map (λ m. m.section_key) missing);
}

-- What the reads answer: the invitation's document, its enabled sections and its template's
-- sections, where the template could be read.
pub record PublishInputs : Type 0 where
  pub document : Value
  pub enabled_sections : List String
  pub sections : Option (List SectionDefinition)

-- `check`, of an invitation that is the caller's or not
unfoldable pub check_publish :
    (String → Option ℕ) → Bool → Option PublishInputs → Outcome AppError PublishCheckResult
unfolding summarise collect_missing_required_fields
check_publish index_of strict none = thrown not_found
check_publish index_of strict (some inputs) = elim inputs.sections [
  | none ↦
      if strict
      then thrown (service_unavailable unavailable)
      else ok (record { ready = true; details = []; incomplete_sections = [] })
  | some sections ↦ ok (
      summarise
        (collect_missing_required_fields index_of inputs.document sections inputs.enabled_sections))
]
