-- ===== src/Schema/Ready.antt =====
-- When the publish gate says that an invitation is ready.
use wedding_saas.Schema.Resolve.{Value}
use wedding_saas.Base.{
  refl, ◌∙◌, ok, arith, [], ◌||◌, ◌&&◌, true, inr, any, ◌++◌, some, not, map, inl, keep, is_nil,
  Bool-cases, All, ◌∷◌, false, Bool, ◌≡◌, ℕ, Option, List, String,
}
use mathlib.Core.Path.{ap, sym, subst}
use text.Mathlib.Text.{◌==◌ as str_eq}
use text.Mathlib.TextEquality.{eq_iff}
use wedding_saas.Schema.Completeness.{
  missing_of, PublishCheckResult, is_section_enabled, collect_missing_required_fields,
  SectionDefinition, PublishInputs, MissingRequiredField, has_key, summarise, distinct,
  check_publish,
}
use wedding_saas.Schema.Filled.{IsFlat, is_proper, filled, is_path_missing-filled}

module _ (index_of : String → Option ℕ) (document : Value) (enabled : List String) where
  -- The paths of a section that the resolver is right about.
  abbrev pub IsCovered : SectionDefinition → Type 0
  IsCovered s =
      All (λ path. (is_proper path ≡ true) × IsFlat index_of path document) s.required_fields

  -- A section that is shown and has a required field that is not filled; one that cannot be turned
  -- off is always shown.
  abbrev pub is_incomplete : SectionDefinition → Bool
  is_incomplete s =
      (not s.configurable || has_key s.section_key enabled)
      && any (λ path. not (filled index_of path document)) s.required_fields

  abbrev blocks_publishing : SectionDefinition → Bool
  blocks_publishing s =
      is_section_enabled s enabled
      && any (λ path. not (filled index_of path document)) s.required_fields

  incomplete_blocks : (s : SectionDefinition) → blocks_publishing s ≡ is_incomplete s
  unfolding is_section_enabled
  incomplete_blocks s = ground arith

  missing_of-nil :
      (key : String) (paths : List (List String))
      → All (λ path. (is_proper path ≡ true) × IsFlat index_of path document) paths
      → is_nil (missing_of index_of document key paths)
        ≡ not (any (λ path. not (filled index_of path document)) paths)
  missing_of-nil key [] h = refl
  missing_of-nil key (path ∷ paths) ((proper, flat), hs) =
      rw (is_path_missing-filled index_of document path proper flat)
        (ground (arith, missing_of-nil key paths hs))

  missing_of-key :
      (name key : String) (paths : List (List String))
      → All (λ path. (is_proper path ≡ true) × IsFlat index_of path document) paths
      → has_key name (map (λ m. m.section_key) (missing_of index_of document key paths))
        ≡ (str_eq key name && any (λ path. not (filled index_of path document)) paths)
  missing_of-key name key [] h = ground arith
  missing_of-key name key (path ∷ paths) ((proper, flat), hs) =
      rw (is_path_missing-filled index_of document path proper flat)
        (ground (arith, missing_of-key name key paths hs))

  is_nil-append : {A : Type 0} (xs ys : List A) → is_nil (xs ++ ys) ≡ (is_nil xs && is_nil ys)
  is_nil-append [] ys = refl
  is_nil-append (x ∷ xs) ys = refl

  has_key-append :
      (name : String) (xs ys : List MissingRequiredField)
      → has_key name (map (λ m. m.section_key) (xs ++ ys))
        ≡ (has_key name (map (λ m. m.section_key) xs) || has_key name (map (λ m. m.section_key) ys))
  has_key-append name [] ys = refl
  has_key-append name (x ∷ xs) ys = ground (arith, has_key-append name xs ys)

  collect-nil :
      (sections : List SectionDefinition)
      → All IsCovered sections
      → is_nil (collect_missing_required_fields index_of document sections enabled)
        ≡ not (any blocks_publishing sections)
  unfolding collect_missing_required_fields
  collect-nil [] h = refl
  collect-nil (s ∷ ss) (h, hs) = elim (Bool-cases (is_section_enabled s enabled)) [
    | inr off ↦ rw off (collect-nil ss hs)
    | inl on ↦ rw on (
        is_nil-append (missing_of index_of document s.section_key s.required_fields)
          (collect_missing_required_fields index_of document ss enabled)
        ∙ ground (arith, missing_of-nil s.section_key s.required_fields h, collect-nil ss hs))
  ]

  collect-key :
      (name : String) (sections : List SectionDefinition)
      → All IsCovered sections
      → has_key name (
          map
            (λ m. m.section_key)
            (collect_missing_required_fields index_of document sections enabled))
        ≡ any (λ s. str_eq s.section_key name && blocks_publishing s) sections
  unfolding collect_missing_required_fields
  collect-key name [] h = refl
  collect-key name (s ∷ ss) (h, hs) = elim (Bool-cases (is_section_enabled s enabled)) [
    | inr off ↦ rw off (ground (arith, collect-key name ss hs))
    | inl on ↦ rw on (
        has_key-append name (missing_of index_of document s.section_key s.required_fields)
          (collect_missing_required_fields index_of document ss enabled)
        ∙ ground
            (arith, missing_of-key name s.section_key s.required_fields h, collect-key name ss hs))
  ]

  any-incomplete :
      (p : SectionDefinition → Bool) (sections : List SectionDefinition)
      → any (λ s. p s && blocks_publishing s) sections ≡ any (λ s. p s && is_incomplete s) sections
  any-incomplete p [] = refl
  any-incomplete p (s ∷ ss) = rw (incomplete_blocks s) (ground (arith, any-incomplete p ss))

-- A key that is not the one removed stays.
has_key-keep :
    (name k : String) (ks : List String)
    → str_eq k name ≡ false
    → has_key name (keep (λ j. not (str_eq j k)) ks) ≡ has_key name ks
has_key-keep name k [] h = refl
has_key-keep name k (j ∷ ks) h = elim (Bool-cases (str_eq j k)) [
  | inr other ↦ rw other (ground (arith, has_key-keep name k ks h))
  | inl same ↦
      let gone : str_eq j name ≡ false =
        subst (λ i. str_eq i name ≡ false) (sym ((eq_iff j k).0 same)) h in
      rw same (rw gone (has_key-keep name k ks h))
]

has_key-distinct : (name : String) (ks : List String) → has_key name (distinct ks) ≡ has_key name ks
unfolding distinct
has_key-distinct name [] = refl
has_key-distinct name (k ∷ ks) = elim (Bool-cases (str_eq k name)) [
  | inl same ↦ rw same refl
  | inr other ↦ rw other (has_key-keep name k (distinct ks) other ∙ has_key-distinct name ks)
]

-- For an invitation whose template could be read, with paths that are plain or have one wildcard over
-- values that are no lists, the gate answers, and calls the invitation ready exactly when no enabled
-- section (one that cannot be turned off is enabled) has a required field that is not filled; the
-- sections that it names as incomplete are those that have one.
pub check_publish-ready :
    (index_of : String → Option ℕ) (strict : Bool) (inputs : PublishInputs)
    (sections : List SectionDefinition)
    → inputs.sections ≡ some sections
    → All (IsCovered index_of inputs.document inputs.enabled_sections) sections
    → (r : PublishCheckResult) × (check_publish index_of strict (some inputs) ≡ ok r)
      × (r.ready
          ≡ not (any (is_incomplete index_of inputs.document inputs.enabled_sections) sections))
      × ((name : String)
          → has_key name r.incomplete_sections
            ≡ any
                (λ s.
                  str_eq s.section_key name
                  && is_incomplete index_of inputs.document inputs.enabled_sections s)
                sections)
unfolding check_publish summarise
check_publish-ready index_of strict inputs sections read covered =
    let missing =
      collect_missing_required_fields index_of inputs.document sections inputs.enabled_sections in
    (
      summarise missing,
      rw (read, check_publish) refl,
      collect-nil index_of inputs.document inputs.enabled_sections sections covered
          ∙ ap not (
              any-incomplete index_of inputs.document inputs.enabled_sections (λ s. true) sections),
      λ name.
          has_key-distinct name (map (λ m. m.section_key) missing)
          ∙ collect-key index_of inputs.document inputs.enabled_sections name sections covered
          ∙ any-incomplete index_of inputs.document inputs.enabled_sections
              (λ s. str_eq s.section_key name) sections,
    )
