-- ===== src/Schema/Registry.antt =====
-- packages/schema/src/invitation/field-registry.ts: the paths that a template may require.
use wedding_saas.Schema.Resolve.{has_star}
use text.Mathlib.TextEquality.{eq_iff}
use mathlib.Core.Path.{ap, subst}
use text.Mathlib.Text.{◌==◌ as str_eq}
use wedding_saas.Schema.Filled.{is_proper}
use wedding_saas.Base.{
  ◌∙◌, inr, ◌&&◌, inl, refl, false, arith, Bool-cases, true, any, ◌≡◌, Bool, All, all, String, List,
  [], ◌∷◌, map, ◌++◌,
}

pub data FieldKind : Type 0 where
  scalar collection : FieldKind

pub record FieldDefinition : Type 0 where
  pub path : List String
  pub kind : FieldKind

abbrev scalars : List String → List String → List FieldDefinition
scalars parent names = map (λ name. record { path = parent ++ name ∷ []; kind = scalar }) names

abbrev collection_of : List String → FieldDefinition
collection_of path = record { path = path; kind = collection }

abbrev person_fields : List String
person_fields =
    "full_name" ∷ "nickname" ∷ "photo" ∷ "instagram" ∷ "father_name" ∷ "mother_name" ∷ "child_order"
    ∷ []

abbrev event_fields : List String
event_fields =
    "type" ∷ "title" ∷ "date" ∷ "start_time" ∷ "end_time" ∷ "timezone" ∷ "region_code"
    ∷ "venue_name" ∷ "address" ∷ "latitude" ∷ "longitude" ∷ "maps_url" ∷ "description" ∷ []

-- INVITATION_FIELDS
unfoldable pub invitation_fields : List FieldDefinition
invitation_fields =
    scalars ("couple" ∷ "groom" ∷ []) person_fields
    ++ scalars ("couple" ∷ "bride" ∷ []) person_fields
    ++ collection_of ("events" ∷ []) ∷ scalars ("events" ∷ "*" ∷ []) event_fields
    ++ collection_of ("gallery" ∷ "photos" ∷ [])
      ∷ scalars ("gallery" ∷ "photos" ∷ "*" ∷ [])
          ("media_id" ∷ "caption" ∷ "order" ∷ "is_cover" ∷ [])
    ++ collection_of ("gift" ∷ "accounts" ∷ [])
      ∷ scalars ("gift" ∷ "accounts" ∷ "*" ∷ [])
          ("type" ∷ "provider_name" ∷ "account_number" ∷ "account_holder" ∷ "order" ∷ [])
    ++ scalars ("quote" ∷ []) ("text" ∷ "source" ∷ [])

abbrev pub same_path : List String → List String → Bool
same_path [] [] = true
same_path [] (s ∷ ss) = false
same_path (r ∷ rs) [] = false
same_path (r ∷ rs) (s ∷ ss) = str_eq r s && same_path rs ss

-- `isCanonicalFieldPath`
unfoldable pub is_canonical_field_path : List String → Bool
unfolding invitation_fields
is_canonical_field_path path = any (λ f. same_path f.path path) invitation_fields

same_path-eq : (rs ss : List String) → same_path rs ss ≡ true → rs ≡ ss
same_path-eq [] [] h = refl
same_path-eq [] (s ∷ ss) h = cc
same_path-eq (r ∷ rs) [] h = cc
same_path-eq (r ∷ rs) (s ∷ ss) h =
    ap (λ x. x ∷ rs) ((eq_iff r s).0 (ground (arith, h)))
    ∙ ap (λ xs. s ∷ xs) (same_path-eq rs ss (ground (arith, h)))

found_path :
    (P : List String → Type 0) (fields : List FieldDefinition) (path : List String)
    → All (λ f. P f.path) fields
    → any (λ f. same_path f.path path) fields ≡ true
    → P path
found_path P [] path h k = cc
found_path P (f ∷ fs) path (h, hs) k = elim (Bool-cases (same_path f.path path)) [
  | inl same ↦ subst P (same_path-eq f.path path same) h
  | inr other ↦ found_path P fs path hs (ground (arith, k, other))
]

all_proper :
    (fields : List FieldDefinition)
    → all (λ f. is_proper f.path) fields ≡ true
    → All (λ f. is_proper f.path ≡ true) fields
all_proper [] h = tt
all_proper (f ∷ fs) h = (ground (arith, h), all_proper fs (ground (arith, h)))

-- No canonical path has more than one wildcard, or a star anywhere else.
pub is_canonical_field_path-is_proper :
    (path : List String) → is_canonical_field_path path ≡ true → is_proper path ≡ true
unfolding is_canonical_field_path has_star
is_canonical_field_path-is_proper path canonical =
    found_path (λ p. is_proper p ≡ true) invitation_fields path (all_proper invitation_fields refl)
      canonical
