-- ===== src/Tests/Schema.antt =====
-- An invitation with two events, one without a date; and albums that are all empty.
use text.Mathlib.Text.{◌==◌ as str_eq}
use wedding_saas.Base.{
  ◌&&◌, refl, any, ok, true, not, none, ◌≡◌, ℕ, some, false, [], Option, ◌∷◌, String, List,
}
use wedding_saas.Schema.Ready.{is_incomplete, check_publish-ready}
use wedding_saas.Schema.Filled.{filled, is_path_missing-filled}
use wedding_saas.Schema.Resolve.{
  null, nil, cons, array, is_empty, end, string, flatten, walk, field, object, has_star,
  is_path_missing, Value,
}
use wedding_saas.Schema.Completeness.{
  has_key, check_publish, PublishCheckResult, SectionDefinition, PublishInputs,
}

abbrev no_index : String → Option ℕ
no_index s = none

abbrev event_on : Value → Value
event_on day = object (field "title" (string "Akad") (field "date" day end))

abbrev half_dated : Value
half_dated = object (
    field "quote" (object (field "text" (string " ") end)) (
      field "events" (array (cons (event_on (string "2026-11-14")) (cons (event_on null) nil)))
        end))

abbrev dates : List String
dates = "events" ∷ "*" ∷ "date" ∷ []

is_path_missing-filled_example :
    is_path_missing no_index half_dated dates ≡ not (filled no_index dates half_dated)
unfolding has_star walk
is_path_missing-filled_example =
    is_path_missing-filled no_index half_dated dates refl (refl, (refl, tt))

abbrev draft_inputs : PublishInputs
draft_inputs = record {
  document = half_dated;
  enabled_sections = "quote" ∷ [];
  sections = some (
      record { section_key = "event"; configurable = false; required_fields = dates ∷ [] }
      ∷ record {
        section_key = "gift";
        configurable = true;
        required_fields = ("gift" ∷ "accounts" ∷ []) ∷ [];
      }
      ∷ []);
}

abbrev draft_sections : List SectionDefinition
draft_sections =
    record { section_key = "event"; configurable = false; required_fields = dates ∷ [] }
    ∷ record {
      section_key = "gift";
      configurable = true;
      required_fields = ("gift" ∷ "accounts" ∷ []) ∷ [];
    }
    ∷ []

check_publish-ready_example :
    (r : PublishCheckResult) × (check_publish no_index true (some draft_inputs) ≡ ok r)
    × (r.ready ≡ not (any (is_incomplete no_index half_dated ("quote" ∷ [])) draft_sections))
    × ((name : String)
        → has_key name r.incomplete_sections
          ≡ any
              (λ s. str_eq s.section_key name && is_incomplete no_index half_dated ("quote" ∷ []) s)
              draft_sections)
unfolding has_star walk
check_publish-ready_example =
    check_publish-ready no_index true draft_inputs draft_sections refl
      (((refl, (refl, (refl, tt))), tt), (((refl, tt), tt), tt))

-- With two wildcards, albums that hold no photo are reported as filled.
empty_albums :
    is_path_missing no_index
      (object (field "albums" (array (cons (object (field "photos" (array nil) end)) nil)) end))
      ("albums" ∷ "*" ∷ "photos" ∷ "*" ∷ "url" ∷ [])
    ≡ false
unfolding is_path_missing has_star walk flatten is_empty
empty_albums = refl
