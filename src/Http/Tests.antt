-- ===== src/Http/Tests.antt =====
-- The witnesses of the theorems on answers, sanitising and validation.
use project_saas_backend.Common.{
  ℕ, Text, codes, none, some, List, [], ◌∷◌, true, false, ◌≡◌, refl, ◌==◌, if◌then◌else◌,
}
use project_saas_backend.Http.Context.{Seed}
use project_saas_backend.Http.Context.Laws.{Event, db, cache, external}
use project_saas_backend.Http.Responses.{ServerMeta, Returned, value}
use project_saas_backend.Http.Sanitize.{
  Value, text, object, other, none_left, field, items, item, sanitize,
}
use project_saas_backend.Http.Sanitize.{end as no_items}
use project_saas_backend.Http.Sanitize.Laws.{Pairwise, texts, blank, sanitize-texts}
use project_saas_backend.Http.Validation.{
  ValidationErrors, end, error, extract_fields, invalid_body, dto, transform,
}
use project_saas_backend.Http.Validation.Laws.{Lossy, transform-Lossy}

abbrev server : ServerMeta
server = record {
  hostname = codes "h";
  pid = 1;
  env = codes "test";
  node_version = codes "v20";
  region = none;
  app_version = none;
}

abbrev seed : Seed
seed = record {
  request_id = some (codes "r-1");
  method = some (codes "GET");
  path = some (codes "/api/v1/users");
  api_version = some (codes "v1");
  ip = none;
  user_agent = none;
  user_id = none;
}

abbrev events : List Event
events = cache 20 false true ∷ db 1500 ∷ cache 30 false false ∷ external 7 ∷ []

abbrev five : Returned ℕ
five = value 5

-- A filter that drops a leading `<`.
abbrev filter_tag : Text → Text
filter_tag [] = []
filter_tag (c ∷ s) = if c == 60 then s else c ∷ s

abbrev body : Value
body = object (
    field (codes "name") (text (codes " <b"))
      (field (codes "tags") (items (item (text (codes "x")) (item (other 3) no_items))) none_left))

sanitize-texts_example :
    Pairwise filter_tag (texts body) (texts (sanitize filter_tag body))
    × (blank (sanitize filter_tag body) ≡ blank body)
sanitize-texts_example = sanitize-texts filter_tag body

abbrev bad_address : ValidationErrors
bad_address =
    error (codes "address") none none
      (error (codes "street") none (some ((codes "isString", codes "street must be a string") ∷ []))
        end end)
      (error (codes "email") (some (codes "x"))
        (some ((codes "isEmail", codes "email must be an email") ∷ [])) end end)

abbrev same : ℕ → ℕ
same n = n

abbrev all_bad : ℕ → ValidationErrors
all_bad n = bad_address

transform-Lossy_example : Lossy true (invalid_body (extract_fields bad_address []))
unfolding transform invalid_body extract_fields codes
transform-Lossy_example =
    transform-Lossy same all_bad true 3 dto (invalid_body (extract_fields bad_address [])) refl
