-- ===== src/Http/Sanitize.antt =====
-- src/core/middleware/sanitize.middleware.ts and src/shared/utils/sanitize.util.ts. The filter of the
-- library xss is a parameter. An object is the list of its entries, its keys different.
pub mod Laws
use project_saas_backend.Common.{
  ℕ, Text, codes, text_eq, Option, none, some, List, [], ◌∷◌, Bool, true, false, if◌then◌else◌,
  ◌++◌,
}
use project_saas_backend.Common.Trim.{trim}

mutual
  pub data Value : Type 0 where
    text : Text → Value
    items : Items → Value
    object : Fields → Value
    -- a number, a Boolean or null
    other : ℕ → Value

  pub data Items : Type 0 where
    end : Items
    item : Value → Items → Items

  pub data Fields : Type 0 where
    none_left : Fields
    field : Text → Value → Fields → Fields

module _ (xss : Text → Text) where
  unfoldable pub sanitize_string : Text → Text
  unfolding trim
  sanitize_string input = xss (trim input)

  unfoldable mutual
    unfolding sanitize_string

    pub sanitize : Value → Value
    sanitize (text s) = text (sanitize_string s)
    sanitize (items xs) = items (sanitize_items xs)
    sanitize (object fs) = object (sanitize_object fs)
    sanitize (other n) = other n

    pub sanitize_items : Items → Items
    sanitize_items end = end
    sanitize_items (item x xs) = item (sanitize x) (sanitize_items xs)

    pub sanitize_object : Fields → Fields
    sanitize_object none_left = none_left
    sanitize_object (field key v fs) = field key (sanitize v) (sanitize_object fs)

  -- The request's body, query and parameters, where they are set.
  pub record Input : Type 0 where
    pub body : Option Value
    pub query : Option Value
    pub params : Option Value

  abbrev pub if_given : Option Value → Option Value
  unfolding sanitize
  if_given none = none
  if_given (some v) = some (sanitize v)

  unfoldable pub sanitize_request : Input → Input
  unfolding sanitize
  sanitize_request req = record {
    body = if_given req.body;
    query = if_given req.query;
    params = if_given req.params;
  }

abbrev pub sensitive_fields : List Text
unfolding codes
sensitive_fields = codes "password" ∷ codes "refreshToken" ∷ codes "passwordResetToken" ∷ []

-- `delete result[field]`
abbrev pub delete_field : Text → Fields → Fields
unfolding text_eq
delete_field name none_left = none_left
delete_field name (field key v fs) =
    let rest = delete_field name fs in if text_eq key name then rest else field key v rest

unfoldable pub strip_sensitive_fields : Fields → List Text → Fields
unfolding text_eq
strip_sensitive_fields fs [] = fs
strip_sensitive_fields fs (name ∷ names) = strip_sensitive_fields (delete_field name fs) names
