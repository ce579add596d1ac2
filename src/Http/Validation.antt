-- ===== src/Http/Validation.antt =====
-- src/core/pipes/validation.pipe.ts. What class-transformer and class-validator make of a value, the
-- object and its errors, are arguments.
pub mod Laws
use Prim.Native.String
use project_saas_backend.Common.{
  ℕ, String, Text, codes, Option, none, some, List, [], ◌∷◌, ◌++◌, Bool, true, false, length,
}
use project_saas_backend.Common.Decimal.{decimal}
use project_saas_backend.Common.Result.{Result, ok, err}
use project_saas_backend.Errors.{FieldError, HttpObject, one, object, Thrown, http}

-- The errors of class-validator, each with those of its children. A constraint has its name and its
-- message.
mutual
  pub data ValidationErrors : Type 0 where
    end : ValidationErrors
    -- the property, the value as text, the constraints, the children, and the errors after this one
    error :
        Text
        → Option Text
        → Option (List (Text × Text))
        → ValidationErrors
        → ValidationErrors
        → ValidationErrors

-- `parentField ? parentField + '.' + property : property`
abbrev pub dotted : Text → Text → Text
dotted [] property = property
dotted (c ∷ parent) property = (c ∷ parent) ++ 46 ∷ property

abbrev or_failed : Text → Text
unfolding codes
or_failed [] = codes "Validation failed."
or_failed (c ∷ s) = c ∷ s

abbrev first_message : List (Text × Text) → Text
unfolding codes
first_message [] = or_failed []
first_message ((key, message) ∷ cs) = or_failed message

abbrev first_key : List (Text × Text) → Option Text
first_key [] = none
first_key ((key, message) ∷ cs) = some key

abbrev pub field_error : Text → Option Text → Option (List (Text × Text)) → List FieldError
unfolding codes
field_error name value none = []
field_error name value (some cs) =
    record { field = name; message = first_message cs; value = value; constraint = first_key cs }
    ∷ []

unfoldable pub extract_fields : ValidationErrors → Text → List FieldError
unfolding codes
extract_fields end parent = []
extract_fields (error property value constraints children rest) parent =
    field_error (dotted parent property) value constraints
    ++ (extract_fields children (dotted parent property) ++ extract_fields rest parent)

unfoldable pub invalid_body : List FieldError → Thrown
unfolding codes decimal
invalid_body fields =
    http 400
      (object (record {
        error = none;
        message = one "The request contains invalid data.";
        code = some "ERR_VALIDATION_FAILED";
        name = some "ValidationError";
        details = some (decimal (length fields) ++ codes " field(s) failed validation.");
        fields = some fields;
      }))
      "The request contains invalid data." []

pub data Metatype : Type 0 where
  -- no type, or one of String, Boolean, Number, Array and Object
  primitive : Metatype
  dto : Metatype

module _ {V : Type 0} (plain_to_instance : V → V) (validate : V → ValidationErrors) where
  abbrev pub checked : V → ValidationErrors → Result Thrown V
  unfolding extract_fields invalid_body
  checked instance_ end = ok instance_
  checked instance_ (error p v cs children rest) =
      err (invalid_body (extract_fields (error p v cs children rest) []))

  unfoldable pub transform : V → Metatype → Result Thrown V
  unfolding extract_fields invalid_body
  transform value primitive = ok value
  transform value dto = checked (plain_to_instance value) (validate (plain_to_instance value))
