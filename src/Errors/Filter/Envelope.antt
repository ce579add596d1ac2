-- ===== src/Errors/Filter/Envelope.antt =====
-- What a client reads of an exception: the laws of the global filter.
use text.Mathlib.TextEquality.{eq_iff}
use project_saas_backend.Common.{
  ℕ, String, Text, Option, none, List, Bool, true, false, ◌≡◌, refl, ◌≢◌, arith, Bool-cases, inl,
  inr,
}
use project_saas_backend.Errors.{
  FieldError, ErrorDefinition, from_definition, HttpMessage, many, HttpObject, object, api, http,
  coded, native,
}
use project_saas_backend.Errors.Filter.{
  http_code, resolve_http, handle_prisma_error, is_prisma_error, catch,
}

-- None of the codes for which the filter has an answer of its own.
abbrev pub IsUnmapped : String → Type 0
IsUnmapped code = (code ≢ "P2002") × (code ≢ "P2025") × (code ≢ "P2003")

prisma_hides :
    (code : String) (m m' : Text) (t t' : Option (List String))
    → IsUnmapped code
    → handle_prisma_error true code m t ≡ handle_prisma_error true code m' t'
unfolding handle_prisma_error
prisma_hides code m m' t t' h =
    ground (arith, eq_iff code "P2002", eq_iff code "P2025", eq_iff code "P2003")

-- In production, the envelope of an Error that is neither a Nest exception nor one of the three
-- database errors with an answer of their own does not depend on the error's message, target or
-- stack trace: two such errors with the same code are answered alike.
pub production_hides :
    (code : String) (m m' s s' : Text) (t t' : Option (List String))
    → IsUnmapped code
    → (catch true (native m s) ≡ catch true (native m' s'))
      × (catch true (coded code m t s) ≡ catch true (coded code m' t' s'))
unfolding catch
production_hides code m m' s s' t t' h = (
  refl,
  elim (Bool-cases (is_prisma_error code)) [
    | inl e ↦ ground (arith, prisma_hides code m m' t t' h)
    | inr e ↦ ground arith
  ],
)

-- An `ApiError` built from a definition reaches the client as it was defined: status, code, name,
-- message, details and fields; in production without a stack trace.
pub from_definition-catch :
    (d : ErrorDefinition) (details : Option Text) (fields : Option (List FieldError)) (stack : Text)
    → let r = catch true (api (from_definition d details fields) stack) in
      (r.status_code ≡ d.status_code)
      × (r.error.code ≡ d.code)
      × (r.error.name ≡ d.name)
      × (r.error.message ≡ d.message)
      × (r.error.details ≡ details)
      × (r.error.fields ≡ fields)
      × (r.error.stack ≡ none)
unfolding catch from_definition
from_definition-catch d details fields stack = (refl, refl, refl, refl, refl, refl, refl)

-- The response object has one message or none, and no list of messages.
abbrev pub HasNoList : HttpMessage → Type 0
HasNoList (many l) = ⊥
HasNoList _ = Unit

resolve_http-lossy :
    (status : ℕ) (res : HttpObject) (message : String)
    → HasNoList res.message
    → let r = resolve_http status (object res) message in
      (r.code ≡ http_code status) × (r.details ≡ none) × (r.fields ≡ none)
unfolding resolve_http
resolve_http-lossy status res message h = ground arith

-- Of a Nest exception whose response object has no list of messages, the client gets the status and
-- a code made from the status alone: the object's own `code`, `details` and `fields` are dropped, in
-- every environment.
pub http_object-catch :
    (production : Bool) (status : ℕ) (res : HttpObject) (message : String) (stack : Text)
    → HasNoList res.message
    → let r = catch production (http status (object res) message stack) in
      (r.status_code ≡ status)
      × (r.error.code ≡ http_code status)
      × (r.error.details ≡ none)
      × (r.error.fields ≡ none)
unfolding catch
http_object-catch true status res message stack h =
    let (code, details, fields) = resolve_http-lossy status res message h in
    (refl, code, details, fields)
http_object-catch false status res message stack h =
    let (code, details, fields) = resolve_http-lossy status res message h in
    (refl, code, details, fields)
