-- ===== src/Upload/SignedUrl.antt =====
-- src/modules/upload/infrastructure/signing/local-signed-url.service.ts. HMAC-SHA256 in base64url and
-- the serialisation of URLSearchParams are parameters; times are milliseconds.
use project_saas_backend.Common.{
  ℕ, ◌+◌, ◌*◌, ◌/◌, Text, codes, text_eq, Option, none, some, List, [], ◌∷◌, ◌++◌, Bool, true,
  false, not, ◌||◌, ltb, ◌==◌, if◌then◌else◌, get_or, length,
}
use project_saas_backend.Common.Decimal.{decimal}
use project_saas_backend.Common.Result.{Result, ok, err}
use project_saas_backend.Errors.{Thrown, native}

pub data Method : Type 0 where
  put : Method
  get : Method
  delete : Method
  -- Outside the declared type: the cast of the local provider's `generateUploadUrl` lets it through.
  post : Method

unfoldable pub method_text : Method → Text
unfolding codes
method_text put = codes "PUT"
method_text get = codes "GET"
method_text delete = codes "DELETE"
method_text post = codes "POST"

-- A number from the query: `Number` gives NaN, an infinity, a negative or a whole number. Fractions
-- are left aside: no URL is signed for one.
pub data Expire : Type 0 where
  nan : Expire
  infinite : Expire
  negative : Expire
  whole : ℕ → Expire

pub record SignInput : Type 0 where
  pub method : Method
  pub key : Text
  pub expire_seconds : ℕ
  pub content_type : Option Text
  pub max_size_bytes : Option ℕ
  pub path_prefix : Option Text

pub record SignedUrl : Type 0 where
  pub url : Text
  pub signature : Text
  pub expire_at : ℕ

-- The input of `verify`.
pub record Grant : Type 0 where
  pub method : Method
  pub key : Text
  pub expire : Expire
  pub content_type : Option Text
  pub max_size : Option ℕ
  pub signature : Text

abbrev pub max_text : Option ℕ → Text
max_text none = []
max_text (some n) = decimal n

-- `[...].join('\n')`
unfoldable pub canonical : Method → Text → ℕ → Option Text → Option ℕ → Text
canonical method key expire content_type max_size =
    method_text method
    ++ (10 ∷ key
        ++ (10 ∷ decimal expire ++ (10 ∷ get_or content_type [] ++ 10 ∷ max_text max_size)))

abbrev pub is_empty : Text → Bool
is_empty [] = true
is_empty (c ∷ s) = false

abbrev not_configured : Thrown
not_configured =
    let message = codes "LocalSignedUrlService: localSigningSecret is not configured." in
    native message (codes "Error: " ++ message)

-- What `verify` answers: null, or the reason.
pub data Verdict : Type 0 where
  accepted : Verdict
  missing_parameters : Verdict
  invalid_expire : Verdict
  expired : Verdict
  invalid_signature : Verdict

module _ (hmac : Text → Text → Text) (search_params : List (Text × Text) → Text) where
  -- The getter `secret` throws without a secret.
  abbrev pub compute_signature :
      Text → Method → Text → ℕ → Option Text → Option ℕ → Result Thrown Text
  compute_signature [] method key expire content_type max_size = err not_configured
  compute_signature (c ∷ s) method key expire content_type max_size =
      ok (hmac (c ∷ s) (canonical method key expire content_type max_size))

  abbrev content_type_param : Option Text → List (Text × Text)
  content_type_param none = []
  content_type_param (some []) = []
  content_type_param (some (c ∷ s)) = (codes "ct", c ∷ s) ∷ []

  abbrev max_param : Option ℕ → List (Text × Text)
  max_param none = []
  max_param (some n) = (codes "max", decimal n) ∷ []

  -- `Math.floor((Date.now() + expireSeconds * 1000) / 1000)`
  abbrev pub expire_at : ℕ → ℕ → ℕ
  expire_at now seconds = (now + seconds * 1000) / 1000

  abbrev pub signed : SignInput → ℕ → Result Thrown Text → Result Thrown SignedUrl
  signed input expire (err e) = err e
  signed input expire (ok signature) = ok (record {
    url =
        get_or input.path_prefix (codes "/upload/local/direct")
        ++ 63
          ∷ search_params (
              (codes "key", input.key)
                ∷ (codes "expire", decimal expire)
                ∷ content_type_param input.content_type
              ++ max_param input.max_size_bytes
              ++ (codes "sig", signature) ∷ []);
    signature = signature;
    expire_at = expire;
  })

  unfoldable pub sign_url : Text → ℕ → SignInput → Result Thrown SignedUrl
  unfolding canonical decimal codes
  sign_url local_signing_secret now input =
      let expire = expire_at now input.expire_seconds in
      signed input expire (
        compute_signature local_signing_secret input.method input.key expire input.content_type
          input.max_size_bytes)

  -- Two buffers are compared when their lengths agree. (The expected text is ASCII, so the bytes of
  -- the two texts agree exactly when the texts do.)
  abbrev pub compare_signatures : Text → Result Thrown Text → Result Thrown Verdict
  compare_signatures given (err e) = err e
  compare_signatures given (ok expected) =
      if not (length expected == length given)
      then ok invalid_signature
      else if not (text_eq expected given)
      then ok invalid_signature
      else ok accepted

  abbrev pub check_expire : Text → ℕ → Grant → Expire → Result Thrown Verdict
  check_expire s now g nan = ok missing_parameters
  check_expire s now g infinite = ok invalid_expire
  check_expire s now g negative = ok expired
  check_expire s now g (whole n) =
      if n == 0
      then ok missing_parameters
      else if ltb (n * 1000) now
      then ok expired
      else compare_signatures g.signature
          (compute_signature s g.method g.key n g.content_type g.max_size)

  unfoldable pub verify : Text → ℕ → Grant → Result Thrown Verdict
  unfolding canonical text_eq
  verify local_signing_secret now g =
      if is_empty g.key || is_empty g.signature
      then ok missing_parameters
      else check_expire local_signing_secret now g g.expire
