-- ===== src/Upload/Tests.antt =====
-- The witnesses of the theorems on uploads.
use project_saas_backend.Common.{
  ◌*◌, ◌≤◌, ◌<◌, Text, codes, text_eq, Option, none, some, List, [], ◌∷◌, true, ◌≡◌, ◌↔◌, refl,
  arith, get_or,
}
use project_saas_backend.Common.Decimal.{decimal}
use project_saas_backend.Common.Result.{ok}
use project_saas_backend.Upload.Registry.{
  load_file_type_registry, get_file_type_config, get_max_file_size, is_allowed_mime_type,
}
use project_saas_backend.Upload.Validator.{MulterFile, validate}
use project_saas_backend.Upload.Acceptance.{Genuine, validate_accepts}
use project_saas_backend.Upload.Config.{NumericSettings, ParsedUrl}
use project_saas_backend.Upload.SignedUrl
use project_saas_backend.Upload.SignedUrl.{
  put, method_text, whole, SignInput, Grant, canonical, accepted, expired, sign_url, verify,
}
use project_saas_backend.Upload.Signing.{sign_url-verify, verify_grants, grant_of}

abbrev photo : MulterFile
photo = record {
  mimetype = codes "image/png";
  size = 2048;
  content = some (137 ∷ 80 ∷ 78 ∷ 71 ∷ 13 ∷ 10 ∷ []);
}

validate_accepts_example : (validate load_file_type_registry 1000 photo (codes "avatar") ≡ []) ↔ (
    (is_allowed_mime_type load_file_type_registry (codes "avatar") (codes "image/png") ≡ ok true)
    × (2048 ≤ get_max_file_size load_file_type_registry 1000 (some (codes "avatar")))
    × Genuine (codes "image/png") photo.content)
validate_accepts_example = validate_accepts load_file_type_registry 1000 photo (codes "avatar")

photo_passes : validate load_file_type_registry 1000 photo (codes "avatar") ≡ []
unfolding validate is_allowed_mime_type get_file_type_config load_file_type_registry
    get_max_file_size
photo_passes = refl

abbrev numbers : NumericSettings
numbers = record {
  max_file_size_mb = 10;
  temp_retention_hours = 24;
  max_concurrent_uploads = 5;
  max_retries = 3;
  retry_delay_ms = 1000;
  presigned_url_expiry = 3600;
  s3_max_retries = 3;
}

abbrev no_variables : Text → Option Text
no_variables key = none

abbrev no_url : Text → Option ParsedUrl
no_url s = none

-- A stand-in for the HMAC that tells texts apart.
abbrev mac : Text → Text → Text
mac s t = t

abbrev no_params : List (Text × Text) → Text
no_params ps = []

abbrev ask : Text → SignInput
ask key = record {
  method = put;
  key = key;
  expire_seconds = 60;
  content_type = some (codes "image/png");
  max_size_bytes = none;
  path_prefix = none;
}

abbrev link : Text → SignedUrl.SignedUrl
link key = record {
  url = codes "/upload/local/direct?";
  signature = canonical put key 160 (some (codes "image/png")) none;
  expire_at = 160;
}

sign_url-verify_example :
    (100000 ≤ 160 * 1000
      → verify mac no_params
          (codes "s")
          100000
          (grant_of mac no_params (ask (codes "k")) (link (codes "k")))
        ≡ ok accepted)
    × (160 * 1000 < 100000
        → verify mac no_params
            (codes "s")
            100000
            (grant_of mac no_params (ask (codes "k")) (link (codes "k")))
          ≡ ok expired)
unfolding sign_url canonical method_text
sign_url-verify_example =
    sign_url-verify mac no_params (codes "s") 100000 (ask (codes "k")) (link (codes "k")) refl
      100000 refl refl (omega arith)

verify_grants_example :
    let g = grant_of mac no_params (ask (codes "k")) (link (codes "k")) in
    (g.method ≡ put)
    × (g.key ≡ codes "k")
    × (g.expire ≡ whole 160)
    × (get_or g.content_type [] ≡ codes "image/png")
    × (g.max_size ≡ none)
    × (100000 ≤ 160 * 1000)
unfolding sign_url canonical verify text_eq codes decimal method_text
verify_grants_example =
    verify_grants mac no_params (codes "s") 100000 (ask (codes "k")) (link (codes "k")) refl 100000
      (grant_of mac no_params (ask (codes "k")) (link (codes "k"))) (λ x y e. e) refl refl refl refl
      refl refl
