-- ===== src/Upload/PresignedUrl.antt =====
-- src/modules/upload/application/use-cases/presigned-url.service.ts, over the contract of a provider
-- (domain/interfaces/presigned-url.interface.ts). The UUID of a new key is an argument.
pub mod Keys
use project_saas_backend.Common.{
  ℕ, Text, codes, to_lower, Option, none, some, List, [], ◌∷◌, ◌++◌, Bool, true, false, ◌&&◌, ◌||◌,
  leb, ◌==◌, if◌then◌else◌, get_or,
}
use project_saas_backend.Common.Result.{Result, ok, err}
use project_saas_backend.Errors.{Thrown, native}
use project_saas_backend.Upload.Registry.{FileTypeRegistry, FileTypeConfig, get_file_type_config}
use project_saas_backend.Upload.SignedUrl.{Method}

pub record PresignedUrlOptions : Type 0 where
  pub expiry_seconds : Option ℕ
  pub method : Option Method
  pub content_type : Option Text
  pub max_size_bytes : Option ℕ
  pub metadata : List (Text × Text)

-- What the providers put under `providerData`.
pub data ProviderData : Type 0 where
  text : Text → ProviderData
  object : List (Text × Text) → ProviderData

pub record PresignedUrlResult : Type 0 where
  pub url : Text
  pub method : Method
  pub expires_at : ℕ
  pub file_key : Text
  pub headers : Option (List (Text × Text))
  pub form_data : List (Text × Text)
  pub provider_data : List (Text × ProviderData)

pub record PresignedCompleteInput : Type 0 where
  pub file_key : Text
  pub upload_type : Text
  pub expected_size : Option ℕ

pub record PresignedCompleteResult : Type 0 where
  pub size : ℕ
  pub content_type : Option Text
  pub url : Text
  pub file_key : Text

-- IPresignedUrlProvider; what the provider reads of its storage is in the operations.
pub record PresignedUrlProvider : Type 0 where
  pub generate_upload_url : Text → Text → PresignedUrlOptions → Result Thrown PresignedUrlResult
  pub generate_download_url : Text → PresignedUrlOptions → Result Thrown PresignedUrlResult
  pub generate_delete_url : Text → PresignedUrlOptions → Result Thrown PresignedUrlResult
  pub complete_presigned_upload : PresignedCompleteInput → Result Thrown PresignedCompleteResult

abbrev pub is_alphanumeric : ℕ → Bool
is_alphanumeric c =
    (leb b'a' c && leb c b'z') || (leb b'A' c && leb c b'Z') || (leb b'0' c && leb c b'9')

abbrev pub alphanumeric : Text → Bool
alphanumeric [] = true
alphanumeric (c ∷ s) = is_alphanumeric c && alphanumeric s

-- `/\.[a-zA-Z0-9]+$/` at the start of the text
abbrev pub is_extension : Text → Bool
is_extension [] = false
is_extension (c ∷ []) = false
is_extension (c ∷ d ∷ s) = c == 46 && alphanumeric (d ∷ s)

-- The first match of the pattern, or the empty text.
abbrev pub match_extension : Text → Text
match_extension [] = []
match_extension (c ∷ s) =
    let later = match_extension s in if is_extension (c ∷ s) then c ∷ s else later

unfoldable pub extract_extension : Text → Text
unfolding to_lower
extract_extension filename = to_lower (match_extension filename)

-- An absent owner and an empty one are falsy.
abbrev pub owner_prefix : Option Text → Text
owner_prefix none = []
owner_prefix (some []) = []
owner_prefix (some (c ∷ s)) = (c ∷ s) ++ 47 ∷ []

unfoldable pub build_upload_key : Text → Text → Option Text → Text → Text
unfolding codes extract_extension
build_upload_key upload_type original_filename user_id uuid =
    codes "uploads/temp/"
    ++ (owner_prefix user_id ++ (upload_type ++ 47 ∷ (uuid ++ extract_extension original_filename)))

abbrev pub presigned_disabled : Thrown
unfolding codes
presigned_disabled =
    let message =
      codes "Presigned URLs are disabled. Set UPLOAD_ENABLE_PRESIGNED_URLS=true to enable." in
    native message (codes "Error: " ++ message)

abbrev pub with_defaults : ℕ → PresignedUrlOptions → PresignedUrlOptions
with_defaults expiry options = record options {
  expiry_seconds = some (get_or options.expiry_seconds expiry);
}

abbrev pub when_known :
    {A : Type 0} → Result Thrown FileTypeConfig → Result Thrown A → Result Thrown A
when_known (err e) r = err e
when_known (ok c) r = r

module _ (provider : PresignedUrlProvider) (reg : FileTypeRegistry) (enable_presigned_urls : Bool)
    (presigned_url_expiry : ℕ) where
  abbrev pub when_enabled : {A : Type 0} → Result Thrown A → Result Thrown A
  when_enabled r = if enable_presigned_urls then r else err presigned_disabled

  unfoldable pub generate_upload_url :
      Text → Text → PresignedUrlOptions → Result Thrown PresignedUrlResult
  unfolding get_file_type_config codes
  generate_upload_url file_key upload_type options = when_enabled (
      when_known (get_file_type_config reg upload_type) (
        provider.generate_upload_url file_key upload_type
          (with_defaults presigned_url_expiry options)))

  unfoldable pub generate_download_url :
      Text → PresignedUrlOptions → Result Thrown PresignedUrlResult
  generate_download_url file_key options =
      provider.generate_download_url file_key (with_defaults presigned_url_expiry options)

  unfoldable pub generate_delete_url : Text → PresignedUrlOptions → Result Thrown PresignedUrlResult
  unfolding codes
  generate_delete_url file_key options =
      when_enabled
        (provider.generate_delete_url file_key (with_defaults presigned_url_expiry options))

  unfoldable pub complete_presigned_upload :
      PresignedCompleteInput → Result Thrown PresignedCompleteResult
  unfolding get_file_type_config
  complete_presigned_upload input =
      when_known (get_file_type_config reg input.upload_type)
        (provider.complete_presigned_upload input)
