-- ===== src/Upload/Cloud/SignedUrls.antt =====
-- The signed URLs of src/modules/upload/infrastructure/providers/s3-storage.provider.ts,
-- cloudinary-storage.provider.ts and imagekit-storage.provider.ts. What the SDKs sign is a parameter.
use project_saas_backend.Common.{
  ℕ, ◌+◌, ◌*◌, ◌/◌, Text, codes, Option, none, some, List, [], ◌∷◌, ◌++◌, Bool, if◌then◌else◌,
  get_or,
}
use project_saas_backend.Common.Decimal.{decimal}
use project_saas_backend.Common.Result.{Result, err}
use project_saas_backend.Errors.{Thrown, thrown_api, from_definition}
use project_saas_backend.Errors.Registry
use project_saas_backend.Upload.Config.Types.{
  S3ProviderConfig, CloudinaryProviderConfig, ImageKitProviderConfig,
}
use project_saas_backend.Upload.SignedUrl.{put, get, delete, post}
use project_saas_backend.Upload.PresignedUrl.{PresignedUrlOptions, PresignedUrlResult, text}
use project_saas_backend.Upload.LocalStorage.Urls.{content_type_header}
use project_saas_backend.Upload.Cloud.Keys.{extract_filename}
use project_saas_backend.Upload.Cloud.S3.{flatten_metadata}
use project_saas_backend.Upload.Cloud.Cloudinary
use project_saas_backend.Upload.Cloud.Cloudinary.{strip_ext}
use project_saas_backend.Upload.Cloud.ImageKit

-- The commands that the SDK of S3 signs; a put has the type, the length and the metadata.
pub data S3Command : Type 0 where
  put_object : Text → Option Text → Option ℕ → List (Text × Text) → S3Command
  get_object : Text → S3Command
  delete_object : Text → S3Command

module _ (presigned_url_expiry now : ℕ) where
  abbrev pub expiry_of : PresignedUrlOptions → ℕ
  expiry_of options = get_or options.expiry_seconds presigned_url_expiry

  -- `Math.floor((Date.now() + expirySeconds * 1000) / 1000)`
  abbrev pub expires_after : ℕ → ℕ
  expires_after seconds = (now + seconds * 1000) / 1000

  module _ (cfg : S3ProviderConfig) (get_signed_url : S3Command → ℕ → Text) where
    unfoldable pub s3_upload_url : Text → PresignedUrlOptions → PresignedUrlResult
    unfolding codes
    s3_upload_url file_key options = record {
      url =
          get_signed_url
            (put_object file_key options.content_type options.max_size_bytes
              (flatten_metadata options.metadata))
            (expiry_of options);
      method = get_or options.method put;
      expires_at = expires_after (expiry_of options);
      file_key = file_key;
      headers = some (get_or (content_type_header options.content_type) []);
      form_data = [];
      provider_data = (codes "bucket", text cfg.bucket) ∷ (codes "region", text cfg.region) ∷ [];
    }

    unfoldable pub s3_download_url : Text → PresignedUrlOptions → PresignedUrlResult
    s3_download_url file_key options = record {
      url = get_signed_url (get_object file_key) (expiry_of options);
      method = get;
      expires_at = expires_after (expiry_of options);
      file_key = file_key;
      headers = none;
      form_data = [];
      provider_data = [];
    }

    unfoldable pub s3_delete_url : Text → PresignedUrlOptions → PresignedUrlResult
    s3_delete_url file_key options = record {
      url = get_signed_url (delete_object file_key) (expiry_of options);
      method = delete;
      expires_at = expires_after (expiry_of options);
      file_key = file_key;
      headers = none;
      form_data = [];
      provider_data = [];
    }

  module _ (cfg : CloudinaryProviderConfig) (api_sign_request : List (Text × Text) → Text → Text)
      (private_download_url : Text → ℕ → Text) where
    -- An absent preset and an empty one are falsy.
    abbrev pub preset_param : Option Text → List (Text × Text)
    unfolding codes
    preset_param none = []
    preset_param (some []) = []
    preset_param (some (c ∷ s)) = (codes "upload_preset", c ∷ s) ∷ []

    unfoldable pub params_to_sign : Text → Text → List (Text × Text)
    unfolding codes decimal
    params_to_sign public_id folder =
        (codes "public_id", public_id)
        ∷ (codes "folder", folder)
        ∷ (codes "timestamp", decimal (now / 1000))
        ∷ preset_param cfg.upload_preset

    unfoldable pub cloudinary_upload_url : Text → Text → PresignedUrlOptions → PresignedUrlResult
    unfolding codes strip_ext extract_filename params_to_sign Cloudinary.temp_folder
    cloudinary_upload_url file_key upload_type options =
        let folder = Cloudinary.temp_folder cfg (some upload_type) in
        let public_id = strip_ext (extract_filename file_key) in
        let params = params_to_sign public_id folder in
        record {
          url = codes "https://api.cloudinary.com/v1_1/" ++ cfg.cloud_name ++ codes "/auto/upload";
          method = post;
          expires_at = expires_after (expiry_of options);
          file_key = folder ++ 47 ∷ public_id;
          headers = none;
          form_data =
              params
              ++ (codes "signature", api_sign_request params cfg.api_secret)
                ∷ (codes "api_key", cfg.api_key)
                ∷ [];
          provider_data =
              (codes "provider", text (codes "cloudinary"))
              ∷ (codes "resourceType", text (codes "auto"))
              ∷ [];
        }

    unfoldable pub cloudinary_download_url : Text → PresignedUrlOptions → PresignedUrlResult
    cloudinary_download_url file_key options = record {
      url = private_download_url file_key (expires_after (expiry_of options));
      method = get;
      expires_at = expires_after (expiry_of options);
      file_key = file_key;
      headers = none;
      form_data = [];
      provider_data = [];
    }

    unfoldable pub cloudinary_delete_url : Result Thrown PresignedUrlResult
    unfolding codes
    cloudinary_delete_url = err (
        thrown_api (
          from_definition Registry.bad_request
            (some (
              codes
                "Cloudinary does not support presigned DELETE. Call DELETE /upload/remove and the server will use the admin API."))
            none))

  module _ (cfg : ImageKitProviderConfig) (hmac_sha1 : Text → Text → Text)
      (signed_media_url : Text → ℕ → Text) where
    abbrev pub yes_or_no : Bool → Text
    unfolding codes
    yes_or_no b = if b then codes "true" else codes "false"

    -- The token is a new UUID.
    unfoldable pub imagekit_upload_url :
        Text → Text → Text → PresignedUrlOptions → PresignedUrlResult
    unfolding codes decimal extract_filename ImageKit.temp_folder
    imagekit_upload_url token file_key upload_type options =
        let expire = expires_after (expiry_of options) in
        let folder = ImageKit.temp_folder cfg (some upload_type) in
        let file_name = extract_filename file_key in
        record {
          url = codes "https://upload.imagekit.io/api/v1/files/upload";
          method = post;
          expires_at = expire;
          file_key = folder ++ 47 ∷ file_name;
          headers = none;
          form_data =
              (codes "token", token)
              ∷ (codes "expire", decimal expire)
              ∷ (codes "signature", hmac_sha1 cfg.private_key (token ++ decimal expire))
              ∷ (codes "publicKey", cfg.public_key)
              ∷ (codes "fileName", file_name)
              ∷ (codes "folder", folder)
              ∷ (codes "useUniqueFileName", yes_or_no cfg.use_unique_file_name)
              ∷ [];
          provider_data = (codes "provider", text (codes "imagekit")) ∷ [];
        }

    unfoldable pub imagekit_download_url : Text → PresignedUrlOptions → PresignedUrlResult
    imagekit_download_url file_key options = record {
      url = signed_media_url file_key (expiry_of options);
      method = get;
      expires_at = expires_after (expiry_of options);
      file_key = file_key;
      headers = none;
      form_data = [];
      provider_data = [];
    }

    unfoldable pub imagekit_delete_url : Result Thrown PresignedUrlResult
    unfolding codes
    imagekit_delete_url = err (
        thrown_api (
          from_definition Registry.bad_request
            (some (
              codes
                "ImageKit does not support presigned DELETE. Use DELETE /upload/remove (server-side admin API)."))
            none))
