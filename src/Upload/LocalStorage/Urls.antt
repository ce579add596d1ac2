-- ===== src/Upload/LocalStorage/Urls.antt =====
-- generateUploadUrl, generateDownloadUrl and generateDeleteUrl of src/modules/upload/infrastructure/
-- providers/local-storage.provider.ts. The signer is `signUrl` where the service is wired.
use project_saas_backend.Common.{
  ℕ, ◌+◌, ◌*◌, ◌/◌, Text, codes, starts_with, Option, none, some, List, [], ◌∷◌, ◌++◌,
  if◌then◌else◌, get_or,
}
use project_saas_backend.Common.Result.{Result, ok, err}
use project_saas_backend.Errors.{Thrown}
use project_saas_backend.Upload.SignedUrl.{put, get, delete, post, SignInput, SignedUrl}
use project_saas_backend.Upload.LocalStorage.{public_url}
use project_saas_backend.Upload.PresignedUrl.{PresignedUrlOptions, PresignedUrlResult, text, object}

abbrev pub content_type_header : Option Text → Option (List (Text × Text))
unfolding codes
content_type_header none = none
content_type_header (some []) = none
content_type_header (some (c ∷ s)) = some ((codes "Content-Type", c ∷ s) ∷ [])

-- `fileKey.startsWith('/') ? fileKey : '/' + fileKey`
abbrev pub with_slash : Text → Text
with_slash key = if starts_with key (47 ∷ []) then key else 47 ∷ key

module _ (base_url : Option Text) (presigned_url_expiry now : ℕ)
    (signer : Option (SignInput → Result Thrown SignedUrl)) where
  abbrev pub expiry : PresignedUrlOptions → ℕ
  expiry options = get_or options.expiry_seconds presigned_url_expiry

  -- `Math.floor((Date.now() + expirySeconds * 1000) / 1000)`
  abbrev pub expires_at : ℕ → ℕ
  expires_at seconds = (now + seconds * 1000) / 1000

  unfoldable pub upload_input : Text → PresignedUrlOptions → SignInput
  upload_input file_key options = record {
    method = get_or options.method put;
    key = file_key;
    expire_seconds = expiry options;
    content_type = options.content_type;
    max_size_bytes = options.max_size_bytes;
    path_prefix = none;
  }

  abbrev pub signed_upload :
      Text → PresignedUrlOptions → Result Thrown SignedUrl → Result Thrown PresignedUrlResult
  unfolding public_url codes
  signed_upload file_key options (err e) = err e
  signed_upload file_key options (ok u) = ok (record {
    url = public_url base_url u.url;
    method = get_or options.method put;
    expires_at = u.expire_at;
    file_key = file_key;
    headers = content_type_header options.content_type;
    form_data = [];
    provider_data =
        (codes "provider", text (codes "local"))
        ∷ (codes "mode", text (codes "signed-url"))
        ∷ (
          codes "note",
          text (
              codes
                "PUT the raw file body to this URL. The signature encodes key + expire + contentType + maxSize; tampering with any of those invalidates the request."),
        )
        ∷ [];
  })

  abbrev pub upload_url :
      Option (SignInput → Result Thrown SignedUrl)
      → Text
      → Text
      → PresignedUrlOptions
      → Result Thrown PresignedUrlResult
  unfolding upload_input codes
  upload_url (some sign) file_key upload_type options =
      signed_upload file_key options (sign (upload_input file_key options))
  upload_url none file_key upload_type options = ok (record {
    url = codes "/upload/" ++ upload_type;
    method = post;
    expires_at = expires_at (expiry options);
    file_key = file_key;
    headers = some ((codes "Content-Type", codes "multipart/form-data") ∷ []);
    form_data = [];
    provider_data =
        (codes "mode", text (codes "api-proxy"))
        ∷ (codes "fieldName", text (codes "file"))
        ∷ (
          codes "note",
          text (codes "No signer wired; falling back to multipart API-proxy upload."),
        )
        ∷ [];
  })

  unfoldable pub generate_upload_url :
      Text → Text → PresignedUrlOptions → Result Thrown PresignedUrlResult
  unfolding upload_input public_url codes
  generate_upload_url file_key upload_type options = upload_url signer file_key upload_type options

  unfoldable pub download_input : Text → PresignedUrlOptions → SignInput
  download_input file_key options = record {
    method = get;
    key = file_key;
    expire_seconds = expiry options;
    content_type = none;
    max_size_bytes = none;
    path_prefix = none;
  }

  abbrev pub signed_download : Text → Result Thrown SignedUrl → Result Thrown PresignedUrlResult
  unfolding public_url
  signed_download file_key (err e) = err e
  signed_download file_key (ok u) = ok (record {
    url = public_url base_url u.url;
    method = get;
    expires_at = u.expire_at;
    file_key = file_key;
    headers = none;
    form_data = [];
    provider_data = [];
  })

  abbrev pub download_url :
      Option (SignInput → Result Thrown SignedUrl)
      → Text
      → PresignedUrlOptions
      → Result Thrown PresignedUrlResult
  unfolding download_input public_url starts_with
  download_url (some sign) file_key options =
      signed_download file_key (sign (download_input file_key options))
  download_url none file_key options = ok (record {
    url = public_url base_url (with_slash file_key);
    method = get;
    expires_at = expires_at (expiry options);
    file_key = file_key;
    headers = none;
    form_data = [];
    provider_data = [];
  })

  unfoldable pub generate_download_url :
      Text → PresignedUrlOptions → Result Thrown PresignedUrlResult
  unfolding download_input public_url starts_with
  generate_download_url file_key options = download_url signer file_key options

  -- No signed DELETE is given out.
  unfoldable pub generate_delete_url : Text → PresignedUrlOptions → Result Thrown PresignedUrlResult
  unfolding codes
  generate_delete_url file_key options = ok (record {
    url = codes "/upload/remove";
    method = delete;
    expires_at = expires_at (expiry options);
    file_key = file_key;
    headers = none;
    form_data = [];
    provider_data =
        (codes "mode", text (codes "api-proxy"))
        ∷ (codes "body", object ((codes "fileUrl", file_key) ∷ []))
        ∷ (
          codes "note",
          text (
              codes
                "Local provider routes DELETE through the authenticated /upload/remove endpoint."),
        )
        ∷ [];
  })
