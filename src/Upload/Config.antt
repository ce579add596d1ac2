-- ===== src/Upload/Config.antt =====
-- loadConfiguration of infrastructure/config/upload-config.service.ts. The environment, through
-- Nest's ConfigService, is a function; the numeric settings arrive already read by `Number`; the URL
-- parser of the platform is a parameter.
pub mod Types
pub use Types.*
use project_saas_backend.Common.{
  ℕ, ◌*◌, Text, codes, text_eq, to_lower, Option, none, some, [], ◌∷◌, ◌++◌, Bool, true, false, not,
  ◌&&◌, ◌||◌, if◌then◌else◌, get_or, ◌==◌,
}

-- `provider !== p` is a comparison of the setting's text.
abbrev pub same_provider : UploadProviderName → UploadProviderName → Bool
same_provider local local = true
same_provider s3 s3 = true
same_provider cloudflare cloudflare = true
same_provider cloudinary cloudinary = true
same_provider imagekit imagekit = true
same_provider gcs gcs = true
same_provider azure azure = true
same_provider p q = false

-- `x || undefined`
abbrev pub truthy : Text → Option Text
truthy [] = none
truthy (c ∷ s) = some (c ∷ s)

-- `toBool` of the variable, or of the default
unfoldable pub to_bool : Option Text → Bool → Bool
unfolding text_eq to_lower codes
to_bool none default = default
to_bool (some s) default =
    text_eq (to_lower s) (codes "true")
    || text_eq (to_lower s) (codes "1")
    || text_eq (to_lower s) (codes "yes")

-- Leading slashes off, `replace(/^\/+/, '')`
unfoldable pub strip_leading : Text → Text
strip_leading [] = []
strip_leading (c ∷ s) = let rest = strip_leading s in if c == 47 then rest else c ∷ s

-- Trailing slashes off, `replace(/\/+$/, '')`
keep_slash : ℕ → Text → Text
keep_slash c [] = if c == 47 then [] else c ∷ []
keep_slash c (d ∷ s) = c ∷ d ∷ s

unfoldable pub strip_trailing : Text → Text
unfolding keep_slash
strip_trailing [] = []
strip_trailing (c ∷ s) = keep_slash c (strip_trailing s)

unfoldable pub normalize_prefix : Text → Text
unfolding strip_leading strip_trailing
normalize_prefix prefix = strip_trailing (strip_leading prefix)

abbrev pub is_empty : Text → Bool
is_empty [] = true
is_empty (c ∷ s) = false

abbrev pub first_of : Text → Text → Text
first_of [] t = t
first_of (c ∷ s) t = c ∷ s

module _ (env : Text → Option Text) (new_url : Text → Option ParsedUrl) where
  -- `configService.get(key, default)`
  abbrev pub get : Text → Text → Text
  get key default = get_or (env key) default

  unfoldable pub provider_of : Text → UploadProviderName
  unfolding text_eq codes
  provider_of s =
      if text_eq s (codes "local")
      then local
      else if text_eq s (codes "s3")
      then s3
      else if text_eq s (codes "cloudflare")
      then cloudflare
      else if text_eq s (codes "cloudinary")
      then cloudinary
      else if text_eq s (codes "imagekit")
      then imagekit
      else if text_eq s (codes "gcs")
      then gcs
      else if text_eq s (codes "azure")
      then azure
      else unknown s

  abbrev s3_of : ℕ → S3ProviderConfig
  s3_of retries = record {
    region = get (codes "AWS_REGION") (codes "us-east-1");
    bucket = get (codes "AWS_S3_BUCKET") [];
    access_key_id = get (codes "AWS_ACCESS_KEY_ID") [];
    secret_access_key = get (codes "AWS_SECRET_ACCESS_KEY") [];
    endpoint = truthy (get (codes "AWS_S3_ENDPOINT") []);
    force_path_style = to_bool (env (codes "AWS_S3_FORCE_PATH_STYLE")) false;
    public_url = truthy (get (codes "AWS_S3_PUBLIC_URL") []);
    max_retries = retries;
    temp_prefix = normalize_prefix (get (codes "AWS_S3_TEMP_PREFIX") (codes "uploads/temp"));
    permanent_prefix = normalize_prefix (get (codes "AWS_S3_PERMANENT_PREFIX") (codes "uploads"));
  }

  -- `provider !== p && !key`: the section is left out.
  abbrev pub unless_idle {ℓ} : {A : Type ℓ} → Bool → Text → A → Option A
  unless_idle active key a = if not active && is_empty key then none else some a

  unfoldable pub load_s3_config : Bool → ℕ → Option S3ProviderConfig
  unfolding to_bool normalize_prefix codes
  load_s3_config active retries =
      unless_idle active (get (codes "AWS_S3_BUCKET") []) (s3_of retries)

  abbrev r2_endpoint : Text → Option Text
  r2_endpoint [] = none
  r2_endpoint (c ∷ s) = some (codes "https://" ++ c ∷ s ++ codes ".r2.cloudflarestorage.com")

  abbrev endpoint_or : Option Text → Option Text → Option Text
  endpoint_or none other = other
  endpoint_or (some e) other = some e

  unfoldable pub load_cloudflare_config : Bool → Option CloudflareR2ProviderConfig
  unfolding normalize_prefix codes
  load_cloudflare_config active =
      let account = get (codes "CF_ACCOUNT_ID") [] in
      unless_idle active account (record {
        account_id = account;
        access_key_id = get (codes "CF_ACCESS_KEY_ID") [];
        secret_access_key = get (codes "CF_SECRET_ACCESS_KEY") [];
        bucket_name = get (codes "CF_BUCKET_NAME") [];
        endpoint = endpoint_or (truthy (get (codes "CF_ENDPOINT") [])) (r2_endpoint account);
        public_url = truthy (get (codes "CF_PUBLIC_URL") []);
        temp_prefix = normalize_prefix (get (codes "CF_TEMP_PREFIX") (codes "uploads/temp"));
        permanent_prefix = normalize_prefix (get (codes "CF_PERMANENT_PREFIX") (codes "uploads"));
      })

  abbrev pub cloudinary_only : Option ParsedUrl → Option ParsedUrl
  cloudinary_only none = none
  cloudinary_only (some u) = if text_eq u.protocol (codes "cloudinary:") then some u else none

  unfoldable pub parse_cloudinary_url : Text → Option ParsedUrl
  unfolding text_eq codes
  parse_cloudinary_url [] = none
  parse_cloudinary_url (c ∷ s) = cloudinary_only (new_url (c ∷ s))

  abbrev pub field_or : Option ParsedUrl → (ParsedUrl → Text) → Text → Text
  field_or none f default = default
  field_or (some u) f default = f u

  unfoldable pub load_cloudinary_config : Bool → Option CloudinaryProviderConfig
  unfolding parse_cloudinary_url to_bool codes
  load_cloudinary_config active =
      let url = get (codes "CLOUDINARY_URL") [] in
      let name = get (codes "CLOUDINARY_CLOUD_NAME") [] in
      let from_url = parse_cloudinary_url url in
      unless_idle (active || not (is_empty url)) name (record {
        cloudinary_url = truthy url;
        cloud_name = field_or from_url (λ u. u.hostname) name;
        api_key = field_or from_url (λ u. u.username) (get (codes "CLOUDINARY_API_KEY") []);
        api_secret = field_or from_url (λ u. u.password) (get (codes "CLOUDINARY_API_SECRET") []);
        folder = get (codes "CLOUDINARY_FOLDER") (codes "uploads");
        upload_preset = truthy (get (codes "CLOUDINARY_UPLOAD_PRESET") []);
        use_signed = to_bool (env (codes "CLOUDINARY_USE_SIGNED")) true;
        secure = to_bool (env (codes "CLOUDINARY_SECURE")) true;
      })

  unfoldable pub load_imagekit_config : Bool → Option ImageKitProviderConfig
  unfolding to_bool codes
  load_imagekit_config active =
      let key = get (codes "IMAGEKIT_PUBLIC_KEY") [] in
      unless_idle active key (record {
        public_key = key;
        private_key = get (codes "IMAGEKIT_PRIVATE_KEY") [];
        url_endpoint = get (codes "IMAGEKIT_URL_ENDPOINT") [];
        folder = get (codes "IMAGEKIT_FOLDER") (codes "uploads");
        use_unique_file_name = to_bool (env (codes "IMAGEKIT_USE_UNIQUE_FILENAME")) true;
      })

  unfoldable pub load_gcs_config : Bool → Option GcsProviderConfig
  unfolding codes
  load_gcs_config active =
      let id = get (codes "GCP_PROJECT_ID") [] in
      unless_idle active id (record {
        project_id = id;
        key_filename = truthy (get (codes "GCP_KEY_FILE") []);
        bucket = get (codes "GCP_BUCKET") [];
      })

  unfoldable pub load_azure_config : Bool → Option AzureProviderConfig
  unfolding codes
  load_azure_config active =
      let connection = get (codes "AZURE_STORAGE_CONNECTION_STRING") [] in
      unless_idle active connection (record {
        connection_string = connection;
        container_name = get (codes "AZURE_STORAGE_CONTAINER") [];
      })

  unfoldable pub configuration_for : UploadProviderName → NumericSettings → UploadConfig
  unfolding load_s3_config load_cloudflare_config load_cloudinary_config load_imagekit_config
      load_gcs_config load_azure_config to_bool codes
  configuration_for p n = record {
    provider = p;
    local_storage_path = get (codes "UPLOAD_DEST") (codes "./uploads");
    temp_storage_path = get (codes "UPLOAD_TEMP_PATH") (codes "./uploads/temp");
    public_base_url = truthy (get (codes "UPLOAD_PUBLIC_BASE_URL") []);
    local_signing_secret =
        first_of (get (codes "UPLOAD_LOCAL_SIGNING_SECRET") []) (get (codes "JWT_SECRET") []);
    max_file_size = n.max_file_size_mb * (1024 * 1024);
    temp_retention_hours = n.temp_retention_hours;
    max_concurrent_uploads = n.max_concurrent_uploads;
    max_retries = n.max_retries;
    retry_delay_ms = n.retry_delay_ms;
    presigned_url_expiry = n.presigned_url_expiry;
    enable_presigned_urls = to_bool (env (codes "UPLOAD_ENABLE_PRESIGNED_URLS")) true;
    enable_encryption = to_bool (env (codes "UPLOAD_ENABLE_ENCRYPTION")) true;
    enable_audit_logging = to_bool (env (codes "UPLOAD_ENABLE_AUDIT")) true;
    audit_log_destination = get (codes "UPLOAD_AUDIT_DESTINATION") (codes "database");
    s3_config = load_s3_config (same_provider p s3) n.s3_max_retries;
    cloudflare_config = load_cloudflare_config (same_provider p cloudflare);
    cloudinary_config = load_cloudinary_config (same_provider p cloudinary);
    imagekit_config = load_imagekit_config (same_provider p imagekit);
    gcs_config = load_gcs_config (same_provider p gcs);
    azure_config = load_azure_config (same_provider p azure);
  }

  unfoldable pub load_configuration : NumericSettings → UploadConfig
  unfolding provider_of configuration_for codes
  load_configuration n =
      configuration_for (provider_of (get (codes "UPLOAD_PROVIDER") (codes "local"))) n
