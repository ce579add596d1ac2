-- ===== src/Upload/Config/Types.antt =====
-- The types of infrastructure/config/upload-config.interface.ts, and of what the loader reads.
use project_saas_backend.Common.{ℕ, Text, Option, Bool}

pub data UploadProviderName : Type 0 where
  local : UploadProviderName
  s3 : UploadProviderName
  cloudflare : UploadProviderName
  cloudinary : UploadProviderName
  imagekit : UploadProviderName
  gcs : UploadProviderName
  azure : UploadProviderName
  -- any other text in UPLOAD_PROVIDER
  unknown : Text → UploadProviderName

pub record NumericSettings : Type 0 where
  pub max_file_size_mb : ℕ
  pub temp_retention_hours : ℕ
  pub max_concurrent_uploads : ℕ
  pub max_retries : ℕ
  pub retry_delay_ms : ℕ
  pub presigned_url_expiry : ℕ
  pub s3_max_retries : ℕ

pub record S3ProviderConfig : Type 0 where
  pub region : Text
  pub bucket : Text
  pub access_key_id : Text
  pub secret_access_key : Text
  pub endpoint : Option Text
  pub force_path_style : Bool
  pub public_url : Option Text
  pub max_retries : ℕ
  pub temp_prefix : Text
  pub permanent_prefix : Text

pub record CloudflareR2ProviderConfig : Type 0 where
  pub account_id : Text
  pub access_key_id : Text
  pub secret_access_key : Text
  pub bucket_name : Text
  pub endpoint : Option Text
  pub public_url : Option Text
  pub temp_prefix : Text
  pub permanent_prefix : Text

pub record CloudinaryProviderConfig : Type 0 where
  pub cloudinary_url : Option Text
  pub cloud_name : Text
  pub api_key : Text
  pub api_secret : Text
  pub folder : Text
  pub upload_preset : Option Text
  pub use_signed : Bool
  pub secure : Bool

pub record ImageKitProviderConfig : Type 0 where
  pub public_key : Text
  pub private_key : Text
  pub url_endpoint : Text
  pub folder : Text
  pub use_unique_file_name : Bool

pub record GcsProviderConfig : Type 0 where
  pub project_id : Text
  pub key_filename : Option Text
  pub bucket : Text

pub record AzureProviderConfig : Type 0 where
  pub connection_string : Text
  pub container_name : Text

pub record UploadConfig : Type 0 where
  pub provider : UploadProviderName
  pub local_storage_path : Text
  pub temp_storage_path : Text
  pub public_base_url : Option Text
  pub local_signing_secret : Text
  pub max_file_size : ℕ
  pub temp_retention_hours : ℕ
  pub max_concurrent_uploads : ℕ
  pub max_retries : ℕ
  pub retry_delay_ms : ℕ
  pub presigned_url_expiry : ℕ
  pub enable_presigned_urls : Bool
  pub enable_encryption : Bool
  pub enable_audit_logging : Bool
  pub audit_log_destination : Text
  pub s3_config : Option S3ProviderConfig
  pub cloudflare_config : Option CloudflareR2ProviderConfig
  pub cloudinary_config : Option CloudinaryProviderConfig
  pub imagekit_config : Option ImageKitProviderConfig
  pub gcs_config : Option GcsProviderConfig
  pub azure_config : Option AzureProviderConfig

-- What `new URL(url)` gives, the user and the password decoded; absent where it throws.
pub record ParsedUrl : Type 0 where
  pub protocol : Text
  pub username : Text
  pub password : Text
  pub hostname : Text
