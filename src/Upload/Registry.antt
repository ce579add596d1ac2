-- ===== src/Upload/Registry.antt =====
-- The file-type registry of infrastructure/config/upload-config.service.ts and its readers
-- (getFileTypeConfig, getMaxFileSize, isAllowedMimeType, shouldEncrypt, registerFileType).
use project_saas_backend.Common.{
  ℕ, ◌*◌, Text, codes, text_eq, Option, none, some, List, [], ◌∷◌, ◌++◌, Bool, true, false, ◌&&◌,
  if◌then◌else◌, any, ◌==◌,
}
use project_saas_backend.Common.Result.{Result, ok, err}
use project_saas_backend.Errors.{Thrown, native}
use project_saas_backend.Upload.Formats.{
  image_mime_types, video_mime_types, audio_mime_types, document_mime_types, spreadsheet_mime_types,
  presentation_mime_types, archive_mime_types,
}

pub record Processing : Type 0 where
  pub convert_to_format : Option Text
  pub max_width : Option ℕ
  pub max_height : Option ℕ
  pub quality : Option ℕ

pub data StorageTier : Type 0 where
  standard : StorageTier
  infrequent : StorageTier
  archive : StorageTier

pub record FileTypeConfig : Type 0 where
  pub allowed_mime_types : List Text
  pub max_file_size_bytes : Option ℕ
  pub processing : Option Processing
  pub encrypted : Bool
  pub storage_tier : Option StorageTier
  pub is_public : Bool
  pub public_cache_ttl : Option ℕ
  pub retention_days : Option ℕ

abbrev pub FileTypeRegistry : Type 0
FileTypeRegistry = List (Text × FileTypeConfig)

abbrev pub mb : ℕ
mb = 1024 * 1024

abbrev pub webp : ℕ → ℕ → Option Processing
webp side quality = some (record {
  convert_to_format = some (codes "webp");
  max_width = some side;
  max_height = some side;
  quality = some quality;
})

abbrev pub media : List Text → ℕ → Option Processing → ℕ → FileTypeConfig
media types size processing ttl = record {
  allowed_mime_types = types;
  max_file_size_bytes = some (size * mb);
  processing = processing;
  encrypted = false;
  storage_tier = none;
  is_public = true;
  public_cache_ttl = some ttl;
  retention_days = none;
}

abbrev pub office : List Text → ℕ → ℕ → FileTypeConfig
office types size days = record {
  allowed_mime_types = types;
  max_file_size_bytes = some (size * mb);
  processing = none;
  encrypted = true;
  storage_tier = none;
  is_public = false;
  public_cache_ttl = none;
  retention_days = some days;
}

abbrev pub kyc : FileTypeConfig
kyc = record {
  allowed_mime_types = codes "image/jpeg" ∷ codes "image/png" ∷ [];
  max_file_size_bytes = some (5 * mb);
  processing = webp 1024 90;
  encrypted = true;
  storage_tier = some standard;
  is_public = false;
  public_cache_ttl = none;
  retention_days = some 2555;
}

unfoldable pub load_file_type_registry : FileTypeRegistry
load_file_type_registry =
    (
      codes "avatar",
      media (codes "image/jpeg" ∷ codes "image/png" ∷ codes "image/webp" ∷ []) 5 (webp 512 85)
          31536000,
    )
    ∷ (codes "image", media image_mime_types 25 (webp 4096 85) 31536000)
    ∷ (codes "video", media video_mime_types 500 none 604800)
    ∷ (codes "audio", media audio_mime_types 50 none 604800)
    ∷ (codes "document", office document_mime_types 25 365)
    ∷ (codes "spreadsheet", office spreadsheet_mime_types 25 365)
    ∷ (codes "presentation", office presentation_mime_types 50 365)
    ∷ (codes "archive", office archive_mime_types 100 90)
    ∷ (codes "aadhar", kyc)
    ∷ (codes "identity", kyc)
    ∷ (codes "passport", kyc)
    ∷ []

-- `this.fileTypeRegistry[uploadType]`. The names that a registry object inherits, such as
-- `constructor`, are left aside.
unfoldable pub entry : FileTypeRegistry → Text → Option FileTypeConfig
entry [] t = none
entry ((u, c) ∷ reg) t = if text_eq u t then some c else entry reg t

-- Of the error's stack only the first line is kept.
abbrev pub known : Text → Option FileTypeConfig → Result Thrown FileTypeConfig
known t none =
    let message = codes "Unknown upload type: " ++ t in
    err (native message (codes "Error: " ++ message))
known t (some c) = ok c

unfoldable pub get_file_type_config : FileTypeRegistry → Text → Result Thrown FileTypeConfig
unfolding entry
get_file_type_config reg t = known t (entry reg t)

-- `registerFileType`: the entry of a known type is replaced.
unfoldable pub register_file_type : Text → FileTypeConfig → FileTypeRegistry → FileTypeRegistry
register_file_type t c [] = (t, c) ∷ []
register_file_type t c ((u, d) ∷ reg) =
    let rest = register_file_type t c reg in if text_eq u t then (u, c) ∷ reg else (u, d) ∷ rest

-- A cap of zero is falsy, and so is no type.
abbrev pub cap_or : ℕ → Option ℕ → ℕ
cap_or size none = size
cap_or size (some n) = if n == 0 then size else n

abbrev pub size_of : ℕ → Option FileTypeConfig → ℕ
size_of size none = size
size_of size (some c) = cap_or size c.max_file_size_bytes

-- `maxFileSize` is the global ceiling.
unfoldable pub get_max_file_size : FileTypeRegistry → ℕ → Option Text → ℕ
unfolding entry
get_max_file_size reg max_file_size none = max_file_size
get_max_file_size reg max_file_size (some []) = max_file_size
get_max_file_size reg max_file_size (some (c ∷ t)) = size_of max_file_size (entry reg (c ∷ t))

abbrev pub on_config {ℓ} :
    {A : Type ℓ} → (FileTypeConfig → A) → Result Thrown FileTypeConfig → Result Thrown A
on_config f (ok c) = ok (f c)
on_config f (err e) = err e

unfoldable pub is_allowed_mime_type : FileTypeRegistry → Text → Text → Result Thrown Bool
unfolding get_file_type_config text_eq
is_allowed_mime_type reg t mime =
    on_config (λ c. any (λ m. text_eq m mime) c.allowed_mime_types) (get_file_type_config reg t)

unfoldable pub should_encrypt : FileTypeRegistry → Bool → Text → Result Thrown Bool
unfolding get_file_type_config
should_encrypt reg enable_encryption t =
    on_config (λ c. c.encrypted && enable_encryption) (get_file_type_config reg t)
