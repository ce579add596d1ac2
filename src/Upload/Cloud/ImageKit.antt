-- ===== src/Upload/Cloud/ImageKit.antt =====
-- src/modules/upload/infrastructure/providers/imagekit-storage.provider.ts, over a media library: the
-- client of the SDK and `fetch` are an interface. A file that is listed has the fields the provider
-- reads. What `new URL(url).pathname` gives is a parameter.
pub mod Laws
pub mod Upkeep
use project_saas_backend.Common.{
  ℕ, ◌+◌, ◌-◌, ◌*◌, ◌/◌, Text, codes, text_eq, to_lower, Option, none, some, List, [], ◌∷◌, ◌++◌,
  Bool, true, false, ltb, ◌==◌, if◌then◌else◌, length, get_or,
}
use project_saas_backend.Common.Decimal.{decimal}
use project_saas_backend.Common.Result.{Result, ok, err, Exec}
use project_saas_backend.Errors.{Thrown, thrown_api, from_definition}
use project_saas_backend.Errors.Registry
use project_saas_backend.Upload.Config.{strip_leading, strip_trailing}
use project_saas_backend.Upload.Config.Types.{ImageKitProviderConfig}
use project_saas_backend.Upload.LocalStorage.{StoredFile, to_slashes}
use project_saas_backend.Upload.LocalStorage.Objects.{safe_segment}
use project_saas_backend.Upload.PresignedUrl.{
  PresignedUrlOptions, PresignedUrlResult, PresignedCompleteInput, PresignedCompleteResult, text,
}
use project_saas_backend.Upload.SignedUrl.{get, post}
use project_saas_backend.Upload.Cloud.MediaNames.{
  folder_of, name_of, parent_folder, url_to_path, mime_from_file_type,
}
use project_saas_backend.Upload.Cloud.Keys.{
  starts_with_slash, normalize_path, extract_filename, SaveFileInput, is_http, has_slash, far_from,
  segment_or_empty, or_zero,
}

-- What the SDK answers for a file.
pub record MediaFile : Type 0 where
  pub file_id : Text
  pub name : Text
  pub file_path : Text
  pub url : Text
  pub size : ℕ
  pub file_type : Option Text
  pub created_at : Option ℕ
  pub is_private_file : Bool
  pub tags : Option (List Text)
  pub custom_metadata : List (Text × Text)

-- What a head answers of a file that is there.
pub record MediaHead : Type 0 where
  pub size : ℕ
  pub mime_type : Option Text

-- The arguments of an upload; `useUniqueFileName` is false.
pub record MediaUpload : Type 0 where
  pub file : List ℕ
  pub file_name : Text
  pub folder : Text
  pub is_private_file : Bool
  pub tags : Option (List Text)
  pub custom_metadata : List (Text × Text)

pub record ListQuery : Type 0 where
  pub path : Text
  pub name : Option Text
  pub limit : ℕ
  pub skip : ℕ

pub record MediaLibrary : Type 1 where
  pub Library : Type 0
  pub upload : MediaUpload → Exec Thrown Library MediaFile
  pub list_files : ListQuery → Library → Result Thrown (List MediaFile)
  pub delete_file : Text → Exec Thrown Library (Unit {0})
  pub fetch_buffer : Text → Library → Result Thrown (List ℕ)

-- An absent file type and an empty one are falsy.
abbrev pub mime_of : MediaFile → Option Text
unfolding mime_from_file_type
mime_of f = elim (f.file_type) [
  | none ↦ none
  | some [] ↦ none
  | some (c ∷ t) ↦ some (mime_from_file_type (c ∷ t) f.name)
]

abbrev pub stored_as : MediaFile → StoredFile
unfolding mime_from_file_type
stored_as f = record {
  url = f.url;
  filename = f.name;
  size = f.size;
  key = f.file_path;
  mime_type = mime_of f;
}

abbrev pub type_tags : Option Text → Option (List Text)
type_tags none = none
type_tags (some []) = none
type_tags (some (c ∷ t)) = some ((c ∷ t) ∷ [])

module _ (cfg : ImageKitProviderConfig) where
  unfoldable pub temp_folder : Option Text → Text
  unfolding normalize_path safe_segment strip_trailing codes
  temp_folder upload_type =
      strip_trailing
        (47 ∷ normalize_path (cfg.folder ++ codes "/temp/" ++ segment_or_empty upload_type))

  unfoldable pub permanent_folder : Text → Text
  unfolding normalize_path safe_segment
  permanent_folder upload_type = 47 ∷ normalize_path (cfg.folder ++ 47 ∷ safe_segment upload_type)

  -- Where a commit looks for the temp file.
  unfoldable pub temp_lookup_folder : Text → Text → Text
  unfolding parent_folder temp_folder
  temp_lookup_folder identifier safe_type =
      if has_slash identifier then parent_folder identifier else temp_folder (some safe_type)

  module _ (V : MediaLibrary) where
    open V use {Library, upload, list_files, delete_file, fetch_buffer}

    abbrev pub answered : Result Thrown MediaFile × Library → Result Thrown StoredFile × Library
    unfolding mime_from_file_type
    answered (ok f, s) = (ok (stored_as f), s)
    answered (err e, s) = (err e, s)

    unfoldable pub save_temp : SaveFileInput → Exec Thrown Library StoredFile
    unfolding temp_folder extract_filename mime_from_file_type
    save_temp input s = answered (
        upload
          (record {
            file = input.buffer;
            file_name = extract_filename input.filename;
            folder = temp_folder input.upload_type;
            is_private_file = input.is_encrypted;
            tags = type_tags input.upload_type;
            custom_metadata = input.metadata;
          })
          s)

    -- The deletion of the original: a failure is only logged.
    abbrev pub drop_original :
        Text → Result Thrown MediaFile × Library → Result Thrown StoredFile × Library
    unfolding mime_from_file_type
    drop_original id (ok f, s) = (ok (stored_as f), (delete_file id s).1)
    drop_original id (err e, s) = (err e, s)

    abbrev pub reupload :
        Text
        → Text
        → MediaFile
        → Result Thrown (List ℕ)
        → Library
        → Result Thrown StoredFile × Library
    unfolding mime_from_file_type
    reupload filename to source (err e) s = (err e, s)
    reupload filename to source (ok bytes) s = drop_original source.file_id (
        upload
          (record {
            file = bytes;
            file_name = filename;
            folder = to;
            is_private_file = source.is_private_file;
            tags = source.tags;
            custom_metadata = source.custom_metadata;
          })
          s)

    abbrev pub on_source :
        Text → Text → Result Thrown (List MediaFile) → Library → Result Thrown StoredFile × Library
    unfolding mime_from_file_type
    on_source filename to (err e) s = (err e, s)
    on_source filename to (ok []) s =
        (err (thrown_api (from_definition Registry.file_not_found none none)), s)
    on_source filename to (ok (f ∷ fs)) s = reupload filename to f (fetch_buffer f.url s) s

    -- The first file of that name in that folder.
    abbrev pub lookup : Text → Text → Library → Result Thrown (List MediaFile)
    lookup folder name =
        list_files (record { path = folder; name = some name; limit = 1; skip = 0 })

    unfoldable pub commit_to_permanent : Text → Text → Exec Thrown Library StoredFile
    unfolding safe_segment extract_filename temp_lookup_folder permanent_folder mime_from_file_type
    commit_to_permanent identifier upload_type s =
        let safe_type = safe_segment upload_type in
        let filename = extract_filename identifier in
        on_source filename (permanent_folder safe_type)
          (lookup (temp_lookup_folder identifier safe_type) filename s) s

    abbrev pub was_deleted : Result Thrown (Unit {0}) × Library → Bool × Library
    was_deleted (ok _, s) = (true, s)
    was_deleted (err _, s) = (false, s)

    abbrev pub delete_match : Result Thrown (List MediaFile) → Library → Bool × Library
    delete_match (err e) s = (false, s)
    delete_match (ok []) s = (false, s)
    delete_match (ok (f ∷ fs)) s = was_deleted (delete_file f.file_id s)

    unfoldable pub delete : (Text → Option Text) → Text → Library → Bool × Library
    unfolding url_to_path
    delete pathname [] s = (false, s)
    delete pathname (c ∷ url) s =
        let path = url_to_path pathname (c ∷ url) in
        delete_match (lookup (folder_of path) (name_of path) s) s

    -- The head of the first match; what fails is taken for an absence.
    abbrev pub head_of : Result Thrown (List MediaFile) → Option MediaHead
    unfolding mime_from_file_type
    head_of (err e) = none
    head_of (ok []) = none
    head_of (ok (f ∷ fs)) = some (record { size = f.size; mime_type = mime_of f })

    unfoldable pub head : Text → Library → Option MediaHead
    unfolding mime_from_file_type
    head file_key s = head_of (lookup (folder_of file_key) (name_of file_key) s)
