-- ===== src/Upload/Cloud/S3.antt =====
-- src/modules/upload/infrastructure/providers/s3-storage.provider.ts, over an object store: what the
-- client of the SDK does with one bucket is an interface. What `new URL(url).pathname` gives is a
-- parameter.
pub mod Upkeep
pub mod Laws
pub mod Urls
use project_saas_backend.Common.{
  ℕ, ◌+◌, ◌-◌, ◌*◌, ◌/◌, Text, codes, text_eq, to_lower, starts_with, Option, none, some, List, [],
  ◌∷◌, ◌++◌, map, Bool, true, false, ◌&&◌, ◌||◌, not, any, filter, ltb, ◌==◌, if◌then◌else◌, drop,
  length, get_or,
}
use project_saas_backend.Common.Decimal.{decimal}
use project_saas_backend.Common.Result.{Result, ok, err, Exec, pure, throw, ◌>>=◌, ◌>>◌}
use project_saas_backend.Errors.{Thrown, thrown_api, from_definition}
use project_saas_backend.Errors.Registry
use project_saas_backend.Upload.Config.{strip_leading, strip_trailing}
use project_saas_backend.Upload.Config.Types.{S3ProviderConfig}
use project_saas_backend.Upload.LocalStorage.{StoredFile}
use project_saas_backend.Upload.LocalStorage.Objects.{safe_segment}
use project_saas_backend.Upload.PresignedUrl.{PresignedCompleteInput, PresignedCompleteResult}
use project_saas_backend.Upload.Cloud.Keys.{
  normalize_path, extract_filename, SaveFileInput, is_http, has_slash, far_from, or_zero, bool_text,
  spread,
}

-- The answer of a HEAD request: the object's size and type, that it is missing, or another failure.
pub data Head : Type 0 where
  present : ℕ → Option Text → Head
  missing : Head
  broken : Thrown → Head

-- One object of a listing.
pub record Listed : Type 0 where
  pub key : Text
  pub last_modified : Option ℕ

pub record Listing : Type 0 where
  pub contents : List Listed
  pub next : Option Text

pub record ObjectStore : Type 1 where
  pub Bucket : Type 0
  pub put_object :
      Text → List ℕ → Text → List (Text × Text) → Bucket → Result Thrown (Unit {0}) × Bucket
  pub head_object : Text → Bucket → Head
  pub copy_object : Text → Text → Bucket → Result Thrown (Unit {0}) × Bucket
  pub delete_object : Text → Bucket → Result Thrown (Unit {0}) × Bucket
  -- the objects under a prefix, a page at a time
  pub list_objects : Text → Option Text → Bucket → Result Thrown Listing
  pub delete_objects : List Text → Bucket → Result Thrown (Unit {0}) × Bucket

-- `if (v !== undefined && v !== '')`
abbrev pub flatten_metadata : List (Text × Text) → List (Text × Text)
flatten_metadata [] = []
flatten_metadata ((k, []) ∷ meta) = flatten_metadata meta
flatten_metadata ((k, c ∷ v) ∷ meta) = (k, c ∷ v) ∷ flatten_metadata meta

module _ (cfg : S3ProviderConfig) where
  -- An absent type and an empty one are falsy.
  unfoldable pub build_temp_key : Option Text → Text → Text
  unfolding normalize_path safe_segment
  build_temp_key none filename = normalize_path (cfg.temp_prefix ++ 47 ∷ filename)
  build_temp_key (some []) filename = normalize_path (cfg.temp_prefix ++ 47 ∷ filename)
  build_temp_key (some (c ∷ t)) filename =
      normalize_path (cfg.temp_prefix ++ 47 ∷ (safe_segment (c ∷ t) ++ 47 ∷ filename))

  unfoldable pub build_permanent_key : Text → Text → Text
  unfolding normalize_path safe_segment
  build_permanent_key upload_type filename =
      normalize_path (cfg.permanent_prefix ++ 47 ∷ (safe_segment upload_type ++ 47 ∷ filename))

  -- The bucket goes before the host: `replace('://', '://' + bucket + '.')`.
  abbrev pub with_bucket : Text → Text → Text
  unfolding starts_with codes
  with_bucket bucket [] = []
  with_bucket bucket (c ∷ s) =
      let later = with_bucket bucket s in
      if starts_with (c ∷ s) (codes "://")
      then codes "://" ++ bucket ++ 46 ∷ drop 2 s
      else c ∷ later

  unfoldable pub endpoint_url : Option Text → Text → Text
  unfolding strip_trailing codes starts_with
  endpoint_url none key =
      codes "https://" ++ cfg.bucket ++ codes ".s3." ++ cfg.region ++ codes ".amazonaws.com/" ++ key
  endpoint_url (some []) key =
      codes "https://" ++ cfg.bucket ++ codes ".s3." ++ cfg.region ++ codes ".amazonaws.com/" ++ key
  endpoint_url (some (c ∷ s)) key =
      if cfg.force_path_style
      then strip_trailing (c ∷ s) ++ 47 ∷ (cfg.bucket ++ 47 ∷ key)
      else with_bucket cfg.bucket (strip_trailing (c ∷ s)) ++ 47 ∷ key

  unfoldable pub host_url : Option Text → Text → Text
  unfolding endpoint_url strip_trailing codes starts_with
  host_url none key = endpoint_url cfg.endpoint key
  host_url (some []) key = endpoint_url cfg.endpoint key
  host_url (some (c ∷ s)) key = strip_trailing (c ∷ s) ++ 47 ∷ key

  unfoldable pub build_public_url : Text → Text
  unfolding host_url strip_trailing codes starts_with
  build_public_url key = host_url cfg.public_url key

  abbrev pub without_bucket : Text → Text
  unfolding starts_with
  without_bucket path =
      if cfg.force_path_style && starts_with path (cfg.bucket ++ 47 ∷ [])
      then drop (length cfg.bucket + 1) path
      else path

  abbrev pub key_of_path : Text → Option Text → Text
  unfolding starts_with strip_leading
  key_of_path url none = strip_leading url
  key_of_path url (some path) = without_bucket (strip_leading path)

  unfoldable pub url_to_key : (Text → Option Text) → Text → Text
  unfolding starts_with strip_leading to_lower codes
  url_to_key pathname url =
      if not (is_http url) then strip_leading url else key_of_path url (pathname url)

  module _ (V : ObjectStore) where
    open V use {
      Bucket, put_object, head_object, copy_object, delete_object, list_objects, delete_objects,
    }

    unfoldable pub save_temp : SaveFileInput → Exec Thrown Bucket StoredFile
    unfolding build_temp_key build_public_url extract_filename codes text_eq
    save_temp input = do
      let safe_filename = extract_filename input.filename
      let key = build_temp_key input.upload_type safe_filename
      put_object key input.buffer input.mime_type (
          flatten_metadata (
            spread
              ((codes "isEncrypted", bool_text input.is_encrypted)
                ∷ (codes "uploadType", get_or input.upload_type [])
                ∷ [])
              input.metadata))
      pure (record {
        url = build_public_url key;
        filename = safe_filename;
        size = input.size;
        key = key;
        mime_type = some input.mime_type;
      })

    -- The temp object that an identifier stands for.
    unfoldable pub temp_key : Text → Text → Text
    unfolding normalize_path build_temp_key extract_filename
    temp_key identifier safe_type =
        if has_slash identifier
        then normalize_path identifier
        else build_temp_key (some safe_type) (extract_filename identifier)

    abbrev pub move : Text → Text → StoredFile → Exec Thrown Bucket StoredFile
    move from to stored = do copy_object from to; delete_object from; pure stored

    abbrev pub promote : Text → Text → Text → Head → Exec Thrown Bucket StoredFile
    unfolding build_public_url
    promote from to filename (broken e) s = (err e, s)
    promote from to filename missing s =
        (err (thrown_api (from_definition Registry.file_not_found none none)), s)
    promote from to filename (present size mime) s =
        move from to
          (record {
            url = build_public_url to;
            filename = filename;
            size = size;
            key = to;
            mime_type = mime;
          })
          s

    unfoldable pub commit_to_permanent : Text → Text → Exec Thrown Bucket StoredFile
    unfolding safe_segment extract_filename temp_key build_permanent_key build_public_url
    commit_to_permanent identifier upload_type s =
        let safe_type = safe_segment upload_type in
        let filename = extract_filename identifier in
        let from = temp_key identifier safe_type in
        promote from (build_permanent_key safe_type filename) filename (head_object from s) s

    abbrev pub deleted_or_not : Result Thrown (Unit {0}) × Bucket → Bool × Bucket
    deleted_or_not (ok _, s) = (true, s)
    deleted_or_not (err _, s) = (false, s)

    abbrev pub delete_found : Text → Head → Bucket → Bool × Bucket
    delete_found key (present size mime) s = deleted_or_not (delete_object key s)
    delete_found key _ s = (false, s)

    unfoldable pub delete : (Text → Option Text) → Text → Bucket → Bool × Bucket
    unfolding url_to_key
    delete pathname [] s = (false, s)
    delete pathname (c ∷ url) s =
        let key = url_to_key pathname (c ∷ url) in delete_found key (head_object key s) s
