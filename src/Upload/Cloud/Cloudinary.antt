-- ===== src/Upload/Cloud/Cloudinary.antt =====
-- src/modules/upload/infrastructure/providers/cloudinary-storage.provider.ts, over a media store: the
-- client of the SDK is an interface. What `new URL(url).pathname` gives is a parameter.
pub mod Upkeep
use project_saas_backend.Common.{
  ℕ, ◌+◌, ◌-◌, ◌*◌, Text, codes, text_eq, to_lower, Option, none, some, List, [], ◌∷◌, ◌++◌, Bool,
  true, false, ◌&&◌, leb, ltb, ◌==◌, if◌then◌else◌, get_or, filter,
}
use project_saas_backend.Common.Decimal.{decimal}
use project_saas_backend.Common.Result.{Result, ok, err, Exec}
use project_saas_backend.Errors.{Thrown, thrown_api, from_definition}
use project_saas_backend.Errors.Registry
use project_saas_backend.Upload.Config.{strip_leading}
use project_saas_backend.Upload.Config.Types.{CloudinaryProviderConfig}
use project_saas_backend.Upload.LocalStorage.{StoredFile, split_segments}
use project_saas_backend.Upload.LocalStorage.Objects.{safe_segment}
use project_saas_backend.Upload.PresignedUrl.{PresignedCompleteInput, PresignedCompleteResult}
use project_saas_backend.Upload.Cloud.Keys.{
  normalize_path, extract_filename, SaveFileInput, is_http, has_slash, far_from, or_zero,
  segment_or_empty, bool_text, spread,
}
use project_saas_backend.Upload.Cloud.MediaNames.{split_last, name_of}

-- What the SDK answers for a resource.
pub record Resource : Type 0 where
  pub public_id : Text
  pub format : Option Text
  pub resource_type : Text
  pub bytes : ℕ
  pub secure_url : Option Text
  pub url : Text
  pub created_at : ℕ

pub record ResourceUpload : Type 0 where
  pub buffer : List ℕ
  pub public_id : Text
  pub folder : Text
  pub context : List (Text × Text)

-- A failure of the SDK: `http_code` is 404, or another one.
pub data Failure : Type 0 where
  not_found : Failure
  failure : Thrown → Failure

pub record ResourcePage : Type 0 where
  pub resources : List Resource
  pub next_cursor : Option Text

pub record MediaStore : Type 1 where
  pub Store : Type 0
  pub upload_buffer : ResourceUpload → Exec Thrown Store Resource
  pub rename : Text → Text → Exec Failure Store Resource
  -- the answer is `ok`, `not found` or another text
  pub destroy : Text → Exec Thrown Store Text
  pub list_resources : Text → Option Text → Store → Result Thrown ResourcePage
  pub resource : Text → Store → Result Failure Resource
  pub public_url : Text → Bool → Text

-- `slice(0, lastIndexOf('.'))`
unfoldable pub strip_ext : Text → Text
strip_ext filename = elim (split_last 46 filename) [ some p ↦ p.0 | none ↦ filename ]

-- An absent format and an empty one are falsy.
unfoldable pub filename_from_public_id : Text → Option Text → Text
filename_from_public_id public_id none = name_of public_id
filename_from_public_id public_id (some []) = name_of public_id
filename_from_public_id public_id (some (c ∷ f)) = name_of public_id ++ 46 ∷ (c ∷ f)

unfoldable pub mime_from_format : Option Text → Text → Text
unfolding codes text_eq
mime_from_format none resource_type = codes "application/octet-stream"
mime_from_format (some []) resource_type = codes "application/octet-stream"
mime_from_format (some (c ∷ f)) resource_type =
    if text_eq resource_type (codes "video")
    then codes "video/" ++ c ∷ f
    else if text_eq resource_type (codes "raw")
    then codes "application/octet-stream"
    else codes "image/" ++ c ∷ f

-- The text after `\d+\/` at the start of the text.
abbrev pub after_digits : Bool → Text → Option Text
after_digits seen [] = none
after_digits seen (c ∷ s) =
    let later = after_digits true s in
    if leb b'0' c && leb c b'9' then later else if seen && c == 47 then some s else none

-- `replace(/^v\d+\//, '')`
abbrev pub drop_version : Text → Text
drop_version [] = []
drop_version (c ∷ s) = if c == b'v' then get_or (after_digits false s) (c ∷ s) else c ∷ s

abbrev pub is_part : Text → Bool
is_part [] = false
is_part (c ∷ s) = true

abbrev pub after_part : Text → List Text → Option (List Text)
unfolding text_eq
after_part part [] = none
after_part part (p ∷ parts) =
    let later = after_part part parts in if text_eq p part then some parts else later

abbrev pub join_parts : List Text → Text
join_parts [] = []
join_parts (p ∷ []) = p
join_parts (p ∷ q ∷ parts) = p ++ 47 ∷ join_parts (q ∷ parts)

abbrev pub tail_id : Text → Option (List Text) → Text
unfolding strip_leading strip_ext
tail_id input none = strip_leading input
tail_id input (some parts) = strip_ext (drop_version (join_parts parts))

abbrev pub id_of_path : Text → Option Text → Text
unfolding strip_leading strip_ext split_segments filter text_eq codes
id_of_path input none = strip_leading input
id_of_path input (some path) =
    tail_id input (after_part (codes "upload") (filter is_part (split_segments path)))

unfoldable pub url_or_key_to_public_id : (Text → Option Text) → Text → Text
unfolding strip_leading strip_ext split_segments filter text_eq codes to_lower
url_or_key_to_public_id pathname input =
    if is_http input then id_of_path input (pathname input) else strip_leading input

abbrev pub resource_url : Resource → Text
resource_url r = get_or r.secure_url r.url

abbrev pub stored_as : Resource → StoredFile
unfolding filename_from_public_id mime_from_format
stored_as r = record {
  url = resource_url r;
  filename = filename_from_public_id r.public_id r.format;
  size = r.bytes;
  key = r.public_id;
  mime_type = some (mime_from_format r.format r.resource_type);
}

module _ (cfg : CloudinaryProviderConfig) where
  unfoldable pub temp_folder : Option Text → Text
  unfolding normalize_path safe_segment codes
  temp_folder upload_type =
      normalize_path (cfg.folder ++ codes "/temp/" ++ segment_or_empty upload_type)

  unfoldable pub permanent_folder : Text → Text
  unfolding normalize_path safe_segment
  permanent_folder upload_type = normalize_path (cfg.folder ++ 47 ∷ safe_segment upload_type)

  unfoldable pub from_public_id : Text → Text → Text
  unfolding strip_ext normalize_path temp_folder extract_filename
  from_public_id identifier safe_type =
      if has_slash identifier
      then strip_ext (normalize_path identifier)
      else temp_folder (some safe_type) ++ 47 ∷ strip_ext (extract_filename identifier)

  unfoldable pub to_public_id : Text → Text → Text
  unfolding strip_ext permanent_folder extract_filename
  to_public_id identifier safe_type =
      permanent_folder safe_type ++ 47 ∷ strip_ext (extract_filename identifier)

  module _ (V : MediaStore) where
    open V use {Store, upload_buffer, rename, destroy, list_resources, resource, public_url}

    abbrev pub saved : Result Thrown Resource × Store → Result Thrown StoredFile × Store
    unfolding filename_from_public_id mime_from_format
    saved (ok r, s) = (ok (stored_as r), s)
    saved (err e, s) = (err e, s)

    unfoldable pub save_temp : SaveFileInput → Exec Thrown Store StoredFile
    unfolding strip_ext extract_filename temp_folder filename_from_public_id mime_from_format codes
        text_eq
    save_temp input s = saved (
        upload_buffer
          (record {
            buffer = input.buffer;
            public_id = strip_ext (extract_filename input.filename);
            folder = temp_folder input.upload_type;
            context =
                spread
                  ((codes "isEncrypted", bool_text input.is_encrypted)
                    ∷ (codes "uploadType", get_or input.upload_type [])
                    ∷ [])
                  input.metadata;
          })
          s)

    -- A 404 of the SDK is the program's own error; any other one is thrown on.
    abbrev pub failed_with : Failure → Thrown
    failed_with not_found = thrown_api (from_definition Registry.file_not_found none none)
    failed_with (failure e) = e

    abbrev pub renamed : Result Failure Resource × Store → Result Thrown StoredFile × Store
    unfolding filename_from_public_id mime_from_format
    renamed (ok r, s) = (ok (stored_as r), s)
    renamed (err e, s) = (err (failed_with e), s)

    unfoldable pub commit_to_permanent : Text → Text → Exec Thrown Store StoredFile
    unfolding safe_segment from_public_id to_public_id filename_from_public_id mime_from_format
    commit_to_permanent identifier upload_type s =
        let safe_type = safe_segment upload_type in
        renamed (rename (from_public_id identifier safe_type) (to_public_id identifier safe_type) s)

    abbrev pub was_destroyed : Result Thrown Text × Store → Bool × Store
    unfolding text_eq codes
    was_destroyed (ok answer, s) = (text_eq answer (codes "ok"), s)
    was_destroyed (err e, s) = (false, s)

    unfoldable pub delete : (Text → Option Text) → Text → Store → Bool × Store
    unfolding url_or_key_to_public_id text_eq codes
    delete pathname [] s = (false, s)
    delete pathname (c ∷ url) s =
        was_destroyed (destroy (url_or_key_to_public_id pathname (c ∷ url)) s)
