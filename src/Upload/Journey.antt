-- ===== src/Upload/Journey.antt =====
-- The direct upload of src/modules/upload from its start to its end: the key is built, a URL is
-- signed for it, the body is sent, the upload is completed and the file is committed.
use project_saas_backend.Common.{ℕ, Text, codes, Option, none, some, ◌∷◌}
use project_saas_backend.Errors.{Thrown}
use project_saas_backend.Upload.Config.{strip_leading}
use project_saas_backend.Upload.SignedUrl.{put, SignInput, SignedUrl}
use project_saas_backend.Upload.PresignedUrl.{PresignedCompleteResult, build_upload_key}
use project_saas_backend.Upload.PresignedUrl.Keys.{Segment, file_name}
use project_saas_backend.Upload.LocalStorage.{FilePath, public_url}
use project_saas_backend.Upload.FileSystem.{FileSystem}

module _ (t f u uuid : Text) (ht : Segment t) (hu : Segment u) (hd : Segment uuid) where
  abbrev key : Text
  key = build_upload_key t f (some u) uuid

  abbrev file : Text
  file = file_name uuid f

  module _ (dir : Text) (parent_dir : FilePath) where
    abbrev landed : FilePath
    landed = file ∷ t ∷ u ∷ codes "temp" ∷ dir ∷ parent_dir

    module _ (io_error : Text → Thrown) (dir_size : ℕ) (base_url : Option Text) where
      abbrev base : FilePath
      base = dir ∷ parent_dir

      completed : ℕ → PresignedCompleteResult
      unfolding public_url strip_leading
      completed n = record {
        size = n;
        content_type = none;
        url = public_url base_url (47 ∷ strip_leading key);
        file_key = key;
      }

  -- What a URL is signed for.
  abbrev pub signed_input : ℕ → Option Text → Option ℕ → SignInput
  signed_input seconds content_type max = record {
    method = put;
    key = key;
    expire_seconds = seconds;
    content_type = content_type;
    max_size_bytes = max;
    path_prefix = none;
  }
