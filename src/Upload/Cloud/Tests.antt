-- ===== src/Upload/Cloud/Tests.antt =====
-- The witnesses of the theorems on the providers of S3 and ImageKit.
use project_saas_backend.Common.{
  Text, codes, text_eq, text_eq_iff, none, some, [], ◌∷◌, true, false, ◌≡◌, refl, filter,
}
use project_saas_backend.Upload.Config.Types.{S3ProviderConfig, ImageKitProviderConfig}
use project_saas_backend.Upload.LocalStorage.{split_segments, to_slashes}
use project_saas_backend.Upload.LocalStorage.Objects.{safe_segment}
use project_saas_backend.Upload.Cloud.Keys.{normalize_path, collapse, extract_filename}
use project_saas_backend.Upload.Cloud.S3.{
  present, missing, commit_to_permanent, temp_key, build_permanent_key,
}
use project_saas_backend.Upload.Cloud.S3.Laws.{Moved, commit-Moved}
use project_saas_backend.Upload.Cloud.ImageKit
use project_saas_backend.Upload.Cloud.ImageKit.{temp_lookup_folder, permanent_folder}
use project_saas_backend.Upload.Cloud.ImageKit.Laws.{Kept, commit-Kept}
use project_saas_backend.Upload.Cloud.MediaNames.{parent_folder}
use project_saas_backend.Upload.Cloud.MediaMemory.{
  media_memory, media_memory-Reliable, Folders, put_file, file_at,
}
use project_saas_backend.Upload.Cloud.Memory.{memory, memory-Reliable, Heads, put}

abbrev aws : S3ProviderConfig
aws = record {
  region = codes "eu";
  bucket = codes "b";
  access_key_id = [];
  secret_access_key = [];
  endpoint = none;
  force_path_style = false;
  public_url = none;
  max_retries = 3;
  temp_prefix = codes "uploads/temp";
  permanent_prefix = codes "uploads";
}

abbrev presigned_key : Text
presigned_key = codes "uploads/temp/7/avatar/a.png"

abbrev one_temp : Heads
unfolding put
one_temp = put presigned_key (present 3 none) (λ k. missing)

commit-Moved_example :
    Moved aws memory memory-Reliable presigned_key
      (codes "uploads/avatar/a.png")
      (present 3 none)
      (commit_to_permanent aws memory presigned_key (codes "avatar") one_temp)
unfolding codes temp_key build_permanent_key normalize_path collapse safe_segment extract_filename
    split_segments to_slashes filter put text_eq
commit-Moved_example =
    commit-Moved aws memory memory-Reliable presigned_key (codes "avatar") 3 none one_temp
      (λ same. absurd (differ ((text_eq_iff (codes "uploads/avatar/a.png") presigned_key).1 same)))
      refl
  where
    differ : text_eq (codes "uploads/avatar/a.png") presigned_key ≡ true → ⊥
    differ e = cc (e)

abbrev media : ImageKitProviderConfig
media = record {
  public_key = [];
  private_key = [];
  url_endpoint = codes "https://ik.io/x";
  folder = codes "uploads";
  use_unique_file_name = false;
}

abbrev one_file : Folders
unfolding put_file
one_file = put_file (codes "/uploads/temp/7/avatar") (some (1 ∷ 2 ∷ [])) (λ folder. none)

commit-Kept_example :
    Kept media media_memory media_memory-Reliable
      (codes "/uploads/temp/7/avatar")
      (codes "/uploads/avatar")
      (codes "a.png")
      (1 ∷ 2 ∷ [])
      one_file
      (ImageKit.commit_to_permanent media media_memory presigned_key (codes "avatar") one_file)
unfolding codes temp_lookup_folder parent_folder permanent_folder normalize_path collapse
    safe_segment extract_filename split_segments to_slashes filter put_file text_eq
commit-Kept_example =
    commit-Kept media media_memory media_memory-Reliable presigned_key (codes "avatar")
      (file_at (codes "/uploads/temp/7/avatar")) [] (1 ∷ 2 ∷ []) one_file
      (λ same.
        absurd (
          differ ((text_eq_iff (codes "/uploads/avatar") (codes "/uploads/temp/7/avatar")).1 same)))
      refl refl
  where
    differ : text_eq (codes "/uploads/avatar") (codes "/uploads/temp/7/avatar") ≡ true → ⊥
    differ e = cc (e)
