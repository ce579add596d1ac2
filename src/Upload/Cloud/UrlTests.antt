-- ===== src/Upload/Cloud/UrlTests.antt =====
-- The witness of the theorem on the URLs of the provider of S3.
use project_saas_backend.Common.{
  Text, codes, Option, none, some, [], ◌∷◌, false, ◌==◌, refl, drop, if◌then◌else◌,
}
use project_saas_backend.Upload.Config.Types.{S3ProviderConfig}
use project_saas_backend.Upload.LocalStorage.{split_segments}
use project_saas_backend.Upload.Cloud.S3.{present, missing, build_public_url, delete}
use project_saas_backend.Upload.Cloud.S3.Urls.{
  Settled, HostPath, is_plain_key, delete-build_public_url,
}
use project_saas_backend.Upload.Cloud.Memory.{memory, memory-Reliable, Heads, put}

-- What is after the host of a URL that starts with `https://`.
unfoldable from_slash : Text → Text
from_slash [] = []
from_slash (c ∷ s) = let rest = from_slash s in if c == 47 then c ∷ s else rest

abbrev url_path : Text → Option Text
unfolding from_slash
url_path url = some (from_slash (drop 8 url))

abbrev bucket_of_photos : S3ProviderConfig
bucket_of_photos = record {
  region = codes "eu";
  bucket = codes "photos";
  access_key_id = [];
  secret_access_key = [];
  endpoint = none;
  force_path_style = false;
  public_url = none;
  max_retries = 3;
  temp_prefix = codes "uploads/temp";
  permanent_prefix = codes "uploads";
}

url_path-HostPath : HostPath bucket_of_photos url_path
unfolding HostPath codes from_slash
url_path-HostPath key hk = refl

abbrev photo : Text
photo = codes "uploads/avatar/a.png"

abbrev one_photo : Heads
unfolding put
one_photo = put photo (present 3 none) (λ k. missing)

delete-build_public_url_example :
    Settled bucket_of_photos memory memory-Reliable url_path url_path-HostPath photo
      (present 3 none)
      (memory.delete_object photo one_photo)
      (delete bucket_of_photos memory url_path (build_public_url bucket_of_photos photo) one_photo)
unfolding is_plain_key codes put split_segments
delete-build_public_url_example =
    delete-build_public_url bucket_of_photos memory memory-Reliable url_path url_path-HostPath photo
      3 none one_photo refl refl refl refl refl
