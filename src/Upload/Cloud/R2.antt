-- ===== src/Upload/Cloud/R2.antt =====
-- src/modules/upload/infrastructure/providers/cloudflare-r2-storage.provider.ts: the provider of R2 is
-- that of S3 on a configuration made from its own, with its own public URL.
use project_saas_backend.Common.{ℕ, Text, codes, Option, none, some, [], ◌∷◌, ◌++◌, true, ◌≡◌, refl}
use project_saas_backend.Upload.Config.{strip_trailing}
use project_saas_backend.Upload.Config.Types.{CloudflareR2ProviderConfig, S3ProviderConfig}
use project_saas_backend.Upload.Cloud.S3.{build_public_url, host_url, endpoint_url}

unfoldable pub adapted : CloudflareR2ProviderConfig → S3ProviderConfig
unfolding codes
adapted r2 = record {
  region = codes "auto";
  bucket = r2.bucket_name;
  access_key_id = r2.access_key_id;
  secret_access_key = r2.secret_access_key;
  endpoint = r2.endpoint;
  force_path_style = true;
  public_url = r2.public_url;
  max_retries = 3;
  temp_prefix = r2.temp_prefix;
  permanent_prefix = r2.permanent_prefix;
}

-- `${endpoint?.replace(/\/+$/, '')}`
abbrev pub endpoint_text : Option Text → Text
unfolding codes strip_trailing
endpoint_text none = codes "undefined"
endpoint_text (some s) = strip_trailing s

abbrev pub on_host : CloudflareR2ProviderConfig → Text → Option Text → Text
unfolding codes strip_trailing
on_host r2 key none = endpoint_text r2.endpoint ++ 47 ∷ (r2.bucket_name ++ 47 ∷ key)
on_host r2 key (some []) = endpoint_text r2.endpoint ++ 47 ∷ (r2.bucket_name ++ 47 ∷ key)
on_host r2 key (some (c ∷ s)) = strip_trailing (c ∷ s) ++ 47 ∷ key

unfoldable pub r2_public_url : CloudflareR2ProviderConfig → Text → Text
unfolding codes strip_trailing
r2_public_url r2 key = on_host r2 key r2.public_url

on_host-host_url :
    (r2 : CloudflareR2ProviderConfig) (key : Text) (c : ℕ) (s : Text)
    → r2.endpoint ≡ some (c ∷ s)
    → (u : Option Text) → on_host r2 key u ≡ host_url (adapted r2) u key
unfolding adapted on_host host_url endpoint_url
on_host-host_url r2 key c s set none = rw set refl
on_host-host_url r2 key c s set (some []) = rw set refl
on_host-host_url r2 key c s set (some (d ∷ t)) = refl

-- Where the endpoint is set, the override answers what the provider of S3 would on the adapted
-- configuration, with a public URL and without one.
pub r2_public_url-build_public_url :
    (r2 : CloudflareR2ProviderConfig) (key : Text) (c : ℕ) (s : Text)
    → r2.endpoint ≡ some (c ∷ s)
    → r2_public_url r2 key ≡ build_public_url (adapted r2) key
unfolding r2_public_url build_public_url adapted
r2_public_url-build_public_url r2 key c s set = on_host-host_url r2 key c s set r2.public_url
