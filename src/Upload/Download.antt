-- ===== src/Upload/Download.antt =====
-- The signed GET of src/modules/upload/api/v1/controllers/local-direct.controller.ts: `download`. The
-- table of MIME types by extension is a parameter; a file that can be found can be read.
pub mod Laws
use project_saas_backend.Common.{
  ℕ, Text, codes, get_or, Option, none, some, List, [], ◌∷◌, ◌++◌, Bool, true, false, length,
}
use project_saas_backend.Common.Result.{Result, ok, err}
use project_saas_backend.Errors.{Thrown, thrown_api, from_definition}
use project_saas_backend.Errors.Registry
use project_saas_backend.Upload.SignedUrl.{
  get, Expire, Grant, Verdict, accepted, missing_parameters, invalid_expire, expired,
  invalid_signature, verify,
}
use project_saas_backend.Upload.LocalStorage.{FilePath, absolute, resolve_managed_path}
use project_saas_backend.Upload.LocalStorage.Objects.{resolve_download_path}
use project_saas_backend.Upload.FileSystem.{FileSystem, read}
use project_saas_backend.Upload.Direct.{refused, gone}

-- The headers and the body of the answer.
pub record Download : Type 0 where
  pub content_type : Text
  pub content_length : ℕ
  pub cache_control : Text
  pub body : List ℕ

abbrev pub download_grant : Text → Expire → Text → Grant
download_grant key expire signature = record {
  method = get;
  key = key;
  expire = expire;
  content_type = none;
  max_size = none;
  signature = signature;
}

module _ (hmac : Text → Text → Text) (search_params : List (Text × Text) → Text) (secret : Text)
    (io_error : Text → Thrown) (dir_size : ℕ) (base : FilePath) (base_url : Option Text)
    (mime_lookup : Text → Option Text) where
  abbrev pub streamed : FilePath → ℕ → Option (List ℕ) → Download
  unfolding absolute codes
  streamed p size content = record {
    content_type = get_or (mime_lookup (absolute p)) (codes "application/octet-stream");
    content_length = size;
    cache_control = codes "private, max-age=0, no-store";
    body = get_or content [];
  }

  abbrev pub found : FileSystem → Option (FilePath × ℕ) → Result Thrown Download
  unfolding read absolute codes
  found fs none = err (thrown_api (from_definition Registry.file_not_found none none))
  found fs (some (p, size)) = ok (streamed p size (read p fs.files))

  abbrev pub on_verdict : Text → FileSystem → Result Thrown Verdict → Result Thrown Download
  unfolding resolve_download_path read absolute codes
  on_verdict key fs (err e) = err e
  on_verdict key fs (ok expired) = err gone
  on_verdict key fs (ok missing_parameters) = err (refused (codes "missing parameters"))
  on_verdict key fs (ok invalid_expire) = err (refused (codes "invalid expire"))
  on_verdict key fs (ok invalid_signature) = err (refused (codes "invalid signature"))
  on_verdict key fs (ok accepted) =
      found fs (resolve_download_path io_error dir_size base base_url key fs)

  unfoldable pub download : ℕ → Text → Expire → Text → FileSystem → Result Thrown Download
  unfolding verify resolve_download_path read absolute codes
  download now key expire signature fs =
      on_verdict key fs (verify hmac search_params secret now (download_grant key expire signature))
