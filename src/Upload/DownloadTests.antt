-- ===== src/Upload/DownloadTests.antt =====
-- The witnesses of the theorems on the signed download.
use project_saas_backend.Common.{
  Text, codes, text_eq, Option, none, some, List, [], ◌∷◌, ◌≡◌, refl, arith,
}
use project_saas_backend.Common.Decimal.{decimal}
use project_saas_backend.Common.Result.{ok}
use project_saas_backend.Errors.{Thrown, native}
use project_saas_backend.Upload.SignedUrl.{
  get, method_text, whole, SignedUrl, canonical, sign_url, verify,
}
use project_saas_backend.Upload.LocalStorage.{FilePath, resolve_managed_path}
use project_saas_backend.Upload.LocalStorage.Objects.{resolve_download_path}
use project_saas_backend.Upload.FileSystem.{FileSystem, read}
use project_saas_backend.Upload.Download.{Download, streamed, download}
use project_saas_backend.Upload.Download.Laws.{Served, sign_url-download, download-Served}

abbrev uploads : FilePath
uploads = codes "uploads" ∷ codes "srv" ∷ []

abbrev mac : Text → Text → Text
mac s t = t

abbrev no_params : List (Text × Text) → Text
no_params ps = []

abbrev io : Text → Thrown
io code = native code code

abbrev no_types : Text → Option Text
no_types path = none

abbrev scan_key : Text
scan_key = codes "uploads/aadhar/id.png"

abbrev scan_path : FilePath
scan_path = codes "id.png" ∷ codes "aadhar" ∷ uploads

abbrev scans : FileSystem
scans = record { files = (scan_path, 7 ∷ 8 ∷ []) ∷ []; dirs = [] }

abbrev link : SignedUrl
link = record {
  url = codes "/upload/local/direct?";
  signature = canonical get scan_key 160 none none;
  expire_at = 160;
}

abbrev served : Download
served =
    streamed mac no_params (codes "s") io 4096 uploads none no_types scan_path 2 (some (7 ∷ 8 ∷ []))

sign_url-download_example :
    download mac no_params
      (codes "s")
      io
      4096
      uploads
      none
      no_types
      100500
      scan_key
      (whole 160)
      link.signature
      scans
    ≡ ok served
unfolding sign_url canonical method_text codes resolve_managed_path read
sign_url-download_example =
    sign_url-download mac no_params (codes "s") io 4096 uploads none no_types 100000 100500 60
      scan_key link scans scan_path (7 ∷ 8 ∷ []) refl refl refl (omega arith) (omega arith) refl
      refl

download-Served_example :
    Served mac no_params
      (codes "s")
      io
      4096
      uploads
      none
      no_types
      100500
      scan_key
      (whole 160)
      link.signature
      scans
      served
unfolding download verify canonical method_text codes resolve_managed_path resolve_download_path
    read text_eq decimal
download-Served_example =
    download-Served mac no_params (codes "s") io 4096 uploads none no_types 100500 scan_key
      (whole 160) link.signature scans served refl
