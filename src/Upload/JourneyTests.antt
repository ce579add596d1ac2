-- ===== src/Upload/JourneyTests.antt =====
-- The witness of the theorem on the whole direct upload.
use project_saas_backend.Common.{Text, codes, none, some, List, [], ◌∷◌}
use project_saas_backend.Errors.{Thrown, native}
use project_saas_backend.Upload.SignedUrl.{put, SignedUrl, canonical}
use project_saas_backend.Upload.LocalStorage.{FilePath}
use project_saas_backend.Upload.FileSystem.{FileSystem}

abbrev srv : FilePath
srv = codes "srv" ∷ []

abbrev mac : Text → Text → Text
mac s t = t

abbrev no_params : List (Text × Text) → Text
no_params ps = []

abbrev io : Text → Thrown
io code = native code code

abbrev upload_key : Text
upload_key = codes "uploads/temp/7/avatar/k1.png"

abbrev link : SignedUrl
link = record {
  url = codes "/upload/local/direct?";
  signature = canonical put upload_key 160 none (some 5);
  expire_at = 160;
}

abbrev no_files : FileSystem
no_files = record { files = []; dirs = [] }
