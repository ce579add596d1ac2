-- ===== src/Upload/StorageTests.antt =====
-- The witnesses of the theorems on the local storage and the signed PUT.
use project_saas_backend.Common.{
  ℕ, ◌≤◌, Text, codes, lower, text_eq, none, some, List, [], ◌∷◌, false, ◌≡◌, ◌↔◌, refl, length,
}
use project_saas_backend.Common.Decimal.{decimal}
use project_saas_backend.Common.Result.{ok}
use project_saas_backend.Upload.Config.{strip_leading}
use project_saas_backend.Upload.SignedUrl.{put, method_text, whole, SignInput, SignedUrl, canonical}
use project_saas_backend.Errors.{Thrown, native}
use project_saas_backend.Upload.LocalStorage.{
  FilePath, StoredFile, normalized, to_slashes, split_segments, walk, enter,
}
use project_saas_backend.Upload.LocalStorage.DirectWrite.{write_direct_upload, make_directory}
use project_saas_backend.Upload.FileSystem.{
  FileSystem, read, path_eq, without, make_dirs, write_file,
}
use project_saas_backend.Upload.Containment.{Landed, write_direct_upload-escapes}
use project_saas_backend.Upload.Direct.{over, drain_body, buffer, UploadQuery, Uploaded, upload}
use project_saas_backend.Upload.Landing.{concat, drain_body_iff, Checked, upload-Checked}

abbrev two_bytes : List ℕ
two_bytes = 1 ∷ 2 ∷ []

abbrev three_bytes : List ℕ
three_bytes = 1 ∷ 2 ∷ 3 ∷ []

-- /srv/uploads
abbrev srv : FilePath
srv = codes "srv" ∷ []

abbrev photo_key : Text
photo_key = codes "/uploads/temp/u-7/a.png"

abbrev io : Text → Thrown
io code = native code code

abbrev no_files : FileSystem
no_files = record { files = []; dirs = [] }

write_direct_upload-escapes_example :
    (stored : StoredFile) × (fs' : FileSystem) × (write_direct_upload io
        (codes "uploads" ∷ srv)
        none
        (codes "uploads/temp/../avatar/a.png")
        (1 ∷ 2 ∷ [])
        none
        no_files
      ≡ (ok stored, fs'))
    × Landed
        (codes "uploads")
        srv
        (codes "a.png" ∷ codes "avatar" ∷ codes "uploads" ∷ srv)
        two_bytes
        no_files
        fs'
    × (stored.size ≡ length two_bytes)
unfolding normalized to_slashes strip_leading codes split_segments text_eq walk enter read path_eq
write_direct_upload-escapes_example =
    write_direct_upload-escapes (codes "uploads") srv io none (codes "uploads/temp/../avatar/a.png")
      (codes "avatar/a.png") (1 ∷ 2 ∷ []) none no_files (codes "a.png") (codes "avatar" ∷ []) refl
      (refl, (refl, tt)) refl (refl, (refl, (refl, tt))) refl

drain_body_iff_example :
    (drain_body 1000 (some 2) ((1 ∷ []) ∷ (2 ∷ 3 ∷ []) ∷ []) ≡ ok (1 ∷ 2 ∷ 3 ∷ [])) ↔ (
      (three_bytes ≡ concat ((1 ∷ []) ∷ (2 ∷ 3 ∷ []) ∷ []))
      × (length three_bytes ≤ 1000)
      × (over (some 2) (length three_bytes) ≡ false))
drain_body_iff_example =
    drain_body_iff 1000 (some 2) ((1 ∷ []) ∷ (2 ∷ 3 ∷ []) ∷ []) (1 ∷ 2 ∷ 3 ∷ [])

abbrev mac : Text → Text → Text
mac s t = t

abbrev no_params : List (Text × Text) → Text
no_params ps = []

abbrev grant_input : SignInput
grant_input = record {
  method = put;
  key = codes "uploads/temp/a.png";
  expire_seconds = 60;
  content_type = none;
  max_size_bytes = some 5;
  path_prefix = none;
}

abbrev link : SignedUrl
link = record {
  url = codes "/upload/local/direct?";
  signature = canonical put (codes "uploads/temp/a.png") 160 none (some 5);
  expire_at = 160;
}

abbrev query : UploadQuery
query = record {
  key = codes "uploads/temp/a.png";
  expire = whole 160;
  signature = link.signature;
  content_type = none;
  max = some 5;
}

abbrev landed : FileSystem
landed = record {
  files = (codes "a.png" ∷ codes "temp" ∷ codes "uploads" ∷ srv, 1 ∷ 2 ∷ []) ∷ [];
  dirs = (codes "temp" ∷ codes "uploads" ∷ srv) ∷ (codes "uploads" ∷ srv) ∷ srv ∷ [];
}

abbrev done : Uploaded
done = record { url = codes "/uploads/temp/a.png"; file_key = codes "uploads/temp/a.png"; size = 2 }

upload-Checked_example :
    Checked mac no_params io
      (codes "uploads" ∷ srv)
      none
      1000
      (codes "s")
      100500
      query
      none
      (buffer (1 ∷ 2 ∷ []))
      no_files
      landed
      done
unfolding upload canonical method_text decimal codes text_eq lower read path_eq without make_dirs
    write_file make_directory walk enter split_segments
upload-Checked_example =
    upload-Checked mac no_params io (codes "uploads" ∷ srv) none 1000 (codes "s") 100500 query none
      (buffer (1 ∷ 2 ∷ [])) no_files landed done refl
