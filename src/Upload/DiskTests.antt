-- ===== src/Upload/DiskTests.antt =====
-- The witnesses of the theorems on the files of the local storage and on the audit log.
use project_saas_backend.Common.{
  ℕ, ◌+◌, Text, codes, none, some, List, [], ◌∷◌, true, false, ◌≡◌, refl, filter, length,
}
use project_saas_backend.Common.Result.{ok}
use project_saas_backend.Errors.{Thrown, native}
use project_saas_backend.Upload.LocalStorage.{FilePath, enter}
use project_saas_backend.Upload.FileSystem.{FileSystem, path_eq, read}
use project_saas_backend.Upload.LocalStorage.Objects.{
  old_path, base_name, safe_segment, committed, commit_to_permanent,
}
use project_saas_backend.Upload.LocalStorage.Promotion.{commit-read}
use project_saas_backend.Upload.LocalStorage.Cleanup.{
  file, directory, Entries, end, entry, cleanup_temp_recursive, cleanup_temp, cutoff_of,
}
use project_saas_backend.Upload.LocalStorage.Cleanup.Laws.{
  temp_files, stays, tidy, cleanup_temp-files, cleanup_temp_recursive-tidy,
}

-- /srv/uploads
abbrev uploads : FilePath
uploads = codes "uploads" ∷ codes "srv" ∷ []

abbrev io : Text → Thrown
io code = native code code

abbrev scan_bytes : List ℕ
scan_bytes = 7 ∷ 8 ∷ []

abbrev scan_path : FilePath
scan_path = codes "id.png" ∷ codes "aadhar" ∷ uploads

-- One identity document that was committed before.
abbrev one_scan : FileSystem
one_scan = record {
  files = (scan_path, scan_bytes) ∷ [];
  dirs = (codes "aadhar" ∷ uploads) ∷ (codes "temp" ∷ uploads) ∷ uploads ∷ (codes "srv" ∷ []) ∷ [];
}

abbrev new_path : FilePath
new_path = codes "id.png" ∷ codes "avatar" ∷ uploads

-- The identifier names no temp file: the document becomes an avatar.
commit-read_example :
    (fs' : FileSystem) × (commit_to_permanent io 4096 uploads none
        (codes "uploads/aadhar/id.png")
        (codes "avatar")
        one_scan
      ≡ (ok (committed io 4096 uploads none (codes "avatar") (codes "id.png") 2), fs'))
    × (read new_path fs'.files ≡ some scan_bytes)
    × (read scan_path fs'.files ≡ none)
    × ((q : FilePath)
        → path_eq q scan_path ≡ false
        → path_eq q new_path ≡ false
        → read q fs'.files ≡ read q one_scan.files)
unfolding codes old_path enter base_name safe_segment read path_eq filter
commit-read_example =
    commit-read io 4096 uploads none (codes "uploads/aadhar/id.png") (codes "avatar") one_scan
      scan_path scan_bytes (codes "id.png") (codes "avatar") (codes "avatar") uploads refl refl refl
      refl refl (refl, (refl, (refl, tt))) refl refl refl

abbrev one_left : FileSystem
one_left = record {
  files = (codes "b.png" ∷ codes "u-7" ∷ codes "temp" ∷ uploads, 1 ∷ []) ∷ [];
  dirs =
      (codes "avatar" ∷ codes "u-7" ∷ codes "temp" ∷ uploads)
      ∷ (codes "u-7" ∷ codes "temp" ∷ uploads)
      ∷ [];
}

-- An old file, and a directory with an old file and a new one.
abbrev old_and_new : Entries
old_and_new = entry (file (codes "a.png") 10 true) (
    entry
      (directory (codes "u-7") true true
        (entry (file (codes "b.png") 20 true) (entry (file (codes "c.png") 7200000 true) end)))
      end)

cleanup_temp-files_example :
    (temp_files uploads true (cleanup_temp 7200000 1 true old_and_new).left
      ≡ filter (stays (cutoff_of 7200000 1)) (temp_files uploads true old_and_new))
    × ((cleanup_temp 7200000 1 true old_and_new).deleted
          + length (temp_files uploads true (cleanup_temp 7200000 1 true old_and_new).left)
        ≡ length (temp_files uploads true old_and_new))
cleanup_temp-files_example = cleanup_temp-files 7200000 1 uploads old_and_new

deleted_two : (cleanup_temp 7200000 1 true old_and_new).deleted ≡ 2
unfolding cleanup_temp
deleted_two = refl

cleanup_temp_recursive-tidy_example : tidy (cleanup_temp_recursive 3600000 old_and_new).left ≡ true
cleanup_temp_recursive-tidy_example = cleanup_temp_recursive-tidy 3600000 old_and_new
