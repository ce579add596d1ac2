-- ===== src/Upload/LocalStorage/Objects.antt =====
-- saveTemp, commitToPermanent, delete, head, completePresignedUpload and resolveDownloadPath of
-- src/modules/upload/infrastructure/providers/local-storage.provider.ts, on the disk. The size that
-- `stat` gives for a directory is a parameter; times of modification are not kept.
use project_saas_backend.Common.{
  ℕ, ◌+◌, Text, codes, text_eq, starts_with, Option, none, some, List, [], ◌∷◌, ◌++◌, Bool, true,
  false, ◌&&◌, ◌||◌, not, ltb, leb, ◌==◌, if◌then◌else◌, any, filter, length,
}
use project_saas_backend.Common.Decimal.{decimal}
use project_saas_backend.Common.Result.{Result, ok, err, Exec, pure, lift, ◌>>=◌, ◌>>◌}
use project_saas_backend.Errors.{Thrown, thrown_api, from_definition}
use project_saas_backend.Errors.Registry
use project_saas_backend.Upload.Config.{strip_leading}
use project_saas_backend.Upload.LocalStorage.{
  FilePath, StoredFile, parent, enter, split_segments, to_slashes, absolute, resolve_managed_path,
  public_url,
}
use project_saas_backend.Upload.PresignedUrl.{PresignedCompleteInput, PresignedCompleteResult}
use project_saas_backend.Upload.FileSystem.{
  FileSystem, path_eq, read, is_dir, exists, is_empty_dir, remove_dir, ensure_dir, write_file,
  unlink, rename,
}

-- The last segment that is not empty, as `path.basename` gives it.
abbrev pub last_segment : Text → List Text → Text
last_segment found [] = found
last_segment found ([] ∷ ss) = last_segment found ss
last_segment found ((c ∷ s) ∷ ss) = last_segment (c ∷ s) ss

unfoldable pub base_name : Text → Text
unfolding split_segments
base_name s = last_segment [] (split_segments s)

abbrev pub is_safe : ℕ → Bool
is_safe c =
    (leb b'a' c && leb c b'z')
    || (leb b'A' c && leb c b'Z')
    || (leb b'0' c && leb c b'9')
    || c == b'_'
    || c == b'-'

unfoldable pub safe_segment : Text → Text
safe_segment value = filter is_safe value

-- Either slash makes a full key.
unfoldable pub is_full_key : Text → Bool
unfolding to_slashes
is_full_key identifier = any (λ c. c == 47) (to_slashes identifier)

-- The parts of a path, the first one first, added to `rest`.
abbrev forward : FilePath → List Text → List Text
forward [] rest = rest
forward (s ∷ p) rest = forward p (s ∷ rest)

abbrev slashed : List Text → Text
slashed [] = []
slashed (s ∷ []) = s
slashed (s ∷ t ∷ ss) = s ++ 47 ∷ slashed (t ∷ ss)

abbrev ups : List Text → List Text → List Text
unfolding codes
ups [] rest = rest
ups (s ∷ ss) rest = codes ".." ∷ ups ss rest

abbrev relative_segments : List Text → List Text → List Text
unfolding text_eq
relative_segments [] to = to
relative_segments (s ∷ from) [] = ups (s ∷ from) []
relative_segments (s ∷ from) (t ∷ to) =
    let deeper = relative_segments from to in
    if text_eq s t then deeper else ups (s ∷ from) (t ∷ to)

-- `path.relative(from, to)`
pub relative_path : FilePath → FilePath → Text
unfolding codes
relative_path from to = slashed (relative_segments (forward from []) (forward to []))

pub record SaveInput : Type 0 where
  pub buffer : List ℕ
  pub filename : Text
  pub mime_type : Text
  pub size : ℕ

pub record ObjectHead : Type 0 where
  pub found : Bool
  pub size : ℕ

-- `while (current.startsWith(this.tempDir) && current !== this.tempDir)`: up to the root at most.
unfoldable pub prune_empty_parents : FilePath → FilePath → FileSystem → FileSystem
unfolding starts_with absolute path_eq is_empty_dir
prune_empty_parents temp [] fs = fs
prune_empty_parents temp (s ∷ p) fs =
    let rest = prune_empty_parents temp p (remove_dir fs (s ∷ p)) in
    if not (starts_with (absolute (s ∷ p)) (absolute temp)) || path_eq (s ∷ p) temp
    then fs
    else if not (is_dir fs (s ∷ p))
    then fs
    else if not (is_empty_dir fs (s ∷ p))
    then fs
    else rest

module _ (io_error : Text → Thrown) (dir_size : ℕ) (base : FilePath) (base_url : Option Text) where
  unfoldable pub temp_dir : FilePath
  unfolding codes
  temp_dir = codes "temp" ∷ base

  unfoldable pub save_temp : SaveInput → Exec Thrown FileSystem StoredFile
  unfolding temp_dir base_name enter codes public_url ensure_dir write_file
  save_temp input = do
    let safe_filename = base_name input.filename
    ensure_dir io_error temp_dir
    write_file io_error (enter temp_dir safe_filename) input.buffer
    pure (record {
      url = public_url base_url (codes "/uploads/temp/" ++ safe_filename);
      filename = safe_filename;
      size = input.size;
      key = codes "uploads/temp/" ++ safe_filename;
      mime_type = some input.mime_type;
    })

  pub not_found_at : FilePath → Thrown
  unfolding codes
  not_found_at p = thrown_api (
      from_definition Registry.file_not_found
        (some (codes "Temp file not found at " ++ relative_path base p ++ codes ".")) none)

  -- The path that `existsSync` and `renameSync` get.
  unfoldable pub old_path : Text → Result Thrown FilePath
  unfolding is_full_key resolve_managed_path temp_dir enter base_name
  old_path identifier =
      if is_full_key identifier
      then resolve_managed_path base identifier
      else ok (enter temp_dir (base_name identifier))

  abbrev size_of : Option (List ℕ) → ℕ
  size_of none = dir_size
  size_of (some b) = length b

  -- `fs.statSync(p).size` of what exists
  unfoldable pub stat_size : FilePath → FileSystem → ℕ
  unfolding read
  stat_size p fs = size_of (read p fs.files)

  abbrev pub with_size :
      {A : Type 0} → FilePath → (ℕ → Exec Thrown FileSystem A) → Exec Thrown FileSystem A
  unfolding stat_size
  with_size p next fs = next (stat_size p fs) fs

  abbrev pub require_file : FilePath → Exec Thrown FileSystem (Unit {0})
  unfolding read path_eq
  require_file p fs = if not (exists fs p) then (err (not_found_at p), fs) else (ok tt, fs)

  abbrev pub prune : FilePath → Exec Thrown FileSystem (Unit {0})
  prune dir fs = (ok tt, prune_empty_parents temp_dir dir fs)

  unfoldable pub committed : Text → Text → ℕ → StoredFile
  unfolding public_url codes
  committed safe_type leaf size = record {
    url = public_url base_url (codes "/uploads/" ++ safe_type ++ 47 ∷ leaf);
    filename = leaf;
    size = size;
    key = codes "uploads/" ++ safe_type ++ 47 ∷ leaf;
    mime_type = none;
  }

  unfoldable pub commit_to_permanent : Text → Text → Exec Thrown FileSystem StoredFile
  unfolding base_name safe_segment enter ensure_dir old_path stat_size rename prune_empty_parents
      committed temp_dir
  commit_to_permanent identifier upload_type = do
    let safe_type = safe_segment upload_type
    let safe_filename = base_name identifier
    let type_dir = enter base safe_type
    ensure_dir io_error type_dir
    old ← lift (old_path identifier)
    require_file old
    with_size old λ size. do
      rename io_error old (enter type_dir safe_filename)
      prune (parent old)
      pure (committed safe_type safe_filename size)

  abbrev pub unlinked : Result Thrown (Unit {0}) × FileSystem → Bool × FileSystem
  unlinked (ok _, fs) = (true, fs)
  unlinked (err _, fs) = (false, fs)

  abbrev pub delete_at : Result Thrown FilePath → FileSystem → Bool × FileSystem
  unfolding read path_eq unlink
  delete_at (err _) fs = (false, fs)
  delete_at (ok p) fs = if not (exists fs p) then (false, fs) else unlinked (unlink io_error p fs)

  -- The `catch` answers false.
  unfoldable pub delete : Text → FileSystem → Bool × FileSystem
  unfolding resolve_managed_path read path_eq unlink
  delete [] fs = (false, fs)
  delete (c ∷ s) fs = delete_at (resolve_managed_path base (c ∷ s)) fs

  abbrev pub head_at : Result Thrown FilePath → FileSystem → ObjectHead
  unfolding read path_eq stat_size
  head_at (err _) fs = record { found = false; size = 0 }
  head_at (ok p) fs =
      if not (exists fs p)
      then record { found = false; size = 0 }
      else record { found = true; size = stat_size p fs }

  unfoldable pub head : Text → FileSystem → ObjectHead
  unfolding resolve_managed_path read path_eq stat_size
  head key fs = head_at (resolve_managed_path base key) fs

  -- `expectedSize && Math.abs(head.size - expectedSize) > 1024`
  abbrev pub far_from : Option ℕ → ℕ → Bool
  far_from none size = false
  far_from (some n) size = not (n == 0) && (ltb (n + 1024) size || ltb (size + 1024) n)

  abbrev pub or_zero : Option ℕ → ℕ
  or_zero none = 0
  or_zero (some n) = n

  unfoldable pub complete_presigned_upload :
      PresignedCompleteInput → FileSystem → Result Thrown PresignedCompleteResult
  unfolding head codes decimal public_url strip_leading
  complete_presigned_upload input fs =
      let h = head input.file_key fs in
      if not h.found
      then err (
          thrown_api (
            from_definition Registry.file_not_found
              (some (
                codes
                  "No file found at the provided key. Did the PUT against the signed URL succeed?"))
              none))
      else if far_from input.expected_size h.size
      then err (
          thrown_api (
            from_definition Registry.bad_request
              (some (
                codes "Size mismatch: expected "
                ++ decimal (or_zero input.expected_size)
                ++ codes ", found "
                ++ decimal h.size
                ++ codes "."))
              none))
      else ok (record {
        size = h.size;
        content_type = none;
        url = public_url base_url (47 ∷ strip_leading input.file_key);
        file_key = input.file_key;
      })

  abbrev pub regular : FilePath → Option (List ℕ) → Option (FilePath × ℕ)
  regular p none = none
  regular p (some b) = some (p, length b)

  unfoldable pub download_at : Result Thrown FilePath → FileSystem → Option (FilePath × ℕ)
  unfolding read
  download_at (err _) fs = none
  download_at (ok p) fs = regular p (read p fs.files)

  unfoldable pub resolve_download_path : Text → FileSystem → Option (FilePath × ℕ)
  unfolding resolve_managed_path read download_at
  resolve_download_path key fs = download_at (resolve_managed_path base key) fs
