-- ===== src/Upload/LocalStorage/Cleanup.antt =====
-- cleanupTemp and cleanupTempRecursive of src/modules/upload/infrastructure/providers/
-- local-storage.provider.ts, over the tree of files below temp. What the file system refuses is part
-- of the tree. Times are milliseconds.
pub mod Laws
use project_saas_backend.Common.{
  ℕ, ◌+◌, ◌-◌, ◌*◌, Text, List, [], ◌∷◌, ◌++◌, Bool, true, false, ◌&&◌, not, ltb, if◌then◌else◌,
}
use project_saas_backend.Upload.LocalStorage.{FilePath}

mutual
  pub data Entry : Type 0 where
    -- a regular file: its name, `mtimeMs`, and whether `stat` and `unlink` succeed
    file : Text → ℕ → Bool → Entry
    -- a directory: its name, whether `readdir` succeeds, whether `rmdir` does when it is empty
    directory : Text → Bool → Bool → Entries → Entry
    -- neither
    other : Text → Entry

  pub data Entries : Type 0 where
    end : Entries
    entry : Entry → Entries → Entries

pub record Cleaned : Type 0 where
  pub deleted : ℕ
  pub left : Entries

abbrev pub is_end : Entries → Bool
is_end end = true
is_end (entry e es) = false

-- The directory that was walked, dropped if it became empty, before the entries after it.
abbrev pub after_directory : Text → Bool → Cleaned → Cleaned → Cleaned
after_directory name removable inside rest = record {
  deleted = inside.deleted + rest.deleted;
  left =
      if is_end inside.left && removable
      then rest.left
      else entry (directory name true removable inside.left) rest.left;
}

abbrev pub after_file : ℕ → Text → ℕ → Bool → Cleaned → Cleaned
after_file cutoff name mtime accessible rest =
    if accessible && ltb mtime cutoff
    then record { deleted = 1 + rest.deleted; left = rest.left }
    else record { deleted = rest.deleted; left = entry (file name mtime accessible) rest.left }

abbrev pub keep : Entry → Cleaned → Cleaned
keep e rest = record { deleted = rest.deleted; left = entry e rest.left }

-- One iteration of the loop, before those that follow.
unfoldable mutual
  pub cleanup_entry : ℕ → Entry → Cleaned → Cleaned
  cleanup_entry cutoff (file name mtime accessible) rest =
      after_file cutoff name mtime accessible rest
  cleanup_entry cutoff (directory name true removable es) rest =
      after_directory name removable (cleanup_temp_recursive cutoff es) rest
  cleanup_entry cutoff (directory name false removable es) rest =
      keep (directory name false removable es) rest
  cleanup_entry cutoff (other name) rest = keep (other name) rest

  pub cleanup_temp_recursive : ℕ → Entries → Cleaned
  cleanup_temp_recursive cutoff end = record { deleted = 0; left = end }
  cleanup_temp_recursive cutoff (entry e es) =
      cleanup_entry cutoff e (cleanup_temp_recursive cutoff es)

-- A time before the epoch is no file's: the subtraction may stop at 0.
unfoldable pub cutoff_of : ℕ → ℕ → ℕ
cutoff_of now older_than_hours = now - older_than_hours * 3600 * 1000

-- `temp` may be unreadable; the answer is then 0.
unfoldable pub cleanup_temp : ℕ → ℕ → Bool → Entries → Cleaned
unfolding cleanup_temp_recursive cutoff_of
cleanup_temp now older_than_hours true es =
    cleanup_temp_recursive (cutoff_of now older_than_hours) es
cleanup_temp now older_than_hours false es = record { deleted = 0; left = es }
