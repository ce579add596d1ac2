-- ===== src/Upload/LocalStorage/Cleanup/Laws.antt =====
-- Which files the cleanup of the temp directory leaves.
use project_saas_backend.Common.{
  filter-append, length-append, ℕ, ◌+◌, Text, List, [], ◌∷◌, ◌++◌, Bool, true, false, ◌&&◌, not,
  ◌≡◌, refl, sym, ap, ◌∙◌, arith, ltb, filter, length,
}
use project_saas_backend.Upload.LocalStorage.{FilePath}
use project_saas_backend.Upload.LocalStorage.Cleanup.{
  Entry, file, directory, other, Entries, end, entry, is_end, Cleaned, after_directory,
  cleanup_entry, cleanup_temp_recursive, cutoff_of, cleanup_temp,
}

-- A regular file below temp: its path, its time, and whether each directory on the way can be read
-- and the file be removed.
pub record TempFile : Type 0 where
  pub path : FilePath
  pub mtime : ℕ
  pub reachable : Bool

unfoldable mutual
  pub files_in : FilePath → Bool → Entry → List TempFile
  files_in p r (file name mtime accessible) =
      record { path = name ∷ p; mtime = mtime; reachable = r && accessible } ∷ []
  files_in p r (directory name readable removable es) = temp_files (name ∷ p) (r && readable) es
  files_in p r (other name) = []

  pub temp_files : FilePath → Bool → Entries → List TempFile
  temp_files p r end = []
  temp_files p r (entry e es) = files_in p r e ++ temp_files p r es

-- Not both reachable and older than the cutoff.
abbrev pub stays : ℕ → TempFile → Bool
stays cutoff f = not (f.reachable && ltb f.mtime cutoff)

mutual
  unfolding temp_files filter

  unreachable_entry :
      (cutoff : ℕ) (p : FilePath) (e : Entry)
      → filter (stays cutoff) (files_in p false e) ≡ files_in p false e
  unreachable_entry cutoff p (file name mtime accessible) = refl
  unreachable_entry cutoff p (directory name readable removable es) =
      unreachable cutoff (name ∷ p) es
  unreachable_entry cutoff p (other name) = refl

  unreachable :
      (cutoff : ℕ) (p : FilePath) (es : Entries)
      → filter (stays cutoff) (temp_files p false es) ≡ temp_files p false es
  unreachable cutoff p end = refl
  unreachable cutoff p (entry e es) =
      rw (filter-append (stays cutoff) (files_in p false e) (temp_files p false es))
        (rw (unreachable_entry cutoff p e) (rw (unreachable cutoff p es) refl))

-- A directory that is dropped had no files.
after_directory-files :
    (p : FilePath) (name : Text) (removable : Bool) (inside rest : Cleaned)
    → temp_files p true (after_directory name removable inside rest).left
      ≡ temp_files (name ∷ p) true inside.left ++ temp_files p true rest.left
unfolding temp_files
after_directory-files p name removable inside rest = go removable inside.left
  where
    go :
        (removable : Bool) (left : Entries)
        → temp_files p true
            (after_directory name removable
              (record { deleted = inside.deleted; left = left })
              rest).left
          ≡ temp_files (name ∷ p) true left ++ temp_files p true rest.left
    go true end = refl
    go false end = refl
    go true (entry e es) = refl
    go false (entry e es) = refl

mutual
  unfolding cleanup_temp_recursive temp_files filter

  cleanup_entry-files :
      (cutoff : ℕ) (p : FilePath) (e : Entry) (rest : Cleaned)
      → temp_files p true (cleanup_entry cutoff e rest).left
        ≡ filter (stays cutoff) (files_in p true e) ++ temp_files p true rest.left
  cleanup_entry-files cutoff p (file name mtime accessible) rest = ground (arith)
  cleanup_entry-files cutoff p (directory name true removable es) rest =
      after_directory-files p name removable (cleanup_temp_recursive cutoff es) rest
      ∙ ap (λ fs. fs ++ temp_files p true rest.left) (cleanup-files cutoff (name ∷ p) es)
  cleanup_entry-files cutoff p (directory name false removable es) rest =
      ap (λ fs. fs ++ temp_files p true rest.left) (sym (unreachable cutoff (name ∷ p) es))
  cleanup_entry-files cutoff p (other name) rest = refl

  pub cleanup-files :
      (cutoff : ℕ) (p : FilePath) (es : Entries)
      → temp_files p true (cleanup_temp_recursive cutoff es).left
        ≡ filter (stays cutoff) (temp_files p true es)
  cleanup-files cutoff p end = refl
  cleanup-files cutoff p (entry e es) =
      cleanup_entry-files cutoff p e (cleanup_temp_recursive cutoff es)
      ∙ ap (λ fs. filter (stays cutoff) (files_in p true e) ++ fs) (cleanup-files cutoff p es)
      ∙ sym (filter-append (stays cutoff) (files_in p true e) (temp_files p true es))

mutual
  unfolding cleanup_temp_recursive temp_files filter

  cleanup_entry-deleted :
      (cutoff : ℕ) (p : FilePath) (e : Entry) (rest : Cleaned)
      → (cleanup_entry cutoff e rest).deleted + length (filter (stays cutoff) (files_in p true e))
        ≡ rest.deleted + length (files_in p true e)
  cleanup_entry-deleted cutoff p (file name mtime accessible) rest = ground (arith)
  cleanup_entry-deleted cutoff p (directory name true removable es) rest =
      omega (arith, cleanup-deleted cutoff (name ∷ p) es)
  cleanup_entry-deleted cutoff p (directory name false removable es) rest =
      rw (unreachable cutoff (name ∷ p) es) refl
  cleanup_entry-deleted cutoff p (other name) rest = refl

  cleanup-deleted :
      (cutoff : ℕ) (p : FilePath) (es : Entries)
      → (cleanup_temp_recursive cutoff es).deleted
          + length (filter (stays cutoff) (temp_files p true es))
        ≡ length (temp_files p true es)
  cleanup-deleted cutoff p end = refl
  cleanup-deleted cutoff p (entry e es) =
      rw (filter-append (stays cutoff) (files_in p true e) (temp_files p true es)) (
        rw
          (length-append (filter (stays cutoff) (files_in p true e))
            (filter (stays cutoff) (temp_files p true es)))
          (rw (length-append (files_in p true e) (temp_files p true es)) (
            omega (
              arith,
              cleanup_entry-deleted cutoff p e (cleanup_temp_recursive cutoff es),
              cleanup-deleted cutoff p es,
            ))))

-- The cleanup leaves exactly the files that are not both reachable and older than the given number of
-- hours, in their order, and answers how many it deleted.
pub cleanup_temp-files :
    (now hours : ℕ) (temp : FilePath) (es : Entries)
    → (temp_files temp true (cleanup_temp now hours true es).left
        ≡ filter (stays (cutoff_of now hours)) (temp_files temp true es))
      × ((cleanup_temp now hours true es).deleted
            + length (temp_files temp true (cleanup_temp now hours true es).left)
          ≡ length (temp_files temp true es))
unfolding cleanup_temp
cleanup_temp-files now hours temp es =
    let kept = cleanup-files (cutoff_of now hours) temp es in
    (kept, rw kept (cleanup-deleted (cutoff_of now hours) temp es))

-- No directory, at any depth below those that can be read, is empty unless it cannot be removed.
mutual
  tidy_entry : Entry → Bool
  tidy_entry (file name mtime accessible) = true
  tidy_entry (directory name true removable es) = not (is_end es && removable) && tidy es
  tidy_entry (directory name false removable es) = true
  tidy_entry (other name) = true

  pub tidy : Entries → Bool
  tidy end = true
  tidy (entry e es) = tidy_entry e && tidy es

mutual
  unfolding cleanup_temp_recursive tidy

  cleanup_entry-tidy :
      (cutoff : ℕ) (e : Entry) (rest : Cleaned)
      → tidy rest.left ≡ true
      → tidy (cleanup_entry cutoff e rest).left ≡ true
  cleanup_entry-tidy cutoff (file name mtime accessible) rest h = ground (arith)
  cleanup_entry-tidy cutoff (directory name true removable es) rest h =
      ground (arith, cleanup-tidy cutoff es)
  cleanup_entry-tidy cutoff (directory name false removable es) rest h = h
  cleanup_entry-tidy cutoff (other name) rest h = h

  cleanup-tidy : (cutoff : ℕ) (es : Entries) → tidy (cleanup_temp_recursive cutoff es).left ≡ true
  cleanup-tidy cutoff end = refl
  cleanup-tidy cutoff (entry e es) =
      cleanup_entry-tidy cutoff e (cleanup_temp_recursive cutoff es) (cleanup-tidy cutoff es)

-- Whatever the tree was, after the cleanup no directory below those that can be read is empty, but one
-- that cannot be removed.
pub cleanup_temp_recursive-tidy :
    (cutoff : ℕ) (es : Entries) → tidy (cleanup_temp_recursive cutoff es).left ≡ true
cleanup_temp_recursive-tidy cutoff es = cleanup-tidy cutoff es
