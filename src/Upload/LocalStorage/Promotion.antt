-- ===== src/Upload/LocalStorage/Promotion.antt =====
-- Promoting a temp file: what commitToPermanent of src/modules/upload/infrastructure/providers/
-- local-storage.provider.ts leaves on the disk.
use project_saas_backend.Common.{
  ℕ, Text, Option, none, some, List, ◌∷◌, true, false, ◌≡◌, refl, ◌∙◌, arith, length, any,
}
use project_saas_backend.Common.Result.{ok}
use project_saas_backend.Errors.{Thrown}
use project_saas_backend.Upload.LocalStorage.{FilePath, Files, enter, parent}
use project_saas_backend.Upload.FileSystem.{
  FileSystem, path_eq, read, without, put_file, remove_file, rename,
}
use project_saas_backend.Upload.FileSystem.Laws.{
  path_eq_refl, read-without, read-without_self, Clear, ensure_dir-Clear,
}
use project_saas_backend.Upload.LocalStorage.Objects.{
  safe_segment, base_name, old_path, committed, commit_to_permanent, prune_empty_parents, temp_dir,
  stat_size,
}
use project_saas_backend.Upload.LocalStorage.Pruning.{prune_empty_parents-files}

module _ (io_error : Text → Thrown) (dir_size : ℕ) (base : FilePath) (base_url : Option Text) where
  rename_found_file :
      (old : FilePath) (leaf : Text) (dir : FilePath) (b : List ℕ) (fs : FileSystem)
      → path_eq old (leaf ∷ dir) ≡ false
      → any (path_eq dir) fs.dirs ≡ true
      → read old fs.files ≡ some b
      → any (path_eq (leaf ∷ dir)) fs.dirs ≡ false
      → rename io_error old (leaf ∷ dir) fs ≡ (ok tt, put_file (remove_file fs old) (leaf ∷ dir) b)
  unfolding rename
  rename_found_file old leaf dir b fs other there found free =
      rw other (rw there (rw found (rw free refl)))

  stat_size_file :
      (p : FilePath) (b : List ℕ) (fs : FileSystem)
      → read p fs.files ≡ some b
      → stat_size io_error dir_size base base_url p fs ≡ length b
  unfolding stat_size
  stat_size_file p b fs found = rw found refl

  -- The files after a commit.
  moved : FilePath → FilePath → List ℕ → Files → Files
  moved old new b files = (new, b) ∷ without new (without old files)

  commit_files :
      (identifier upload_type : Text) (fs : FileSystem) (old : FilePath) (b : List ℕ)
      (leaf safe t : Text) (d : FilePath)
      → base_name identifier ≡ leaf
      → safe_segment upload_type ≡ safe
      → old_path io_error dir_size base base_url identifier ≡ ok old
      → enter base safe ≡ (t ∷ d)
      → enter (t ∷ d) leaf ≡ (leaf ∷ t ∷ d)
      → Clear fs.files (t ∷ d)
      → read old fs.files ≡ some b
      → any (path_eq (leaf ∷ t ∷ d)) fs.dirs ≡ false
      → path_eq old (leaf ∷ t ∷ d) ≡ false
      → (fs' : FileSystem) × (commit_to_permanent io_error dir_size base base_url identifier
            upload_type fs
          ≡ (ok (committed io_error dir_size base base_url safe leaf (length b)), fs'))
        × (fs'.files ≡ moved old (leaf ∷ t ∷ d) b fs.files)
  unfolding moved commit_to_permanent
  commit_files identifier upload_type fs old b leaf safe t d named safely resolved typed enters
        clear found free other =
      let (ds, made, dirs) = ensure_dir-Clear io_error t d fs clear in
      let there : any (path_eq (t ∷ d)) ds ≡ true = dirs.0 (omega arith) in
      let free' : any (path_eq (leaf ∷ t ∷ d)) ds ≡ false =
        dirs.1 (leaf ∷ t ∷ d) (omega arith) ∙ free in
      let made_fs : FileSystem = record { files = fs.files; dirs = ds } in
      let renamed = rename_found_file old leaf (t ∷ d) b made_fs other there found free' in
      let sized = stat_size_file old b made_fs found in
      let renamed_fs = put_file (remove_file made_fs old) (leaf ∷ t ∷ d) b in
      (
        prune_empty_parents (temp_dir io_error dir_size base base_url) (parent old) renamed_fs,
        rw resolved (
            rw (named, safely)
              (rw typed (rw made (rw found (rw enters (rw renamed (rw sized refl))))))),
        prune_empty_parents-files (temp_dir io_error dir_size base base_url) (parent old)
            renamed_fs,
      )

  -- When the identifier resolves to a regular file, the type names a directory below which nothing
  -- bears the file's own name but perhaps a regular file other than this one, and no regular file is
  -- in the way of that directory, the commit succeeds and answers the size of the file: its bytes can
  -- be read at the new path, no longer at the old one, and at every other path what was there before.
  pub commit-read :
      (identifier upload_type : Text) (fs : FileSystem) (old : FilePath) (b : List ℕ)
      (leaf safe t : Text) (d : FilePath)
      → base_name identifier ≡ leaf
      → safe_segment upload_type ≡ safe
      → old_path io_error dir_size base base_url identifier ≡ ok old
      → enter base safe ≡ (t ∷ d)
      → enter (t ∷ d) leaf ≡ (leaf ∷ t ∷ d)
      → Clear fs.files (t ∷ d)
      → read old fs.files ≡ some b
      → any (path_eq (leaf ∷ t ∷ d)) fs.dirs ≡ false
      → path_eq old (leaf ∷ t ∷ d) ≡ false
      → (fs' : FileSystem) × (commit_to_permanent io_error dir_size base base_url identifier
            upload_type fs
          ≡ (ok (committed io_error dir_size base base_url safe leaf (length b)), fs'))
        × (read (leaf ∷ t ∷ d) fs'.files ≡ some b)
        × (read old fs'.files ≡ none)
        × ((q : FilePath)
            → path_eq q old ≡ false
            → path_eq q (leaf ∷ t ∷ d) ≡ false
            → read q fs'.files ≡ read q fs.files)
  unfolding moved read
  commit-read identifier upload_type fs old b leaf safe t d named safely resolved typed enters clear
        found free other =
      let new = leaf ∷ t ∷ d in
      let (fs', e, files) =
        commit_files identifier upload_type fs old b leaf safe t d named safely resolved typed
          enters clear found free other in
      (
        fs',
        e,
        rw files (rw (path_eq_refl new) refl),
        rw files (
            rw other
              (read-without new old (without old fs.files) other ∙ read-without_self old fs.files)),
        λ q o n.
            rw files
              (rw n (read-without new q (without old fs.files) n ∙ read-without old q fs.files o)),
      )
