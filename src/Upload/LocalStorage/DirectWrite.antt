-- ===== src/Upload/LocalStorage/DirectWrite.antt =====
-- writeDirectUpload of src/modules/upload/infrastructure/providers/local-storage.provider.ts.
use project_saas_backend.Common.{Text, codes, Option, List, ◌∷◌, ℕ, if◌then◌else◌, length}
use project_saas_backend.Common.Result.{Result, ok, err, Exec, pure, ◌>>◌}
use project_saas_backend.Errors.{Thrown}
use project_saas_backend.Upload.Config.{strip_leading}
use project_saas_backend.Upload.LocalStorage.{
  FilePath, parent, basename, StoredFile, public_url, resolve_managed_path, assert_writable_key,
}
use project_saas_backend.Upload.FileSystem.{
  FileSystem, is_file, make_dirs, with_dirs, write_file, read, path_eq,
}

module _ (io_error : Text → Thrown) where
  -- `fs.mkdirSync(dir, { recursive: true })`, which fails also where `dir` is a file.
  unfoldable pub make_directory : FilePath → Exec Thrown FileSystem (Unit {0})
  unfolding make_dirs read path_eq codes
  make_directory dir fs =
      if is_file fs dir
      then (err (io_error (codes "EEXIST")), fs)
      else with_dirs io_error fs (make_dirs io_error fs.files dir fs.dirs)

  module _ (base : FilePath) (base_url : Option Text) where
    unfoldable pub stored_as : Text → List ℕ → Option Text → FilePath → StoredFile
    unfolding public_url strip_leading
    stored_as key buffer mime p = record {
      url = public_url base_url (47 ∷ strip_leading key);
      filename = basename p;
      size = length buffer;
      key = key;
      mime_type = mime;
    }

    abbrev pub write_to :
        Text → List ℕ → Option Text → Result Thrown FilePath → Exec Thrown FileSystem StoredFile
    unfolding stored_as make_directory write_file
    write_to key buffer mime (err e) fs = (err e, fs)
    write_to key buffer mime (ok p) fs =
        (do
          make_directory (parent p)
          write_file io_error p buffer
          pure (stored_as key buffer mime p))
          fs

    abbrev pub if_writable :
        Result Thrown (Unit {0})
        → Exec Thrown FileSystem StoredFile
        → Exec Thrown FileSystem StoredFile
    if_writable (err e) write fs = (err e, fs)
    if_writable (ok _) write fs = write fs

    unfoldable pub write_direct_upload :
        Text → List ℕ → Option Text → Exec Thrown FileSystem StoredFile
    unfolding assert_writable_key resolve_managed_path stored_as make_directory write_file
    write_direct_upload key buffer mime =
        if_writable (assert_writable_key key)
          (write_to key buffer mime (resolve_managed_path base key))
