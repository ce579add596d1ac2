-- ===== src/Upload/Cloud/ImageKit/Laws.antt =====
-- What a commit of the provider of ImageKit keeps.
use project_saas_backend.Common.{ℕ, Text, Option, some, List, ◌∷◌, ◌≡◌, ◌≢◌, refl}
use project_saas_backend.Common.Result.{Result, ok, err}
use project_saas_backend.Errors.{Thrown}
use project_saas_backend.Upload.Config.Types.{ImageKitProviderConfig}
use project_saas_backend.Upload.LocalStorage.{StoredFile}
use project_saas_backend.Upload.LocalStorage.Objects.{safe_segment}
use project_saas_backend.Upload.Cloud.Keys.{extract_filename}
use project_saas_backend.Upload.Cloud.ImageKit.{
  MediaFile, MediaUpload, ListQuery, MediaLibrary, permanent_folder, temp_lookup_folder,
  drop_original, lookup, commit_to_permanent,
}

-- What the provider relies on. `content` is the id and the bytes of the file of a folder and a name. An
-- upload that succeeds puts its bytes there under the id it answers, which is that of no file that a
-- listing found in another folder; a failed one changes nothing; a deletion takes no other file.
pub record Reliable (V : MediaLibrary) : Type 0 where
  pub content : Text → Text → V.Library → Option (Text × List ℕ)
  pub uploaded :
      (u : MediaUpload) (f : MediaFile) (s s' : V.Library)
      → V.upload u s ≡ (ok f, s')
      → content u.folder u.file_name s' ≡ some (f.file_id, u.file)
  pub not_uploaded :
      (u : MediaUpload) (e : Thrown) (folder name : Text) (s s' : V.Library)
      → V.upload u s ≡ (err e, s')
      → content folder name s' ≡ content folder name s
  pub fresh :
      (q : ListQuery) (u : MediaUpload) (f g : MediaFile) (gs : List MediaFile) (s s' : V.Library)
      → V.list_files q s ≡ ok (g ∷ gs)
      → V.upload u s ≡ (ok f, s')
      → u.folder ≢ q.path
      → f.file_id ≢ g.file_id
  pub kept :
      (id other folder name : Text) (bytes : List ℕ) (s : V.Library)
      → content folder name s ≡ some (other, bytes)
      → other ≢ id
      → content folder name (V.delete_file id s).1 ≡ some (other, bytes)

module _ (cfg : ImageKitProviderConfig) (V : MediaLibrary) (reliable : Reliable V) where
  -- The bytes are in the folder of the type; or an error is thrown, and the folder of temp has what it
  -- had.
  abbrev pub Kept :
      Text → Text → Text → List ℕ → V.Library → Result Thrown StoredFile × V.Library → Type 0
  Kept from to name bytes before (ok r, s) =
      (id : Text) × (reliable.content to name s ≡ some (id, bytes))
  Kept from to name bytes before (err e, s) =
      reliable.content from name s ≡ reliable.content from name before

  dropped :
      (from : Text) (u : MediaUpload) (q : ListQuery) (g : MediaFile) (gs : List MediaFile)
      (s : V.Library) (o : Result Thrown MediaFile × V.Library)
      → V.list_files q s ≡ ok (g ∷ gs)
      → u.folder ≢ q.path
      → V.upload u s ≡ o
      → Kept from u.folder u.file_name u.file s (drop_original cfg V g.file_id o)
  unfolding drop_original
  dropped from u q g gs s (ok f, s') listed other e = (
    f.file_id,
    reliable.kept g.file_id f.file_id u.folder u.file_name u.file s' (reliable.uploaded u f s s' e)
        (reliable.fresh q u f g gs s s' listed e other),
  )
  dropped from u q g gs s (err x, s') listed other e =
      reliable.not_uploaded u x from u.file_name s s' e

  -- A commit of a temp file that is found, and whose bytes can be fetched, to another folder either has
  -- exactly these bytes in the folder of the type, also when the deletion of the original fails, or
  -- throws and leaves what the temp folder has under that name: on no branch are the bytes lost.
  pub commit-Kept :
      (identifier upload_type : Text) (g : MediaFile) (gs : List MediaFile) (bytes : List ℕ)
      (s : V.Library)
      → let from = temp_lookup_folder cfg identifier (safe_segment upload_type) in
        let to = permanent_folder cfg (safe_segment upload_type) in
        to ≢ from
        → lookup cfg V from (extract_filename identifier) s ≡ ok (g ∷ gs)
        → V.fetch_buffer g.url s ≡ ok bytes
        → Kept from to
            (extract_filename identifier)
            bytes
            s
            (commit_to_permanent cfg V identifier upload_type s)
  unfolding commit_to_permanent
  commit-Kept identifier upload_type g gs bytes s other listed fetched =
      rw listed (rw fetched (dropped _ _ _ g gs s _ listed other refl))
