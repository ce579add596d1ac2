-- ===== src/Upload/Cloud/ImageKit/Upkeep.antt =====
-- cleanupTemp and completePresignedUpload of src/modules/upload/infrastructure/providers/
-- imagekit-storage.provider.ts.
use project_saas_backend.Common.{
  ℕ, ◌+◌, ◌-◌, ◌*◌, codes, Option, none, some, List, [], ◌∷◌, ◌++◌, Bool, true, false, ltb,
  if◌then◌else◌, length, get_or,
}
use project_saas_backend.Common.Decimal.{decimal}
use project_saas_backend.Common.Result.{Result, ok, err}
use project_saas_backend.Errors.{Thrown, thrown_api, from_definition}
use project_saas_backend.Errors.Registry
use project_saas_backend.Upload.Config.{strip_leading, strip_trailing}
use project_saas_backend.Upload.Config.Types.{ImageKitProviderConfig}
use project_saas_backend.Upload.PresignedUrl.{PresignedCompleteInput, PresignedCompleteResult}
use project_saas_backend.Upload.Cloud.Keys.{far_from, or_zero}
use project_saas_backend.Upload.Cloud.ImageKit.{
  MediaFile, MediaHead, MediaLibrary, temp_folder, head,
}

module _ (cfg : ImageKitProviderConfig) (V : MediaLibrary) where
  open V use {Library, list_files, delete_file}

  -- How old a file without a time of creation is taken to be: as old as can be.
  abbrev pub created : MediaFile → ℕ
  created f = get_or f.created_at 0

  -- The next file of the page, unless the deletion threw: then what was deleted before is answered.
  abbrev pub after_delete :
      ℕ
      → Result Thrown (Unit {0}) × Library
      → (ℕ → Library → Result ℕ ℕ × Library)
      → Result ℕ ℕ × Library
  after_delete deleted (ok _, s) rest = rest (deleted + 1) s
  after_delete deleted (err e, s) rest = (err deleted, s)

  abbrev pub delete_old : ℕ → List MediaFile → ℕ → Library → Result ℕ ℕ × Library
  delete_old cutoff [] deleted s = (ok deleted, s)
  delete_old cutoff (f ∷ fs) deleted s = elim (ltb (created f) cutoff) [
    | true ↦ after_delete deleted (delete_file f.file_id s) (λ d s'. delete_old cutoff fs d s')
    | false ↦ delete_old cutoff fs deleted s
  ]

  abbrev pub page_size : ℕ
  page_size = 100

  abbrev pub after_page :
      Bool → Result ℕ ℕ × Library → (ℕ → Library → Option ℕ × Library) → Option ℕ × Library
  after_page last (err deleted, s) rest = (some deleted, s)
  after_page true (ok deleted, s) rest = (some deleted, s)
  after_page false (ok deleted, s) rest = rest deleted s

  abbrev pub on_page :
      ℕ
      → ℕ
      → Result Thrown (List MediaFile)
      → Library
      → (ℕ → Library → Option ℕ × Library)
      → Option ℕ × Library
  on_page cutoff deleted (err e) s rest = (some deleted, s)
  on_page cutoff deleted (ok []) s rest = (some deleted, s)
  on_page cutoff deleted (ok (f ∷ fs)) s rest =
      after_page (ltb (length (f ∷ fs)) page_size) (delete_old cutoff (f ∷ fs) deleted s) rest

  -- `while (true)`; `none`: the fuel, a bound on the pages, ran out.
  unfoldable pub cleanup_pages : ℕ → ℕ → ℕ → ℕ → Library → Option ℕ × Library
  unfolding temp_folder
  cleanup_pages ℕ.zero cutoff skip deleted s = (none, s)
  cleanup_pages (ℕ.suc fuel) cutoff skip deleted s =
      on_page cutoff deleted
        (list_files
          (record { path = temp_folder cfg none; name = none; limit = page_size; skip = skip }) s)
        s (λ d s'. cleanup_pages fuel cutoff (skip + page_size) d s')

  unfoldable pub cleanup_temp : ℕ → ℕ → ℕ → Library → Option ℕ × Library
  unfolding cleanup_pages
  cleanup_temp fuel now older_than_hours s =
      cleanup_pages fuel (now - older_than_hours * 3600 * 1000) 0 0 s

  abbrev pub completed :
      PresignedCompleteInput → Option MediaHead → Result Thrown PresignedCompleteResult
  unfolding codes decimal strip_leading strip_trailing
  completed input none = err (
      thrown_api (
        from_definition Registry.file_not_found
          (some (codes "ImageKit file not found at " ++ input.file_key ++ codes ".")) none))
  completed input (some h) =
      if far_from 4096 input.expected_size h.size
      then err (
          thrown_api (
            from_definition Registry.bad_request
              (some (
                codes "Size mismatch: expected "
                ++ decimal (or_zero input.expected_size)
                ++ codes ", got "
                ++ decimal h.size
                ++ codes "."))
              none))
      else ok (record {
        size = h.size;
        content_type = h.mime_type;
        url = strip_trailing cfg.url_endpoint ++ 47 ∷ strip_leading input.file_key;
        file_key = input.file_key;
      })

  unfoldable pub complete_presigned_upload :
      PresignedCompleteInput → Library → Result Thrown PresignedCompleteResult
  unfolding head codes decimal strip_leading strip_trailing
  complete_presigned_upload input s = completed input (head cfg V input.file_key s)
